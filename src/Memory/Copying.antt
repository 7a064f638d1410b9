-- ===== src/Memory/Copying.antt =====
-- Copies that share nothing with what they are made from.
use service_provider_kro.Base.{suc, ◌≡◌, ◌∙◌, Option, none, some, List, [], ◌∷◌, arith}
use service_provider_kro.Memory.{
  Addr, Heap, Box, Mem, Copier, and_then, pure, store, load, copy_pointer, copy_items, write,
}
use service_provider_kro.Memory.Change.{
  Keeps, KeepsFrom, Keeps-refl, Keeps-trans, KeepsFrom-first, KeepsFrom-later,
}
use service_provider_kro.Memory.Returns.{Returns, returns, Returns-bind, Returns-mono}
use service_provider_kro.Memory.Layout.{Rel, Stable, Pointer, nil, points, Items, cons}

-- A piece made by code that started in `h`, and is at `g` now: all that was there is kept, and
-- the piece has `good` in each later memory that keeps what has been added since `h`.
pub record Apart {C A : Type 0} (h : Heap C) (good : A → Heap C → Type 0) (a : A) (g : Heap C)
    : Type 0 where
  pub keeps : Keeps h g
  pub lasts : (k : Heap C) → KeepsFrom h.next g k → good a k

-- `copy` returns a copy for the same value, which shares no memory with the original.
abbrev pub Copies : {C R V : Type 0} → Rel C R V → Copier C R → Type 0
Copies {C} {R} {V} holds copy =
    (r : R) (v : V) (h : Heap C) → holds r v h → Returns (Apart h λ r'. holds r' v) (copy r h)

module _ {C A : Type 0} where
  pub Apart-done :
      {good : A → Heap C → Type 0} (a : A) (h : Heap C)
      → ((k : Heap C) → good a k)
      → Returns (Apart h good) (pure a h)
  Apart-done a h all = returns (record { keeps = Keeps-refl h; lasts = λ k _. all k })

  -- The parts of a piece are made one behind another.
  pub Apart-bind :
      {B : Type 0} {good : A → Heap C → Type 0} {whole : B → Heap C → Type 0} {h : Heap C}
      {r : Option (A × Heap C)} {k : A → Mem C B}
      → Returns (Apart h good) r
      → ((a : A) (g : Heap C)
          → Keeps h g
          → Returns (Apart g λ b g'. good a g' → whole b g') (k a g))
      → Returns (Apart h whole) (and_then r k)
  Apart-bind first later = Returns-bind first λ a g p. Returns-mono (later a g p.keeps) λ b g' q.
      (record {
        keeps = Keeps-trans p.keeps q.keeps;
        lasts = λ k s.
            q.lasts k (KeepsFrom-later p.keeps.grows s) (p.lasts k (KeepsFrom-first q.keeps s));
      })

module _ {C R V : Type 0} {holds : Rel C R V} {copy : Copier C R} (stable : Stable holds)
    (copies : Copies holds copy) where
  copy_items_later :
      {rs : List R} {vs : List V} {h : Heap C}
      → Items holds rs vs h
      → (g : Heap C) → Keeps h g
      → Returns (Apart g λ ys. Items holds ys vs) (copy_items copy rs g)
  unfolding copy_items
  copy_items_later nil g k = Apart-done [] g λ k. nil
  copy_items_later {h} (cons {r} {v} x xs) g k =
      Apart-bind (copies r v g (stable r v h g k x)) λ y g' p.
        Apart-bind (copy_items_later xs g' (Keeps-trans k p))
          λ ys g'' p'. Apart-done (y ∷ ys) g'' λ k a b. cons b a

  pub copy_items-Copies : Copies (Items holds) (copy_items copy)
  copy_items-Copies _ _ h xs = copy_items_later xs h (Keeps-refl h)

module _ {C : Type 0} where
  abbrev grown : Heap C → Heap C
  grown h = record { next = suc h.next; cell = write h.cell h.next none }

  Keeps-grown : (h : Heap C) → Keeps h (grown h)
  Keeps-grown h = record { grows = omega arith; same = λ a l. ground arith }

  load_lem :
      {R : Type 0} (box : Box C R) (p : Addr) (x : R) (h : Heap C)
      → h.cell p ≡ some (box.put x)
      → load box p h ≡ some (x, h)
  unfolding load
  load_lem box p x h e = rw (e, box.get-put x, load)

module _ {C R V : Type 0} {box : Box C R} {holds : Rel C R V} where
  -- The new piece `y`, made behind the address that was set apart for it, and written there.
  Apart-store :
      (v : V) (y : R) (h g : Heap C)
      → Apart (grown h) (λ r. holds r v) y g
      → Apart h
          (λ r. Pointer box holds r (some v))
          (some h.next)
          (record g { cell = write g.cell h.next (some (box.put y)) })
  Apart-store v y h g made = record {
    keeps = record {
      grows = omega (arith, made.keeps.grows);
      same = λ a l. ground (arith, made.keeps.same a);
    };
    lasts = λ k s. points (record {
      target = y;
      taken = omega (arith, made.keeps.grows, s.grows);
      at = ground (arith, s.same h.next, made.keeps.grows);
      fits = made.lasts k (record { grows = s.grows; same = λ a l u. ground (arith, s.same a) });
    });
  }

  module _ {copy : Copier C R} (stable : Stable holds) (copies : Copies holds copy) where
    pub copy_pointer-Copies : Copies (Pointer box holds) (copy_pointer box copy)
    unfolding copy_pointer store
    copy_pointer-Copies _ _ h nil = Apart-done none h λ k. nil
    copy_pointer-Copies _ _ h (points {p} {v} at) =
        let k : Keeps h (grown h) = Keeps-grown h in
        rw (load_lem box p at.target (grown h) (k.same p at.taken ∙ at.at)) (
          Returns-bind (copies at.target v (grown h) (stable at.target v h (grown h) k at.fits))
            λ y g made. returns (Apart-store v y h g made))

-- `q` is a copy of `p`, for the same value `v`: whatever is done later to memory that was there
-- before, the copy goes on to stand for `v`, and whatever is done to memory that was added, so does
-- the original. Making it changed nothing that was there.
pub record Independent {C R Q V : Type 0} (original : Rel C R V) (copied : Rel C Q V) (p : R)
    (v : V) (h : Heap C) (q : Q) (g : Heap C) : Type 0 where
  pub keeps : Keeps h g
  pub copy_lasts : (k : Heap C) → KeepsFrom h.next g k → copied q v k
  pub original_lasts : (k : Heap C) → Keeps h k → original p v k

module _ {C R Q V : Type 0} {original : Rel C R V} {copied : Rel C Q V}
    (stable : Stable original) where
  pub Apart-Independent :
      (p : R) (v : V) (h : Heap C) {r : Option (Q × Heap C)}
      → original p v h
      → Returns (Apart h λ q. copied q v) r
      → Returns (Independent original copied p v h) r
  Apart-Independent p v h fits made = Returns-mono made λ q g a. (record {
    keeps = a.keeps;
    copy_lasts = a.lasts;
    original_lasts = λ k s. stable p v h k s fits;
  })
