-- ===== src/Memory/Change.antt =====
-- How one memory may differ from an earlier one.
use service_provider_kro.Base.{◌≡◌, ◌∙◌, ◌≤◌, ◌<◌, refl, arith}
use service_provider_kro.Memory.{Addr, Heap}

module _ {C : Type 0} where
  -- All that was there in `h` is unchanged in `g`.
  pub record Keeps (h g : Heap C) : Type 0 where
    pub grows : h.next ≤ g.next
    pub same : (a : Addr) → a < h.next → g.cell a ≡ h.cell a

  -- What lies between the address `n` and the end of `h` is unchanged in `g`.
  pub record KeepsFrom (n : Addr) (h g : Heap C) : Type 0 where
    pub grows : h.next ≤ g.next
    pub same : (a : Addr) → n ≤ a → a < h.next → g.cell a ≡ h.cell a

  pub Keeps-refl : (h : Heap C) → Keeps h h
  Keeps-refl h = record { grows = omega arith; same = λ a l. refl }

  pub Keeps-trans : {h g k : Heap C} → Keeps h g → Keeps g k → Keeps h k
  Keeps-trans {h} {g} {k} p q = record {
    grows = omega (arith, p.grows, q.grows);
    same = λ a l. q.same a (omega (arith, p.grows)) ∙ p.same a l;
  }

  -- A first part of a new piece, written before `h` grew to `g`.
  pub KeepsFrom-first : {n : Addr} {h g k : Heap C} → Keeps h g → KeepsFrom n g k → KeepsFrom n h k
  KeepsFrom-first p q = record {
    grows = omega (arith, p.grows, q.grows);
    same = λ a l u. q.same a l (omega (arith, p.grows)) ∙ p.same a u;
  }

  -- A later part.
  pub KeepsFrom-later : {n m : Addr} {h g : Heap C} → n ≤ m → KeepsFrom n h g → KeepsFrom m h g
  KeepsFrom-later i q = record { grows = q.grows; same = λ a l u. q.same a (omega arith) u }
