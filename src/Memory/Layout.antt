-- ===== src/Memory/Layout.antt =====
-- What values the pieces of memory stand for. A relation `Rel C R V` says that a Go value of type
-- `R`, whose pointers are addresses, stands for a `V` in a memory.
use service_provider_kro.Base.{◌≡◌, ◌∙◌, ◌<◌, Option, none, some, List, [], ◌∷◌, arith}
use service_provider_kro.Memory.{Addr, Heap, Box}
use service_provider_kro.Memory.Change.{Keeps}

abbrev pub Rel : Type 0 → Type 0 → Type 0 → Type 1
Rel C R V = R → V → Heap C → Type 0

-- What stands for a value goes on to, as long as the memory of then is kept.
abbrev pub Stable : {C R V : Type 0} → Rel C R V → Type 0
Stable {C} {R} {V} holds = (r : R) (v : V) (h g : Heap C) → Keeps h g → holds r v h → holds r v g

module _ {C R V : Type 0} (box : Box C R) (holds : Rel C R V) where
  -- `p` leads to a value that stands for `v`.
  pub record Points (p : Addr) (v : V) (h : Heap C) : Type 0 where
    pub target : R
    pub taken : p < h.next
    pub at : h.cell p ≡ some (box.put target)
    pub fits : holds target v h

  -- A pointer that may be nil
  pub data Pointer : Option Addr → Option V → Heap C → Type 0 where
    nil : {h : Heap C} → Pointer none none h
    points : {p : Addr} {v : V} {h : Heap C} → Points p v h → Pointer (some p) (some v) h

-- The elements of an array, in order
pub data Items {C R V : Type 0} (holds : Rel C R V) : List R → List V → Heap C → Type 0 where
  nil : {h : Heap C} → Items holds [] [] h
  cons :
      {r : R} {v : V} {rs : List R} {vs : List V} {h : Heap C}
      → holds r v h
      → Items holds rs vs h
      → Items holds (r ∷ rs) (v ∷ vs) h

module _ {C R V : Type 0} {holds : Rel C R V} (stable : Stable holds) where
  pub Points-stable :
      (box : Box C R) (p : Addr) (v : V) (h g : Heap C)
      → Keeps h g
      → Points box holds p v h
      → Points box holds p v g
  Points-stable box p v h g k at = record {
    target = at.target;
    taken = omega (arith, at.taken, k.grows);
    at = k.same p at.taken ∙ at.at;
    fits = stable at.target v h g k at.fits;
  }

  pub Pointer-Stable : (box : Box C R) → Stable (Pointer box holds)
  Pointer-Stable box _ _ h g k nil = nil
  Pointer-Stable box _ _ h g k (points {p} {v} at) = points (Points-stable box p v h g k at)

  pub Items-Stable : Stable (Items holds)
  Items-Stable _ _ h g k nil = nil
  Items-Stable _ _ h g k (cons {r} {v} {rs} {vs} x xs) =
      cons (stable r v h g k x) (Items-Stable rs vs h g k xs)

-- What the values of a Go type stand for
pub record Meaning (C R : Type 0) : Type 1 where
  pub Value : Type 0
  pub holds : Rel C R Value
  pub stable : Stable holds

module _ {C : Type 0} where
  -- A type without pointers stands for itself.
  abbrev pub plain : (R : Type 0) → Meaning C R
  plain R = record { Value = R; holds = λ r v h. r ≡ v; stable = λ r v h g k e. e }

  abbrev pub pointer : {R : Type 0} → Box C R → Meaning C R → Meaning C (Option Addr)
  pointer box m = record {
    Value = Option m.Value;
    holds = Pointer box m.holds;
    stable = Pointer-Stable m.stable box;
  }

  abbrev pub items : {R : Type 0} → Meaning C R → Meaning C (List R)
  items m = record { Value = List m.Value; holds = Items m.holds; stable = Items-Stable m.stable }

  -- A slice, with a box for arrays
  abbrev pub slice : {R : Type 0} → Box C (List R) → Meaning C R → Meaning C (Option Addr)
  slice box m = pointer box (items m)
