-- ===== src/Memory/Returns.antt =====
-- Total correctness of code on memory: no fault, and a postcondition.
use service_provider_kro.Base.{Option, some}
use service_provider_kro.Memory.{Heap, Mem, and_then}

pub data Returns {C A : Type 0} (P : A → Heap C → Type 0) : Option (A × Heap C) → Type 0 where
  returns : {a : A} {h : Heap C} → P a h → Returns P (some (a, h))

module _ {C A : Type 0} where
  pub Returns-bind :
      {B : Type 0} {P : A → Heap C → Type 0} {Q : B → Heap C → Type 0} {r : Option (A × Heap C)}
      {k : A → Mem C B}
      → Returns P r
      → ((a : A) (h : Heap C) → P a h → Returns Q (k a h))
      → Returns Q (and_then r k)
  Returns-bind (returns p) next = next _ _ p

  pub Returns-mono :
      {P Q : A → Heap C → Type 0} {r : Option (A × Heap C)}
      → Returns P r
      → ((a : A) (h : Heap C) → P a h → Q a h)
      → Returns Q r
  Returns-mono (returns p) weaken = returns (weaken _ _ p)
