-- ===== src/Base/Lists.antt =====
-- Lists measured by native numbers, Go's `strings.Join`, and maps from text as association lists.
use Prim.Native.Nat.{ℕ, suc}
use Prim.Native.String.{String, ◌++◌ as ◌<>◌}
use mathlib.Core.Bool.{Bool, false, ◌||◌}
use mathlib.Core.Path.{◌≡◌}
use mathlib.Core.Option.{Option, none, some}
use mathlib.Core.List.{List, [], ◌∷◌}
use native.Mathlib.Omega.{arith}
use text.Mathlib.Text.{◌==◌}
use text.Mathlib.TextEquality.{eq_iff}
use service_provider_kro.Base.Tests.{if◌then◌else◌}

module _ {ℓ} {A : Type ℓ} where
  abbrev pub length : List A → ℕ
  length [] = 0
  length (x ∷ xs) = suc (length xs)

-- `strings.Join`
unfoldable pub join_with : String → List String → String
join_with sep [] = ""
join_with sep (x ∷ []) = x
join_with sep (x ∷ y ∷ xs) = x <> (sep <> join_with sep (y ∷ xs))

abbrev pub contains : List String → String → Bool
contains [] k = false
contains (x ∷ xs) k = x == k || contains xs k

-- A `map[string]string` or `map[string][]byte`.
abbrev pub StringMap : Type 0
StringMap = List (String × String)

-- `v, ok := m[k]`
unfoldable pub lookup : String → StringMap → Option String
lookup k [] = none
lookup k ((j, v) ∷ m) = if j == k then some v else lookup k m

-- `m[k]`, where a missing key reads as the empty text
unfoldable pub lookup_or_empty : String → StringMap → String
unfolding lookup
lookup_or_empty k m = elim (lookup k m) [ none ↦ "" | some v ↦ v ]

-- `delete(m, k)`
unfoldable pub erase : String → StringMap → StringMap
erase k [] = []
erase k ((j, v) ∷ m) = let rest = erase k m in if j == k then rest else (j, v) ∷ rest

pub lookup-erase :
    (k j : String) (m : StringMap) → lookup j (erase k m) ≡ (if k == j then none else lookup j m)
unfolding lookup erase
lookup-erase k j [] = ground arith
lookup-erase k j ((i, v) ∷ m) =
    ground (arith, lookup-erase k j m, eq_iff i k, eq_iff i j, eq_iff k j)
