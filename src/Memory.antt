-- ===== src/Memory.antt =====
-- The memory of the program, for code whose meaning depends on which pointers are shared.
-- `C` is the type of what a piece of memory holds, one constructor for each Go type that a pointer
-- or a slice leads to. Go is memory safe: a read through a nil or mistyped pointer is a fault here,
-- and theorems show that there is none.
pub mod Change
pub mod Returns
pub mod Layout
pub mod Copying
use Prim.Native.Nat.{compare, Ordering}
use service_provider_kro.Base.{
  ℕ, suc, ◌≡◌, Bool, true, false, Option, none, some, List, [], ◌∷◌, if◌then◌else◌,
}

abbrev pub Addr : Type 0
Addr = ℕ

abbrev pub is_same : Addr → Addr → Bool
is_same a b = elim (compare a b) [ Ordering.eq ↦ true | _ ↦ false ]

-- The addresses below `next` are taken. A cell with none holds the zero value of its type.
pub record Heap (C : Type 0) : Type 0 where
  pub next : Addr
  pub cell : Addr → Option C

-- How values of a type stand in a cell.
pub record Box (C R : Type 0) : Type 0 where
  pub put : R → C
  pub get : C → Option R
  pub get-put : (x : R) → get (put x) ≡ some x

abbrev pub Mem : Type 0 → Type 0 → Type 0
Mem C A = Heap C → Option (A × Heap C)

-- `DeepCopyInto` of a type: what it leaves in `*out`, from `*in`
abbrev pub Copier : Type 0 → Type 0 → Type 0
Copier C R = R → Mem C R

module _ {C : Type 0} where
  abbrev pub and_then : {A B : Type 0} → Option (A × Heap C) → (A → Mem C B) → Option (B × Heap C)
  and_then none k = none
  and_then (some (a, h)) k = k a h

  infixl 5 ◌>>=◌ ◌>>◌
  abbrev pub ◌>>=◌ : {A B : Type 0} → Mem C A → (A → Mem C B) → Mem C B
  m >>= k = λ h. and_then (m h) k

  abbrev pub ◌>>◌ : {A B : Type 0} → Mem C A → Mem C B → Mem C B
  m >> n = m >>= λ _. n

  abbrev pub pure : {A : Type 0} → A → Mem C A
  pure a h = some (a, h)

  abbrev pub write : (Addr → Option C) → Addr → Option C → Addr → Option C
  write f p c a = if is_same a p then c else f a

  -- `new(T)`, and `make([]T, n)`: memory that nothing else leads to, zeroed
  unfoldable pub fresh : Mem C Addr
  fresh h = some (h.next, record { next = suc h.next; cell = write h.cell h.next none })

  unfoldable pub store : {R : Type 0} → Box C R → Addr → R → Mem C (Unit {0})
  store box p x h = some (tt, record h { cell = write h.cell p (some (box.put x)) })

  unfoldable pub load : {R : Type 0} → Box C R → Addr → Mem C R
  load box p h = elim (h.cell p) [
    | none ↦ none
    | some c ↦ elim (box.get c) [ none ↦ none | some x ↦ some (x, h) ]
  ]

  module _ {R : Type 0} (box : Box C R) (copy : Copier C R) where
    -- `out := new(T); in.DeepCopyInto(out)`, of a pointer that may be nil
    -- or, with a box for arrays, `make([]T, len(*in))` and its loop, of a slice that may be nil.
    unfoldable pub copy_pointer : Option Addr → Mem C (Option Addr)
    unfolding fresh store load
    copy_pointer none = pure none
    copy_pointer (some p) = do
      out ← fresh
      x ← load box p
      y ← copy x
      store box out y
      pure (some out)

  -- `for i := range *in { (*in)[i].DeepCopyInto(&(*out)[i]) }`
  unfoldable pub copy_items : {R : Type 0} → Copier C R → List R → Mem C (List R)
  copy_items copy [] = pure []
  copy_items copy (x ∷ xs) = do y ← copy x; ys ← copy_items copy xs; pure (y ∷ ys)

  -- `**out = **in`: the value alone
  abbrev pub copy_plain : {R : Type 0} → Copier C R
  copy_plain = pure
