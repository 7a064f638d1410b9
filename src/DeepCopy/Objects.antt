-- ===== src/DeepCopy/Objects.antt =====
-- The copies that the controllers make through the interface `runtime.Object`: DeepCopyObject, and
-- DeepCopy and DeepCopyInto below it.
use service_provider_kro.Base.{Option, none, some}
use service_provider_kro.Memory.{Addr, Heap, Box, Copier, and_then, pure, copy_pointer}
use service_provider_kro.Memory.Returns.{Returns}
use service_provider_kro.Memory.Layout.{Rel, Meaning, Points, Pointer, nil, points, pointer}
use service_provider_kro.Memory.Copying.{
  Copies, Independent, Apart-bind, Apart-done, Apart-Independent, copy_pointer-Copies,
}
use service_provider_kro.DeepCopy.Structs.{Structs}
use service_provider_kro.DeepCopy.Cells.{
  Cell, Copiers, RuntimeObject, kro_object, kro_list_object, provider_config_object,
  provider_config_list_object, kro_box, kro_list_box, provider_config_box, provider_config_list_box,
}
use service_provider_kro.DeepCopy.Meanings
use service_provider_kro.DeepCopy.ConfigMeanings
use service_provider_kro.DeepCopy.Meanings.{Meanings}
use service_provider_kro.DeepCopy.Laws.{
  Documented, Kro-Copies, KroList-Copies, ProviderConfig-Copies, ProviderConfigList-Copies,
}
use service_provider_kro.DeepCopy.Kro
use service_provider_kro.DeepCopy.KroList
use service_provider_kro.DeepCopy.ProviderConfig
use service_provider_kro.DeepCopy.ProviderConfigList

-- A nil interface stands for no value, and one that is not nil has a pointer that is not nil.
pub data Interface {C R V : Type 0} (make : Option Addr → RuntimeObject) (box : Box C R)
    (holds : Rel C R V) : Option RuntimeObject → Option V → Heap C → Type 0 where
  no_object : {h : Heap C} → Interface make box holds none none h
  object :
      {p : Addr} {v : V} {h : Heap C}
      → Points box holds p v h
      → Interface make box holds (some (make (some p))) (some v) h

abbrev as_object : (Option Addr → RuntimeObject) → Option Addr → Option RuntimeObject
as_object make copy = elim copy [ none ↦ none | some p ↦ some (make (some p)) ]

module _ {C R : Type 0} (box : Box C R) (make : Option Addr → RuntimeObject) (m : Meaning C R) where
  Pointer-Interface :
      {q : Option Addr} {v : Option m.Value} {h : Heap C}
      → Pointer box m.holds q v h
      → Interface make box m.holds (as_object make q) v h
  Pointer-Interface nil = no_object
  Pointer-Interface (points at) = object at

  -- What a DeepCopyObject is to leave, of a pointer `p` for `v`
  abbrev pub CopiedObject :
      Option Addr → Option m.Value → Heap C → Option RuntimeObject → Heap C → Type 0
  CopiedObject = Independent (Pointer box m.holds) (Interface make box m.holds)

  object-Independent :
      {copy : Copier C R} (copies : Copies m.holds copy) (p : Option Addr) (v : Option m.Value)
      (h : Heap C)
      → Pointer box m.holds p v h
      → Returns
          (CopiedObject p v h)
          (and_then (copy_pointer box copy p h) λ q. pure (as_object make q))
  object-Independent copies p v h fits = Apart-Independent (pointer box m).stable p v h fits (
      Apart-bind (copy_pointer-Copies m.stable copies p v h fits)
        λ q g _. Apart-done (as_object make q) g λ k at. Pointer-Interface at)

module _ {s : Structs} (c : Copiers s) (m : Meanings s) (d : Documented c m) where
  -- Where the deep copies of the library types are deep copies, `DeepCopyObject` of a pointer that
  -- is nil, or leads to a whole `Kro` in memory, returns, with a nil interface for a nil pointer,
  -- and else with a pointer that is not nil, to a copy of the same value. It changes nothing that
  -- was in memory before. The copy keeps its value whatever is later done to that memory, and the
  -- original whatever is done to other memory.
  pub kro-CopiedObject :
      (p : Option Addr) (v : Option (Meanings.kro m).Value) (h : Heap (Cell s))
      → Pointer kro_box (Meanings.kro m).holds p v h
      → Returns
          (CopiedObject kro_box kro_object (Meanings.kro m) p v h)
          (Kro.deep_copy_object c p h)
  unfolding Kro.deep_copy_object
  kro-CopiedObject = object-Independent kro_box kro_object (Meanings.kro m) (Kro-Copies d)

  -- Where the deep copies of the library types are deep copies, `DeepCopyObject` of a pointer that
  -- is nil, or leads to a whole `ProviderConfig` in memory, returns, with a nil interface for a nil
  -- pointer, and else with a pointer that is not nil, to a copy of the same value. It changes
  -- nothing that was in memory before. The copy keeps its value whatever is later done to that
  -- memory, and the original whatever is done to other memory.
  pub provider_config-CopiedObject :
      (p : Option Addr) (v : Option (ConfigMeanings.provider_config m).Value) (h : Heap (Cell s))
      → Pointer provider_config_box (ConfigMeanings.provider_config m).holds p v h
      → Returns
          (CopiedObject provider_config_box provider_config_object
            (ConfigMeanings.provider_config m)
            p
            v
            h)
          (ProviderConfig.deep_copy_object c p h)
  unfolding ProviderConfig.deep_copy_object
  provider_config-CopiedObject =
      object-Independent provider_config_box provider_config_object
        (ConfigMeanings.provider_config m) (ProviderConfig-Copies d)

  -- The same for lists of both types: where the deep copies of the library types are deep copies,
  -- `DeepCopyObject` of pointers that are nil, or lead to a whole `KroList` and a whole
  -- `ProviderConfigList`, returns, with a nil interface for a nil pointer, and else with a pointer
  -- to a copy of the same list, whose elements are copies too. It changes nothing that was in
  -- memory before. The copy keeps its value whatever is later done to that memory, and the original
  -- whatever is done to other memory.
  pub lists-CopiedObject :
      (p q : Option Addr) (v : Option (Meanings.kro_list m).Value)
      (w : Option (ConfigMeanings.provider_config_list m).Value) (h : Heap (Cell s))
      → Pointer kro_list_box (Meanings.kro_list m).holds p v h
      → Pointer provider_config_list_box (ConfigMeanings.provider_config_list m).holds q w h
      → Returns
          (CopiedObject kro_list_box kro_list_object (Meanings.kro_list m) p v h)
          (KroList.deep_copy_object c p h)
        × Returns
            (CopiedObject provider_config_list_box provider_config_list_object
              (ConfigMeanings.provider_config_list m)
              q
              w
              h)
            (ProviderConfigList.deep_copy_object c q h)
  unfolding KroList.deep_copy_object ProviderConfigList.deep_copy_object
  lists-CopiedObject p q v w h kros configs = (
    object-Independent kro_list_box kro_list_object (Meanings.kro_list m) (KroList-Copies d) p v h
        kros,
    object-Independent provider_config_list_box provider_config_list_object
        (ConfigMeanings.provider_config_list m) (ProviderConfigList-Copies d) q w h configs,
  )
