-- ===== src/DeepCopy/Kro.antt =====
-- The generated functions of `Kro`
use service_provider_kro.Base.{Option, none, some}
use service_provider_kro.Memory.{Addr, Mem, Copier, ◌>>=◌, pure, copy_pointer}
use service_provider_kro.DeepCopy.Structs.{Structs, RawKro}
use service_provider_kro.DeepCopy.Cells.{kro_box, Copiers, RuntimeObject, kro_object, Cell}
use service_provider_kro.DeepCopy.KroStatus

module _ {s : Structs} (c : Copiers s) where
  unfoldable pub deep_copy_into : Copier (Cell s) (RawKro s)
  unfolding KroStatus.deep_copy_into
  deep_copy_into source = do
    object_meta ← c.object_meta source.object_meta
    status ← KroStatus.deep_copy_into c source.status
    pure (record source {
      type_meta = source.type_meta;
      object_meta = object_meta;
      spec = source.spec;
      status = status;
    })

  -- `DeepCopy`, of a pointer that may be nil
  unfoldable pub deep_copy : Copier (Cell s) (Option Addr)
  unfolding copy_pointer deep_copy_into
  deep_copy = copy_pointer kro_box deep_copy_into

  -- `DeepCopyObject`: a nil interface for a nil pointer
  unfoldable pub deep_copy_object : Option Addr → Mem (Cell s) (Option RuntimeObject)
  unfolding deep_copy
  deep_copy_object source = do
    copy ← deep_copy source
    pure (elim copy [ none ↦ none | some p ↦ some (kro_object (some p)) ])
