-- ===== src/DeepCopy/ManagedResource.antt =====
-- The generated functions of `ManagedResource`
use service_provider_kro.Base.{Option}
use service_provider_kro.Memory.{Addr, Copier, ◌>>=◌, pure, copy_pointer}
use service_provider_kro.DeepCopy.Structs.{Structs, RawManagedResource}
use service_provider_kro.DeepCopy.Cells.{managed_resource_box, Copiers, Cell}

module _ {s : Structs} (c : Copiers s) where
  unfoldable pub deep_copy_into : Copier (Cell s) (RawManagedResource s)
  deep_copy_into source = do
    reference ← c.reference source.reference
    pure (record source { reference = reference })

  -- `DeepCopy`, of a pointer that may be nil
  unfoldable pub deep_copy : Copier (Cell s) (Option Addr)
  unfolding copy_pointer deep_copy_into
  deep_copy = copy_pointer managed_resource_box deep_copy_into
