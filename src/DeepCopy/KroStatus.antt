-- ===== src/DeepCopy/KroStatus.antt =====
-- The generated functions of `KroStatus`
use service_provider_kro.Base.{Option}
use service_provider_kro.Memory.{Addr, Copier, ◌>>=◌, pure, copy_pointer, copy_items}
use service_provider_kro.DeepCopy.Structs.{Structs, RawKroStatus}
use service_provider_kro.DeepCopy.Cells.{managed_resources_box, kro_status_box, Copiers, Cell}
use service_provider_kro.DeepCopy.ManagedResource

module _ {s : Structs} (c : Copiers s) where
  unfoldable pub deep_copy_into : Copier (Cell s) (RawKroStatus s)
  unfolding copy_pointer copy_items ManagedResource.deep_copy_into
  deep_copy_into source = do
    status ← c.status source.status
    resources ←
        copy_pointer managed_resources_box (copy_items (ManagedResource.deep_copy_into c))
          source.resources
    pure (record source { status = status; resources = resources })

  -- `DeepCopy`, of a pointer that may be nil
  unfoldable pub deep_copy : Copier (Cell s) (Option Addr)
  unfolding copy_pointer deep_copy_into
  deep_copy = copy_pointer kro_status_box deep_copy_into
