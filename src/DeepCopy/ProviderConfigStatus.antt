-- ===== src/DeepCopy/ProviderConfigStatus.antt =====
-- The generated functions of `ProviderConfigStatus`
use service_provider_kro.Base.{Option}
use service_provider_kro.Memory.{Addr, Copier, ◌>>=◌, pure, copy_pointer, copy_items}
use service_provider_kro.DeepCopy.Structs.{Structs, RawProviderConfigStatus}
use service_provider_kro.DeepCopy.Cells.{conditions_box, provider_config_status_box, Copiers, Cell}

module _ {s : Structs} (c : Copiers s) where
  unfoldable pub deep_copy_into : Copier (Cell s) (RawProviderConfigStatus)
  unfolding copy_pointer copy_items
  deep_copy_into source = do
    conditions ← copy_pointer conditions_box (copy_items c.condition) source.conditions
    pure (record source { conditions = conditions })

  -- `DeepCopy`, of a pointer that may be nil
  unfoldable pub deep_copy : Copier (Cell s) (Option Addr)
  unfolding copy_pointer deep_copy_into
  deep_copy = copy_pointer provider_config_status_box deep_copy_into
