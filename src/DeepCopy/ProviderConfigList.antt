-- ===== src/DeepCopy/ProviderConfigList.antt =====
-- The generated functions of `ProviderConfigList`
use service_provider_kro.Base.{Option, none, some}
use service_provider_kro.Memory.{Addr, Mem, Copier, ◌>>=◌, pure, copy_pointer, copy_items}
use service_provider_kro.DeepCopy.Structs.{Structs, RawProviderConfigList}
use service_provider_kro.DeepCopy.Cells.{
  provider_configs_box, provider_config_list_box, Copiers, RuntimeObject,
  provider_config_list_object, Cell,
}
use service_provider_kro.DeepCopy.ProviderConfig

module _ {s : Structs} (c : Copiers s) where
  unfoldable pub deep_copy_into : Copier (Cell s) (RawProviderConfigList s)
  unfolding copy_pointer copy_items ProviderConfig.deep_copy_into
  deep_copy_into source = do
    list_meta ← c.list_meta source.list_meta
    items ←
        copy_pointer provider_configs_box (copy_items (ProviderConfig.deep_copy_into c))
          source.items
    pure (record source { type_meta = source.type_meta; list_meta = list_meta; items = items })

  -- `DeepCopy`, of a pointer that may be nil
  unfoldable pub deep_copy : Copier (Cell s) (Option Addr)
  unfolding copy_pointer deep_copy_into
  deep_copy = copy_pointer provider_config_list_box deep_copy_into

  -- `DeepCopyObject`: a nil interface for a nil pointer
  unfoldable pub deep_copy_object : Option Addr → Mem (Cell s) (Option RuntimeObject)
  unfolding deep_copy
  deep_copy_object source = do
    copy ← deep_copy source
    pure (elim copy [ none ↦ none | some p ↦ some (provider_config_list_object (some p)) ])
