-- ===== src/DeepCopy/ProviderConfigSpec.antt =====
-- The generated functions of `ProviderConfigSpec`
use service_provider_kro.Base.{Option}
use service_provider_kro.Memory.{Addr, Copier, ◌>>=◌, pure, copy_pointer, copy_items, copy_plain}
use service_provider_kro.DeepCopy.Structs.{Structs, RawProviderConfigSpec}
use service_provider_kro.DeepCopy.Cells.{
  duration_box, kro_versions_box, provider_config_spec_box, Copiers, Cell,
}
use service_provider_kro.DeepCopy.KroVersion

module _ {s : Structs} (c : Copiers s) where
  unfoldable pub deep_copy_into : Copier (Cell s) (RawProviderConfigSpec)
  unfolding copy_pointer copy_items KroVersion.deep_copy_into
  deep_copy_into source = do
    versions ←
        copy_pointer kro_versions_box (copy_items (KroVersion.deep_copy_into c)) source.versions
    poll_interval ← copy_pointer duration_box copy_plain source.poll_interval
    pure (record source { versions = versions; poll_interval = poll_interval })

  -- `DeepCopy`, of a pointer that may be nil
  unfoldable pub deep_copy : Copier (Cell s) (Option Addr)
  unfolding copy_pointer deep_copy_into
  deep_copy = copy_pointer provider_config_spec_box deep_copy_into
