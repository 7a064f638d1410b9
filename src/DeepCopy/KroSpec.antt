-- ===== src/DeepCopy/KroSpec.antt =====
-- The generated functions of `KroSpec`
use service_provider_kro.Base.{Option}
use service_provider_kro.Api.Kro.{KroSpec}
use service_provider_kro.Memory.{Addr, Copier, pure, copy_pointer}
use service_provider_kro.DeepCopy.Structs.{Structs}
use service_provider_kro.DeepCopy.Cells.{kro_spec_box, Cell}

module _ {s : Structs} where
  unfoldable pub deep_copy_into : Copier (Cell s) (KroSpec)
  deep_copy_into source = pure source

  -- `DeepCopy`, of a pointer that may be nil
  unfoldable pub deep_copy : Copier (Cell s) (Option Addr)
  unfolding copy_pointer deep_copy_into
  deep_copy = copy_pointer kro_spec_box deep_copy_into
