-- ===== src/DeepCopy/KroVersion.antt =====
-- The generated functions of `KroVersion`
use service_provider_kro.Base.{Option}
use service_provider_kro.Memory.{Addr, Copier, ◌>>=◌, pure, copy_pointer, copy_plain}
use service_provider_kro.DeepCopy.Structs.{Structs, RawKroVersion}
use service_provider_kro.DeepCopy.Cells.{text_box, json_box, kro_version_box, Copiers, Cell}

module _ {s : Structs} (c : Copiers s) where
  unfoldable pub deep_copy_into : Copier (Cell s) (RawKroVersion)
  unfolding copy_pointer
  deep_copy_into source = do
    chart_url ← copy_pointer text_box copy_plain source.chart_url
    helm_values ← copy_pointer json_box c.json source.helm_values
    pure (record source { chart_url = chart_url; helm_values = helm_values })

  -- `DeepCopy`, of a pointer that may be nil
  unfoldable pub deep_copy : Copier (Cell s) (Option Addr)
  unfolding copy_pointer deep_copy_into
  deep_copy = copy_pointer kro_version_box deep_copy_into
