-- ===== src/DeepCopy/Laws.antt =====
-- The generated DeepCopyInto functions, against what the types stand for, and what is assumed of
-- those of the libraries.
use service_provider_kro.Base.{String, List}
use service_provider_kro.Go.{Duration}
use service_provider_kro.Memory.{Box, Copier, copy_plain, copy_pointer, copy_items}
use service_provider_kro.Memory.Change.{Keeps-trans}
use service_provider_kro.Memory.Layout.{Meaning, plain, slice, items}
use service_provider_kro.Memory.Copying.{
  Copies, Apart-bind, Apart-done, copy_pointer-Copies, copy_items-Copies,
}
use service_provider_kro.DeepCopy.Structs.{Structs}
use service_provider_kro.DeepCopy.Cells.{Copiers}
use service_provider_kro.DeepCopy.Meanings
use service_provider_kro.DeepCopy.ConfigMeanings
use service_provider_kro.DeepCopy.Meanings.{Meanings}
use service_provider_kro.DeepCopy.ManagedResource
use service_provider_kro.DeepCopy.KroStatus
use service_provider_kro.DeepCopy.Kro
use service_provider_kro.DeepCopy.KroList
use service_provider_kro.DeepCopy.KroVersion
use service_provider_kro.DeepCopy.ProviderConfigSpec
use service_provider_kro.DeepCopy.ProviderConfigStatus
use service_provider_kro.DeepCopy.ProviderConfig
use service_provider_kro.DeepCopy.ProviderConfigList

-- What the libraries document of their DeepCopyInto: the copy is for the same value, and apart.
pub record Documented {s : Structs} (c : Copiers s) (m : Meanings s) : Type 0 where
  pub object_meta : Copies m.object_meta.holds c.object_meta
  pub list_meta : Copies m.list_meta.holds c.list_meta
  pub status : Copies m.status.holds c.status
  pub reference : Copies m.reference.holds c.reference
  pub condition : Copies m.condition.holds c.condition
  pub json : Copies m.json.holds c.json

pub copy_plain-Copies : {C R : Type 0} → Copies {C = C} (plain R).holds copy_plain
copy_plain-Copies r v h e = Apart-done r h λ k. e

copy_slice-Copies :
    {C R : Type 0} {box : Box C (List R)} {copy : Copier C R} (m : Meaning C R)
    → Copies m.holds copy
    → Copies (slice box m).holds (copy_pointer box (copy_items copy))
copy_slice-Copies m copies =
    copy_pointer-Copies (items m).stable (copy_items-Copies m.stable copies)

module _ {s : Structs} {c : Copiers s} {m : Meanings s} (d : Documented c m) where
  ManagedResource-Copies :
      Copies (Meanings.managed_resource m).holds (ManagedResource.deep_copy_into c)
  unfolding ManagedResource.deep_copy_into
  ManagedResource-Copies r v h fits =
      Apart-bind (d.reference r.reference v.reference h fits.reference) λ reference g1 _.
        Apart-done _ g1 λ _ reference. record {
          reference = reference;
          phase = fits.phase;
          message = fits.message;
          location = fits.location;
        }

  KroStatus-Copies : Copies (Meanings.kro_status m).holds (KroStatus.deep_copy_into c)
  unfolding KroStatus.deep_copy_into
  KroStatus-Copies r v h fits =
      Apart-bind (d.status r.status v.status h fits.status) λ status g1 k1.
        Apart-bind
          (copy_slice-Copies (Meanings.managed_resource m) ManagedResource-Copies r.resources
            v.resources g1
            ((Meanings.managed_resource_slice m).stable r.resources v.resources h g1 k1
              fits.resources))
          λ resources g2 _.
            Apart-done _ g2 λ _ resources status. record { status = status; resources = resources }

  pub Kro-Copies : Copies (Meanings.kro m).holds (Kro.deep_copy_into c)
  unfolding Kro.deep_copy_into
  Kro-Copies r v h fits =
      Apart-bind (d.object_meta r.object_meta v.object_meta h fits.object_meta) λ object_meta g1 k1.
        Apart-bind
          (KroStatus-Copies r.status v.status g1
            ((Meanings.kro_status m).stable r.status v.status h g1 k1 fits.status))
          λ status g2 _. Apart-done _ g2 λ _ status object_meta. record {
            object_meta = object_meta;
            status = status;
            type_meta = fits.type_meta;
            spec = fits.spec;
          }

  pub KroList-Copies : Copies (Meanings.kro_list m).holds (KroList.deep_copy_into c)
  unfolding KroList.deep_copy_into
  KroList-Copies r v h fits =
      Apart-bind (d.list_meta r.list_meta v.list_meta h fits.list_meta) λ list_meta g1 k1.
        Apart-bind
          (copy_slice-Copies (Meanings.kro m) Kro-Copies r.items v.items g1
            ((Meanings.kro_slice m).stable r.items v.items h g1 k1 fits.items))
          λ items g2 _. Apart-done _ g2 λ _ items list_meta. record {
            list_meta = list_meta;
            items = items;
            type_meta = fits.type_meta;
          }

  KroVersion-Copies : Copies (ConfigMeanings.kro_version m).holds (KroVersion.deep_copy_into c)
  unfolding KroVersion.deep_copy_into
  KroVersion-Copies r v h fits =
      Apart-bind
        (copy_pointer-Copies (plain String).stable copy_plain-Copies r.chart_url v.chart_url h
          fits.chart_url)
        λ chart_url g1 k1.
          Apart-bind
            (copy_pointer-Copies m.json.stable d.json r.helm_values v.helm_values g1 (
              (ConfigMeanings.json_pointer m).stable r.helm_values v.helm_values h g1 k1
                fits.helm_values))
            λ helm_values g2 _. Apart-done _ g2 λ _ helm_values chart_url. record {
              chart_url = chart_url;
              helm_values = helm_values;
              version = fits.version;
              chart_version = fits.chart_version;
              chart_pull_secret = fits.chart_pull_secret;
            }

  ProviderConfigSpec-Copies :
      Copies (ConfigMeanings.provider_config_spec m).holds (ProviderConfigSpec.deep_copy_into c)
  unfolding ProviderConfigSpec.deep_copy_into
  ProviderConfigSpec-Copies r v h fits =
      Apart-bind
        (copy_slice-Copies (ConfigMeanings.kro_version m) KroVersion-Copies r.versions v.versions h
          fits.versions)
        λ versions g1 k1.
          Apart-bind
            (copy_pointer-Copies (plain Duration).stable copy_plain-Copies r.poll_interval
              v.poll_interval g1
              ((ConfigMeanings.duration_pointer m).stable r.poll_interval v.poll_interval h g1 k1
                fits.poll_interval))
            λ poll_interval g2 _. Apart-done _ g2 λ _ poll_interval versions. record {
              versions = versions;
              poll_interval = poll_interval;
            }

  ProviderConfigStatus-Copies :
      Copies (ConfigMeanings.provider_config_status m).holds (ProviderConfigStatus.deep_copy_into c)
  unfolding ProviderConfigStatus.deep_copy_into
  ProviderConfigStatus-Copies r v h fits =
      Apart-bind
        (copy_slice-Copies m.condition d.condition r.conditions v.conditions h fits.conditions)
        λ conditions g1 _. Apart-done _ g1 λ _ conditions. record { conditions = conditions }

  pub ProviderConfig-Copies :
      Copies (ConfigMeanings.provider_config m).holds (ProviderConfig.deep_copy_into c)
  unfolding ProviderConfig.deep_copy_into
  ProviderConfig-Copies r v h fits =
      Apart-bind (d.object_meta r.object_meta v.object_meta h fits.object_meta) λ object_meta g1 k1.
        Apart-bind
          (ProviderConfigSpec-Copies r.spec v.spec g1
            ((ConfigMeanings.provider_config_spec m).stable r.spec v.spec h g1 k1 fits.spec))
          λ spec g2 k2.
            Apart-bind
              (ProviderConfigStatus-Copies r.status v.status g2 (
                (ConfigMeanings.provider_config_status m).stable r.status v.status h g2
                  (Keeps-trans k1 k2) fits.status))
              λ status g3 _. Apart-done _ g3 λ _ status spec object_meta. record {
                object_meta = object_meta;
                spec = spec;
                status = status;
                type_meta = fits.type_meta;
              }

  pub ProviderConfigList-Copies :
      Copies (ConfigMeanings.provider_config_list m).holds (ProviderConfigList.deep_copy_into c)
  unfolding ProviderConfigList.deep_copy_into
  ProviderConfigList-Copies r v h fits =
      Apart-bind (d.list_meta r.list_meta v.list_meta h fits.list_meta) λ list_meta g1 k1.
        Apart-bind
          (copy_slice-Copies (ConfigMeanings.provider_config m) ProviderConfig-Copies r.items
            v.items g1
            ((ConfigMeanings.provider_config_slice m).stable r.items v.items h g1 k1 fits.items))
          λ items g2 _. Apart-done _ g2 λ _ items list_meta. record {
            list_meta = list_meta;
            items = items;
            type_meta = fits.type_meta;
          }
