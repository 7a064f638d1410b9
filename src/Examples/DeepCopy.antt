-- ===== src/Examples/DeepCopy.antt =====
-- The deep copies of the objects in a memory.
use service_provider_kro.Base.{none, some, [], ◌∷◌, ◌≡◌, refl, arith}
use service_provider_kro.Memory.Returns.{Returns}
use service_provider_kro.Memory.Layout.{nil, points, cons}
use service_provider_kro.DeepCopy.Cells.{
  kro_box, kro_list_box, provider_config_box, provider_config_list_box, kro_object, kro_list_object,
  provider_config_object, provider_config_list_object, kro,
}
use service_provider_kro.DeepCopy.Meanings
use service_provider_kro.DeepCopy.ConfigMeanings
use service_provider_kro.DeepCopy.Meanings.{Meanings}
use service_provider_kro.DeepCopy.Objects.{
  CopiedObject, kro-CopiedObject, provider_config-CopiedObject, lists-CopiedObject,
}
use service_provider_kro.DeepCopy.Kro
use service_provider_kro.DeepCopy.KroList
use service_provider_kro.DeepCopy.ProviderConfig
use service_provider_kro.DeepCopy.ProviderConfigList
use service_provider_kro.Examples.Memory.{
  copiers, meanings, documented, type_meta, raw_kro, raw_config, raw_kro_list, raw_config_list,
  memory, kro_value, kro_fits, config_value, config_fits, kro_list_value, config_list_value,
}

kro-CopiedObject_example :
    Returns
      (CopiedObject kro_box kro_object (Meanings.kro meanings) (some 3) (some kro_value) memory)
      (Kro.deep_copy_object copiers (some 3) memory)
kro-CopiedObject_example =
    kro-CopiedObject copiers meanings documented (some 3) (some kro_value) memory
      (points (record { target = raw_kro; taken = omega arith; at = refl; fits = kro_fits }))

provider_config-CopiedObject_example :
    Returns
      (CopiedObject provider_config_box provider_config_object
        (ConfigMeanings.provider_config meanings)
        (some 10)
        (some config_value)
        memory)
      (ProviderConfig.deep_copy_object copiers (some 10) memory)
provider_config-CopiedObject_example =
    provider_config-CopiedObject copiers meanings documented (some 10) (some config_value) memory
      (points (record { target = raw_config; taken = omega arith; at = refl; fits = config_fits }))

lists-CopiedObject_example :
    Returns
      (CopiedObject kro_list_box kro_list_object
        (Meanings.kro_list meanings)
        (some 12)
        (some kro_list_value)
        memory)
      (KroList.deep_copy_object copiers (some 12) memory)
    × Returns
        (CopiedObject provider_config_list_box provider_config_list_object
          (ConfigMeanings.provider_config_list meanings)
          (some 13)
          (some config_list_value)
          memory)
        (ProviderConfigList.deep_copy_object copiers (some 13) memory)
lists-CopiedObject_example =
    lists-CopiedObject copiers meanings documented (some 12) (some 13) (some kro_list_value)
      (some config_list_value) memory
      (points (record {
        target = raw_kro_list;
        taken = omega arith;
        at = refl;
        fits = record {
          type_meta = refl;
          list_meta = refl;
          items = points (record {
            target = raw_kro ∷ [];
            taken = omega arith;
            at = refl;
            fits = cons kro_fits nil;
          });
        };
      }))
      (points (record {
        target = raw_config_list;
        taken = omega arith;
        at = refl;
        fits = record { type_meta = refl; list_meta = refl; items = nil };
      }))

-- The copy lies behind the original, and so does each part of it.
copied_kro :
    elim (Kro.deep_copy copiers (some 3) memory) [
      | none ↦ none
      | some (q, g) ↦ elim q [ none ↦ none | some p ↦ g.cell p ]
    ]
    ≡ some (
        kro (record {
          type_meta = type_meta;
          object_meta = some 15;
          spec = record { version = "0.9.0" };
          status = record { status = some 16; resources = some 17 };
        }))
unfolding Kro.deep_copy
copied_kro = refl

no_copied_kro : Kro.deep_copy_object copiers none memory ≡ some (none, memory)
unfolding Kro.deep_copy_object
no_copied_kro = refl
