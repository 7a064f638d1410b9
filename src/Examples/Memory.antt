-- ===== src/Examples/Memory.antt =====
-- A memory with an object of each type, and library types that keep parts elsewhere in memory.
use service_provider_kro.Base.{zero, suc, String, Option, none, some, List, [], ◌∷◌, refl, arith}
use service_provider_kro.Go.{pos}
use service_provider_kro.Api.Kro.{pending, managed_control_plane}
use service_provider_kro.Memory.{Addr, Heap, copy_pointer, copy_plain}
use service_provider_kro.Memory.Layout.{Meaning, plain, pointer, nil, points, cons}
use service_provider_kro.Memory.Copying.{copy_pointer-Copies}
use service_provider_kro.DeepCopy.Structs.{
  Structs, TypeMeta, ManagedResource, RawKro, RawKroList, RawProviderConfig, RawProviderConfigList,
  RawKroVersion,
}
use service_provider_kro.DeepCopy.Cells.{
  Cell, Copiers, inner_box, inner, managed_resources, kro, text, json, kro_versions, duration,
  conditions, provider_config, kros, kro_list, provider_config_list,
}
use service_provider_kro.DeepCopy.Meanings
use service_provider_kro.DeepCopy.ConfigMeanings
use service_provider_kro.DeepCopy.Meanings.{Meanings}
use service_provider_kro.DeepCopy.Laws.{Documented, copy_plain-Copies}

abbrev pub structs : Structs
structs = record {
  ObjectMeta = Option Addr;
  ListMeta = String;
  Status = Option Addr;
  Reference = String;
  Condition = String;
  Json = Option Addr;
  Inner = String;
}

abbrev pub copiers : Copiers structs
copiers = record {
  object_meta = copy_pointer inner_box copy_plain;
  list_meta = copy_plain;
  status = copy_pointer inner_box copy_plain;
  reference = copy_plain;
  condition = copy_plain;
  json = copy_pointer inner_box copy_plain;
}

abbrev pub inner_pointer : Meaning (Cell structs) (Option Addr)
inner_pointer = pointer inner_box (plain String)

abbrev pub meanings : Meanings structs
meanings = record {
  object_meta = inner_pointer;
  list_meta = plain String;
  status = inner_pointer;
  reference = plain String;
  condition = plain String;
  json = inner_pointer;
}

pub documented : Documented copiers meanings
documented = record {
  object_meta = copy_pointer-Copies (plain String).stable copy_plain-Copies;
  list_meta = copy_plain-Copies;
  status = copy_pointer-Copies (plain String).stable copy_plain-Copies;
  reference = copy_plain-Copies;
  condition = copy_plain-Copies;
  json = copy_pointer-Copies (plain String).stable copy_plain-Copies;
}

abbrev pub nth : {A : Type 0} → List A → Addr → Option A
nth [] n = none
nth (x ∷ xs) zero = some x
nth (x ∷ xs) (suc n) = nth xs n

abbrev pub type_meta : TypeMeta
type_meta = record { kind = "Kro"; api_version = "v1alpha1" }

abbrev pub oci_repository : ManagedResource String
oci_repository = record {
  reference = "kro";
  phase = pending;
  message = "";
  location = managed_control_plane;
}

abbrev pub raw_kro : RawKro structs
raw_kro = record {
  type_meta = type_meta;
  object_meta = some 0;
  spec = record { version = "0.9.0" };
  status = record { status = some 1; resources = some 2 };
}

abbrev pub raw_version : RawKroVersion
raw_version = record {
  version = "0.9.0";
  chart_version = "0.9.1";
  chart_url = some 4;
  chart_pull_secret = "pull";
  helm_values = some 6;
}

abbrev pub raw_config : RawProviderConfig structs
raw_config = record {
  type_meta = type_meta;
  object_meta = some 0;
  spec = record { versions = some 7; poll_interval = some 8 };
  status = record { conditions = some 9 };
}

abbrev pub raw_kro_list : RawKroList structs
raw_kro_list = record { type_meta = type_meta; list_meta = "7"; items = some 11 }

-- A list with no items slice at all
abbrev pub raw_config_list : RawProviderConfigList structs
raw_config_list = record { type_meta = type_meta; list_meta = "7"; items = none }

abbrev pub cells : List (Cell structs)
cells =
    inner "team=a"
    ∷ inner "Ready=False"
    ∷ managed_resources (oci_repository ∷ [])
    ∷ kro raw_kro
    ∷ text "oci://charts"
    ∷ inner "{}"
    ∷ json (some 5)
    ∷ kro_versions (raw_version ∷ [])
    ∷ duration (pos 60)
    ∷ conditions ("Available" ∷ [])
    ∷ provider_config raw_config
    ∷ kros (raw_kro ∷ [])
    ∷ kro_list raw_kro_list
    ∷ provider_config_list raw_config_list
    ∷ []

abbrev pub memory : Heap (Cell structs)
memory = record { next = 14; cell = nth cells }

abbrev pub kro_value : (Meanings.kro meanings).Value
kro_value = record {
  type_meta = type_meta;
  object_meta = some "team=a";
  spec = record { version = "0.9.0" };
  status = record { status = some "Ready=False"; resources = some (oci_repository ∷ []) };
}

pub kro_fits : (Meanings.kro meanings).holds raw_kro kro_value memory
kro_fits = record {
  type_meta = refl;
  object_meta = points (record { target = "team=a"; taken = omega arith; at = refl; fits = refl });
  spec = refl;
  status = record {
    status =
        points (record { target = "Ready=False"; taken = omega arith; at = refl; fits = refl });
    resources = points (record {
      target = oci_repository ∷ [];
      taken = omega arith;
      at = refl;
      fits = cons (record { reference = refl; phase = refl; message = refl; location = refl }) nil;
    });
  };
}

abbrev pub config_value : (ConfigMeanings.provider_config meanings).Value
config_value = record {
  type_meta = type_meta;
  object_meta = some "team=a";
  spec = record {
    versions = some (
        record {
          version = "0.9.0";
          chart_version = "0.9.1";
          chart_url = some "oci://charts";
          chart_pull_secret = "pull";
          helm_values = some (some "{}");
        }
        ∷ []);
    poll_interval = some (pos 60);
  };
  status = record { conditions = some ("Available" ∷ []) };
}

pub config_fits : (ConfigMeanings.provider_config meanings).holds raw_config config_value memory
config_fits = record {
  type_meta = refl;
  object_meta = points (record { target = "team=a"; taken = omega arith; at = refl; fits = refl });
  spec = record {
    versions = points (record {
      target = raw_version ∷ [];
      taken = omega arith;
      at = refl;
      fits =
          cons
            (record {
              version = refl;
              chart_version = refl;
              chart_url =
                  points (record {
                    target = "oci://charts";
                    taken = omega arith;
                    at = refl;
                    fits = refl;
                  });
              chart_pull_secret = refl;
              helm_values = points (record {
                target = some 5;
                taken = omega arith;
                at = refl;
                fits =
                    points (record { target = "{}"; taken = omega arith; at = refl; fits = refl });
              });
            })
            nil;
    });
    poll_interval =
        points (record { target = pos 60; taken = omega arith; at = refl; fits = refl });
  };
  status = record {
    conditions = points (record {
      target = "Available" ∷ [];
      taken = omega arith;
      at = refl;
      fits = cons refl nil;
    });
  };
}

abbrev pub kro_list_value : (Meanings.kro_list meanings).Value
kro_list_value = record { type_meta = type_meta; list_meta = "7"; items = some (kro_value ∷ []) }

abbrev pub config_list_value : (ConfigMeanings.provider_config_list meanings).Value
config_list_value = record { type_meta = type_meta; list_meta = "7"; items = none }
