-- ===== src/DeepCopy/Meanings.antt =====
-- What the generated types stand for: the same types with values in place of addresses, nil slices
-- and pointers told from empty ones.
use service_provider_kro.Base.{Option, ◌≡◌}
use service_provider_kro.Memory.{Addr, Heap}
use service_provider_kro.Memory.Layout.{Meaning, slice, Stable}
use service_provider_kro.DeepCopy.Structs.{
  Structs, ManagedResource, KroStatus, Kro, KroList, RawManagedResource, RawKroStatus, RawKro,
  RawKroList,
}
use service_provider_kro.DeepCopy.Cells.{Cell, managed_resources_box, kros_box}

-- What the values of the library types stand for, which is not in the repository
pub record Meanings (s : Structs) : Type 1 where
  pub object_meta : Meaning (Cell s) s.ObjectMeta
  pub list_meta : Meaning (Cell s) s.ListMeta
  pub status : Meaning (Cell s) s.Status
  pub reference : Meaning (Cell s) s.Reference
  pub condition : Meaning (Cell s) s.Condition
  pub json : Meaning (Cell s) s.Json

module _ {s : Structs} (m : Meanings s) where
  pub record ManagedResourceFits (r : RawManagedResource s) (v : ManagedResource m.reference.Value)
      (h : Heap (Cell s)) : Type 0 where
    pub reference : m.reference.holds r.reference v.reference h
    pub phase : r.phase ≡ v.phase
    pub message : r.message ≡ v.message
    pub location : r.location ≡ v.location

  pub ManagedResourceFits-Stable : Stable ManagedResourceFits
  ManagedResourceFits-Stable r v h g k fits = record {
    reference = m.reference.stable r.reference v.reference h g k fits.reference;
    phase = fits.phase;
    message = fits.message;
    location = fits.location;
  }

  abbrev pub managed_resource : Meaning (Cell s) (RawManagedResource s)
  managed_resource = record {
    Value = ManagedResource m.reference.Value;
    holds = ManagedResourceFits;
    stable = ManagedResourceFits-Stable;
  }

  abbrev pub managed_resource_slice : Meaning (Cell s) (Option Addr)
  managed_resource_slice = slice managed_resources_box managed_resource

  pub record KroStatusFits (r : RawKroStatus s)
      (v : KroStatus m.status.Value managed_resource_slice.Value) (h : Heap (Cell s)) : Type 0 where
    pub status : m.status.holds r.status v.status h
    pub resources : managed_resource_slice.holds r.resources v.resources h

  pub KroStatusFits-Stable : Stable KroStatusFits
  KroStatusFits-Stable r v h g k fits = record {
    status = m.status.stable r.status v.status h g k fits.status;
    resources = managed_resource_slice.stable r.resources v.resources h g k fits.resources;
  }

  abbrev pub kro_status : Meaning (Cell s) (RawKroStatus s)
  kro_status = record {
    Value = KroStatus m.status.Value managed_resource_slice.Value;
    holds = KroStatusFits;
    stable = KroStatusFits-Stable;
  }

  pub record KroFits (r : RawKro s) (v : Kro m.object_meta.Value kro_status.Value)
      (h : Heap (Cell s)) : Type 0 where
    pub type_meta : r.type_meta ≡ v.type_meta
    pub object_meta : m.object_meta.holds r.object_meta v.object_meta h
    pub spec : r.spec ≡ v.spec
    pub status : kro_status.holds r.status v.status h

  pub KroFits-Stable : Stable KroFits
  KroFits-Stable r v h g k fits = record {
    type_meta = fits.type_meta;
    object_meta = m.object_meta.stable r.object_meta v.object_meta h g k fits.object_meta;
    spec = fits.spec;
    status = kro_status.stable r.status v.status h g k fits.status;
  }

  abbrev pub kro : Meaning (Cell s) (RawKro s)
  kro = record {
    Value = Kro m.object_meta.Value kro_status.Value;
    holds = KroFits;
    stable = KroFits-Stable;
  }

  abbrev pub kro_slice : Meaning (Cell s) (Option Addr)
  kro_slice = slice kros_box kro

  pub record KroListFits (r : RawKroList s) (v : KroList m.list_meta.Value kro_slice.Value)
      (h : Heap (Cell s)) : Type 0 where
    pub type_meta : r.type_meta ≡ v.type_meta
    pub list_meta : m.list_meta.holds r.list_meta v.list_meta h
    pub items : kro_slice.holds r.items v.items h

  pub KroListFits-Stable : Stable KroListFits
  KroListFits-Stable r v h g k fits = record {
    type_meta = fits.type_meta;
    list_meta = m.list_meta.stable r.list_meta v.list_meta h g k fits.list_meta;
    items = kro_slice.stable r.items v.items h g k fits.items;
  }

  abbrev pub kro_list : Meaning (Cell s) (RawKroList s)
  kro_list = record {
    Value = KroList m.list_meta.Value kro_slice.Value;
    holds = KroListFits;
    stable = KroListFits-Stable;
  }
