-- ===== src/AttrDef.antt =====
-- src/attr.c, include/bmon/attr.h: the definitions of attributes. The list `attr_def_list` and the
-- counter `attr_id_gen` are the state. A definition never changes once it is made, so the pointer to
-- one is the definition itself, and two pointers are equal where the `ad_id` are.
pub mod Laws
pub mod Load
mod Tests
use bmon.Prelude.{ℕ, ◌+◌, Bool, Option, none, some, List, [], ◌∷◌, ◌++◌, if◌then◌else◌, ◌==◌}
use bmon.Prelude.Bytes.{Bytes, str_eq}
use bmon.Units.{UnitDef, unit_lookup}

pub data AttrType : Type 0 where
  attr_type_unspec attr_type_counter attr_type_rate attr_type_percent : AttrType

-- The bits ATTR_FORCE_HISTORY, ATTR_IGNORE_OVERFLOWS, ATTR_TRUE_64BIT, ATTR_RX_ENABLED,
-- ATTR_TX_ENABLED and ATTR_DOING_HISTORY.
pub record AttrFlags : Type 0 where
  pub force_history : Bool
  pub ignore_overflows : Bool
  pub true_64bit : Bool
  pub rx_enabled : Bool
  pub tx_enabled : Bool
  pub doing_history : Bool

-- The unit is given by its name.
pub record AttrDef : Type 0 where
  pub ad_id : ℕ
  pub ad_name : Bytes
  pub ad_description : Bytes
  pub ad_type : AttrType
  pub ad_flags : AttrFlags
  pub ad_unit : Bytes

-- The two globals; `attr_id_gen` starts at 1.
pub record AttrDefs : Type 0 where
  pub attr_def_list : List AttrDef
  pub attr_id_gen : ℕ

unfoldable pub find_name : Bytes → List AttrDef → Option AttrDef
find_name name [] = none
find_name name (def ∷ defs) = if str_eq name def.ad_name then some def else find_name name defs

unfoldable pub attr_def_lookup : Bytes → AttrDefs → Option AttrDef
attr_def_lookup name ds = find_name name ds.attr_def_list

unfoldable pub find_id : ℕ → List AttrDef → Option AttrDef
find_id id [] = none
find_id id (def ∷ defs) = if def.ad_id == id then some def else find_id id defs

unfoldable pub attr_def_lookup_id : ℕ → AttrDefs → Option AttrDef
attr_def_lookup_id id ds = find_id id ds.attr_def_list

-- `desc ? : ""`
abbrev pub or_empty : Option Bytes → Bytes
or_empty none = []
or_empty (some desc) = desc

unfoldable pub attr_def_add :
    Bytes → Option Bytes → Bytes → AttrType → AttrFlags → AttrDefs → ℕ × AttrDefs
unfolding attr_def_lookup
attr_def_add name desc unit type flags ds =
    let def : AttrDef = record {
      ad_id = ds.attr_id_gen;
      ad_name = name;
      ad_description = or_empty desc;
      ad_type = type;
      ad_flags = flags;
      ad_unit = unit;
    } in
    elim (attr_def_lookup name ds) [
      | some old ↦ (old.ad_id, ds)
      | none ↦ (
        def.ad_id,
        record { attr_def_list = ds.attr_def_list ++ def ∷ []; attr_id_gen = ds.attr_id_gen + 1 },
      )
    ]

-- One entry of a `struct attr_map` array; `attrid` is what `attr_map_load` fills in.
pub record AttrMap : Type 0 where
  pub name : Bytes
  pub description : Bytes
  pub unit : Bytes
  pub attrid : ℕ
  pub type : AttrType
  pub flags : AttrFlags

pub record MapLoad : Type 0 where
  pub nfailed : ℕ
  pub map : List AttrMap
  pub defs : AttrDefs

unfoldable pub attr_map_load : {F : Type 0} → List (UnitDef F) → List AttrMap → AttrDefs → MapLoad
attr_map_load units [] ds = record { nfailed = 0; map = []; defs = ds }
attr_map_load units (m ∷ map) ds =
    let failed = attr_map_load units map ds in
    let (attrid, ds') = attr_def_add m.name (some m.description) m.unit m.type m.flags ds in
    let loaded = attr_map_load units map ds' in
    elim (unit_lookup m.unit units) [
      | none ↦ record failed { nfailed = failed.nfailed + 1; map = m ∷ failed.map }
      | some u ↦ record loaded { map = record m { attrid = attrid } ∷ loaded.map }
    ]
