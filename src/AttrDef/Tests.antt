-- ===== src/AttrDef/Tests.antt =====
-- The table of attributes of src/in_proc.c, in part.
use bmon.Prelude.{ℕ, ◌≡◌, refl, List, [], ◌∷◌, arith, false}
use bmon.Prelude.Bytes.{Bytes, codes, str_eq}
use bmon.Units.{UnitDef, new_unit, unit_lookup}
use bmon.AttrDef.{
  attr_type_counter, AttrFlags, AttrDef, AttrDefs, attr_def_add, AttrMap, attr_map_load, find_name,
  find_id,
}
use bmon.AttrDef.Laws.{IsValid}

abbrev no_flags : AttrFlags
no_flags = record {
  force_history = false;
  ignore_overflows = false;
  true_64bit = false;
  rx_enabled = false;
  tx_enabled = false;
  doing_history = false;
}

abbrev bytes_def : AttrDef
bytes_def = record {
  ad_id = 1;
  ad_name = codes "bytes";
  ad_description = codes "Bytes";
  ad_type = attr_type_counter;
  ad_flags = no_flags;
  ad_unit = codes "byte";
}

abbrev one_def : AttrDefs
one_def = record { attr_def_list = bytes_def ∷ []; attr_id_gen = 2 }

abbrev units : List (UnitDef ℕ)
units = new_unit (codes "byte") ∷ []

abbrev entry : Bytes → Bytes → AttrMap
entry name unit = record {
  name = name;
  description = name;
  unit = unit;
  attrid = 0;
  type = attr_type_counter;
  flags = no_flags;
}

abbrev link_attrs : List AttrMap
link_attrs =
    entry (codes "bytes") (codes "byte")
    ∷ entry (codes "packets") (codes "number")
    ∷ entry (codes "errors") (codes "byte")
    ∷ []

loaded_ids : (attr_map_load units link_attrs one_def).nfailed ≡ 1
unfolding attr_map_load attr_def_add unit_lookup str_eq find_name
loaded_ids = refl

one_def-IsValid : IsValid one_def
unfolding find_name find_id
one_def-IsValid = (omega arith, refl, refl, tt)
