-- ===== src/Conf/Read.antt =====
-- src/conf.c: what is made of the sections of a parsed configuration. The sections are what libconfuse
-- returns for them; `quit` is `none`.
use bmon.Prelude.{
  ℕ, ◌≡◌, refl, Bool, false, Option, none, some, List, [], ◌∷◌, if◌then◌else◌, ◌==◌, ◌>>=◌, length,
}
use bmon.Prelude.Bytes.{Bytes, codes, str_eq, str_case_eq}
use bmon.Units.{
  UnitDef, DivType, unit_default, unit_si, unit_bit, unit_lookup, unit_add, unit_add_div, set_div,
}
use bmon.AttrDef.{
  AttrType, attr_type_counter, attr_type_rate, attr_type_percent, AttrFlags, AttrDefs, attr_def_add,
}
use bmon.AttrDef.Laws.{
  IsValid, IsRegistered, attr_def_add-IsValid, attr_def_add-IsRegistered, attr_def_add-keeps,
}

pub record AttrSection : Type 0 where
  pub title : Bytes
  pub description : Option Bytes
  pub unit : Option Bytes
  pub type : Option Bytes
  pub history : Bool
  pub ignore_overflows : Bool

unfoldable pub attr_type_of : Bytes → Option AttrType
attr_type_of type =
    if str_case_eq type (codes "counter")
    then some attr_type_counter
    else if str_case_eq type (codes "rate")
    then some attr_type_rate
    else if str_case_eq type (codes "percent")
    then some attr_type_percent
    else none

abbrev pub section_flags : AttrSection → AttrFlags
section_flags s = record {
  force_history = s.history;
  ignore_overflows = s.ignore_overflows;
  true_64bit = false;
  rx_enabled = false;
  tx_enabled = false;
  doing_history = false;
}

-- Each section has its attribute, under its title and an identifier.
abbrev pub AllRegistered : List AttrSection → AttrDefs → Type 0
AllRegistered [] ds = Unit
AllRegistered (s ∷ sections) ds =
    ((id : ℕ) × IsRegistered s.title id ds) × AllRegistered sections ds

-- Reading the sections succeeds, keeps names and identifiers unique and registers each title; what
-- was registered stays so.
pub record IsRead (sections : List AttrSection) (old : AttrDefs) (r : Option AttrDefs)
    : Type 0 where
  pub new : AttrDefs
  pub returns : r ≡ some new
  pub valid : IsValid new
  pub registered : AllRegistered sections new
  pub keeps : (name : Bytes) (id : ℕ) → IsRegistered name id old → IsRegistered name id new

-- A variant of a unit, with the divisors and their names.
pub record VariantSection (F : Type 0) : Type 0 where
  pub vtitle : Bytes
  pub div : List F
  pub txt : List Bytes

pub record UnitSection (F : Type 0) : Type 0 where
  pub unit_title : Bytes
  pub variants : List (VariantSection F)

unfoldable pub variant_type : Bytes → Option DivType
variant_type vtitle =
    if str_case_eq vtitle (codes "default")
    then some unit_default
    else if str_case_eq vtitle (codes "si")
    then some unit_si
    else if str_case_eq vtitle (codes "bit")
    then some unit_bit
    else none

module _ {F : Type 0} where
  -- The fractions that the unit `name` has are freed.
  unfoldable pub clear_div : Bytes → DivType → List (UnitDef F) → List (UnitDef F)
  clear_div name type [] = []
  clear_div name type (unit ∷ units) =
      if str_eq name unit.u_name
      then set_div unit type [] ∷ units
      else unit ∷ clear_div name type units

  -- The loop of `add_div` over as many divisors as names.
  unfoldable pub add_fractions :
      Bytes → DivType → List F → List Bytes → List (UnitDef F) → List (UnitDef F)
  add_fractions name type (div ∷ divs) (txt ∷ txts) units =
      add_fractions name type divs txts (unit_add_div name type txt div units)
  add_fractions name type _ _ units = units

  unfoldable pub add_div :
      Bytes → DivType → VariantSection F → List (UnitDef F) → Option (List (UnitDef F))
  unfolding clear_div add_fractions
  add_div name type variant units =
      if length variant.div == 0
      then some units
      else if length variant.txt == length variant.div
      then some (add_fractions name type variant.div variant.txt (clear_div name type units))
      else none

  unfoldable pub read_variants :
      Bytes → List (VariantSection F) → List (UnitDef F) → Option (List (UnitDef F))
  unfolding add_div variant_type
  read_variants name [] units = some units
  read_variants name (variant ∷ variants) units = do
    type ← variant_type variant.vtitle
    units' ← add_div name type variant units
    read_variants name variants units'

  unfoldable pub configfile_read_units :
      List (UnitSection F) → List (UnitDef F) → Option (List (UnitDef F))
  unfolding read_variants
  configfile_read_units [] units = some units
  configfile_read_units (s ∷ sections) units =
      let skipped = configfile_read_units sections units in
      elim s.variants [
        | [] ↦ skipped
        | v ∷ vs ↦ (do
          units' ← read_variants s.unit_title (v ∷ vs) (unit_add s.unit_title units).1
          configfile_read_units sections units')
      ]

  unfoldable pub configfile_read_attrs :
      List (UnitDef F) → List AttrSection → AttrDefs → Option AttrDefs
  unfolding attr_type_of
  configfile_read_attrs units [] ds = some ds
  configfile_read_attrs units (s ∷ sections) ds = do
    unit ← s.unit
    type ← s.type
    u ← unit_lookup unit units
    t ← attr_type_of type
    configfile_read_attrs units sections
        (attr_def_add s.title s.description u.u_name t (section_flags s) ds).1

  -- A section that names a unit that is known and one of the three types.
  pub record IsComplete (units : List (UnitDef F)) (s : AttrSection) : Type 0 where
    pub its_unit : Bytes
    pub has_unit : s.unit ≡ some its_unit
    pub its_type : Bytes
    pub has_type : s.type ≡ some its_type
    pub found_unit : UnitDef F
    pub knows_unit : unit_lookup its_unit units ≡ some found_unit
    pub found_type : AttrType
    pub knows_type : attr_type_of its_type ≡ some found_type

  abbrev pub AllComplete : List (UnitDef F) → List AttrSection → Type 0
  AllComplete units [] = Unit
  AllComplete units (s ∷ sections) = IsComplete units s × AllComplete units sections

  -- Where every attribute section names a known unit and a type, all are read: each title is
  -- registered, names and identifiers stay unique, and what was registered stays.
  pub configfile_read_attrs-IsRead :
      (units : List (UnitDef F)) (sections : List AttrSection) (ds : AttrDefs)
      → IsValid ds
      → AllComplete units sections
      → IsRead sections ds (configfile_read_attrs units sections ds)
  unfolding configfile_read_attrs
  configfile_read_attrs-IsRead units [] ds v c = record {
    new = ds;
    returns = refl;
    valid = v;
    registered = tt;
    keeps = λ name id r. r;
  }
  configfile_read_attrs-IsRead units (s ∷ sections) ds v (c, cs) =
      let u = c.found_unit.u_name in
      let t = c.found_type in
      let flags = section_flags s in
      let r =
        configfile_read_attrs-IsRead units sections
          (attr_def_add s.title s.description u t flags ds).1
          (attr_def_add-IsValid s.title s.description u t flags ds v) cs in
      rw c.has_unit (
        rw c.has_type (
          rw c.knows_unit (
            rw c.knows_type (record {
              new = r.new;
              returns = r.returns;
              valid = r.valid;
              registered = (
                (
                  (attr_def_add s.title s.description u t flags ds).0,
                  r.keeps s.title _
                      (attr_def_add-IsRegistered s.title s.description u t flags ds v),
                ),
                r.registered,
              );
              keeps = λ name id q.
                  r.keeps name id (attr_def_add-keeps s.title name id s.description u t flags ds q);
            }))))
