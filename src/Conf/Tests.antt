-- ===== src/Conf/Tests.antt =====
-- Module options and sections of a configuration at concrete values.
use bmon.Prelude.{ℕ, true, false, ◌≡◌, refl, none, some, [], ◌∷◌, ◌++◌, arith, length}
use bmon.Prelude.Bytes.{Bytes, codes, str_eq, str_case_eq}
use bmon.Conf.{ModuleConf, parse_module, parse_module_param}
use bmon.Conf.Param.{print_modules, AllValidModule, parse_module_param-print_modules}
use bmon.Conf.Read.{
  AttrSection, VariantSection, attr_type_of, IsComplete, IsRead, configfile_read_attrs,
  configfile_read_attrs-IsRead, configfile_read_units,
}
use bmon.Units.{UnitDef, unit_lookup, unit_add, unit_add_div}
use bmon.AttrDef.{AttrDefs, attr_type_counter}

abbrev dummy_conf : ModuleConf
dummy_conf = record {
  m_name = codes "dummy";
  m_attrs =
      record { tv_type = codes "num"; tv_value = some (codes "3") }
      ∷ record { tv_type = codes "randomize"; tv_value = none }
      ∷ [];
}

abbrev null_conf : ModuleConf
null_conf = record { m_name = codes "null"; m_attrs = [] }

both-AllValidModule : AllValidModule (dummy_conf ∷ null_conf ∷ [])
both-AllValidModule = ground arith

parse_module_param-print_modules_example :
    parse_module_param (print_modules (dummy_conf ∷ null_conf ∷ [])) []
    ≡ some (length (dummy_conf ∷ null_conf ∷ []), [] ++ dummy_conf ∷ null_conf ∷ [])
parse_module_param-print_modules_example =
    parse_module_param-print_modules dummy_conf (null_conf ∷ []) [] both-AllValidModule

-- A module without a name is let through.
nameless :
    parse_module (codes ":num=3")
    ≡ some (record {
      m_name = [];
      m_attrs = record { tv_type = codes "num"; tv_value = some (codes "3") } ∷ [];
    })
unfolding parse_module
nameless = refl

abbrev two_commas : Bytes
two_commas = codes "proc,,null"

abbrev byte_unit : UnitDef ℕ
byte_unit = record { u_name = codes "byte"; u_default = []; u_si = []; u_bit = [] }

abbrev bytes_section : AttrSection
bytes_section = record {
  title = codes "bytes";
  description = none;
  unit = some (codes "byte");
  type = some (codes "Counter");
  history = true;
  ignore_overflows = false;
}

bytes_section-IsComplete : IsComplete (byte_unit ∷ []) bytes_section
unfolding unit_lookup attr_type_of str_eq str_case_eq
bytes_section-IsComplete = record {
  its_unit = codes "byte";
  has_unit = refl;
  its_type = codes "Counter";
  has_type = refl;
  found_unit = byte_unit;
  knows_unit = refl;
  found_type = attr_type_counter;
  knows_type = refl;
}

abbrev no_defs : AttrDefs
no_defs = record { attr_def_list = []; attr_id_gen = 1 }

configfile_read_attrs-IsRead_example :
    IsRead
      (bytes_section ∷ [])
      no_defs
      (configfile_read_attrs (byte_unit ∷ []) (bytes_section ∷ []) no_defs)
configfile_read_attrs-IsRead_example =
    configfile_read_attrs-IsRead (byte_unit ∷ []) (bytes_section ∷ []) no_defs tt
      (bytes_section-IsComplete, tt)

-- A second definition of a variant takes the place of the first.
abbrev si_section : VariantSection ℕ
si_section = record { vtitle = codes "si"; div = 1 ∷ 1000 ∷ []; txt = codes "B" ∷ codes "KB" ∷ [] }

read_twice :
    configfile_read_units
      (record { unit_title = codes "byte"; variants = si_section ∷ si_section ∷ [] } ∷ [])
      []
    ≡ some (
        record byte_unit {
          u_si =
              record { f_divisor = 1; f_name = codes "B" }
              ∷ record { f_divisor = 1000; f_name = codes "KB" }
              ∷ [];
        }
        ∷ [])
unfolding configfile_read_units unit_add unit_add_div unit_lookup str_eq str_case_eq
read_twice = refl
