-- ===== src/Units/Tests.antt =====
-- The unit `byte` of the default configuration (src/conf.c), at whole divisors.
use bmon.Prelude.{ℕ, ◌≡◌, refl, ◌⊎◌, true, false, none, some, [], ◌∷◌}
use bmon.Prelude.Int.{pos, negsuc}
use bmon.Prelude.Bytes.{codes, str_eq}
use bmon.Floats.{whole_floats}
use bmon.Units.{
  Fraction, UnitDef, UnitCfg, get_flist, unit_lookup, unit_add, describe, unit_divisor,
}
use bmon.Units.Pick.{AllAbove, IsLastBelow, unit_divisor_dynamic}

abbrev byte_unit : UnitDef ℕ
byte_unit = record {
  u_name = codes "byte";
  u_default =
      record { f_divisor = 1; f_name = codes "B" }
      ∷ record { f_divisor = 1024; f_name = codes "KiB" }
      ∷ record { f_divisor = 1048576; f_name = codes "MiB" }
      ∷ [];
  u_si = [];
  u_bit = [];
}

abbrev dynamic : UnitCfg
dynamic = record { use_bit = false; use_si = true; cfg_unit_exp = negsuc 0 }

abbrev kilo : UnitCfg
kilo = record { use_bit = false; use_si = false; cfg_unit_exp = pos 1 }

mebibytes :
    unit_divisor whole_floats dynamic 5000000 byte_unit
    ≡ record { value = 1048576; name = codes "MiB"; prec = 2 }
unfolding unit_divisor
mebibytes = refl

kilo_picks_bytes :
    unit_divisor whole_floats kilo 5000000 byte_unit
    ≡ record { value = 1; name = codes "B"; prec = 0 }
unfolding unit_divisor
kilo_picks_bytes = refl

added_twice :
    (unit_add (codes "byte") (unit_add {F = ℕ} (codes "byte") []).1).1
    ≡ record { u_name = codes "byte"; u_default = []; u_si = []; u_bit = [] } ∷ []
unfolding unit_add unit_lookup str_eq
added_twice = refl

unit_divisor_dynamic_example :
    (AllAbove whole_floats 2000 (get_flist dynamic byte_unit)
      × (unit_divisor whole_floats dynamic 2000 byte_unit ≡ describe whole_floats none))
    ⊎ ((f : Fraction ℕ) × IsLastBelow whole_floats 2000 (get_flist dynamic byte_unit) f
        × (unit_divisor whole_floats dynamic 2000 byte_unit ≡ describe whole_floats (some f)))
unit_divisor_dynamic_example = unit_divisor_dynamic whole_floats dynamic 2000 byte_unit refl
