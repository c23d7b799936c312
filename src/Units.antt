-- ===== src/Units.antt =====
-- src/unit.c: the units and their divisors. The global list `units` is the state; a pointer to a
-- unit is its name, which is unique in the list.
pub mod Table
pub mod Pick
mod Tests
use mathlib.Core.List.{reverse}
use bmon.Prelude.{
  ℕ, zero, Bool, true, false, Option, none, some, List, [], ◌∷◌, ◌++◌, if◌then◌else◌,
}
use bmon.Prelude.Int.{ℤ, pos, negsuc, ◌-ℤ◌}
use bmon.Prelude.Bytes.{Bytes, str_eq}
use bmon.Floats.{Floats}

pub record Fraction (F : Type 0) : Type 0 where
  pub f_divisor : F
  pub f_name : Bytes

-- The indices of `u_div`: UNIT_DEFAULT, UNIT_SI, UNIT_BIT.
pub data DivType : Type 0 where
  unit_default unit_si unit_bit : DivType

-- A `struct unit`. The array `u_div` of three lists is a field for each.
pub record UnitDef (F : Type 0) : Type 0 where
  pub u_name : Bytes
  pub u_default : List (Fraction F)
  pub u_si : List (Fraction F)
  pub u_bit : List (Fraction F)

-- What `unit_divisor` reads of the configuration.
pub record UnitCfg : Type 0 where
  pub use_bit : Bool
  pub use_si : Bool
  pub cfg_unit_exp : ℤ

-- The test for DYNAMIC_EXP, -1.
abbrev pub is_dynamic : ℤ → Bool
is_dynamic (negsuc zero) = true
is_dynamic _ = false

abbrev pub is_zero : ℤ → Bool
is_zero (pos zero) = true
is_zero _ = false

module _ {F : Type 0} where
  abbrev pub u_div : UnitDef F → DivType → List (Fraction F)
  u_div unit unit_default = unit.u_default
  u_div unit unit_si = unit.u_si
  u_div unit unit_bit = unit.u_bit

  abbrev pub set_div : UnitDef F → DivType → List (Fraction F) → UnitDef F
  set_div unit unit_default l = record unit { u_default = l }
  set_div unit unit_si l = record unit { u_si = l }
  set_div unit unit_bit l = record unit { u_bit = l }

  unfoldable pub get_flist : UnitCfg → UnitDef F → List (Fraction F)
  get_flist cfg unit =
      let div = if cfg.use_bit then unit_bit else if cfg.use_si then unit_si else unit_default in
      elim (u_div unit div) [ [] ↦ unit.u_default | f ∷ flist ↦ f ∷ flist ]

  unfoldable pub unit_lookup : Bytes → List (UnitDef F) → Option (UnitDef F)
  unit_lookup name [] = none
  unit_lookup name (unit ∷ units) =
      if str_eq name unit.u_name then some unit else unit_lookup name units

  abbrev pub new_unit : Bytes → UnitDef F
  new_unit name = record { u_name = name; u_default = []; u_si = []; u_bit = [] }

  -- The unit that the returned pointer leads to, and the list.
  unfoldable pub unit_add : Bytes → List (UnitDef F) → UnitDef F × List (UnitDef F)
  unit_add name units = elim (unit_lookup name units) [
    | some unit ↦ (unit, units)
    | none ↦ (new_unit name, units ++ new_unit name ∷ [])
  ]

  -- `unit_add_div` writes through the pointer to the unit `name`.
  unfoldable pub unit_add_div : Bytes → DivType → Bytes → F → List (UnitDef F) → List (UnitDef F)
  unit_add_div name type txt div [] = []
  unit_add_div name type txt div (unit ∷ units) =
      if str_eq name unit.u_name
      then set_div unit type (u_div unit type ++ record { f_divisor = div; f_name = txt } ∷ [])
        ∷ units
      else unit ∷ unit_add_div name type txt div units

  -- The loop for a fixed exponent: `if (--n == 0) goto found_it;`.
  unfoldable pub count_down : ℤ → List (Fraction F) → Option (Fraction F)
  unfolding ◌-ℤ◌
  count_down n [] = none
  count_down n (f ∷ flist) =
      let n' = n -ℤ pos 1 in if is_zero n' then some f else count_down n' flist

module _ (fl : Floats) where
  open fl use {
    Float, Double, of_nat, widen, double_of_nat, le, eq, div_double, fmod, is_zero_double,
  }

  -- What `unit_divisor` returns and writes through its pointers. A caller that passes no `prec` does
  -- not read it.
  pub record Divisor : Type 0 where
    pub value : Double
    pub name : Bytes
    pub prec : ℕ

  -- The loop for the dynamic exponent, over the list from its end.
  unfoldable pub find_le : ℕ → List (Fraction Float) → Option (Fraction Float)
  find_le hint [] = none
  find_le hint (f ∷ flist) = if le f.f_divisor (of_nat hint) then some f else find_le hint flist

  -- The two loops of `unit_divisor`: the fraction at `found_it`, if it is reached.
  unfoldable pub pick : ℤ → ℕ → List (Fraction Float) → Option (Fraction Float)
  pick cfg_unit_exp hint flist =
      if is_dynamic cfg_unit_exp
      then find_le hint (reverse flist)
      else count_down cfg_unit_exp flist

  abbrev pub describe : Option (Fraction Float) → Divisor
  describe none = record { value = double_of_nat 1; name = []; prec = 2 }
  describe (some f) = record {
    value = widen f.f_divisor;
    name = f.f_name;
    prec = if eq f.f_divisor (of_nat 1) then 0 else 2;
  }

  unfoldable pub unit_divisor : UnitCfg → ℕ → UnitDef Float → Divisor
  unfolding pick find_le count_down get_flist
  unit_divisor cfg hint unit = describe (pick cfg.cfg_unit_exp hint (get_flist cfg unit))

  unfoldable pub unit_value2str : UnitCfg → ℕ → UnitDef Float → Divisor
  unfolding unit_divisor
  unit_value2str cfg value unit =
      let d = unit_divisor cfg value unit in
      let v = double_of_nat value in
      record {
        value = div_double v d.value;
        name = d.name;
        prec = if is_zero_double (fmod v d.value) then 0 else d.prec;
      }
