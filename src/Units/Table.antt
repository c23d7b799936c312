-- ===== src/Units/Table.antt =====
-- The list of units: lookup after registration, and what `unit_add_div` changes.
use bmon.Prelude.{◌≡◌, refl, none, some, List, [], ◌∷◌, ◌++◌, arith, if◌then◌else◌}
use mathlib.Core.Option
use bmon.Prelude.Bytes.{Bytes, str_eq, str_eq_iff, str_eq_refl}
use bmon.Units.{
  Fraction, DivType, unit_default, unit_si, unit_bit, UnitDef, u_div, set_div, unit_lookup,
  new_unit, unit_add, unit_add_div,
}

module _ {F : Type 0} where
  lookup-append :
      (name : Bytes) (us vs : List (UnitDef F))
      → unit_lookup name (us ++ vs)
        ≡ elim (unit_lookup name us) [ none ↦ unit_lookup name vs | some u ↦ some u ]
  unfolding unit_lookup
  lookup-append name [] vs = refl
  lookup-append name (u ∷ us) vs = ground (arith, lookup-append name us vs)

  -- After `unit_add` the name is registered, with the unit that was returned; every other name is
  -- found as before, and registering the name again changes nothing.
  pub unit_add_lem :
      (name j : Bytes) (us : List (UnitDef F))
      → (unit_lookup j (unit_add name us).1
          ≡ (if str_eq j name then some (unit_add name us).0 else unit_lookup j us))
        × (unit_add name (unit_add name us).1 ≡ unit_add name us)
  unfolding unit_add unit_lookup
  unit_add_lem name j us = (found, again)
    where
      found :
          unit_lookup j (unit_add name us).1
          ≡ (if str_eq j name then some (unit_add name us).0 else unit_lookup j us)
      found = ground (arith, str_eq_iff j name, lookup-append j us (new_unit name ∷ []))

      again : unit_add name (unit_add name us).1 ≡ unit_add name us
      again = ground (arith, str_eq_refl name, lookup-append name us (new_unit name ∷ []))

  set_div-name :
      (u : UnitDef F) (type : DivType) (l : List (Fraction F))
      → (set_div u type l).u_name ≡ u.u_name
  set_div-name u unit_default l = refl
  set_div-name u unit_si l = refl
  set_div-name u unit_bit l = refl

  -- `unit_add_div` adds one fraction at the end of the named list of the named unit, if that unit is
  -- registered; the other lists, the other units and the names are as before.
  pub unit_add_div_lem :
      (name j txt : Bytes) (type : DivType) (div : F) (us : List (UnitDef F))
      → unit_lookup j (unit_add_div name type txt div us) ≡ (
          if str_eq j name
          then Option.map
              (λ u. set_div u type (u_div u type ++ record { f_divisor = div; f_name = txt } ∷ []))
              (unit_lookup j us)
          else unit_lookup j us)
  unfolding unit_lookup unit_add_div
  unit_add_div_lem name j txt type div [] = ground arith
  unit_add_div_lem name j txt type div (u ∷ us) = ground (
    arith,
    str_eq_iff j name,
    str_eq_iff name u.u_name,
    str_eq_iff j u.u_name,
    set_div-name u type (u_div u type ++ record { f_divisor = div; f_name = txt } ∷ []),
    unit_add_div_lem name j txt type div us,
  )
