-- ===== src/AttrDef/Load.antt =====
-- `attr_map_load`: an input module registers its table of attributes.
use bmon.Prelude.{ℕ, ◌+◌, ◌≡◌, refl, none, some, List, [], ◌∷◌, arith, Option-cases, inl, inr, ◌⊎◌}
use bmon.Units.{UnitDef, unit_lookup}
use bmon.AttrDef.{AttrDefs, attr_def_add, AttrMap, attr_map_load}
use bmon.AttrDef.Laws.{IsValid, IsRegistered, attr_def_add-IsValid, attr_def_add-IsRegistered}
use bmon.AttrDef.Laws.{attr_def_add-keeps}
use bmon.Prelude.Bytes.{Bytes}

module _ {F : Type 0} (units : List (UnitDef F)) where
  -- The entries that name no registered unit.
  abbrev pub unknown_units : List AttrMap → ℕ
  unknown_units [] = 0
  unknown_units (m ∷ map) = elim (unit_lookup m.unit units) [
    | none ↦ unknown_units map + 1
    | some u ↦ unknown_units map
  ]

  -- Every entry with a registered unit carries the identifier of the attribute of its name.
  abbrev pub AllRegistered : AttrDefs → List AttrMap → Type 0
  AllRegistered ds [] = Unit
  AllRegistered ds (m ∷ map) =
      ((unit_lookup m.unit units ≡ none) ⊎ IsRegistered m.name m.attrid ds) × AllRegistered ds map

  load-keeps :
      (j : Bytes) (id : ℕ) (map : List AttrMap) (ds : AttrDefs)
      → IsRegistered j id ds
      → IsRegistered j id (attr_map_load units map ds).defs
  unfolding attr_map_load
  load-keeps j id [] ds r = r
  load-keeps j id (m ∷ map) ds r = elim (Option-cases (unit_lookup m.unit units)) [
    | inl e ↦ rw (e, attr_map_load) (load-keeps j id map ds r)
    | inr (u, e) ↦
        rw (e, attr_map_load)
          (load-keeps j id map (attr_def_add m.name (some m.description) m.unit m.type m.flags ds).1
            (attr_def_add-keeps m.name j id (some m.description) m.unit m.type m.flags ds r))
  ]

  -- `attr_map_load` returns the number of entries whose unit is not registered, fills in the
  -- identifier of every other entry, and keeps names and identifiers unique.
  pub attr_map_load_lem :
      (map : List AttrMap) (ds : AttrDefs)
      → IsValid ds
      → let r = attr_map_load units map ds in
        (r.nfailed ≡ unknown_units map) × AllRegistered r.defs r.map × IsValid r.defs
  unfolding attr_map_load
  attr_map_load_lem [] ds v = (refl, tt, v)
  attr_map_load_lem (m ∷ map) ds v = elim (Option-cases (unit_lookup m.unit units)) [
    | inl e ↦
        let (n, a, v') = attr_map_load_lem map ds v in
        rw (e, attr_map_load) (ground (arith, n, e), (inl e, a), v')
    | inr (u, e) ↦
        let ds' = (attr_def_add m.name (some m.description) m.unit m.type m.flags ds).1 in
        let v' = attr_def_add-IsValid m.name (some m.description) m.unit m.type m.flags ds v in
        let r = attr_def_add-IsRegistered m.name (some m.description) m.unit m.type m.flags ds v in
        let (n, a, v'') = attr_map_load_lem map ds' v' in
        rw (e, attr_map_load) (ground (arith, n, e), (inr (load-keeps m.name _ map ds' r), a), v'')
  ]
