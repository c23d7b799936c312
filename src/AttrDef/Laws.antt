-- ===== src/AttrDef/Laws.antt =====
-- The table of attribute definitions: unique names, unique identifiers, and what registration finds.
use bmon.Prelude.{
  ℕ, ◌+◌, ◌≤◌, ◌<◌, ◌≡◌, refl, Option, none, some, List, [], ◌∷◌, ◌++◌, arith, Option-cases, inl,
  inr,
}
use bmon.Prelude.Bytes.{Bytes, str_eq_iff, str_eq_refl, str_eq_comm}
use bmon.AttrDef.{
  AttrType, AttrFlags, AttrDef, AttrDefs, find_name, find_id, attr_def_lookup, attr_def_lookup_id,
  or_empty, attr_def_add,
}

-- No two definitions share a name or an identifier, and the identifiers are below `gen`.
abbrev pub Distinct : ℕ → List AttrDef → Type 0
Distinct gen [] = Unit
Distinct gen (def ∷ defs) =
    (def.ad_id < gen)
    × (find_name def.ad_name defs ≡ none)
    × (find_id def.ad_id defs ≡ none)
    × Distinct gen defs

abbrev pub IsValid : AttrDefs → Type 0
IsValid ds = Distinct ds.attr_id_gen ds.attr_def_list

find_name-append :
    (name : Bytes) (xs ys : List AttrDef)
    → find_name name (xs ++ ys)
      ≡ elim (find_name name xs) [ none ↦ find_name name ys | some d ↦ some d ]
unfolding find_name
find_name-append name [] ys = refl
find_name-append name (x ∷ xs) ys = ground (arith, find_name-append name xs ys)

pub find_id-append :
    (id : ℕ) (xs ys : List AttrDef)
    → find_id id (xs ++ ys) ≡ elim (find_id id xs) [ none ↦ find_id id ys | some d ↦ some d ]
unfolding find_id
find_id-append id [] ys = refl
find_id-append id (x ∷ xs) ys = ground (arith, find_id-append id xs ys)

find_id-fresh : (gen id : ℕ) (xs : List AttrDef) → Distinct gen xs → gen ≤ id → find_id id xs ≡ none
unfolding find_id
find_id-fresh gen id [] v h = refl
find_id-fresh gen id (x ∷ xs) v h = ground (arith, find_id-fresh gen id xs v.3 h)

Distinct-append :
    (def : AttrDef) (gen : ℕ) (xs : List AttrDef)
    → Distinct gen xs
    → find_name def.ad_name xs ≡ none
    → def.ad_id ≡ gen
    → Distinct (gen + 1) (xs ++ def ∷ [])
unfolding find_name find_id
Distinct-append def gen [] v n e = (omega arith, refl, refl, tt)
Distinct-append def gen (x ∷ xs) v n e = ground (
  arith,
  str_eq_comm def.ad_name x.ad_name,
  find_name-append x.ad_name xs (def ∷ []),
  find_id-append x.ad_id xs (def ∷ []),
  Distinct-append def gen xs v.3,
)

-- Registering an attribute keeps the names and the identifiers unique, and the next identifier above
-- all of them.
pub attr_def_add-IsValid :
    (name : Bytes) (desc : Option Bytes) (unit : Bytes) (type : AttrType) (flags : AttrFlags)
    (ds : AttrDefs)
    → IsValid ds
    → IsValid (attr_def_add name desc unit type flags ds).1
unfolding attr_def_add
attr_def_add-IsValid name desc unit type flags ds v =
    elim (Option-cases (find_name name ds.attr_def_list)) [
      | inl e ↦ rw (e, attr_def_add) (Distinct-append _ ds.attr_id_gen ds.attr_def_list v e refl)
      | inr (d, e) ↦ rw (e, attr_def_add) v
    ]

find_name-name :
    (name : Bytes) (xs : List AttrDef) (d : AttrDef) → find_name name xs ≡ some d → d.ad_name ≡ name
unfolding find_name
find_name-name name [] d h = cc
find_name-name name (x ∷ xs) d h =
    ground (arith, str_eq_iff name x.ad_name, find_name-name name xs d)

find_id-of_find_name :
    (gen : ℕ) (name : Bytes) (xs : List AttrDef) (d : AttrDef)
    → Distinct gen xs
    → find_name name xs ≡ some d
    → find_id d.ad_id xs ≡ some d
unfolding find_name find_id
find_id-of_find_name gen name [] d v h = cc
find_id-of_find_name gen name (x ∷ xs) d v h =
    ground (arith, find_id-of_find_name gen name xs d v.3)

-- The name and the identifier lead to one definition, which carries both.
pub record IsRegistered (name : Bytes) (id : ℕ) (ds : AttrDefs) : Type 0 where
  pub def : AttrDef
  pub by_name : attr_def_lookup name ds ≡ some def
  pub by_id : attr_def_lookup_id id ds ≡ some def
  pub has_name : def.ad_name ≡ name
  pub has_id : def.ad_id ≡ id

-- After `attr_def_add` the name and the identifier that was returned lead to one definition, which
-- carries both.
pub attr_def_add-IsRegistered :
    (name : Bytes) (desc : Option Bytes) (unit : Bytes) (type : AttrType) (flags : AttrFlags)
    (ds : AttrDefs)
    → IsValid ds
    → IsRegistered name
        (attr_def_add name desc unit type flags ds).0
        (attr_def_add name desc unit type flags ds).1
unfolding attr_def_add attr_def_lookup_id find_name find_id
attr_def_add-IsRegistered name desc unit type flags ds v =
    let defs = ds.attr_def_list in
    let gen = ds.attr_id_gen in
    elim (Option-cases (find_name name defs)) [
      | inl e ↦
          rw (e, attr_def_add)
            (record {
              def = new;
              by_name = ground (arith, find_name-append name defs (new ∷ []), str_eq_refl name);
              by_id = ground (
                arith,
                find_id-append gen defs (new ∷ []),
                find_id-fresh gen gen defs v (omega arith),
              );
              has_name = refl;
              has_id = refl;
            })
      | inr (d, e) ↦
          rw (e, attr_def_add)
            (record {
              def = d;
              by_name = e;
              by_id = find_id-of_find_name gen name defs d v e;
              has_name = find_name-name name defs d e;
              has_id = refl;
            })
    ]
  where
    new : AttrDef
    new = record {
      ad_id = ds.attr_id_gen;
      ad_name = name;
      ad_description = or_empty desc;
      ad_type = type;
      ad_flags = flags;
      ad_unit = unit;
    }

-- What `attr_def_add` returned for one name stays registered while other attributes are added.
pub attr_def_add-keeps :
    (name j : Bytes) (id : ℕ) (desc : Option Bytes) (unit : Bytes) (type : AttrType)
    (flags : AttrFlags) (ds : AttrDefs)
    → IsRegistered j id ds
    → IsRegistered j id (attr_def_add name desc unit type flags ds).1
unfolding attr_def_add attr_def_lookup_id
attr_def_add-keeps name j id desc unit type flags ds r =
    elim (Option-cases (find_name name ds.attr_def_list)) [
      | inl e ↦
          rw (e, attr_def_add)
            (record {
              def = r.def;
              by_name = ground (arith, r.by_name, find_name-append j ds.attr_def_list (new ∷ []));
              by_id = ground (arith, r.by_id, find_id-append id ds.attr_def_list (new ∷ []));
              has_name = r.has_name;
              has_id = r.has_id;
            })
      | inr (d, e) ↦ rw (e, attr_def_add) r
    ]
  where
    new : AttrDef
    new = record {
      ad_id = ds.attr_id_gen;
      ad_name = name;
      ad_description = or_empty desc;
      ad_type = type;
      ad_flags = flags;
      ad_unit = unit;
    }
