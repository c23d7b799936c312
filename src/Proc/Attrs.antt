-- ===== src/Proc/Attrs.antt =====
-- The numbers of a line arrive in the attributes of the element.

use bmon.Prelude.{
  ℕ, ◌≡◌, ◌≢◌, refl, ◌∙◌, true, false, Option, some, List, [], ◌∷◌, arith, ◌==◌, Option-cases, inl,
  inr,
}
use bmon.Floats.{Floats}
use bmon.AttrDef.{AttrDef, AttrDefs, AttrMap, attr_def_lookup_id}
use bmon.Attr.{Attr, ElementAttrs, attr_lookup, set_counters, new_attr}
use bmon.Attr.Table.{target, attr_lookup-attr_update}
use bmon.Proc.{proc_update, ProcEnv, update_attr, rx_and_tx}

-- No other entry of the map has the identifier.
abbrev pub NotIn : ℕ → List AttrMap → Type 0
NotIn id [] = Unit
NotIn id (m ∷ map) = (id ≢ m.attrid) × NotIn id map

abbrev pub AllDistinct : List AttrMap → Type 0
AllDistinct [] = Unit
AllDistinct (m ∷ map) = NotIn m.attrid map × AllDistinct map

-- Each entry has its definition, as `attr_map_load` leaves it.
abbrev pub AllDefined : List AttrMap → AttrDefs → Type 0
AllDefined [] defs = Unit
AllDefined (m ∷ map) defs =
    ((def : AttrDef) × (attr_def_lookup_id m.attrid defs ≡ some def)) × AllDefined map defs

module _ {F : Type 0} where
  -- The attribute has the two counter values.
  pub record HasCurrent (o : Option (Attr F)) (rx tx : ℕ) : Type 0 where
    pub attr : Attr F
    pub found : o ≡ some attr
    pub rx_current : attr.a_rx_rate.r_current ≡ rx
    pub tx_current : attr.a_tx_rate.r_current ≡ tx

  -- Each entry of the map has an attribute with the two numbers that belong to it.
  abbrev pub AllCurrent : List AttrMap → List (ℕ × ℕ) → ElementAttrs F → Type 0
  AllCurrent (m ∷ map) ((rx, tx) ∷ values) e =
      HasCurrent (attr_lookup e m.attrid) rx tx × AllCurrent map values e
  AllCurrent _ _ e = Unit

  abbrev move_current :
      (o o' : Option (Attr F)) (rx tx : ℕ) → o' ≡ o → HasCurrent o rx tx → HasCurrent o' rx tx
  move_current o o' rx tx e h = record {
    attr = h.attr;
    found = e ∙ h.found;
    rx_current = h.rx_current;
    tx_current = h.tx_current;
  }

module _ (fl : Floats) where
  open fl use {Float}

  attr_update-HasCurrent :
      (pe : ProcEnv Float) (e : ElementAttrs Float) (id rx tx : ℕ) (def : AttrDef)
      → attr_def_lookup_id id pe.defs ≡ some def
      → HasCurrent (attr_lookup (update_attr fl pe id rx tx e) id) rx tx
  unfolding target set_counters
  attr_update-HasCurrent pe e id rx tx def d =
      let law = attr_lookup-attr_update fl pe.env.attr_cfg pe.defs e id rx tx rx_and_tx pe.now id in
      let self : (id == id) ≡ true = ground arith in
      elim (Option-cases (attr_lookup e id)) [
        | inl n ↦ record {
          attr = set_counters rx tx rx_and_tx pe.now (new_attr fl pe.env.attr_cfg e def);
          found = law ∙ rw (self, n, d, target) refl;
          rx_current = refl;
          tx_current = refl;
        }
        | inr (a, n) ↦ record {
          attr = set_counters rx tx rx_and_tx pe.now a;
          found = law ∙ rw (self, n, target) refl;
          rx_current = refl;
          tx_current = refl;
        }
      ]

  attr_update-other :
      (pe : ProcEnv Float) (e : ElementAttrs Float) (id j rx tx : ℕ)
      → j ≢ id
      → attr_lookup (update_attr fl pe id rx tx e) j ≡ attr_lookup e j
  attr_update-other pe e id j rx tx n =
      let other : (j == id) ≡ false = ground arith in
      attr_lookup-attr_update fl pe.env.attr_cfg pe.defs e id rx tx rx_and_tx pe.now j
      ∙ rw other refl

  proc_update-other :
      (pe : ProcEnv Float) (map : List AttrMap) (values : List (ℕ × ℕ)) (e : ElementAttrs Float)
      (j : ℕ)
      → NotIn j map
      → attr_lookup (proc_update (update_attr fl pe) map values e) j ≡ attr_lookup e j
  unfolding proc_update
  proc_update-other pe [] values e j n = refl
  proc_update-other pe (m ∷ map) [] e j n = refl
  proc_update-other pe (m ∷ map) ((rx, tx) ∷ values) e j n =
      proc_update-other pe map values (update_attr fl pe m.attrid rx tx e) j n.1
      ∙ attr_update-other pe e m.attrid j rx tx n.0

  -- After the loop over the attributes of a link each has the numbers of the line that belong to it.
  pub proc_update-AllCurrent :
      (pe : ProcEnv Float) (map : List AttrMap) (values : List (ℕ × ℕ)) (e : ElementAttrs Float)
      → AllDistinct map
      → AllDefined map pe.defs
      → AllCurrent map values (proc_update (update_attr fl pe) map values e)
  unfolding proc_update
  proc_update-AllCurrent pe [] values e d r = tt
  proc_update-AllCurrent pe (m ∷ map) [] e d r = tt
  proc_update-AllCurrent pe (m ∷ map) ((rx, tx) ∷ values) e (n, d) ((def, k), r) =
      let e' = update_attr fl pe m.attrid rx tx e in
      (
        move_current _ _ rx tx (proc_update-other pe map values e' m.attrid n)
            (attr_update-HasCurrent pe e m.attrid rx tx def k),
        proc_update-AllCurrent pe map values e' d r,
      )
