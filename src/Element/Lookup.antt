-- ===== src/Element/Lookup.antt =====
-- `element_lookup` on all its branches.
use bmon.Prelude.{
  ℕ, ◌+◌, ◌≡◌, refl, sym, ap, ◌∙◌, Bool, true, false, Option, none, some, arith, if◌then◌else◌,
  ◌&&◌, ◌||◌, Bool-cases, Option-cases, inl, inr,
}
use bmon.Prelude.Bytes.{Bytes, str_eq_iff, str_eq_comm}
use bmon.Floats.{Floats}
use bmon.ElementCfg.{ElementCfg, CfgList, element_cfg_lookup}
use bmon.Policy.{element_allowed}
use bmon.Tree.{Elements, empty, entry}
use bmon.Element.{
  Element, ElementEnv, ElementStore, element_update_info, element_set_rxmax, element_set_txmax,
  with_cfg, set_description, is_named, lookup_in, add_tail, size, new_element, apply_cfg,
  element_lookup,
}
use bmon.Element.Facts.{
  UniqueElements, IsCounted, IsFor, same_element, is_named-IsFor, lookup_in-none,
}

module _ {F : Type 0} where
  size-add_tail : (e : Element F) (es : Elements (Element F)) → size (add_tail e es) ≡ size es + 1
  unfolding size add_tail
  size-add_tail e empty = refl
  size-add_tail e (entry e' childs next) = omega (arith, size-add_tail e next)

  lookup_in-add_tail :
      (j : Bytes) (k : ℕ) (e : Element F) (es : Elements (Element F))
      → lookup_in j k (add_tail e es) ≡ elim (lookup_in j k es) [
        | some old ↦ some old
        | none ↦ if is_named j k e then some e else none
      ]
  unfolding lookup_in add_tail
  lookup_in-add_tail j k e empty = refl
  lookup_in-add_tail j k e (entry e' childs next) = ground (arith, lookup_in-add_tail j k e next)

  is_named_comm : (e e' : Element F) → is_named e.e_name e.e_id e' ≡ is_named e'.e_name e'.e_id e
  is_named_comm e e' = ground (arith, str_eq_comm e.e_name e'.e_name)

  add_tail-UniqueElements :
      (e : Element F) (es : Elements (Element F))
      → UniqueElements es
      → lookup_in e.e_name e.e_id es ≡ none
      → UniqueElements (add_tail e es)
  unfolding add_tail lookup_in
  add_tail-UniqueElements e empty u h = (refl, tt)
  add_tail-UniqueElements e (entry e' childs next) (fresh, u) h =
      let (n, h') = lookup_in-none e.e_name e.e_id e' childs next h in
      (
        lookup_in-add_tail e'.e_name e'.e_id e next ∙ rw (fresh, is_named_comm e' e, n) refl,
        add_tail-UniqueElements e next u h',
      )

abbrev pub is_some {ℓ} : {A : Type ℓ} → Option A → Bool
is_some none = false
is_some (some a) = true

module _ (fl : Floats) where
  open fl use {Float}

  set_max-keeps :
      (env : ElementEnv Float) (e : Element Float) (max : ℕ) (cfgs : CfgList)
      → ((element_set_rxmax env e max cfgs).0.e_name ≡ e.e_name)
        × ((element_set_rxmax env e max cfgs).0.e_id ≡ e.e_id)
        × ((element_set_txmax env e max cfgs).0.e_name ≡ e.e_name)
        × ((element_set_txmax env e max cfgs).0.e_id ≡ e.e_id)
  unfolding element_set_rxmax element_set_txmax
  set_max-keeps env e max cfgs = elim (Option-cases e.e_cfg) [
    | inl n ↦ rw (n, with_cfg) (refl, refl, refl, refl)
    | inr (c, n) ↦ rw (n, with_cfg) (refl, refl, refl, refl)
  ]

  set_description-IsFor :
      (name : Bytes) (id : ℕ) (e : Element Float) (description : Option Bytes)
      → IsFor name id e
      → IsFor name id (set_description e description)
  unfolding element_update_info
  set_description-IsFor name id e none f = f
  set_description-IsFor name id e (some d) f = f

  apply_cfg-IsFor :
      (env : ElementEnv Float) (name : Bytes) (id : ℕ) (e : Element Float) (cfg : Option ElementCfg)
      (cfgs : CfgList)
      → IsFor name id e
      → IsFor name id (apply_cfg fl env e cfg cfgs).0
  unfolding apply_cfg
  apply_cfg-IsFor env name id e none cfgs f = f
  apply_cfg-IsFor env name id e (some ec) cfgs f =
      let d = set_description e ec.ec_description in
      let (a, b) = set_description-IsFor name id e ec.ec_description f in
      let r = set_max-keeps env d ec.ec_rxmax cfgs in
      let (e', cfgs') = element_set_rxmax env d ec.ec_rxmax cfgs in
      let t = set_max-keeps env e' ec.ec_txmax cfgs' in (t.2 ∙ r.0 ∙ a, t.3 ∙ r.1 ∙ b)

  -- The element that `element_lookup` would make.
  unfoldable pub made_element : ElementEnv Float → Bytes → ℕ → CfgList → Element Float
  made_element env name id cfgs =
      (apply_cfg fl env (new_element fl env name id (element_cfg_lookup name cfgs))
        (element_cfg_lookup name cfgs) cfgs).0

  made_element-IsFor :
      (env : ElementEnv Float) (name : Bytes) (id : ℕ) (cfgs : CfgList)
      → IsFor name id (made_element env name id cfgs)
  unfolding made_element new_element
  made_element-IsFor env name id cfgs =
      apply_cfg-IsFor env name id (new_element fl env name id (element_cfg_lookup name cfgs))
        (element_cfg_lookup name cfgs) cfgs (refl, refl)

  -- What a lookup leaves: the count and the names as they should be; the element that it returned, for
  -- every later lookup of the name and identifier; the other elements as before; an element exactly
  -- where there is one, or one may be made, and this is the one that is there, or the new one; and the
  -- state as it was where nothing new is returned.
  pub record AfterLookup (env : ElementEnv Float) (name : Bytes) (id : ℕ) (create : Bool)
      (st : ElementStore Float) (r : Option (Element Float) × ElementStore Float) : Type 0 where
    pub valid : IsCounted r.1
    pub later :
        (j : Bytes) (k : ℕ)
        → lookup_in j k r.1.elements
          ≡ (if same_element j k name id then r.0 else lookup_in j k st.elements)
    pub exists : is_some r.0 ≡ (
        is_some (lookup_in name id st.elements)
        || (create && element_allowed env.policies name (element_cfg_lookup name st.cfgs)))
    pub returned : r.0 ≡ elim (lookup_in name id st.elements) [
      | some old ↦ some old
      | none ↦
          if create && element_allowed env.policies name (element_cfg_lookup name st.cfgs)
          then some (made_element env name id st.cfgs)
          else none
    ]
    pub unchanged : r.0 ≡ lookup_in name id st.elements → r.1 ≡ st

  same_element-lookup :
      (j name : Bytes) (k id : ℕ) (es : Elements (Element Float)) (o : Option (Element Float))
      → lookup_in name id es ≡ o
      → lookup_in j k es ≡ (if same_element j k name id then o else lookup_in j k es)
  same_element-lookup j name k id es o h = elim (Bool-cases (same_element j k name id)) [
    | inl s ↦
        let a : j ≡ name = ground (arith, str_eq_iff j name) in
        let b : id ≡ k = ground arith in rw (s, a, ← b) h
    | inr s ↦ rw s refl
  ]

  or_other :
      (o : Option (Element Float)) (e : Element Float) (b : Bool)
      → b ≡ false
      → elim o [ some old ↦ some old | none ↦ if b then some e else none ] ≡ o
  or_other none e b h = rw h refl
  or_other (some old) e b h = refl

  add_tail-later :
      (j name : Bytes) (k id : ℕ) (es : Elements (Element Float)) (e : Element Float)
      → IsFor name id e
      → lookup_in name id es ≡ none
      → lookup_in j k (add_tail e es)
        ≡ (if same_element j k name id then some e else lookup_in j k es)
  add_tail-later j name k id es e (a, b) h =
      let named = is_named-IsFor j name k id e (a, b) in
      lookup_in-add_tail j k e es ∙ elim (Bool-cases (same_element j k name id)) [
        | inl s ↦
            let a' : j ≡ name = ground (arith, str_eq_iff j name) in
            let b' : id ≡ k = ground arith in
            let gone : lookup_in j k es ≡ none = rw (a', ← b') h in rw (gone, named, s) refl
        | inr s ↦ rw s (or_other (lookup_in j k es) e (is_named j k e) (named ∙ s))
      ]

  -- Where names are unique and `g_nelements` is the number of elements, `element_lookup` returns the
  -- element that is there as it is, or a new one where that is asked for and the policy allows it, and
  -- otherwise nothing; the state changes for a new one only. What it returned is found from then on,
  -- other elements are found as before, and names stay unique and `g_nelements` the number of elements.
  pub element_lookup-AfterLookup :
      (env : ElementEnv Float) (name : Bytes) (id : ℕ) (create : Bool) (st : ElementStore Float)
      → IsCounted st
      → AfterLookup env name id create st (element_lookup fl env name id create st)
  unfolding element_lookup made_element
  element_lookup-AfterLookup env name id create st v =
      let may = create && element_allowed env.policies name (element_cfg_lookup name st.cfgs) in
      let e = made_element env name id st.cfgs in
      let f = made_element-IsFor env name id st.cfgs in
      elim (Option-cases (lookup_in name id st.elements)) [
        | inr (old, h) ↦
            rw (h, element_lookup)
              (record {
                valid = v;
                later = λ j k. same_element-lookup j name k id st.elements (some old) h;
                exists = rw h refl;
                returned = rw h refl;
                unchanged = λ q. refl;
              })
        | inl h ↦ elim (Bool-cases may) [
          | inl m ↦
              rw (h, m, element_lookup)
                (record {
                  valid = record {
                    unique = add_tail-UniqueElements e st.elements v.unique (
                        ap (λ n. lookup_in n e.e_id st.elements) f.0
                        ∙ ap (λ i. lookup_in name i st.elements) f.1
                        ∙ h);
                    counted = ap (λ n. n + 1) v.counted ∙ sym (size-add_tail e st.elements);
                  };
                  later = λ j k. add_tail-later j name k id st.elements e f h;
                  exists = rw (h, m) refl;
                  returned = rw (h, m) refl;
                  unchanged = λ q. cc;
                })
          | inr m ↦
              rw (h, m, element_lookup)
                (record {
                  valid = v;
                  later = λ j k. same_element-lookup j name k id st.elements none h;
                  exists = rw (h, m) refl;
                  returned = rw (h, m) refl;
                  unchanged = λ q. refl;
                })
        ]
      ]
