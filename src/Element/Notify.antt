-- ===== src/Element/Notify.antt =====
-- `element_notify_update`: it ends, and what it does to each attribute.

use bmon.Prelude.{
  ℕ, zero, suc, ◌≤◌, ◌<◌, ◌≡◌, refl, sym, ap, subst, ◌∙◌, Bool, true, false, Option, some, List, [],
  ◌∷◌, arith, if◌then◌else◌, ◌==◌, Bool-cases, inl, inr, ◌>>=◌,
}
use bmon.Clock.{Timestamp}
use bmon.Floats.{Floats}
use bmon.Attr.{
  Attr, ElementAttrs, AttrCfg, attr_hash, attr_hash_size, find_attr, attr_lookup, set_bucket,
  attr_notify_update,
}
use bmon.Element.Ends.{AllEnd, AttrsEnd, attr_notify_update_total, notify_rates-KeepsAttr}
use bmon.ElementCfg.{CfgList}
use bmon.Element.{
  Element, ElementEnv, notify_list, notify_buckets, set_usage, element_notify_update,
}

module _ (fl : Floats) where
  open fl use {Float}

  abbrev pub notified : ℕ → AttrCfg Float → Timestamp → Option (Attr Float) → Option (Attr Float)
  notified fuel cfg ts o = o >>= λ a. attr_notify_update fl fuel cfg a ts

  bind-choice :
      {A : Type 0} (f : A → Option A) (b b' : Bool) (a a' : A) (o o' : Option A)
      → b' ≡ b
      → f a ≡ some a'
      → o' ≡ (o >>= f)
      → (if b' then some a' else o') ≡ ((if b then some a else o) >>= f)
  bind-choice f true true a a' o o' e h r = sym h
  bind-choice f false false a a' o o' e h r = r
  bind-choice f true false a a' o o' e h r = cc
  bind-choice f false true a a' o o' e h r = cc

  notify_list_total :
      (fuel : ℕ) (env : ElementEnv Float) (ts : Timestamp) (attrs : List (Attr Float))
      → AttrsEnd fl fuel ts attrs
      → (attrs' : List (Attr Float)) × (notify_list fl fuel env ts attrs ≡ some attrs')
        × ((id : ℕ) → find_attr id attrs' ≡ notified fuel env.attr_cfg ts (find_attr id attrs))
  unfolding notify_list find_attr
  notify_list_total fuel env ts [] v = ([], refl, λ id. refl)
  notify_list_total fuel env ts (a ∷ attrs) (v, vs) =
      let n = attr_notify_update_total fl fuel env.attr_cfg a ts v in
      let (attrs', e, found) = notify_list_total fuel env ts attrs vs in
      let def : n.attr.a_def ≡ a.a_def =
        ap (λ (b : Attr Float). b.a_def) n.rates
        ∙ (notify_rates-KeepsAttr fl env.attr_cfg a ts a.a_def.ad_type refl).definition in
      (
        n.attr ∷ attrs',
        rw (n.result, e) refl,
        λ id.
            bind-choice (λ b. attr_notify_update fl fuel env.attr_cfg b ts) _ _ a n.attr _ _
              (ap (λ d. d.ad_id == id) def) n.result (found id),
      )

  -- The buckets of the hash after an update of the first `n`.
  record AfterBuckets (fuel : ℕ) (env : ElementEnv Float) (ts : Timestamp) (n : ℕ)
      (hash : ℕ → List (Attr Float)) : Type 0 where
    hash' : ℕ → List (Attr Float)
    result : notify_buckets fl fuel env ts n hash ≡ some hash'
    done :
        (h id : ℕ)
        → h < n
        → find_attr id (hash' h) ≡ notified fuel env.attr_cfg ts (find_attr id (hash h))
    left : (h : ℕ) → n ≤ h → hash' h ≡ hash h

  notify_buckets_total :
      (fuel : ℕ) (env : ElementEnv Float) (ts : Timestamp) (n : ℕ) (hash : ℕ → List (Attr Float))
      → ((h : ℕ) → AttrsEnd fl fuel ts (hash h))
      → AfterBuckets fuel env ts n hash
  unfolding notify_buckets set_bucket
  notify_buckets_total fuel env ts zero hash v = record {
    hash' = hash;
    result = refl;
    done = λ h id l. ground arith;
    left = λ h l. refl;
  }
  notify_buckets_total fuel env ts (suc n) hash v =
      let r = notify_buckets_total fuel env ts n hash v in
      let bucket : r.hash' n ≡ hash n = r.left n (omega arith) in
      let (attrs, e, found) = notify_list_total fuel env ts (hash n) (v n) in
      record {
        hash' = set_bucket r.hash' n attrs;
        result = rw (r.result, bucket, e) refl;
        done = λ h id l. elim (Bool-cases (h == n)) [
          | inl s ↦
              let here : n ≡ h = ground arith in
              rw s (found id) ∙ ap (λ k. notified fuel env.attr_cfg ts (find_attr id (hash k))) here
          | inr s ↦ let before : h < n = ground arith in rw s (r.done h id before)
        ];
        left = λ h l.
            (let other : (h == n) ≡ false = ground arith in rw other (r.left h (omega arith)));
      }

  -- The element after an update: each of its attributes is updated, and it is marked as updated and has
  -- its usages. Nothing else changes.
  pub record IsNotified (fuel : ℕ) (env : ElementEnv Float) (cfgs : CfgList) (e : Element Float)
      (ts : Timestamp) : Type 0 where
    pub attrs : ElementAttrs Float
    pub result :
        element_notify_update fl fuel env cfgs e ts
        ≡ some (set_usage fl env cfgs (record e { e_updated = true; e_attrs = attrs }))
    pub each :
        (id : ℕ) → attr_lookup attrs id ≡ notified fuel env.attr_cfg ts (attr_lookup e.e_attrs id)

  -- Where every history of the attributes is valid and the fuel is enough for the time that it is
  -- behind, `element_notify_update` ends, with every attribute updated.
  pub element_notify_update-IsNotified :
      (fuel : ℕ) (env : ElementEnv Float) (cfgs : CfgList) (e : Element Float) (ts : Timestamp)
      → ((h : ℕ) → AttrsEnd fl fuel ts (e.e_attrs.e_attrhash h))
      → IsNotified fuel env cfgs e ts
  unfolding element_notify_update attr_lookup attr_hash
  element_notify_update-IsNotified fuel env cfgs e ts v =
      let r = notify_buckets_total fuel env ts attr_hash_size e.e_attrs.e_attrhash v in
      record {
        attrs = record (e.e_attrs) { e_attrhash = r.hash' };
        result = rw r.result refl;
        each = λ id. r.done (attr_hash id) id (omega arith);
      }

  find_attr-AllEnd :
      (fuel : ℕ) (ts : Timestamp) (attrs : List (Attr Float)) (id : ℕ) (a : Attr Float)
      → AttrsEnd fl fuel ts attrs
      → find_attr id attrs ≡ some a
      → AllEnd fl fuel ts a.a_history_list
  unfolding find_attr
  find_attr-AllEnd fuel ts [] id a v h = cc
  find_attr-AllEnd fuel ts (b ∷ attrs) id a (v, vs) h = elim (Bool-cases (b.a_def.ad_id == id)) [
    | inl s ↦
        let same : b ≡ a = cc in
        subst (λ (c : Attr Float). AllEnd fl fuel ts c.a_history_list) same v
    | inr s ↦
        let rest : find_attr id attrs ≡ some a = cc in find_attr-AllEnd fuel ts attrs id a vs rest
  ]

  -- An attribute keeps its counter values over an update.
  pub notified-currents :
      (fuel : ℕ) (cfg : AttrCfg Float) (ts : Timestamp) (attrs : List (Attr Float)) (id : ℕ)
      (a : Attr Float)
      → AttrsEnd fl fuel ts attrs
      → find_attr id attrs ≡ some a
      → (a' : Attr Float) × (notified fuel cfg ts (some a) ≡ some a')
        × (a'.a_rx_rate.r_current ≡ a.a_rx_rate.r_current)
        × (a'.a_tx_rate.r_current ≡ a.a_tx_rate.r_current)
  notified-currents fuel cfg ts attrs id a v h =
      let n = attr_notify_update_total fl fuel cfg a ts (find_attr-AllEnd fuel ts attrs id a v h) in
      let k = notify_rates-KeepsAttr fl cfg a ts a.a_def.ad_type refl in
      (
        n.attr,
        n.result,
        ap (λ (b : Attr Float). b.a_rx_rate.r_current) n.rates ∙ k.rx_current,
        ap (λ (b : Attr Float). b.a_tx_rate.r_current) n.rates ∙ k.tx_current,
      )
