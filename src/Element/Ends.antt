-- ===== src/Element/Ends.antt =====
-- `attr_notify_update`: when it ends, and what it does to an attribute.

use bmon.Prelude.{
  ℕ, ◌≤◌, ◌≡◌, refl, sym, subst, ◌∙◌, Bool, true, false, some, List, [], ◌∷◌, arith, if◌then◌else◌,
  Bool-cases, inl, inr,
}
use bmon.Clock.{Timestamp}
use bmon.Floats.{Floats}
use bmon.AttrDef.{AttrType, attr_type_counter, attr_type_rate, attr_type_percent, attr_type_unspec}
use bmon.Rate.{Rate, calc_counter_rate, calc_rate_total}
use bmon.History.{History, half_interval, history_timediff}
use bmon.History.Store.{IsValid}
use bmon.History.Update.{time_left, history_update_total}
use bmon.Attr.{Attr, AttrCfg, update_histories, notify_rates, attr_notify_update}

module _ (fl : Floats) where
  open fl use {Float, le}

  -- The history is valid, and some number of rounds that the fuel allows uses up the time since its
  -- last update.
  pub record Ends (fuel : ℕ) (ts : Timestamp) (h : History Float) : Type 0 where
    pub rounds : ℕ
    pub enough : rounds ≤ fuel
    pub late :
        le
          (half_interval fl h.h_definition)
          (time_left fl h.h_definition rounds (history_timediff fl h ts))
        ≡ false
    pub valid : IsValid h

  abbrev pub AllEnd : ℕ → Timestamp → List (History Float) → Type 0
  AllEnd fuel ts [] = Unit
  AllEnd fuel ts (h ∷ hs) = Ends fuel ts h × AllEnd fuel ts hs

  abbrev pub AttrsEnd : ℕ → Timestamp → List (Attr Float) → Type 0
  AttrsEnd fuel ts [] = Unit
  AttrsEnd fuel ts (a ∷ attrs) = AllEnd fuel ts a.a_history_list × AttrsEnd fuel ts attrs

  update_histories_total :
      (fuel : ℕ) (read_interval : Float) (a : Attr Float) (ts : Timestamp)
      (hs : List (History Float))
      → AllEnd fuel ts hs
      → (hs' : List (History Float)) × (update_histories fl fuel read_interval a ts hs ≡ some hs')
  unfolding update_histories
  update_histories_total fuel read_interval a ts [] v = ([], refl)
  update_histories_total fuel read_interval a ts (h ∷ hs) (v, vs) =
      let (h', e, _) =
        history_update_total fl v.rounds fuel read_interval a.a_def.ad_type a.a_rx_rate.r_total
          a.a_tx_rate.r_total h ts v.enough v.late v.valid in
      let (hs', es) = update_histories_total fuel read_interval a ts hs vs in
      (h' ∷ hs', rw (e, es) refl)

  abbrev pub with_histories : Attr Float → List (History Float) → Attr Float
  with_histories a hs = record a { a_history_list = hs }

  -- What `notify_rates` leaves as it was.
  pub record KeepsAttr (a a' : Attr Float) : Type 0 where
    pub definition : a'.a_def ≡ a.a_def
    pub rx_current : a'.a_rx_rate.r_current ≡ a.a_rx_rate.r_current
    pub tx_current : a'.a_tx_rate.r_current ≡ a.a_tx_rate.r_current
    pub histories : a'.a_history_list ≡ a.a_history_list

  counter-keeps :
      (cfg : AttrCfg Float) (a : Attr Float) (r : Rate Float) (ts : Timestamp)
      → (calc_counter_rate fl cfg.cfg_rate a.a_flags r ts).r_current ≡ r.r_current
  unfolding calc_counter_rate
  counter-keeps cfg a r ts = ground arith

  pub notify_rates-KeepsAttr :
      (cfg : AttrCfg Float) (a : Attr Float) (ts : Timestamp) (t : AttrType)
      → a.a_def.ad_type ≡ t
      → KeepsAttr a (notify_rates fl cfg a ts)
  unfolding notify_rates calc_rate_total
  notify_rates-KeepsAttr cfg a ts attr_type_counter e = record {
    definition = simp (e, notify_rates);
    rx_current = simp (e, notify_rates, counter-keeps cfg a a.a_rx_rate ts);
    tx_current = simp (e, notify_rates, counter-keeps cfg a a.a_tx_rate ts);
    histories = simp (e, notify_rates);
  }
  notify_rates-KeepsAttr cfg a ts attr_type_rate e = record {
    definition = simp (e, notify_rates);
    rx_current = simp (e, notify_rates, calc_rate_total);
    tx_current = simp (e, notify_rates, calc_rate_total);
    histories = simp (e, notify_rates);
  }
  notify_rates-KeepsAttr cfg a ts attr_type_percent e = record {
    definition = simp (e, notify_rates);
    rx_current = simp (e, notify_rates, calc_rate_total);
    tx_current = simp (e, notify_rates, calc_rate_total);
    histories = simp (e, notify_rates);
  }
  notify_rates-KeepsAttr cfg a ts attr_type_unspec e = record {
    definition = simp (e, notify_rates);
    rx_current = simp (e, notify_rates, calc_rate_total);
    tx_current = simp (e, notify_rates, calc_rate_total);
    histories = simp (e, notify_rates);
  }

  -- An attribute with all its rates computed, and other histories.
  pub record Notified (fuel : ℕ) (cfg : AttrCfg Float) (ts : Timestamp) (a : Attr Float)
      : Type 0 where
    pub attr : Attr Float
    pub result : attr_notify_update fl fuel cfg a ts ≡ some attr
    pub rates : with_histories attr [] ≡ with_histories (notify_rates fl cfg a ts) []

  pick-true : {A : Type 0} (b : Bool) (x y : A) → b ≡ true → (if b then x else y) ≡ x
  pick-true true x y e = refl
  pick-true false x y e = cc

  pick-false : {A : Type 0} (b : Bool) (x y : A) → b ≡ false → (if b then x else y) ≡ y
  pick-false true x y e = cc
  pick-false false x y e = refl

  pub attr_notify_update_total :
      (fuel : ℕ) (cfg : AttrCfg Float) (a : Attr Float) (ts : Timestamp)
      → AllEnd fuel ts a.a_history_list
      → Notified fuel cfg ts a
  unfolding attr_notify_update
  attr_notify_update_total fuel cfg a ts v =
      let a' = notify_rates fl cfg a ts in
      let k = notify_rates-KeepsAttr cfg a ts a.a_def.ad_type refl in
      let (hs, e) =
        update_histories_total fuel cfg.cfg_read_interval a' ts a'.a_history_list
          (subst (AllEnd fuel ts) (sym k.histories) v) in
      elim (Bool-cases a.a_flags.doing_history) [
        | inl d ↦ record {
          attr = with_histories a' hs;
          result = pick-true _ _ _ d ∙ rw e refl;
          rates = refl;
        }
        | inr d ↦ record { attr = a'; result = pick-false _ _ _ d; rates = refl }
      ]
