-- ===== src/History/Update.antt =====
-- `history_update` on all its branches.
use bmon.Prelude.{
  ℕ, zero, suc, ◌≤◌, ◌≡◌, ◌≢◌, refl, true, false, Option, none, some, arith, Bool-cases, inl, inr,
  ◌⊎◌, ◌∙◌, ap,
}
use bmon.Prelude.{List}
use bmon.Clock.{Timestamp}
use bmon.Floats.{Floats}
use bmon.AttrDef.{AttrType, attr_type_rate}
use bmon.Rate.{sub64}
use bmon.History.{
  history_unknown, HistoryDef, History, history_delta, history_store_data, store_both,
  half_interval, discard, update_prev_total, update_ts, was_updated, Action, go_update, go_discard,
  go_update_prev_total, go_return, history_timediff, history_action, go_to, history_update,
}
use bmon.History.Store.{IsValid, store_both-IsValid, store_both_eq}

module _ (fl : Floats) where
  open fl use {Float, of_nat, to_u64, sub, div, le, lt, eq}

  -- The time that is left after `n` rounds of the loop at `discard`.
  abbrev pub time_left : HistoryDef Float → ℕ → Float → Float
  time_left def zero timediff = timediff
  time_left def (suc n) timediff = time_left def n (sub timediff def.hd_interval)

  store_both-definition :
      (h : History Float) (rx tx : ℕ) (diff : Float)
      → (store_both fl h rx tx diff).h_definition ≡ h.h_definition
  store_both-definition h rx tx diff =
      ap (λ (h' : History Float). h'.h_definition) (store_both_eq fl h rx tx diff)

  discard_total :
      (n fuel : ℕ) (h : History Float) (timediff : Float)
      → n ≤ fuel
      → le (half_interval fl h.h_definition) (time_left h.h_definition n timediff) ≡ false
      → IsValid h
      → (h' : History Float) × (discard fl fuel h timediff ≡ some h') × IsValid h'
  unfolding discard
  discard_total zero zero h t hn late v = (h, rw late, v)
  discard_total zero (suc fuel) h t hn late v = (h, rw late, v)
  discard_total (suc n) zero h t hn late v = absurd (omega arith)
  discard_total (suc n) (suc fuel) h t hn late v =
      elim (Bool-cases (le (half_interval fl h.h_definition) t)) [
        | inl e ↦ rw e (
            discard_total n fuel (store_both fl h history_unknown history_unknown (of_nat 0))
              (sub t h.h_definition.hd_interval) (omega arith)
              (rw (store_both-definition h history_unknown history_unknown (of_nat 0)) late)
              (store_both-IsValid fl h history_unknown history_unknown (of_nat 0) v))
        | inr e ↦ (h, rw e, v)
      ]

  -- What an update leaves, unless it came too early and changed nothing: the index is in the arrays,
  -- the time is that of the update, and known totals are kept for the next one.
  pub record IsUpdated (rx tx : ℕ) (ts : Timestamp) (h h' : History Float) : Type 0 where
    pub valid : IsValid h'
    pub time : h'.h_last_update ≡ ts
    pub rx_kept : rx ≢ history_unknown → h'.h_rx.hs_prev_total ≡ rx
    pub tx_kept : tx ≢ history_unknown → h'.h_tx.hs_prev_total ≡ tx

  prev_total-store :
      (h : History Float) (o : Option (List ℕ)) (prev total : ℕ) (diff : Float)
      → total ≢ history_unknown
      → (history_store_data fl h
          (record { hs_data = o; hs_prev_total = prev })
          total
          diff).hs_prev_total
        ≡ total
  unfolding history_store_data
  prev_total-store h none prev total diff n = ground arith
  prev_total-store h (some d) prev total diff n = ground arith

  update_prev_total-IsUpdated :
      (rx tx : ℕ) (ts : Timestamp) (h h' : History Float)
      → IsValid h'
      → IsUpdated rx tx ts h (update_prev_total fl h' rx tx ts)
  update_prev_total-IsUpdated rx tx ts h h' v = record {
    valid = record { index_in = v.index_in; rx_size = v.rx_size; tx_size = v.tx_size };
    time = refl;
    rx_kept = λ _. refl;
    tx_kept = λ _. refl;
  }

  store_both-IsUpdated :
      (rx tx : ℕ) (ts : Timestamp) (diff : Float) (h : History Float)
      → IsValid h
      → IsUpdated rx tx ts h (update_ts fl (store_both fl h rx tx diff) ts)
  store_both-IsUpdated rx tx ts diff h v =
      let w = store_both-IsValid fl h rx tx diff v in
      record {
        valid = record { index_in = w.index_in; rx_size = w.rx_size; tx_size = w.tx_size };
        time = refl;
        rx_kept = λ n.
            ap (λ (h' : History Float). h'.h_rx.hs_prev_total) (store_both_eq fl h rx tx diff)
            ∙ prev_total-store h h.h_rx.hs_data h.h_rx.hs_prev_total rx diff n;
        tx_kept = λ n.
            ap (λ (h' : History Float). h'.h_tx.hs_prev_total) (store_both_eq fl h rx tx diff)
            ∙ prev_total-store h h.h_tx.hs_data h.h_tx.hs_prev_total tx diff n;
      }

  go_to-cases :
      (n fuel : ℕ) (action : Action) (h : History Float) (t : Float) (rx tx : ℕ) (ts : Timestamp)
      → n ≤ fuel
      → le (half_interval fl h.h_definition) (time_left h.h_definition n t) ≡ false
      → IsValid h
      → (h' : History Float) × (go_to fl fuel action h t rx tx ts ≡ some h')
        × (((action ≡ go_return) × (h' ≡ h)) ⊎ IsUpdated rx tx ts h h')
  unfolding go_to
  go_to-cases n fuel go_update h t rx tx ts hn late v =
      (update_ts fl (store_both fl h rx tx t) ts, refl, inr (store_both-IsUpdated rx tx ts t h v))
  go_to-cases n fuel go_discard h t rx tx ts hn late v =
      let (h', e, v') = discard_total n fuel h t hn late v in
      (update_prev_total fl h' rx tx ts, rw e, inr (update_prev_total-IsUpdated rx tx ts h h' v'))
  go_to-cases n fuel go_update_prev_total h t rx tx ts hn late v =
      (update_prev_total fl h rx tx ts, refl, inr (update_prev_total-IsUpdated rx tx ts h h v))
  go_to-cases n fuel go_return h t rx tx ts hn late v = (h, refl, inl (refl, refl))

  pub history_update_total :
      (n fuel : ℕ) (cfg_read_interval : Float) (ad_type : AttrType) (rx tx : ℕ) (h : History Float)
      (ts : Timestamp)
      → n ≤ fuel
      → le (half_interval fl h.h_definition) (time_left h.h_definition n (history_timediff fl h ts))
        ≡ false
      → IsValid h
      → (h' : History Float) × (history_update fl fuel cfg_read_interval ad_type rx tx h ts
          ≡ some h')
        × (((history_action fl cfg_read_interval ad_type h (history_timediff fl h ts) ≡ go_return)
              × (h' ≡ h))
            ⊎ IsUpdated rx tx ts h h')
  unfolding history_update
  history_update_total n fuel cfg_read_interval ad_type rx tx h ts hn late v =
      go_to-cases n fuel (history_action fl cfg_read_interval ad_type h (history_timediff fl h ts))
        h (history_timediff fl h ts) rx tx ts hn late v

  -- The first update of an attribute that is a rate, where the interval of the history is that of the
  -- reads, stores samples whose delta was divided by a time of 0.
  pub first_rate_by_zero :
      (fuel : ℕ) (cfg_read_interval : Float) (rx tx : ℕ) (h : History Float) (ts : Timestamp)
      → was_updated fl h ≡ false
      → lt h.h_definition.hd_interval cfg_read_interval ≡ false
      → eq cfg_read_interval h.h_definition.hd_interval ≡ true
      → rx ≢ history_unknown
      → sub64 rx h.h_rx.hs_prev_total ≢ 0
      → (history_update fl fuel cfg_read_interval attr_type_rate rx tx h ts
          ≡ some (update_ts fl (store_both fl h rx tx (of_nat 0)) ts))
        × (history_delta fl h.h_rx.hs_prev_total rx (of_nat 0)
            ≡ to_u64 (div (of_nat (sub64 rx h.h_rx.hs_prev_total)) (of_nat 0)))
  unfolding history_update history_action history_timediff history_delta
  first_rate_by_zero fuel cfg_read_interval rx tx h ts first not_longer same known moved =
      (ground (arith, first, not_longer, same), ground (arith, known, moved))
