-- ===== src/History.antt =====
-- src/history.c: for each attribute a ring of samples, one array for the receiving and one for the
-- transmitting direction. The configuration and the time come as arguments.
pub mod Window
pub mod Store
pub mod Update
pub mod Select
mod Tests
use bmon.Prelude.{
  ℕ, zero, suc, ◌+◌, ◌-◌, ◌%◌, ◌^◌, Bool, true, false, not, Option, none, some, List, [], ◌∷◌,
  if◌then◌else◌, ◌==◌, ltb, set, get_elem?, replicate, ◌&&◌, ◌++◌, map,
}
use mathlib.Core.Option
use bmon.Prelude.Int.{ℤ, pos, negsuc}
use bmon.Prelude.Bytes.{Bytes}
use bmon.Clock.{Timestamp}
use bmon.Floats.{Floats}
use bmon.AttrDef.{AttrType, attr_type_counter}
use bmon.Rate.{sub64, timestamp_diff}

-- HISTORY_UNKNOWN, (uint64_t) -1
abbrev pub history_unknown : ℕ
history_unknown = 2 ^ 64 - 1

pub data HistoryType : Type 0 where
  history_type_8 history_type_16 history_type_32 history_type_64 : HistoryType

-- The number of values of the type of a sample.
abbrev pub type_mod : HistoryType → ℕ
type_mod history_type_8 = 2 ^ 8
type_mod history_type_16 = 2 ^ 16
type_mod history_type_32 = 2 ^ 32
type_mod history_type_64 = 2 ^ 64

pub record HistoryDef (F : Type 0) : Type 0 where
  pub hd_name : Bytes
  pub hd_size : ℕ
  pub hd_type : HistoryType
  pub hd_interval : F

-- `hs_data` is NULL until the first sample is known.
pub record HistoryStore : Type 0 where
  pub hs_data : Option (List ℕ)
  pub hs_prev_total : ℕ

pub record History (F : Type 0) : Type 0 where
  pub h_index : ℕ
  pub h_definition : HistoryDef F
  pub h_last_update : Timestamp
  pub h_min_interval : F
  pub h_max_interval : F
  pub h_rx : HistoryStore
  pub h_tx : HistoryStore

unfoldable pub history_alloc_data : {F : Type 0} → HistoryDef F → List ℕ
history_alloc_data def = replicate def.hd_size 0

unfoldable pub inc_history_index : {F : Type 0} → History F → History F
inc_history_index h =
    if ltb (h.h_index + 1) h.h_definition.hd_size
    then record h { h_index = h.h_index + 1 }
    else record h { h_index = 0 }

-- A sample of all ones reads as unknown. `none` is a read through NULL or out of the array.
unfoldable pub history_data : {F : Type 0} → History F → HistoryStore → ℕ → Option ℕ
history_data h hs index = elim hs.hs_data [
  | none ↦ none
  | some samples ↦ elim (get_elem? samples index) [
    | none ↦ none
    | some v ↦ some (if v == type_mod h.h_definition.hd_type - 1 then history_unknown else v)
  ]
]

-- The labels that `history_update` jumps to, or its early return.
pub data Action : Type 0 where
  go_update go_discard go_update_prev_total go_return : Action

module _ (fl : Floats) where
  open fl use {Float, of_nat, to_u64, add, sub, div, le, lt, eq}

  -- The sample that `history_store_data` computes, before it is cut to the width of the type.
  unfoldable pub history_delta : ℕ → ℕ → Float → ℕ
  history_delta hs_prev_total total diff =
      let delta = sub64 total hs_prev_total in
      if total == history_unknown
      then history_unknown
      else if delta == 0
      then 0
      else to_u64 (div (of_nat delta) diff)

  -- The rest of `history_store_data`, with the array in place.
  unfoldable pub store_sample : History Float → HistoryStore → List ℕ → ℕ → Float → HistoryStore
  store_sample h hs samples total diff = record {
    hs_data = some (
        set samples h.h_index
          (history_delta hs.hs_prev_total total diff % type_mod h.h_definition.hd_type));
    hs_prev_total = if total == history_unknown then hs.hs_prev_total else total;
  }

  unfoldable pub history_store_data : History Float → HistoryStore → ℕ → Float → HistoryStore
  unfolding store_sample history_alloc_data
  history_store_data h hs total diff = elim hs.hs_data [
    | some samples ↦ store_sample h hs samples total diff
    | none ↦
        if total == history_unknown
        then hs
        else store_sample h hs (history_alloc_data h.h_definition) total diff
  ]

  -- One sample in both directions, and the index moves on.
  unfoldable pub store_both : History Float → ℕ → ℕ → Float → History Float
  unfolding history_store_data inc_history_index
  store_both h rx tx diff = inc_history_index (record h {
    h_rx = history_store_data h h.h_rx rx diff;
    h_tx = history_store_data h h.h_tx tx diff;
  })

  abbrev pub half_interval : HistoryDef Float → Float
  half_interval def = div def.hd_interval (of_nat 2)

  -- The loop at `discard`, on fuel: `none` is a run out of fuel.
  unfoldable pub discard : ℕ → History Float → Float → Option (History Float)
  discard zero h timediff = if le (half_interval h.h_definition) timediff then none else some h
  discard (suc fuel) h timediff =
      let rest =
        discard fuel (store_both h history_unknown history_unknown (of_nat 0))
          (sub timediff h.h_definition.hd_interval) in
      if le (half_interval h.h_definition) timediff then rest else some h

  -- `update_prev_total` and `update_ts`.
  abbrev pub update_prev_total : History Float → ℕ → ℕ → Timestamp → History Float
  update_prev_total h rx tx ts = record h {
    h_rx = record (h.h_rx) { hs_prev_total = rx };
    h_tx = record (h.h_tx) { hs_prev_total = tx };
    h_last_update = ts;
  }

  abbrev pub update_ts : History Float → Timestamp → History Float
  update_ts h ts = record h { h_last_update = ts }

  -- `if (h->h_last_update.tv_sec)`
  abbrev pub was_updated : History Float → Bool
  was_updated h = elim h.h_last_update.tv_sec [ pos n ↦ not (n == 0) | negsuc n ↦ true ]

  abbrev pub is_counter : AttrType → Bool
  is_counter attr_type_counter = true
  is_counter _ = false

  -- The time since the last update; 0 for the first one.
  unfoldable pub history_timediff : History Float → Timestamp → Float
  unfolding timestamp_diff
  history_timediff h ts = if was_updated h then timestamp_diff fl h.h_last_update ts else of_nat 0

  -- The tests of `history_update`, in their order.
  unfoldable pub history_action : Float → AttrType → History Float → Float → Action
  history_action cfg_read_interval ad_type h timediff =
      if not (was_updated h) && is_counter ad_type
      then go_update_prev_total
      else if lt h.h_definition.hd_interval cfg_read_interval
      then go_discard
      else if eq cfg_read_interval h.h_definition.hd_interval
      then go_update
      else if lt h.h_max_interval timediff
      then go_discard
      else if lt timediff h.h_min_interval
      then go_return
      else go_update

  -- What the code does at each label. The attribute is given by its two totals.
  unfoldable pub go_to :
      ℕ → Action → History Float → Float → ℕ → ℕ → Timestamp → Option (History Float)
  go_to fuel action h timediff rx tx ts = elim action [
    | go_update ↦ some (update_ts (store_both h rx tx timediff) ts)
    | go_discard ↦ Option.map (λ h'. update_prev_total h' rx tx ts) (discard fuel h timediff)
    | go_update_prev_total ↦ some (update_prev_total h rx tx ts)
    | go_return ↦ some h
  ]

  -- The attribute is given by its type and its two totals; `none` is a run out of fuel.
  unfoldable pub history_update :
      ℕ → Float → AttrType → ℕ → ℕ → History Float → Timestamp → Option (History Float)
  unfolding history_action history_timediff go_to
  history_update fuel cfg_read_interval ad_type rx tx h ts =
      let timediff = history_timediff h ts in
      go_to fuel (history_action cfg_read_interval ad_type h timediff) h timediff rx tx ts

  -- The intervals around the wanted one in which an update is made.
  unfoldable pub history_alloc : Float → Float → HistoryDef Float → History Float
  history_alloc cfg_read_interval cfg_history_variance def = record {
    h_index = 0;
    h_definition = def;
    h_last_update = record { tv_sec = pos 0; tv_usec = pos 0 };
    h_min_interval = sub def.hd_interval (div cfg_read_interval (of_nat 2));
    h_max_interval = div def.hd_interval cfg_history_variance;
    h_rx = record { hs_data = none; hs_prev_total = 0 };
    h_tx = record { hs_data = none; hs_prev_total = 0 };
  }

  -- One history for each definition, in their order, behind those that the attribute has.
  unfoldable pub history_attach :
      Float → Float → List (HistoryDef Float) → List (History Float) → List (History Float)
  unfolding history_alloc
  history_attach cfg_read_interval cfg_history_variance def_list a_history_list =
      a_history_list ++ map (history_alloc cfg_read_interval cfg_history_variance) def_list
