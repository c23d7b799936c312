-- ===== src/Attr.antt =====
-- src/attr.c: the attributes of an element. An attribute is in a bucket of the element's hash and in
-- its sorted list; the hash holds the objects, and the sorted list their definitions, which identify
-- them within the element.
pub mod Table
pub mod Sorted
pub mod Tracked
pub mod Current
mod Tests
use bmon.Prelude.{
  ℕ, zero, suc, ◌+◌, ◌%◌, Bool, true, false, not, ◌||◌, Option, none, some, List, [], ◌∷◌, ◌++◌,
  if◌then◌else◌, ◌==◌, ◌>>=◌,
}
use Prim.Native.Nat.{Ordering}
use bmon.Prelude.Int.{pos}
use bmon.Prelude.Bytes.{strcasecmp}
use bmon.Clock.{Timestamp}
use bmon.Floats.{Floats}
use bmon.AttrDef.{
  AttrType, attr_type_counter, attr_type_rate, attr_type_percent, attr_type_unspec, AttrFlags,
  AttrDef, AttrDefs, attr_def_lookup_id,
}
use bmon.Rate.{Rate, RateCfg, calc_counter_rate, calc_rate_total, reset_counter}
use bmon.History.{History, HistoryDef, history_attach, history_update}

pub record Attr (F : Type 0) : Type 0 where
  pub a_rx_rate : Rate F
  pub a_tx_rate : Rate F
  pub a_flags : AttrFlags
  pub a_def : AttrDef
  pub a_last_update : Timestamp
  pub a_history_list : List (History F)

-- The fields of `struct element` that src/attr.c reads and writes. `e_key_attr` has the two entries
-- GT_MAJOR and GT_MINOR; `e_attrhash` gives the list of each bucket.
pub record ElementAttrs (F : Type 0) : Type 0 where
  pub e_attrhash : ℕ → List (Attr F)
  pub e_attr_sorted : List AttrDef
  pub e_nattrs : ℕ
  pub e_key_major : Option AttrDef
  pub e_key_minor : Option AttrDef

-- ATTR_HASH_SIZE
abbrev pub attr_hash_size : ℕ
attr_hash_size = 32

unfoldable pub attr_hash : ℕ → ℕ
attr_hash id = id % attr_hash_size

unfoldable pub find_attr : {F : Type 0} → ℕ → List (Attr F) → Option (Attr F)
find_attr id [] = none
find_attr id (attr ∷ attrs) = if attr.a_def.ad_id == id then some attr else find_attr id attrs

unfoldable pub attr_lookup : {F : Type 0} → ElementAttrs F → ℕ → Option (Attr F)
unfolding attr_hash find_attr
attr_lookup e id = find_attr id (e.e_attrhash (attr_hash id))

-- `key == def`, for a key that may be NULL.
unfoldable pub is_key : Option AttrDef → AttrDef → Bool
is_key none def = false
is_key (some key) def = key.ad_id == def.ad_id

unfoldable pub collect_history : {F : Type 0} → ElementAttrs F → AttrDef → Bool
unfolding is_key
collect_history e def =
    def.ad_flags.force_history || is_key e.e_key_major def || is_key e.e_key_minor def

-- `attrcmp(e, a, b)`, by its sign.
unfoldable pub attrcmp : {F : Type 0} → ElementAttrs F → AttrDef → AttrDef → Ordering
unfolding is_key strcasecmp
attrcmp e a b =
    if is_key e.e_key_major b
    then Ordering.gt
    else if is_key e.e_key_minor b
    then (if is_key e.e_key_major a then Ordering.lt else Ordering.gt)
    else strcasecmp a.ad_description b.ad_description

-- The loop of `attr_update` over the sorted list: in front of the first attribute that is greater.
unfoldable pub insert_sorted : {F : Type 0} → ElementAttrs F → AttrDef → List AttrDef → List AttrDef
unfolding attrcmp
insert_sorted e attr [] = attr ∷ []
insert_sorted e attr (n ∷ sorted) =
    let rest = insert_sorted e attr sorted in
    elim (attrcmp e attr n) [ Ordering.lt ↦ attr ∷ n ∷ sorted | _ ↦ n ∷ rest ]

-- A write of one bucket.
unfoldable pub set_bucket : {A : Type 0} → (ℕ → A) → ℕ → A → ℕ → A
set_bucket f hash bucket h = if h == hash then bucket else f h

-- A write through the pointer that `attr_lookup` returns.
unfoldable pub write_attr : {F : Type 0} → ℕ → Attr F → List (Attr F) → List (Attr F)
write_attr id a [] = []
write_attr id a (attr ∷ attrs) =
    if attr.a_def.ad_id == id then a ∷ attrs else attr ∷ write_attr id a attrs

-- UPDATE_FLAG_RX and UPDATE_FLAG_TX; the other flags are not looked at.
pub record UpdateFlags : Type 0 where
  pub update_flag_rx : Bool
  pub update_flag_tx : Bool

-- What `attr_update` does behind the label `inserted`; `now` is the time of `update_timestamp`.
unfoldable pub set_counters : {F : Type 0} → ℕ → ℕ → UpdateFlags → Timestamp → Attr F → Attr F
set_counters rx tx flags now attr =
    let with_rx =
      if flags.update_flag_rx
      then record attr {
        a_rx_rate = record (attr.a_rx_rate) { r_current = rx };
        a_flags = record (attr.a_flags) { rx_enabled = true };
      }
      else attr in
    let with_tx =
      if flags.update_flag_tx
      then record with_rx {
        a_tx_rate = record (with_rx.a_tx_rate) { r_current = tx };
        a_flags = record (with_rx.a_flags) { tx_enabled = true };
      }
      else with_rx in
    if flags.update_flag_rx || flags.update_flag_tx
    then record with_tx { a_last_update = now }
    else with_tx

-- The configuration that the functions on attributes read.
pub record AttrCfg (F : Type 0) : Type 0 where
  pub cfg_rate : RateCfg F
  pub cfg_read_interval : F
  pub cfg_history_variance : F
  pub history_defs : List (HistoryDef F)

module _ (fl : Floats) where
  open fl use {Float, of_nat}

  abbrev pub no_rate : Rate Float
  no_rate = record {
    r_total = 0;
    r_current = 0;
    r_prev = 0;
    r_reset = 0;
    r_rate = of_nat 0;
    r_last_calc = record { tv_sec = pos 0; tv_usec = pos 0 };
  }

  unfoldable pub attr_start_collecting_history : AttrCfg Float → Attr Float → Attr Float
  attr_start_collecting_history cfg attr =
      if attr.a_flags.doing_history then attr else record attr {
        a_history_list =
            history_attach fl cfg.cfg_read_interval cfg.cfg_history_variance cfg.history_defs
              attr.a_history_list;
        a_flags = record (attr.a_flags) { doing_history = true };
      }

  -- A new attribute of the definition `def`, as `attr_update` makes it.
  unfoldable pub new_attr : AttrCfg Float → ElementAttrs Float → AttrDef → Attr Float
  unfolding attr_start_collecting_history
  new_attr cfg e def =
      let attr : Attr Float = record {
        a_rx_rate = no_rate;
        a_tx_rate = no_rate;
        a_flags = def.ad_flags;
        a_def = def;
        a_last_update = record { tv_sec = pos 0; tv_usec = pos 0 };
        a_history_list = [];
      } in
      if collect_history e def then attr_start_collecting_history cfg attr else attr

  unfoldable pub attr_update :
      AttrCfg Float
      → AttrDefs
      → ElementAttrs Float
      → ℕ
      → ℕ
      → ℕ
      → UpdateFlags
      → Timestamp
      → ElementAttrs Float
  unfolding set_bucket write_attr set_counters new_attr insert_sorted attr_hash
  attr_update cfg defs e id rx tx flags now =
      let hash = attr_hash id in
      let bucket = e.e_attrhash hash in
      elim (attr_lookup e id) [
        | some attr ↦ record e {
          e_attrhash =
              set_bucket e.e_attrhash hash
                (write_attr id (set_counters rx tx flags now attr) bucket);
        }
        | none ↦ elim (attr_def_lookup_id id defs) [
          | none ↦ e
          | some def ↦ record e {
            e_attrhash =
                set_bucket e.e_attrhash hash
                  (bucket ++ set_counters rx tx flags now (new_attr cfg e def) ∷ []);
            e_nattrs = e.e_nattrs + 1;
            e_attr_sorted = insert_sorted e def e.e_attr_sorted;
          }
        ]
      ]

  -- The loop over the histories; `none` is a run out of fuel.
  unfoldable pub update_histories :
      ℕ → Float → Attr Float → Timestamp → List (History Float) → Option (List (History Float))
  update_histories fuel read_interval a ts [] = some []
  update_histories fuel read_interval a ts (h ∷ hs) = do
    h' ←
        history_update fl fuel read_interval a.a_def.ad_type a.a_rx_rate.r_total a.a_tx_rate.r_total
          h ts
    hs' ← update_histories fuel read_interval a ts hs
    some (h' ∷ hs')

  -- The rates that `attr_notify_update` computes, by the type of the attribute.
  unfoldable pub notify_rates : AttrCfg Float → Attr Float → Timestamp → Attr Float
  notify_rates cfg a ts = elim a.a_def.ad_type [
    | attr_type_counter ↦ record a {
      a_rx_rate = calc_counter_rate fl cfg.cfg_rate a.a_flags a.a_rx_rate ts;
      a_tx_rate = calc_counter_rate fl cfg.cfg_rate a.a_flags a.a_tx_rate ts;
    }
    | attr_type_rate ↦ record a {
      a_rx_rate = calc_rate_total fl a.a_rx_rate ts;
      a_tx_rate = calc_rate_total fl a.a_tx_rate ts;
    }
    | attr_type_percent ↦ record a {
      a_rx_rate = calc_rate_total fl a.a_rx_rate ts;
      a_tx_rate = calc_rate_total fl a.a_tx_rate ts;
    }
    | attr_type_unspec ↦ a
  ]

  unfoldable pub attr_notify_update :
      ℕ → AttrCfg Float → Attr Float → Timestamp → Option (Attr Float)
  unfolding notify_rates update_histories
  attr_notify_update fuel cfg a ts =
      let a' = notify_rates cfg a ts in
      if a.a_flags.doing_history
      then (do
        hs ← update_histories fuel cfg.cfg_read_interval a' ts a'.a_history_list
        some (record a' { a_history_list = hs }))
      else some a'

  unfoldable pub attr_reset_counter : Attr Float → Attr Float
  unfolding reset_counter
  attr_reset_counter a = record a {
    a_rx_rate = reset_counter fl a.a_def.ad_type a.a_rx_rate;
    a_tx_rate = reset_counter fl a.a_def.ad_type a.a_tx_rate;
  }
