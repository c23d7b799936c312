-- ===== src/History/Store.antt =====
-- What one call of `history_store_data` leaves to be read by `history_data`.
use bmon.Prelude.{
  ℕ, ◌-◌, ◌%◌, ◌<◌, ◌≡◌, refl, Option, none, some, List, [], ◌∷◌, arith, if◌then◌else◌, ◌==◌,
  length, take, length-set, get_elem?-set_self, length-replicate, Bool-cases, inl, inr, ◌∙◌,
}
use bmon.Floats.{Floats}
use bmon.History.{
  history_unknown, HistoryType, history_type_8, history_type_16, history_type_32, history_type_64,
  type_mod, HistoryDef, HistoryStore, History, history_alloc_data, inc_history_index, history_data,
  history_delta, history_store_data, store_both,
}
use bmon.History.Window.{window, forth, window-store}

-- The array is there with all its samples, or not at all.
abbrev pub HasSize : ℕ → Option (List ℕ) → Type 0
HasSize size none = Unit
HasSize size (some samples) = length samples ≡ size

-- The index is in both arrays.
pub record IsValid {F : Type 0} (h : History F) : Type 0 where
  pub index_in : h.h_index < h.h_definition.hd_size
  pub rx_size : HasSize h.h_definition.hd_size h.h_rx.hs_data
  pub tx_size : HasSize h.h_definition.hd_size h.h_tx.hs_data

-- The samples of a store, newest first; none where there is no array.
abbrev pub samples : {F : Type 0} → History F → HistoryStore → List ℕ
samples h hs = elim hs.hs_data [
  | none ↦ []
  | some data' ↦ window data' h.h_definition.hd_size h.h_index h.h_definition.hd_size
]

-- What a sample of the value `v` is read as.
abbrev pub read_as : HistoryType → ℕ → ℕ
read_as type v =
    if v % type_mod type == type_mod type - 1 then history_unknown else v % type_mod type

module _ (fl : Floats) where
  open fl use {Float}

  -- Where there is an array, `history_data` reads at the index what was stored there: the delta cut to
  -- the width of the type. A delta whose bits of that width are all ones is read as unknown, as an
  -- unknown total is.
  pub history_data-history_store_data :
      (h : History Float) (hs : HistoryStore) (data' : List ℕ) (total : ℕ) (diff : Float)
      → hs.hs_data ≡ some data'
      → h.h_index < length data'
      → history_data h (history_store_data fl h hs total diff) h.h_index
        ≡ some (read_as h.h_definition.hd_type (history_delta fl hs.hs_prev_total total diff))
  unfolding history_data history_store_data
  history_data-history_store_data h hs data' total diff e hi =
      let size = type_mod h.h_definition.hd_type in
      let v = history_delta fl hs.hs_prev_total total diff % size in
      rw e (rw (get_elem?-set_self data' h.h_index v hi, history_data))

  -- An unknown total is read back as unknown at every width.
  read_as-unknown : (type : HistoryType) → read_as type history_unknown ≡ history_unknown
  read_as-unknown history_type_8 = refl
  read_as-unknown history_type_16 = refl
  read_as-unknown history_type_32 = refl
  read_as-unknown history_type_64 = refl

  store-HasSize_cases :
      (h : History Float) (o : Option (List ℕ)) (prev total : ℕ) (diff : Float)
      → HasSize h.h_definition.hd_size o
      → HasSize h.h_definition.hd_size
          (history_store_data fl h
            (record { hs_data = o; hs_prev_total = prev })
            total
            diff).hs_data
  unfolding history_store_data
  store-HasSize_cases h (some data') prev total diff v = length-set data' h.h_index _ ∙ v
  store-HasSize_cases h none prev total diff v = elim (Bool-cases (total == history_unknown)) [
    | inl e ↦ rw (e, history_store_data) tt
    | inr e ↦
        rw (e, history_store_data)
          (length-set (history_alloc_data h.h_definition) h.h_index _
            ∙ length-replicate h.h_definition.hd_size 0)
  ]

  -- `inc_history_index`, without the test of the code.
  inc_eq :
      (h : History Float)
      → inc_history_index h ≡ record h { h_index = forth h.h_definition.hd_size h.h_index }
  unfolding inc_history_index
  inc_eq h = ground arith

  -- `store_both`, field by field.
  pub store_both_eq :
      (h : History Float) (rx tx : ℕ) (diff : Float)
      → store_both fl h rx tx diff ≡ record h {
        h_index = forth h.h_definition.hd_size h.h_index;
        h_rx = history_store_data fl h h.h_rx rx diff;
        h_tx = history_store_data fl h h.h_tx tx diff;
      }
  unfolding store_both
  store_both_eq h rx tx diff = inc_eq _

  -- A round of the ring keeps the index in the arrays.
  pub store_both-IsValid :
      (h : History Float) (rx tx : ℕ) (diff : Float)
      → IsValid h
      → IsValid (store_both fl h rx tx diff)
  unfolding store_both
  store_both-IsValid h rx tx diff v = rw inc_eq (record {
    index_in = ground (arith, v.index_in);
    rx_size = store-HasSize_cases h h.h_rx.hs_data h.h_rx.hs_prev_total rx diff v.rx_size;
    tx_size = store-HasSize_cases h h.h_tx.hs_data h.h_tx.hs_prev_total tx diff v.tx_size;
  })

  -- What is read backwards from the index `i` of an array, if there is one.
  abbrev read_back : HistoryDef Float → ℕ → HistoryStore → List ℕ
  read_back def i hs = elim hs.hs_data [
    | none ↦ []
    | some data' ↦ window data' def.hd_size i def.hd_size
  ]

  -- One direction of `store_both`.
  store-samples :
      (h : History Float) (hs : HistoryStore) (total : ℕ) (diff : Float) (data' : List ℕ)
      → h.h_index < h.h_definition.hd_size
      → HasSize h.h_definition.hd_size hs.hs_data
      → hs.hs_data ≡ some data'
      → read_back h.h_definition
          (forth h.h_definition.hd_size h.h_index)
          (history_store_data fl h hs total diff)
        ≡ take h.h_definition.hd_size (
            history_delta fl hs.hs_prev_total total diff % type_mod h.h_definition.hd_type
            ∷ samples h hs)
  unfolding history_store_data
  store-samples h hs total diff data' hi hl e = rw e (
      window-store data' h.h_definition.hd_size h.h_index _ h.h_definition.hd_size (rw e at hl) hi
        (omega arith))

  -- Where the index is in the ring, and the arrays of both directions are there and have `hd_size`
  -- samples: the samples of each direction after a store are the new one in front of the old ones,
  -- of which the oldest is dropped. So the ring holds the newest `hd_size` samples in their order.
  pub store_both-samples :
      (h : History Float) (rx tx : ℕ) (diff : Float) (rx_data tx_data : List ℕ)
      → IsValid h
      → h.h_rx.hs_data ≡ some rx_data
      → h.h_tx.hs_data ≡ some tx_data
      → let h' = store_both fl h rx tx diff in
        let def = h.h_definition in
        (samples h' h'.h_rx
          ≡ take def.hd_size (
              history_delta fl h.h_rx.hs_prev_total rx diff % type_mod def.hd_type
              ∷ samples h h.h_rx))
        × (samples h' h'.h_tx
            ≡ take def.hd_size (
                history_delta fl h.h_tx.hs_prev_total tx diff % type_mod def.hd_type
                ∷ samples h h.h_tx))
  unfolding store_both
  store_both-samples h rx tx diff rx_data tx_data v e f = rw inc_eq (
    store-samples h h.h_rx rx diff rx_data v.index_in v.rx_size e,
    store-samples h h.h_tx tx diff tx_data v.index_in v.tx_size f,
  )
