-- ===== src/Graph.antt =====
-- src/graph.c: the table of characters that a graph is drawn into, as `fill_table` fills it. The table is
-- one array, row by row; a write outside it is `none`.
pub mod Table
pub mod Columns
pub mod Draw
mod Tests
use bmon.Prelude.{
  ℕ, zero, suc, ◌+◌, ◌-◌, ◌*◌, ◌/◌, ◌%◌, Bool, true, false, not, ◌&&◌, ◌||◌, Option, none, some,
  List, [], ◌∷◌, if◌then◌else◌, ◌==◌, ltb, leb, ◌>>=◌, length, set, replicate,
}
use bmon.Floats.{Floats}
use bmon.History.{History, HistoryStore, history_data, history_unknown}
use bmon.History.Window.{back}

pub record GraphCfg : Type 0 where
  pub gc_height : ℕ
  pub gc_width : ℕ
  pub gc_background : ℕ
  pub gc_foreground : ℕ
  pub gc_noise : ℕ
  pub gc_unknown : ℕ

unfoldable pub graph_row_size : GraphCfg → ℕ
graph_row_size cfg = cfg.gc_width + 1

unfoldable pub table_size : GraphCfg → ℕ
unfolding graph_row_size
table_size cfg = cfg.gc_height * graph_row_size cfg

-- The index of `tbl_pos`.
unfoldable pub tbl_pos : GraphCfg → ℕ → ℕ → ℕ
unfolding graph_row_size
tbl_pos cfg nrow ncol = nrow * graph_row_size cfg + ncol

unfoldable pub write : ℕ → ℕ → List ℕ → Option (List ℕ)
write i c tbl = if ltb i (length tbl) then some (set tbl i c) else none

-- `for (i = 0; i < n; i++) *tbl_pos(cfg, tbl, i, cfg->gc_width) = '\0';`
unfoldable pub end_rows : GraphCfg → ℕ → List ℕ → Option (List ℕ)
unfolding tbl_pos write
end_rows cfg zero tbl = some tbl
end_rows cfg (suc n) tbl = end_rows cfg n tbl >>= write (tbl_pos cfg n cfg.gc_width) 0

-- A loop over the first `n` rows of a column, which writes where `paint` has a character for the row.
unfoldable pub fill_rows : GraphCfg → ℕ → (ℕ → Option ℕ) → ℕ → List ℕ → Option (List ℕ)
unfolding tbl_pos write
fill_rows cfg col paint zero tbl = some tbl
fill_rows cfg col paint (suc n) tbl = fill_rows cfg col paint n tbl >>= λ tbl'. elim (paint n) [
  | none ↦ some tbl'
  | some c ↦ write (tbl_pos cfg n col) c tbl'
]

-- The samples that the loops over the columns read, from the index backwards; `none` where there are
-- not so many.
unfoldable pub read_samples : {F : Type 0} → History F → HistoryStore → ℕ → ℕ → Option (List ℕ)
unfolding history_data
read_samples h hs zero n = some []
read_samples h hs (suc width) n = do
  v ← history_data h hs (back h.h_definition.hd_size n)
  vs ← read_samples h hs width (back h.h_definition.hd_size n)
  some (v ∷ vs)

module _ (fl : Floats) where
  open fl use {
    Float, Double, of_nat, double_of_nat, widen, narrow, sub, div, div_double, mul_double,
    lt_double, le_double, eq_double, double_to_u64,
  }

  -- `v == HISTORY_UNKNOWN`, in double.
  abbrev pub is_unknown : ℕ → Bool
  is_unknown v = eq_double (double_of_nat v) (double_of_nat history_unknown)

  -- The largest peak.
  unfoldable pub find_max : List ℕ → ℕ → ℕ
  find_max [] max = max
  find_max (v ∷ vs) max = find_max vs (
      if not (is_unknown v) && lt_double (double_of_nat max) (double_of_nat v)
      then double_to_u64 (double_of_nat v)
      else max)

  unfoldable pub step_of : GraphCfg → ℕ → Float
  step_of cfg max = narrow (div_double (double_of_nat max) (double_of_nat cfg.gc_height))

  -- `gt_scale[i]`, before it is divided for its unit.
  unfoldable pub scale_at : Float → ℕ → Float
  scale_at step i = narrow (mul_double (double_of_nat (i + 1)) (widen step))

  -- `v >= (gt_scale[t] - half_step)`
  unfoldable pub reaches : Float → ℕ → ℕ → Bool
  unfolding scale_at
  reaches step v t =
      le_double (widen (sub (scale_at step t) (div step (of_nat 2)))) (double_of_nat v)

  -- The column `col`, for the sample `v`.
  unfoldable pub draw_column : GraphCfg → Float → ℕ → ℕ → List ℕ → Option (List ℕ)
  unfolding fill_rows write tbl_pos reaches
  draw_column cfg step col v tbl =
      if is_unknown v
      then fill_rows cfg col (λ t. some cfg.gc_unknown) cfg.gc_height tbl
      else if lt_double (double_of_nat 0) (double_of_nat v)
      then write (tbl_pos cfg 0 col) cfg.gc_noise tbl
        >>= fill_rows cfg col (λ t. if reaches step v t then some cfg.gc_foreground else none)
            cfg.gc_height
      else some tbl

  unfoldable pub draw_columns : GraphCfg → Float → ℕ → List ℕ → List ℕ → Option (List ℕ)
  unfolding draw_column
  draw_columns cfg step col [] tbl = some tbl
  draw_columns cfg step col (v ∷ vs) tbl =
      draw_column cfg step col v tbl >>= draw_columns cfg step (col + 1) vs

  -- The table that `fill_table` leaves; `none` is BUG() or an access out of bounds. Without a history, or
  -- without data, the table stays blank.
  unfoldable pub fill_table : GraphCfg → Option (History Float × HistoryStore) → Option (List ℕ)
  unfolding table_size end_rows read_samples find_max step_of draw_columns
  fill_table cfg source = do
    blank ← end_rows cfg cfg.gc_height (replicate (table_size cfg) cfg.gc_background)
    elim source [
      | none ↦ some blank
      | some (h, data') ↦ elim data'.hs_data [
        | none ↦ some blank
        | some _ ↦ if ltb h.h_definition.hd_size cfg.gc_width then none else (do
          values ← read_samples h data' cfg.gc_width h.h_index
          draw_columns cfg (step_of cfg (find_max values 0)) 0 values blank)
      ]
    ]

  -- The configuration of the graph; `none` is BUG().
  unfoldable pub graph_alloc : Option (History Float) → GraphCfg → Option GraphCfg
  graph_alloc h cfg =
      let width : ℕ = elim h [
        | none ↦ cfg.gc_width
        | some h' ↦
            if ltb h'.h_definition.hd_size cfg.gc_width || (cfg.gc_width == 0)
            then h'.h_definition.hd_size
            else cfg.gc_width
      ] in
      if (cfg.gc_height == 0) || (width == 0) then none else some (record cfg { gc_width = width })

  -- The two tables of `graph_refill`.
  unfoldable pub graph_refill : GraphCfg → Option (History Float) → Option (List ℕ × List ℕ)
  unfolding fill_table
  graph_refill cfg h = do
    rx ← fill_table cfg (elim h [ none ↦ none | some h' ↦ some (h', h'.h_rx) ])
    tx ← fill_table cfg (elim h [ none ↦ none | some h' ↦ some (h', h'.h_tx) ])
    some (rx, tx)
