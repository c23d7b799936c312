-- ===== src/Graph/Draw.antt =====
-- What `fill_table` draws: the samples as columns, the newest first.

use bmon.Prelude.{
  ℕ, zero, suc, ◌+◌, ◌≤◌, ◌<◌, ◌≡◌, refl, sym, ap, subst, ◌∙◌, false, ◌||◌, Option, some, List, [],
  ◌∷◌, map, arith, if◌then◌else◌, ◌==◌, ltb, length, get_elem?, take, replicate,
}
use bmon.Floats.{Floats}
use bmon.History.{History, HistoryStore}
use bmon.History.Window.{back, window, take-window}
use bmon.History.Store.{HasSize, IsValid, samples}
use bmon.Graph.{
  GraphCfg, table_size, tbl_pos, end_rows, read_samples, find_max, step_of, draw_columns,
  fill_table, graph_alloc, graph_refill,
}
use bmon.Graph.Table.{Picture, ended, blank-Shows}
use bmon.Graph.Columns.{
  shown, read_samples-window, cell, drawn_columns, draw_columns-Shows, drawn_columns-behind,
  drawn_columns-at,
}

module _ (fl : Floats) where
  open fl use {Float}

  -- The table that shows the values as columns, with a NUL at the end of each row.
  pub record IsDrawn (cfg : GraphCfg) (values : List ℕ) (o : Option (List ℕ)) : Type 0 where
    pub table : List ℕ
    pub result : o ≡ some table
    pub sized : length table ≡ table_size cfg
    pub columns :
        (r i v : ℕ)
        → r < cfg.gc_height
        → i < cfg.gc_width
        → get_elem? values i ≡ some v
        → get_elem? table (tbl_pos cfg r i)
          ≡ some (cell fl cfg (step_of fl cfg (find_max fl values 0)) v r cfg.gc_background)
    pub row_ends :
        (r : ℕ) → r < cfg.gc_height → get_elem? table (tbl_pos cfg r cfg.gc_width) ≡ some 0

  -- What the samples of a history are drawn as, as many as the graph is wide.
  abbrev pub newest : GraphCfg → History Float → HistoryStore → List ℕ
  newest cfg h hs = map (shown h.h_definition) (take cfg.gc_width (samples h hs))

  length-window : (xs : List ℕ) (size n m : ℕ) → length (window xs size n m) ≡ m
  length-window xs size n zero = refl
  length-window xs size n (suc m) = ap suc (length-window xs size (back size n) m)

  length-map : (f : ℕ → ℕ) (xs : List ℕ) → length (map f xs) ≡ length xs
  length-map f [] = refl
  length-map f (x ∷ xs) = ap suc (length-map f xs)

  samples-window :
      (h : History Float) (hs : HistoryStore) (data' : List ℕ)
      → hs.hs_data ≡ some data'
      → samples h hs ≡ window data' h.h_definition.hd_size h.h_index h.h_definition.hd_size
  samples-window h hs data' e = rw e refl

  drawn-value :
      (cfg : GraphCfg) (step : Float) (vs : List ℕ) (f : Picture) (r i v : ℕ)
      → r < cfg.gc_height
      → get_elem? vs i ≡ some v
      → drawn_columns fl cfg step 0 vs f r i ≡ cell fl cfg step v r (f r i)
  drawn-value cfg step vs f r i v h e =
      let from : i ≡ 0 + i = omega arith in
      ap (drawn_columns fl cfg step 0 vs f r) from
      ∙ drawn_columns-at fl cfg step 0 vs f r i v h e
      ∙ ap (λ c. cell fl cfg step v r (f r c)) (sym from)

  ended-inside :
      (cfg : GraphCfg) (r c : ℕ) (f : Picture)
      → c < cfg.gc_width
      → ended cfg cfg.gc_height f r c ≡ f r c
  ended-inside cfg r c f h = ground arith

  ended-end :
      (cfg : GraphCfg) (r : ℕ) (f : Picture)
      → r < cfg.gc_height
      → ended cfg cfg.gc_height f r cfg.gc_width ≡ 0
  ended-end cfg r f h = ground arith

  fill_table_eq :
      (cfg : GraphCfg) (h : History Float) (hs : HistoryStore) (data' blank values table : List ℕ)
      → end_rows cfg cfg.gc_height (replicate (table_size cfg) cfg.gc_background) ≡ some blank
      → hs.hs_data ≡ some data'
      → cfg.gc_width ≤ h.h_definition.hd_size
      → read_samples h hs cfg.gc_width h.h_index ≡ some values
      → draw_columns fl cfg (step_of fl cfg (find_max fl values 0)) 0 values blank ≡ some table
      → fill_table fl cfg (some (h, hs)) ≡ some table
  unfolding fill_table
  fill_table_eq cfg h hs data' blank values table e0 e w read e1 =
      let fits : ltb h.h_definition.hd_size cfg.gc_width ≡ false = ground arith in
      simp (fill_table, e0, e, fits, read, e1)

  -- Where the history has its data and is at least as long as the graph is wide, `fill_table` stays in
  -- the table, and draws the newest samples, the newest first, with every row ended.
  pub fill_table-IsDrawn :
      (cfg : GraphCfg) (h : History Float) (hs : HistoryStore) (data' : List ℕ)
      → 0 < cfg.gc_height
      → hs.hs_data ≡ some data'
      → length data' ≡ h.h_definition.hd_size
      → h.h_index < h.h_definition.hd_size
      → cfg.gc_width ≤ h.h_definition.hd_size
      → IsDrawn cfg (newest cfg h hs) (fill_table fl cfg (some (h, hs)))
  fill_table-IsDrawn cfg h hs data' b e l i w =
      let size = h.h_definition.hd_size in
      let values = map (shown h.h_definition) (window data' size h.h_index cfg.gc_width) in
      let same : newest cfg h hs ≡ values =
        ap (λ xs. map (shown h.h_definition) (take cfg.gc_width xs)) (samples-window h hs data' e)
        ∙ ap (map (shown h.h_definition)) (take-window data' size cfg.gc_width size h.h_index w) in
      let read = read_samples-window h hs data' cfg.gc_width h.h_index e l i in
      let step = step_of fl cfg (find_max fl values 0) in
      let background : Picture = λ r c. cfg.gc_background in
      let f = ended cfg cfg.gc_height background in
      let (blank, e0, s0) = blank-Shows cfg in
      let len : length values ≡ cfg.gc_width =
        length-map (shown h.h_definition) (window data' size h.h_index cfg.gc_width)
        ∙ length-window data' size h.h_index cfg.gc_width in
      let (t, e1, s1) = draw_columns-Shows fl cfg step 0 values blank f b (omega (arith, len)) s0 in
      subst (λ vs. IsDrawn cfg vs (fill_table fl cfg (some (h, hs)))) (sym same)
        (record {
          table = t;
          result = fill_table_eq cfg h hs data' blank values t e0 e w read e1;
          sized = s1.sized;
          columns = λ r j v hr hj g.
              s1.cells r j hr (omega (arith, hj))
              ∙ ap (λ x. some x)
                  (drawn-value cfg step values f r j v hr g
                    ∙ ap (cell fl cfg step v r) (ended-inside cfg r j background hj));
          row_ends = λ r hr.
              s1.cells r cfg.gc_width hr (omega arith)
              ∙ ap (λ x. some x)
                  (drawn_columns-behind fl cfg step 0 values f r cfg.gc_width (omega (arith, len))
                    ∙ ended-end cfg r background hr);
        })

  -- A graph that is allocated for a history with samples in both directions, and refilled from it, is
  -- drawn in both tables, with a width from 1 to the size of the history.
  pub record AfterRefill (cfg : GraphCfg) (h : History Float) : Type 0 where
    pub graph : GraphCfg
    pub allocated : graph_alloc fl (some h) cfg ≡ some graph
    pub height : graph.gc_height ≡ cfg.gc_height
    pub not_empty : 0 < graph.gc_width
    pub fits : graph.gc_width ≤ h.h_definition.hd_size
    pub rx : IsDrawn graph (newest graph h h.h_rx) (fill_table fl graph (some (h, h.h_rx)))
    pub tx : IsDrawn graph (newest graph h h.h_tx) (fill_table fl graph (some (h, h.h_tx)))
    pub refilled : graph_refill fl graph (some h) ≡ some (rx.table, tx.table)

  alloc_good : (height width : ℕ) → 0 < height → 0 < width → (height == 0) || (width == 0) ≡ false
  alloc_good height width b w = ground arith

  alloc_width : GraphCfg → History Float → ℕ
  alloc_width cfg h =
      if ltb h.h_definition.hd_size cfg.gc_width || (cfg.gc_width == 0)
      then h.h_definition.hd_size
      else cfg.gc_width

  -- A graph with a height that is allocated for a valid history with samples in both directions is
  -- as wide as 1 to the size of the history, and graph_refill with this history does not end in
  -- BUG and draws both tables.
  pub graph_alloc-AfterRefill :
      (cfg : GraphCfg) (h : History Float) (rx tx : List ℕ)
      → 0 < cfg.gc_height
      → IsValid h
      → h.h_rx.hs_data ≡ some rx
      → h.h_tx.hs_data ≡ some tx
      → AfterRefill cfg h
  unfolding graph_alloc graph_refill alloc_width
  graph_alloc-AfterRefill cfg h rx tx b v er et =
      let width = alloc_width cfg h in
      let graph : GraphCfg = record cfg { gc_width = width } in
      let size_pos : 0 < h.h_definition.hd_size = omega (arith, v.index_in) in
      let wide : 0 < width = ground (arith, size_pos) in
      let fits : width ≤ h.h_definition.hd_size = ground arith in
      let good : (cfg.gc_height == 0) || (width == 0) ≡ false =
        alloc_good cfg.gc_height width b wide in
      let drawn_rx =
        fill_table-IsDrawn graph h h.h_rx rx b er
          (subst (HasSize h.h_definition.hd_size) er v.rx_size) v.index_in fits in
      let drawn_tx =
        fill_table-IsDrawn graph h h.h_tx tx b et
          (subst (HasSize h.h_definition.hd_size) et v.tx_size) v.index_in fits in
      record {
        graph = graph;
        allocated = rw good refl;
        height = refl;
        not_empty = wide;
        fits = fits;
        rx = drawn_rx;
        tx = drawn_tx;
        refilled = rw (drawn_rx.result, drawn_tx.result) refl;
      }
