-- ===== src/Graph/Columns.antt =====
-- The columns that the loops of `fill_table` draw, and the samples that they read.

use bmon.Prelude.{
  ℕ, zero, suc, ◌+◌, ◌-◌, ◌≤◌, ◌<◌, ◌≡◌, refl, sym, ap, ◌∙◌, true, false, ◌&&◌, none, some, List,
  [], ◌∷◌, map, arith, if◌then◌else◌, ◌==◌, ltb, length, get_elem?, get_or, Bool-cases, inl, inr,
}
use bmon.Floats.{Floats}
use bmon.History.{History, HistoryStore, HistoryDef, history_data, history_unknown, type_mod}
use bmon.History.Window.{back, back-lt, window}
use bmon.Graph.{GraphCfg, read_samples, is_unknown, reaches, draw_column, draw_columns}
use bmon.Graph.Table.{Picture, Shows, Shows-same, written, write-Shows, painted, fill_rows-Shows}

-- How `history_data` reads a sample.
abbrev pub shown : {F : Type 0} → HistoryDef F → ℕ → ℕ
shown def v = if v == type_mod def.hd_type - 1 then history_unknown else v

get_elem?-get_or : (xs : List ℕ) (i : ℕ) → i < length xs → get_elem? xs i ≡ some (get_or xs i 0)
get_elem?-get_or [] i h = absurd (omega (arith, h))
get_elem?-get_or (x ∷ xs) zero h = refl
get_elem?-get_or (x ∷ xs) (suc i) h = get_elem?-get_or xs i (omega (arith, h))

history_data-shown :
    {F : Type 0} (h : History F) (hs : HistoryStore) (data' : List ℕ) (i : ℕ)
    → hs.hs_data ≡ some data'
    → i < length data'
    → history_data h hs i ≡ some (shown h.h_definition (get_or data' i 0))
unfolding history_data
history_data-shown h hs data' i e l = rw (e, history_data) (rw (get_elem?-get_or data' i l) refl)

pub read_samples-window :
    {F : Type 0} (h : History F) (hs : HistoryStore) (data' : List ℕ) (width n : ℕ)
    → hs.hs_data ≡ some data'
    → length data' ≡ h.h_definition.hd_size
    → n < h.h_definition.hd_size
    → read_samples h hs width n
      ≡ some (map (shown h.h_definition) (window data' h.h_definition.hd_size n width))
unfolding read_samples
read_samples-window h hs data' zero n e l b = refl
read_samples-window h hs data' (suc width) n e l b =
    let m = back h.h_definition.hd_size n in
    let inside : m < h.h_definition.hd_size = back-lt h.h_definition.hd_size n b in
    let first = history_data-shown h hs data' m e (omega (arith, inside, l)) in
    let rest = read_samples-window h hs data' width m e l inside in rw (first, rest) refl

module _ (fl : Floats) where
  open fl use {Float, double_of_nat, lt_double}

  -- The character of a row in the column of the sample `v`, over the background `old`.
  unfoldable pub cell : GraphCfg → Float → ℕ → ℕ → ℕ → ℕ
  cell cfg step v r old =
      if is_unknown fl v
      then cfg.gc_unknown
      else if lt_double (double_of_nat 0) (double_of_nat v)
      then if reaches fl step v r then cfg.gc_foreground else if r == 0 then cfg.gc_noise else old
      else old

  abbrev drawn_column : GraphCfg → Float → ℕ → ℕ → Picture → Picture
  drawn_column cfg step col v f r c =
      if (c == col) && ltb r cfg.gc_height then cell cfg step v r (f r c) else f r c

  unknown_cell :
      (cfg : GraphCfg) (step : Float) (col v : ℕ) (f : Picture) (r c : ℕ)
      → is_unknown fl v ≡ true
      → painted col (λ t. some cfg.gc_unknown) cfg.gc_height f r c
        ≡ drawn_column cfg step col v f r c
  unfolding cell
  unknown_cell cfg step col v f r c u = rw u refl

  bar_cell :
      (cfg : GraphCfg) (step : Float) (col v : ℕ) (f : Picture) (r c : ℕ)
      → 0 < cfg.gc_height
      → is_unknown fl v ≡ false
      → lt_double (double_of_nat 0) (double_of_nat v) ≡ true
      → painted col
          (λ t. if reaches fl step v t then some cfg.gc_foreground else none)
          cfg.gc_height
          (written 0 col cfg.gc_noise f)
          r
          c
        ≡ drawn_column cfg step col v f r c
  unfolding cell
  bar_cell cfg step col v f r c b u p = rw (u, p) (ground arith)

  empty_cell :
      (cfg : GraphCfg) (step : Float) (col v : ℕ) (f : Picture) (r c : ℕ)
      → is_unknown fl v ≡ false
      → lt_double (double_of_nat 0) (double_of_nat v) ≡ false
      → f r c ≡ drawn_column cfg step col v f r c
  unfolding cell
  empty_cell cfg step col v f r c u p = rw (u, p) (ground arith)

  draw_column-Shows :
      (cfg : GraphCfg) (step : Float) (col v : ℕ) (tbl : List ℕ) (f : Picture)
      → 0 < cfg.gc_height
      → col ≤ cfg.gc_width
      → Shows cfg tbl f
      → (tbl' : List ℕ) × (draw_column fl cfg step col v tbl ≡ some tbl')
        × Shows cfg tbl' (drawn_column cfg step col v f)
  unfolding draw_column
  draw_column-Shows cfg step col v tbl f b l s = elim (Bool-cases (is_unknown fl v)) [
    | inl u ↦
        let (t, e, s') =
          fill_rows-Shows cfg col cfg.gc_height (λ t. some cfg.gc_unknown) tbl f (omega arith) l
            s in
        (t, rw u e, Shows-same cfg t _ _ (λ r c. unknown_cell cfg step col v f r c u) s')
    | inr u ↦ elim (Bool-cases (lt_double (double_of_nat 0) (double_of_nat v))) [
      | inl p ↦
          let (t, e, s') = write-Shows cfg tbl f 0 col cfg.gc_noise b l s in
          let paint = λ (t : ℕ). if reaches fl step v t then some cfg.gc_foreground else none in
          let (t', e', s'') =
            fill_rows-Shows cfg col cfg.gc_height paint t (written 0 col cfg.gc_noise f)
              (omega arith) l s' in
          (
            t',
            rw (u, p, e) e',
            Shows-same cfg t' _ _ (λ r c. bar_cell cfg step col v f r c b u p) s'',
          )
      | inr p ↦ (
        tbl,
        rw (u, p) refl,
        Shows-same cfg tbl _ _ (λ r c. empty_cell cfg step col v f r c u p) s,
      )
    ]
  ]

  unfoldable pub drawn_columns : GraphCfg → Float → ℕ → List ℕ → Picture → Picture
  drawn_columns cfg step col [] f = f
  drawn_columns cfg step col (v ∷ vs) f =
      drawn_columns cfg step (col + 1) vs (drawn_column cfg step col v f)

  pub draw_columns-Shows :
      (cfg : GraphCfg) (step : Float) (col : ℕ) (vs tbl : List ℕ) (f : Picture)
      → 0 < cfg.gc_height
      → col + length vs ≤ cfg.gc_width
      → Shows cfg tbl f
      → (tbl' : List ℕ) × (draw_columns fl cfg step col vs tbl ≡ some tbl')
        × Shows cfg tbl' (drawn_columns cfg step col vs f)
  unfolding draw_columns drawn_columns
  draw_columns-Shows cfg step col [] tbl f b l s = (tbl, refl, s)
  draw_columns-Shows cfg step col (v ∷ vs) tbl f b l s =
      let (t, e, s') = draw_column-Shows cfg step col v tbl f b (omega (arith, l)) s in
      let (t', e', s'') = draw_columns-Shows cfg step (col + 1) vs t _ b (omega (arith, l)) s' in
      (t', rw e e', s'')

  drawn_columns-before :
      (cfg : GraphCfg) (step : Float) (col : ℕ) (vs : List ℕ) (f : Picture) (r c : ℕ)
      → c < col
      → drawn_columns cfg step col vs f r c ≡ f r c
  unfolding drawn_columns
  drawn_columns-before cfg step col [] f r c h = refl
  drawn_columns-before cfg step col (v ∷ vs) f r c h =
      drawn_columns-before cfg step (col + 1) vs _ r c (omega (arith, h)) ∙ ground arith

  pub drawn_columns-behind :
      (cfg : GraphCfg) (step : Float) (col : ℕ) (vs : List ℕ) (f : Picture) (r c : ℕ)
      → col + length vs ≤ c
      → drawn_columns cfg step col vs f r c ≡ f r c
  unfolding drawn_columns
  drawn_columns-behind cfg step col [] f r c h = refl
  drawn_columns-behind cfg step col (v ∷ vs) f r c h =
      drawn_columns-behind cfg step (col + 1) vs _ r c (omega (arith, h)) ∙ ground arith

  pub drawn_columns-at :
      (cfg : GraphCfg) (step : Float) (col : ℕ) (vs : List ℕ) (f : Picture) (r i v : ℕ)
      → r < cfg.gc_height
      → get_elem? vs i ≡ some v
      → drawn_columns cfg step col vs f r (col + i) ≡ cell cfg step v r (f r (col + i))
  unfolding drawn_columns
  drawn_columns-at cfg step col [] f r i v h e = cc
  drawn_columns-at cfg step col (x ∷ vs) f r zero v h e =
      let here : x ≡ v = cc in
      let inside : (col + 0 == col) && ltb r cfg.gc_height ≡ true = ground arith in
      drawn_columns-before cfg step (col + 1) vs (drawn_column cfg step col x f) r (col + 0)
        (omega arith)
      ∙ rw inside (ap (λ n. cell cfg step n r (f r (col + 0))) here)
  drawn_columns-at cfg step col (x ∷ vs) f r (suc i) v h e =
      let later : col + suc i ≡ col + 1 + i = omega arith in
      let f' = drawn_column cfg step col x f in
      let other : f' r (col + 1 + i) ≡ f r (col + 1 + i) = ground arith in
      ap (drawn_columns cfg step (col + 1) vs f' r) later
      ∙ drawn_columns-at cfg step (col + 1) vs f' r i v h e
      ∙ ap (cell cfg step v r) (other ∙ ap (f r) (sym later))
