-- ===== src/Graph/Table.antt =====
-- The table of a graph as a picture: a character for each row and column.

use native.Mathlib.Nat.{mul-le-mul_right, add-mul}
use bmon.Prelude.{
  ℕ, zero, suc, ◌+◌, ◌*◌, ◌≤◌, ◌<◌, ◌≡◌, ◌≢◌, ◌⊎◌, refl, sym, ap, ◌∙◌, true, false, ◌&&◌, Option,
  none, some, List, arith, if◌then◌else◌, ◌==◌, ltb, lt→ltb, length, set, get_elem?, replicate,
  length-replicate, length-set, get_elem?-set_self, get_elem?-set_ne, Bool-cases, Option-cases, inl,
  inr,
}
use bmon.Graph.{GraphCfg, graph_row_size, table_size, tbl_pos, write, end_rows, fill_rows}

abbrev pub Picture : Type 0
Picture = ℕ → ℕ → ℕ

-- The table has its size, and shows the picture.
pub record Shows (cfg : GraphCfg) (tbl : List ℕ) (f : Picture) : Type 0 where
  pub sized : length tbl ≡ table_size cfg
  pub cells :
      (r c : ℕ)
      → r < cfg.gc_height
      → c ≤ cfg.gc_width
      → get_elem? tbl (tbl_pos cfg r c) ≡ some (f r c)

order : (a b : ℕ) → (a < b) ⊎ (a ≡ b) ⊎ (b < a)
order a b = omega arith

-- A row ends before the next one begins.
row-before : (m r r' c : ℕ) → r < r' → c < m → r * m + c < r' * m
row-before m r r' c h l =
    let next : r + 1 ≤ r' = omega (arith, h) in
    omega (arith, l, mul-le-mul_right m next, add-mul r 1 m)

tbl_pos-inside :
    (cfg : GraphCfg) (r c : ℕ)
    → r < cfg.gc_height
    → c ≤ cfg.gc_width
    → tbl_pos cfg r c < table_size cfg
unfolding tbl_pos table_size graph_row_size
tbl_pos-inside cfg r c h l = row-before (cfg.gc_width + 1) r cfg.gc_height c h (omega (arith, l))

tbl_pos-row :
    (cfg : GraphCfg) (r r' c c' : ℕ)
    → r < r'
    → c ≤ cfg.gc_width
    → tbl_pos cfg r c ≢ tbl_pos cfg r' c'
unfolding tbl_pos graph_row_size
tbl_pos-row cfg r r' c c' h l =
    let b = row-before (cfg.gc_width + 1) r r' c h (omega (arith, l)) in omega (arith, b)

tbl_pos-col : (cfg : GraphCfg) (r c c' : ℕ) → c ≢ c' → tbl_pos cfg r c ≢ tbl_pos cfg r c'
unfolding tbl_pos graph_row_size
tbl_pos-col cfg r c c' h = omega (arith, h)

-- The picture with one cell written.
abbrev pub written : ℕ → ℕ → ℕ → Picture → Picture
written r c v f r' c' = if (r' == r) && (c' == c) then v else f r' c'

-- Another cell has another index.
tbl_pos-other :
    (cfg : GraphCfg) (r c r' c' : ℕ)
    → c ≤ cfg.gc_width
    → c' ≤ cfg.gc_width
    → (r' == r) && (c' == c) ≡ false
    → tbl_pos cfg r c ≢ tbl_pos cfg r' c'
tbl_pos-other cfg r c r' c' l l' h = elim (order r r') [
  | inl b ↦ tbl_pos-row cfg r r' c c' b l
  | inr (inl e) ↦
      let other : c ≢ c' = ground arith in
      λ q. tbl_pos-col cfg r c c' other (q ∙ ap (λ n. tbl_pos cfg n c') (sym e))
  | inr (inr b) ↦ λ q. tbl_pos-row cfg r' r c' c b l' (sym q)
]

write-cell :
    (cfg : GraphCfg) (tbl : List ℕ) (f : Picture) (r c v r' c' : ℕ)
    → Shows cfg tbl f
    → r < cfg.gc_height
    → c ≤ cfg.gc_width
    → r' < cfg.gc_height
    → c' ≤ cfg.gc_width
    → get_elem? (set tbl (tbl_pos cfg r c) v) (tbl_pos cfg r' c') ≡ some (written r c v f r' c')
write-cell cfg tbl f r c v r' c' s h l h' l' = elim (Bool-cases ((r' == r) && (c' == c))) [
  | inl e ↦
      let a : r' ≡ r = ground arith in
      let b : c' ≡ c = ground arith in
      rw e (
        ap (get_elem? (set tbl (tbl_pos cfg r c) v))
          (ap (λ n. tbl_pos cfg n c') a ∙ ap (tbl_pos cfg r) b)
        ∙ get_elem?-set_self tbl (tbl_pos cfg r c) v
            (omega (arith, s.sized, tbl_pos-inside cfg r c h l)))
  | inr e ↦ rw e (get_elem?-set_ne tbl v (tbl_pos-other cfg r c r' c' l l' e) ∙ s.cells r' c' h' l')
]

pub write-Shows :
    (cfg : GraphCfg) (tbl : List ℕ) (f : Picture) (r c v : ℕ)
    → r < cfg.gc_height
    → c ≤ cfg.gc_width
    → Shows cfg tbl f
    → (tbl' : List ℕ) × (write (tbl_pos cfg r c) v tbl ≡ some tbl')
      × Shows cfg tbl' (written r c v f)
unfolding write
write-Shows cfg tbl f r c v h l s =
    let inside : ltb (tbl_pos cfg r c) (length tbl) ≡ true =
      lt→ltb _ _ (omega (arith, s.sized, tbl_pos-inside cfg r c h l)) in
    (
      set tbl (tbl_pos cfg r c) v,
      rw inside refl,
      record {
        sized = length-set tbl (tbl_pos cfg r c) v ∙ s.sized;
        cells = λ r' c' h' l'. write-cell cfg tbl f r c v r' c' s h l h' l';
      },
    )

-- The picture after the first `n` rows of a column were gone through.
abbrev pub painted : ℕ → (ℕ → Option ℕ) → ℕ → Picture → Picture
painted col paint n f r c =
    if (c == col) && ltb r n then elim (paint r) [ none ↦ f r c | some v ↦ v ] else f r c

pub Shows-same :
    (cfg : GraphCfg) (tbl : List ℕ) (f g : Picture)
    → ((r c : ℕ) → f r c ≡ g r c)
    → Shows cfg tbl f
    → Shows cfg tbl g
Shows-same cfg tbl f g e s = record {
  sized = s.sized;
  cells = λ r c h l. s.cells r c h l ∙ ap (λ v. some v) (e r c);
}

painted-none :
    (col n : ℕ) (paint : ℕ → Option ℕ) (f : Picture) (r c : ℕ)
    → paint n ≡ none
    → painted col paint n f r c ≡ painted col paint (suc n) f r c
painted-none col n paint f r c e = elim (Bool-cases (r == n)) [
  | inl s ↦
      let here : r ≡ n = ground arith in
      let blank : paint r ≡ none = ap paint here ∙ e in rw blank (ground arith)
  | inr s ↦ ground arith
]

painted-some :
    (col n v : ℕ) (paint : ℕ → Option ℕ) (f : Picture) (r c : ℕ)
    → paint n ≡ some v
    → written n col v (painted col paint n f) r c ≡ painted col paint (suc n) f r c
painted-some col n v paint f r c e = elim (Bool-cases (r == n)) [
  | inl s ↦
      let here : r ≡ n = ground arith in
      let new : paint r ≡ some v = ap paint here ∙ e in rw new (ground arith)
  | inr s ↦ ground arith
]

pub fill_rows-Shows :
    (cfg : GraphCfg) (col n : ℕ) (paint : ℕ → Option ℕ) (tbl : List ℕ) (f : Picture)
    → n ≤ cfg.gc_height
    → col ≤ cfg.gc_width
    → Shows cfg tbl f
    → (tbl' : List ℕ) × (fill_rows cfg col paint n tbl ≡ some tbl')
      × Shows cfg tbl' (painted col paint n f)
unfolding fill_rows
fill_rows-Shows cfg col zero paint tbl f b l s =
    (tbl, refl, Shows-same cfg tbl f _ (λ r c. ground arith) s)
fill_rows-Shows cfg col (suc n) paint tbl f b l s =
    let (t, e, s') = fill_rows-Shows cfg col n paint tbl f (omega (arith, b)) l s in
    elim (Option-cases (paint n)) [
      | inl p ↦
          (t, rw (e, p) refl, Shows-same cfg t _ _ (λ r c. painted-none col n paint f r c p) s')
      | inr (v, p) ↦
          let (t', e', s'') = write-Shows cfg t _ n col v (omega (arith, b)) l s' in
          (t', rw (e, p) e', Shows-same cfg t' _ _ (λ r c. painted-some col n v paint f r c p) s'')
    ]

-- The picture with the first `n` rows ended.
abbrev pub ended : GraphCfg → ℕ → Picture → Picture
ended cfg n f r c = if (c == cfg.gc_width) && ltb r n then 0 else f r c

ended_more :
    (cfg : GraphCfg) (n : ℕ) (f : Picture) (r c : ℕ)
    → written n cfg.gc_width 0 (ended cfg n f) r c ≡ ended cfg (suc n) f r c
ended_more cfg n f r c = ground arith

end_rows-Shows :
    (cfg : GraphCfg) (n : ℕ) (tbl : List ℕ) (f : Picture)
    → n ≤ cfg.gc_height
    → Shows cfg tbl f
    → (tbl' : List ℕ) × (end_rows cfg n tbl ≡ some tbl') × Shows cfg tbl' (ended cfg n f)
unfolding end_rows
end_rows-Shows cfg zero tbl f b s = (tbl, refl, Shows-same cfg tbl f _ (λ r c. ground arith) s)
end_rows-Shows cfg (suc n) tbl f b s =
    let (t, e, s') = end_rows-Shows cfg n tbl f (omega (arith, b)) s in
    let (t', e', s'') = write-Shows cfg t _ n cfg.gc_width 0 (omega (arith, b)) (omega arith) s' in
    (t', rw e e', Shows-same cfg t' _ _ (ended_more cfg n f) s'')

get_elem?-replicate : (n i a : ℕ) → i < n → get_elem? (replicate n a) i ≡ some a
get_elem?-replicate zero i a h = absurd (omega (arith, h))
get_elem?-replicate (suc n) zero a h = refl
get_elem?-replicate (suc n) (suc i) a h = get_elem?-replicate n i a (omega (arith, h))

-- The table after `memset` and the loop that ends its rows.
pub blank-Shows :
    (cfg : GraphCfg)
    → (tbl : List ℕ) × (end_rows cfg cfg.gc_height (replicate (table_size cfg) cfg.gc_background)
        ≡ some tbl)
      × Shows cfg tbl (ended cfg cfg.gc_height (λ r c. cfg.gc_background))
blank-Shows cfg = end_rows-Shows cfg cfg.gc_height _ _ (omega arith) (record {
  sized = length-replicate (table_size cfg) cfg.gc_background;
  cells = λ r c h l. get_elem?-replicate (table_size cfg) _ _ (tbl_pos-inside cfg r c h l);
})
