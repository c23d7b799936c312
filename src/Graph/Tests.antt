-- ===== src/Graph/Tests.antt =====
-- Graphs at concrete values.

use bmon.Prelude.{◌≡◌, refl, some, [], ◌∷◌, arith}
use bmon.Floats.{whole_floats}
use bmon.Element.Samples.{history}
use bmon.Graph.{GraphCfg, fill_table}
use bmon.Graph.Draw.{IsDrawn, newest, fill_table-IsDrawn, AfterRefill, graph_alloc-AfterRefill}

abbrev small : GraphCfg
small = record {
  gc_height = 2;
  gc_width = 3;
  gc_background = b'.';
  gc_foreground = b'*';
  gc_noise = b':';
  gc_unknown = b'?';
}

-- With the samples 7, 6 and 5 and whole numbers for floats all three reach both rows.
small_table :
    fill_table whole_floats small (some (history, history.h_rx))
    ≡ some (b'*' ∷ b'*' ∷ b'*' ∷ 0 ∷ b'*' ∷ b'*' ∷ b'*' ∷ 0 ∷ [])
unfolding fill_table
small_table = refl

fill_table-IsDrawn_example :
    IsDrawn whole_floats small
      (newest whole_floats small history history.h_rx)
      (fill_table whole_floats small (some (history, history.h_rx)))
fill_table-IsDrawn_example =
    fill_table-IsDrawn whole_floats small history history.h_rx (7 ∷ 5 ∷ 6 ∷ []) (omega arith) refl
      refl (omega arith) (omega arith)

graph_alloc-AfterRefill_example : AfterRefill whole_floats small history
graph_alloc-AfterRefill_example =
    graph_alloc-AfterRefill whole_floats small history (7 ∷ 5 ∷ 6 ∷ []) (0 ∷ 0 ∷ 1 ∷ [])
      (omega arith) (record { index_in = omega arith; rx_size = refl; tx_size = refl }) refl refl
