-- ===== src/Curses/Visible.antt =====
-- src/out_curses.c: the selected element is among the lines of the list that are drawn.
use bmon.Prelude.{ℕ, ◌<◌, ◌≡◌, true, false, arith}
use bmon.Prelude.Int.{ℤ, pos, negsuc, ◌+ℤ◌, ◌-ℤ◌, ◌<ℤ◌}
use bmon.Curses.Layout.{place_list}
use bmon.Curses.Rows.{line_visible}

-- Where a line of the list is selected and there are lines to draw, it is visible, and BUG is not reached.
pub place_list-visible :
    (selection_offset : ℕ) (list_length list_req : ℤ) (rows : ℕ)
    → 0 < selection_offset
    → pos selection_offset <ℤ list_req
    → pos 0 <ℤ list_length
    → (line_visible
          (record {
            offset = (place_list selection_offset list_length list_req).0;
            list_length = list_length;
            rows = rows;
          })
          (pos selection_offset)
        ≡ true)
      × ((place_list selection_offset list_length list_req).1 ≡ false)
unfolding place_list line_visible ◌+ℤ◌ ◌-ℤ◌
place_list-visible s (pos l) req rows h k up = ground arith
place_list-visible s (negsuc l) req rows h k up = ground arith
