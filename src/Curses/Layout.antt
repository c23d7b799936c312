-- ===== src/Curses/Layout.antt =====
-- src/out_curses.c: the first half of `draw_content`, which divides the lines of the screen and places
-- the list.
use bmon.Prelude.{ℕ, ◌+◌, ◌/◌, Bool, true, false, not, ◌&&◌, if◌then◌else◌, ◌==◌}
use bmon.Prelude.Int.{ℤ, pos, negsuc, ◌+ℤ◌, ◌-ℤ◌, ltb_ℤ}
use bmon.Curses.{CursesCfg}

-- The lines that are there, and those that the four parts ask for.
pub record Required : Type 0 where
  pub lines_available : ℤ
  pub list_req : ℤ
  pub graph_req : ℤ
  pub details_req : ℤ
  pub info_req : ℤ

-- `list_length` and what is disabled; `too_small` is the message that more lines are required.
pub record Division : Type 0 where
  pub list_length : ℤ
  pub disable_graph : Bool
  pub disable_details : Bool
  pub disable_info : Bool
  pub too_small : Bool

abbrev pub leb_ℤ : ℤ → ℤ → Bool
leb_ℤ a b = not (ltb_ℤ b a)

abbrev pub total_req : Required → ℤ
total_req r = r.list_req +ℤ r.graph_req +ℤ r.details_req +ℤ r.info_req

-- The attempts at `list_length`.
abbrev pub list_shorter : Required → ℤ
list_shorter r = r.lines_available -ℤ (total_req r -ℤ r.list_req)

abbrev pub without_info : Required → ℤ
without_info r = r.lines_available -ℤ (total_req r -ℤ r.info_req +ℤ pos 1)

abbrev pub without_details : Required → ℤ
without_details r = r.lines_available -ℤ (total_req r -ℤ r.details_req +ℤ pos 1)

abbrev pub without_all : Required → ℤ
without_all r = r.lines_available -ℤ pos 1 -ℤ pos 1 -ℤ pos 1

-- The `goto draw` of each attempt is its branch here.
unfoldable pub divide : CursesCfg → Required → Division
divide cfg r =
    let full : Division = record {
      list_length = r.list_req;
      disable_graph = false;
      disable_details = false;
      disable_info = false;
      too_small = false;
    } in
    if leb_ℤ (total_req r) r.lines_available
    then full
    else if cfg.c_show_list && leb_ℤ cfg.c_list_min (list_shorter r)
    then record full { list_length = list_shorter r }
    else if cfg.c_show_info && leb_ℤ cfg.c_list_min (without_info r)
    then record full { list_length = without_info r; disable_info = true }
    else if cfg.c_show_details && leb_ℤ cfg.c_list_min (without_details r)
    then record full { list_length = without_details r; disable_details = true }
    else if leb_ℤ cfg.c_list_min (without_all r)
    then record {
      list_length = without_all r;
      disable_graph = true;
      disable_details = true;
      disable_info = true;
      too_small = false;
    }
    else record full { list_length = without_all r; too_small = true }

-- `list_length / 2`, towards zero.
abbrev pub half : ℤ → ℤ
half (pos n) = pos (n / 2)
half (negsuc n) = pos 0 -ℤ pos ((n + 1) / 2)

abbrev pub at_least_zero : ℤ → ℤ
at_least_zero n = if ltb_ℤ n (pos 0) then pos 0 else n

abbrev pub at_most : ℤ → ℤ → ℤ
at_most m n = if ltb_ℤ m n then m else n

-- `offset`, and whether the code reaches BUG behind it.
unfoldable pub place_list : ℕ → ℤ → ℤ → ℤ × Bool
place_list selection_offset list_length list_req =
    let middle = pos selection_offset -ℤ half list_length in
    let offset = at_most (list_req -ℤ list_length) (at_least_zero middle) in
    if not (selection_offset == 0) && ltb_ℤ (pos 0) list_length
    then (offset, leb_ℤ list_req offset)
    else (pos 0, false)
