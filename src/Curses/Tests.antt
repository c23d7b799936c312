-- ===== src/Curses/Tests.antt =====
-- The screen of src/out_curses.c at concrete sizes, lists and keys.
use bmon.Prelude.{
  ℕ, ◌+◌, ◌-◌, ◌≤◌, ◌≡◌, refl, ◌==◌, Bool, true, false, List, [], ◌∷◌, none, some, take, drop,
  arith,
}
use bmon.Prelude.Bytes.{codes, str_case_eq, tolower}
use bmon.Prelude.Int.{pos, ◌+ℤ◌, ◌-ℤ◌, ◌*ℤ◌}
use bmon.Graph.{GraphCfg}
use bmon.Tree.{empty, entry}
use bmon.Group.{ElementGroup, GroupHdr}
use bmon.Curses.Options.{CursesOptions, parse_switch, curses_parse_opt, curses_parse_opts}
use bmon.Curses.{
  CursesCfg, lines_required_for_list, lines_required_for_graph, lines_required_for_details,
  lines_required_for_info, count_element_lines, count_group_lines, foreach_element,
  group_foreach_element, group_foreach, count_attr_graph,
}
use bmon.Curses.Layout.{Required, divide, place_list}
use bmon.Curses.Rows.{draw_element_list}
use bmon.Curses.Keys.{CursesKeys, Moves, Screen, handled, handle_input, curses_pre}
use bmon.Curses.Fits.{IsDivided, divide-IsDivided}
use bmon.Curses.Drawn.{rows_of, draw_element_list-window}
use bmon.Curses.Selected.{IsCurrentAt, selected-drawn}
use bmon.Curses.Quit.{AfterKeys, curses_pre-AfterKeys}

abbrev graph_cfg : GraphCfg
graph_cfg = record {
  gc_height = 6;
  gc_width = 60;
  gc_background = 46;
  gc_foreground = 124;
  gc_noise = 58;
  gc_unknown = 63;
}

abbrev settings : CursesCfg
settings = record {
  c_show_graph = true;
  c_show_details = true;
  c_show_list = true;
  c_show_info = false;
  c_ngraph = pos 1;
  c_list_min = pos 2;
  c_graph_cfg = graph_cfg;
}

abbrev hdr : GroupHdr
hdr = record { gh_name = []; gh_title = []; gh_column = [] }

-- The elements 1 to 5; 2 and 3 are children of 1, and 5 is in a second group.
abbrev first_group : ElementGroup ℕ
first_group = record {
  g_name = [];
  g_hdr = hdr;
  g_elements = entry 1 (entry 2 empty (entry 3 empty empty)) (entry 4 empty empty);
  g_nelements = 4;
  g_current = none;
}

abbrev second_group : ElementGroup ℕ
second_group = record {
  g_name = [];
  g_hdr = hdr;
  g_elements = entry 5 empty empty;
  g_nelements = 1;
  g_current = none;
}

abbrev groups : List (ElementGroup ℕ)
groups = first_group ∷ second_group ∷ []

abbrev is_four : ℕ → Bool
is_four e = e == 4

list_lines :
    lines_required_for_list is_four settings groups ≡ record { lines = 7; selection_offset = 4 }
unfolding lines_required_for_list group_foreach count_group_lines group_foreach_element
    foreach_element count_element_lines
list_lines = refl

-- One graph below the other on 80 columns, side by side on 160; the second attribute is current.
graph_lines_80 :
    lines_required_for_graph (λ a. a == 8) settings 80 (7 ∷ 8 ∷ [])
    ≡ record { graph_lines = pos 17; graphs = pos 1; first_graph = 1 }
unfolding lines_required_for_graph count_attr_graph ◌+ℤ◌ ◌*ℤ◌
graph_lines_80 = refl

graph_lines_160 :
    lines_required_for_graph (λ a. a == 8) settings 160 (7 ∷ 8 ∷ [])
    ≡ record { graph_lines = pos 9; graphs = pos 1; first_graph = 1 }
unfolding lines_required_for_graph count_attr_graph ◌+ℤ◌ ◌*ℤ◌
graph_lines_160 = refl

details_80 : lines_required_for_details settings 80 5 ≡ 5
unfolding lines_required_for_details
details_80 = refl

info_80 : lines_required_for_info settings 80 5 ≡ 1
unfolding lines_required_for_info
info_80 = refl

-- 26 lines for a list of 7, a graph of 17, details of 5 and one line of information.
abbrev required : Required
required = record {
  lines_available = pos 26;
  list_req = pos 7;
  graph_req = pos 17;
  details_req = pos 5;
  info_req = pos 1;
}

list_is_shortened : (divide settings required).list_length ≡ pos 3
unfolding divide ◌+ℤ◌ ◌-ℤ◌
list_is_shortened = refl

divide-IsDivided_example : IsDivided settings required (divide settings required)
divide-IsDivided_example = divide-IsDivided settings required (omega arith) (omega arith)

-- Two rows from the second on.
draw_element_list-window_example :
    (draw_element_list (record { offset = pos 1; list_length = pos 2; rows = 24 }) groups 0).drawn
    ≡ take 2 (drop 1 (rows_of groups))
draw_element_list-window_example = draw_element_list-window groups 1 2 24 0 (omega arith)

enough : 3 ≤ (lines_required_for_list is_four settings groups).lines
unfolding lines_required_for_list group_foreach count_group_lines group_foreach_element
    foreach_element count_element_lines
enough = omega arith

selected-drawn_example :
    (i : ℕ) × IsCurrentAt is_four
      ((draw_element_list
        (record {
          offset =
              (place_list
                (lines_required_for_list is_four settings groups).selection_offset
                (pos 3)
                (pos (lines_required_for_list is_four settings groups).lines)).0;
          list_length = pos 3;
          rows = 28;
        })
        groups
        0).drawn)
      i
selected-drawn_example =
    selected-drawn is_four settings groups 3 28 0 refl refl (omega arith) enough (omega arith)

abbrev keys : CursesKeys
keys = record {
  key_clear = 333;
  key_ppage = 339;
  key_npage = 338;
  key_down = 258;
  key_up = 259;
  key_left = 260;
  key_right = 261;
}

-- The state is the line of the selection.
abbrev moves : Moves ℕ
moves = record {
  element_select_prev = λ w. w - 1;
  element_select_next = λ w. w + 1;
  attr_select_prev = λ w. w;
  attr_select_next = λ w. w;
  group_select_prev = λ w. w;
  group_select_next = λ w. w;
  history_select_next = λ w. w;
  reset_counters = λ w. w;
  has_attr = λ w. true;
  start_history = λ w. w;
  clear = λ w. w;
  redrawwin = λ w. w;
  curses_draw = λ cfg w. (some (pos 5), w);
}

abbrev screen : Screen ℕ
screen = record {
  print_help = false;
  quit_mode = false;
  cfg = settings;
  list_length = pos 5;
  world = 1;
}

-- `<`, a page down, `q` and `n`.
page_down :
    curses_pre keys moves (60 ∷ 338 ∷ 113 ∷ 110 ∷ []) screen
    ≡ handled false (record screen { world = 5 })
unfolding curses_pre handle_input ◌-ℤ◌
page_down = refl

curses_pre-AfterKeys_example :
    AfterKeys
      (62 ∷ 113 ∷ 62 ∷ 121 ∷ [])
      screen
      (curses_pre keys moves (62 ∷ 113 ∷ 62 ∷ 121 ∷ []) screen)
curses_pre-AfterKeys_example =
    curses_pre-AfterKeys keys moves (62 ∷ 113 ∷ 62 ∷ 121 ∷ []) screen (omega arith, omega arith)

abbrev options : CursesOptions
options = record {
  gc_foreground = 124;
  gc_background = 46;
  gc_noise = 58;
  gc_unknown = 63;
  gc_height = pos 6;
  gc_width = pos 60;
  c_ngraph = pos 1;
  c_list_min = pos 6;
  c_show_graph = true;
  c_show_details = false;
  c_show_info = false;
  c_use_colors = true;
}

-- The options `ngraph=0` and `info`.
two_options :
    curses_parse_opts
      (λ s. pos 0)
      options
      ((codes "ngraph", some (codes "0")) ∷ (codes "info", none) ∷ [])
    ≡ some (record options { c_ngraph = pos 0; c_show_graph = false; c_show_info = true })
unfolding curses_parse_opts curses_parse_opt parse_switch str_case_eq tolower
two_options = refl
