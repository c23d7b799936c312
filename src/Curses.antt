-- ===== src/Curses.antt =====
-- src/out_curses.c: how the screen is divided between the list of elements, the graphs, the details
-- and the information, which lines of the list are drawn, and the keys. What curses itself does
-- (windows, colours, characters) is not a part of the model; an `int` is an integer here.
pub mod Layout
pub mod Rows
pub mod Keys
pub mod Fits
pub mod Visible
pub mod Drawn
pub mod Selected
pub mod Options
pub mod Quit
mod Tests
use bmon.Prelude.{ℕ, ◌+◌, ◌*◌, ◌/◌, ◌%◌, Bool, true, false, List, [], ◌∷◌, if◌then◌else◌, ltb, ◌==◌}
use bmon.Prelude.Int.{ℤ, pos, ◌+ℤ◌, ◌*ℤ◌, ltb_ℤ}
use bmon.Graph.{GraphCfg}
use bmon.Tree.{Elements, empty, entry}
use bmon.Group.{ElementGroup}

-- The settings that the options and the keys change.
pub record CursesCfg : Type 0 where
  pub c_show_graph : Bool
  pub c_show_details : Bool
  pub c_show_list : Bool
  pub c_show_info : Bool
  pub c_ngraph : ℤ
  pub c_list_min : ℤ
  pub c_graph_cfg : GraphCfg

abbrev pub details_cols : ℕ
details_cols = 40

unfoldable pub lines_required_for_header : ℕ
lines_required_for_header = 1

unfoldable pub lines_required_for_statusbar : ℕ
lines_required_for_statusbar = 1

-- `detail_cols` and `info_cols`
abbrev pub columns : ℕ → ℕ
columns cols = if cols / details_cols == 0 then 1 else cols / details_cols

-- The lines for `n` entries in columns, and for the incomplete last one.
abbrev pub lines_of : ℕ → ℕ → ℕ
lines_of n ncols = if n % ncols == 0 then n / ncols else n / ncols + 1

unfoldable pub lines_required_for_details : CursesCfg → ℕ → ℕ → ℕ
lines_required_for_details cfg cols e_nattrs =
    if cfg.c_show_details then 2 + lines_of e_nattrs (columns cols) else 1

unfoldable pub lines_required_for_info : CursesCfg → ℕ → ℕ → ℕ
lines_required_for_info cfg cols e_ninfo =
    if cfg.c_show_info then 1 + lines_of e_ninfo (columns cols) else 1

module _ {A : Type 0} where
  -- The loops of src/group.c over the elements of a list, each followed by its children.
  unfoldable pub foreach_element : {S : Type 0} → (A → S → S) → Elements A → S → S
  foreach_element cb empty s = s
  foreach_element cb (entry a childs next) s =
      foreach_element cb next (foreach_element cb childs (cb a s))

  unfoldable pub group_foreach_element : {S : Type 0} → (A → S → S) → ElementGroup A → S → S
  unfolding foreach_element
  group_foreach_element cb g s = foreach_element cb g.g_elements s

  unfoldable pub group_foreach :
      {S : Type 0} → (ElementGroup A → S → S) → List (ElementGroup A) → S → S
  group_foreach cb [] s = s
  group_foreach cb (g ∷ gs) s = group_foreach cb gs (cb g s)

  unfoldable pub group_foreach_recursive :
      {S : Type 0} → (A → S → S) → List (ElementGroup A) → S → S
  unfolding group_foreach_element
  group_foreach_recursive cb [] s = s
  group_foreach_recursive cb (g ∷ gs) s =
      group_foreach_recursive cb gs (group_foreach_element cb g s)

-- The lines counted so far, and `selection_offset`.
pub record ListLines : Type 0 where
  pub lines : ℕ
  pub selection_offset : ℕ

-- `is_current` is the test `e == current_element`.
module _ {A : Type 0} (is_current : A → Bool) where
  unfoldable pub count_element_lines : A → ListLines → ListLines
  count_element_lines e s = record {
    lines = s.lines + 1;
    selection_offset = if is_current e then s.lines else s.selection_offset;
  }

  unfoldable pub count_group_lines : ElementGroup A → ListLines → ListLines
  unfolding group_foreach_element count_element_lines
  count_group_lines g s =
      group_foreach_element count_element_lines g (record s { lines = s.lines + 1 })

  unfoldable pub lines_required_for_list : CursesCfg → List (ElementGroup A) → ListLines
  unfolding group_foreach count_group_lines
  lines_required_for_list cfg gs =
      if cfg.c_show_list
      then group_foreach count_group_lines gs (record { lines = 0; selection_offset = 0 })
      else record { lines = 1; selection_offset = 0 }

-- The graphs counted so far, and `graph_offset`.
pub record GraphCount : Type 0 where
  pub ngraph : ℕ
  pub graph_offset : ℕ

pub record GraphLines : Type 0 where
  pub graph_lines : ℤ
  pub graphs : ℤ
  pub first_graph : ℕ

-- `is_current` is the test `a == current_attr`; the list is that of the element's attributes.
module _ {B : Type 0} (is_current : B → Bool) where
  unfoldable pub count_attr_graph : List B → GraphCount → GraphCount
  count_attr_graph [] s = s
  count_attr_graph (a ∷ attrs) s = count_attr_graph attrs (record {
    ngraph = s.ngraph + 1;
    graph_offset = if is_current a then s.ngraph else s.graph_offset;
  })

  -- GRAPH_DISPLAY_SIDE_BY_SIDE is 1, GRAPH_DISPLAY_STANDARD is 2.
  unfoldable pub lines_required_for_graph : CursesCfg → ℕ → List B → GraphLines
  unfolding count_attr_graph
  lines_required_for_graph cfg cols attrs =
      let counted = count_attr_graph attrs (record { ngraph = 0; graph_offset = 0 }) in
      let n =
        if ltb_ℤ cfg.c_ngraph (pos counted.ngraph) then cfg.c_ngraph else pos counted.ngraph in
      let display = if ltb (2 * (cfg.c_graph_cfg.gc_width + 10)) cols then 1 else 2 in
      if cfg.c_show_graph
      then record {
        graph_lines = n *ℤ pos (display * (cfg.c_graph_cfg.gc_height + 2)) +ℤ pos 1;
        graphs = n;
        first_graph = counted.graph_offset;
      }
      else record { graph_lines = pos 1; graphs = pos 0; first_graph = 0 }
