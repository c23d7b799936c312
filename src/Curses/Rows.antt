-- ===== src/Curses/Rows.antt =====
-- src/out_curses.c: the lines of the list of elements that `draw_element_list` draws.
use bmon.Prelude.{ℕ, ◌+◌, ◌-◌, Bool, ◌&&◌, List, [], ◌∷◌, ◌++◌, if◌then◌else◌, leb}
use bmon.Prelude.Int.{ℤ, pos, ◌+ℤ◌, ltb_ℤ}
use bmon.Group.{ElementGroup}
use bmon.Curses.{group_foreach_element, group_foreach}
use bmon.Curses.Layout.{leb_ℤ}

-- `offset`, `list_length` and `rows`
pub record Window : Type 0 where
  pub offset : ℤ
  pub list_length : ℤ
  pub rows : ℕ

unfoldable pub line_visible : Window → ℤ → Bool
line_visible win line = leb_ℤ win.offset line && ltb_ℤ line (win.offset +ℤ win.list_length)

-- A row of the list: the title of a group or an element.
pub data Row (A : Type 0) : Type 0 where
  group_row : ElementGroup A → Row A
  element_row : A → Row A

-- `row`, `*line` and the rows drawn so far.
pub record Drawing (A : Type 0) : Type 0 where
  pub row : ℕ
  pub line : ℕ
  pub drawn : List (Row A)

-- NEXT_ROW returns from its function where the screen ends.
abbrev pub screen_ends : Window → ℕ → Bool
screen_ends win row = leb (win.rows - 1) row

module _ {A : Type 0} (win : Window) where
  unfoldable pub draw_element : A → Drawing A → Drawing A
  unfolding line_visible
  draw_element e s =
      if line_visible win (pos s.line)
      then if screen_ends win (s.row + 1)
        then record s { row = s.row + 1 }
        else record { row = s.row + 1; line = s.line + 1; drawn = s.drawn ++ element_row e ∷ [] }
      else record s { line = s.line + 1 }

  unfoldable pub draw_group : ElementGroup A → Drawing A → Drawing A
  unfolding line_visible group_foreach_element draw_element
  draw_group g s =
      if line_visible win (pos s.line)
      then if screen_ends win (s.row + 1)
        then record s { row = s.row + 1 }
        else group_foreach_element draw_element g
            (record { row = s.row + 1; line = s.line + 1; drawn = s.drawn ++ group_row g ∷ [] })
      else group_foreach_element draw_element g (record s { line = s.line + 1 })

  -- The list, drawn behind the given row.
  unfoldable pub draw_element_list : List (ElementGroup A) → ℕ → Drawing A
  unfolding group_foreach draw_group
  draw_element_list gs row =
      group_foreach draw_group gs (record { row = row; line = 0; drawn = [] })
