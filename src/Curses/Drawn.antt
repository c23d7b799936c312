-- ===== src/Curses/Drawn.antt =====
-- src/out_curses.c: the list of elements that is drawn is a part of the list of all rows.
use mathlib.Core.List.{append_assoc, append-nil, map-append}
use bmon.Prelude.{
  ℕ, suc, zero, ◌+◌, ◌-◌, ◌<◌, ◌≡◌, refl, sym, ap, ◌∙◌, Bool, true, false, List, [], ◌∷◌, ◌++◌,
  ◌&&◌, ltb, leb, map, if◌then◌else◌, arith, Bool-cases, inl, inr, take, drop,
}
use bmon.Prelude.Int.{pos, ◌+ℤ◌}
use bmon.Tree.{Elements, empty, entry}
use bmon.Tree.Order.{preorder}
use bmon.Group.{ElementGroup}
use bmon.Curses.{foreach_element, group_foreach_element, group_foreach}
use bmon.Curses.Rows.{
  Window, Row, group_row, element_row, Drawing, line_visible, draw_element, draw_group,
  draw_element_list,
}

-- The lines `o`, `o + 1`, ... of the window, of which there are `l`.
abbrev visible : ℕ → ℕ → ℕ → Bool
visible o l line = leb o line && ltb line (o + l)

abbrev window : ℕ → ℕ → ℕ → Window
window o l rows = record { offset = pos o; list_length = pos l; rows = rows }

line_visible-window : (o l rows n : ℕ) → line_visible (window o l rows) (pos n) ≡ visible o l n
unfolding line_visible ◌+ℤ◌
line_visible-window o l rows n = ground arith

-- How many lines of the window are still to come.
abbrev pub to_come : ℕ → ℕ → ℕ → ℕ
to_come o l line = if ltb line o then l else o + l - line

all_of : (o : ℕ) → o - 0 ≡ o
all_of o = omega arith

on_screen :
    (o l rows line row : ℕ)
    → visible o l line ≡ true
    → row + to_come o l line < rows - 1
    → leb (rows - 1) (row + 1) ≡ false
on_screen o l rows line row v h = ground arith

module _ {A : Type 0} where
  -- The rows of the list: each title with the elements of its group behind it.
  abbrev pub rows_of : List (ElementGroup A) → List (Row A)
  rows_of [] = []
  rows_of (g ∷ gs) = group_row g ∷ map element_row (preorder g.g_elements) ++ rows_of gs

  -- One more row: drawn where its line is in the window.
  abbrev draw_row : ℕ → ℕ → Row A → Drawing A → Drawing A
  draw_row o l x s =
      if visible o l s.line
      then record { row = s.row + 1; line = s.line + 1; drawn = s.drawn ++ x ∷ [] }
      else record s { line = s.line + 1 }

  abbrev draw_rows : ℕ → ℕ → List (Row A) → Drawing A → Drawing A
  draw_rows o l [] s = s
  draw_rows o l (x ∷ xs) s = draw_rows o l xs (draw_row o l x s)

  abbrev HasRoom : ℕ → ℕ → ℕ → Drawing A → Type 0
  HasRoom o l rows s = s.row + to_come o l s.line < rows - 1

  HasRoom-draw_row :
      (o l rows : ℕ) (x : Row A) (s : Drawing A)
      → HasRoom o l rows s
      → HasRoom o l rows (draw_row o l x s)
  HasRoom-draw_row o l rows x s h = elim (Bool-cases (visible o l s.line)) [
    | inl e ↦ rw e (ground arith)
    | inr e ↦ rw e (ground arith)
  ]

  -- Where the rows to come have a place, an element is one more row.
  draw_element-draw_row :
      (o l rows : ℕ) (e : A) (s : Drawing A)
      → HasRoom o l rows s
      → draw_element (window o l rows) e s ≡ draw_row o l (element_row e) s
  unfolding draw_element
  draw_element-draw_row o l rows e s h =
      rw (line_visible-window o l rows s.line) (elim (Bool-cases (visible o l s.line)) [
        | inl v ↦ rw (v, on_screen o l rows s.line s.row v h) refl
        | inr v ↦ rw v refl
      ])

  HasRoom-draw_rows :
      (o l rows : ℕ) (xs : List (Row A)) (s : Drawing A)
      → HasRoom o l rows s
      → HasRoom o l rows (draw_rows o l xs s)
  HasRoom-draw_rows o l rows [] s h = h
  HasRoom-draw_rows o l rows (x ∷ xs) s h =
      HasRoom-draw_rows o l rows xs (draw_row o l x s) (HasRoom-draw_row o l rows x s h)

  draw_rows-append :
      (o l : ℕ) (xs ys : List (Row A)) (s : Drawing A)
      → draw_rows o l (xs ++ ys) s ≡ draw_rows o l ys (draw_rows o l xs s)
  draw_rows-append o l [] ys s = refl
  draw_rows-append o l (x ∷ xs) ys s = draw_rows-append o l xs ys (draw_row o l x s)

  elements-draw_rows :
      (o l rows : ℕ) (es : Elements A) (s : Drawing A)
      → HasRoom o l rows s
      → foreach_element (draw_element (window o l rows)) es s
        ≡ draw_rows o l (map element_row (preorder es)) s
  unfolding foreach_element
  elements-draw_rows o l rows empty s h = refl
  elements-draw_rows o l rows (entry e childs next) s h =
      let room = HasRoom-draw_row o l rows (element_row e) s h in
      let below = elements-draw_rows o l rows childs (draw_row o l (element_row e) s) room in
      let room' =
        HasRoom-draw_rows o l rows (map element_row (preorder childs))
          (draw_row o l (element_row e) s) room in
      let s1 = draw_row o l (element_row e) s in
      let s2 = draw_rows o l (map element_row (preorder childs)) s1 in
      ap
        (λ s'.
          foreach_element (draw_element (window o l rows)) next
            (foreach_element (draw_element (window o l rows)) childs s'))
        (draw_element-draw_row o l rows e s h)
      ∙ ap (foreach_element (draw_element (window o l rows)) next) below
      ∙ elements-draw_rows o l rows next s2 room'
      ∙ sym (
          rw map-append (
            draw_rows-append o l (map element_row (preorder childs))
              (map element_row (preorder next)) s1))

  draw_group-draw_row :
      (o l rows : ℕ) (g : ElementGroup A) (s : Drawing A)
      → HasRoom o l rows s
      → draw_group (window o l rows) g s
        ≡ group_foreach_element (draw_element (window o l rows)) g (draw_row o l (group_row g) s)
  unfolding draw_group
  draw_group-draw_row o l rows g s h =
      rw (line_visible-window o l rows s.line) (elim (Bool-cases (visible o l s.line)) [
        | inl v ↦ rw (v, on_screen o l rows s.line s.row v h) refl
        | inr v ↦ rw v refl
      ])

  group-draw_rows :
      (o l rows : ℕ) (g : ElementGroup A) (s : Drawing A)
      → HasRoom o l rows s
      → draw_group (window o l rows) g s
        ≡ draw_rows o l (group_row g ∷ map element_row (preorder g.g_elements)) s
  unfolding group_foreach_element
  group-draw_rows o l rows g s h =
      draw_group-draw_row o l rows g s h
      ∙ elements-draw_rows o l rows g.g_elements (draw_row o l (group_row g) s)
          (HasRoom-draw_row o l rows (group_row g) s h)

  groups-draw_rows :
      (o l rows : ℕ) (gs : List (ElementGroup A)) (s : Drawing A)
      → HasRoom o l rows s
      → group_foreach (draw_group (window o l rows)) gs s ≡ draw_rows o l (rows_of gs) s
  unfolding group_foreach
  groups-draw_rows o l rows [] s h = refl
  groups-draw_rows o l rows (g ∷ gs) s h =
      let one = group_row g ∷ map element_row (preorder g.g_elements) in
      ap (group_foreach (draw_group (window o l rows)) gs) (group-draw_rows o l rows g s h)
      ∙ groups-draw_rows o l rows gs (draw_rows o l one s) (HasRoom-draw_rows o l rows one s h)
      ∙ sym (draw_rows-append o l one (rows_of gs) s)

  -- The rows in the window, from the line `n` on.
  abbrev pub in_window : ℕ → ℕ → ℕ → List (Row A) → List (Row A)
  in_window o l n [] = []
  in_window o l n (x ∷ xs) =
      if visible o l n then x ∷ in_window o l (n + 1) xs else in_window o l (n + 1) xs

  drop-nil : (k : ℕ) → drop {A = Row A} k [] ≡ []
  drop-nil zero = refl
  drop-nil (suc k) = refl

  take-nil : (k : ℕ) → take {A = Row A} k [] ≡ []
  take-nil zero = refl
  take-nil (suc k) = refl

  -- The first row is in front of the window, in it or behind it.
  take-front :
      (k k' d d' : ℕ) (x : Row A) (xs : List (Row A))
      → k ≡ k'
      → d ≡ suc d'
      → take k (drop d (x ∷ xs)) ≡ take k' (drop d' xs)
  take-front k k' d d' x xs h e = rw (h, e) refl

  take-inside :
      (k k' d d' : ℕ) (x : Row A) (xs : List (Row A))
      → k ≡ suc k'
      → d ≡ 0
      → d' ≡ 0
      → take k (drop d (x ∷ xs)) ≡ x ∷ take k' (drop d' xs)
  take-inside k k' d d' x xs h e e' = rw (h, e, e') refl

  take-behind : (k k' : ℕ) (xs ys : List (Row A)) → k ≡ 0 → k' ≡ 0 → take k xs ≡ take k' ys
  take-behind k k' xs ys h e = rw (h, e) refl

  in_window-window :
      (o l n : ℕ) (xs : List (Row A)) → in_window o l n xs ≡ take (to_come o l n) (drop (o - n) xs)
  in_window-window o l n [] =
      sym (ap (take (to_come o l n)) (drop-nil (o - n)) ∙ take-nil (to_come o l n))
  in_window-window o l n (x ∷ xs) =
      let rest = in_window-window o l (n + 1) xs in
      elim (Bool-cases (visible o l n)) [
        | inl v ↦ rw v (
            ap (λ ys. x ∷ ys) rest
            ∙ sym (
                take-inside (to_come o l n) (to_come o l (n + 1)) (o - n) (o - (n + 1)) x xs
                  (ground arith) (ground arith) (ground arith)))
        | inr v ↦ rw v (
            rest
            ∙ sym (elim (Bool-cases (ltb n o)) [
              | inl f ↦
                  take-front (to_come o l n) (to_come o l (n + 1)) (o - n) (o - (n + 1)) x xs
                    (ground arith) (ground arith)
              | inr f ↦
                  take-behind (to_come o l n) (to_come o l (n + 1)) _ _ (ground arith)
                    (ground arith)
            ]))
      ]

  draw_row-in_window :
      (o l : ℕ) (x : Row A) (xs : List (Row A)) (s : Drawing A)
      → (draw_row o l x s).drawn ++ in_window o l (draw_row o l x s).line xs
        ≡ s.drawn ++ in_window o l s.line (x ∷ xs)
  draw_row-in_window o l x xs s = elim (Bool-cases (visible o l s.line)) [
    | inl v ↦ rw (v, append_assoc) refl
    | inr v ↦ rw v refl
  ]

  drawn-draw_rows :
      (o l : ℕ) (xs : List (Row A)) (s : Drawing A)
      → (draw_rows o l xs s).drawn ≡ s.drawn ++ in_window o l s.line xs
  drawn-draw_rows o l [] s = sym (append-nil s.drawn)
  drawn-draw_rows o l (x ∷ xs) s =
      drawn-draw_rows o l xs (draw_row o l x s) ∙ draw_row-in_window o l x xs s

  -- Where the rows have a place on the screen, the rows that draw_element_list draws are the
  -- list_length rows behind the first `offset` of the list of all titles and elements in their
  -- order.
  pub draw_element_list-window :
      (gs : List (ElementGroup A)) (o l rows row : ℕ)
      → row + l < rows - 1
      → (draw_element_list
          (record { offset = pos o; list_length = pos l; rows = rows })
          gs
          row).drawn
        ≡ take l (drop o (rows_of gs))
  unfolding draw_element_list
  draw_element_list-window gs o l rows row h =
      let s : Drawing A = record { row = row; line = 0; drawn = [] } in
      let full : to_come o l 0 ≡ l = ground arith in
      let room : HasRoom o l rows s = rw full h in
      ap (λ d. d.drawn) (groups-draw_rows o l rows gs s room)
      ∙ drawn-draw_rows o l (rows_of gs) s
      ∙ in_window-window o l 0 (rows_of gs)
      ∙ rw (full, all_of o) refl
