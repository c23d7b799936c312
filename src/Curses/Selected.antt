-- ===== src/Curses/Selected.antt =====
-- src/out_curses.c: the lines that are counted for the list are those that are drawn, and the selected
-- element is one of them.
use mathlib.Core.List.{append_assoc, append-nil, map-append}
use bmon.Prelude.{
  ℕ, suc, zero, ◌+◌, ◌-◌, ◌/◌, ltb, ◌≤◌, ◌<◌, ◌≡◌, refl, sym, ap, ◌∙◌, Bool, true, false, ◌||◌, ◌⊎◌,
  subst, some, List, [], ◌∷◌, ◌++◌, map, if◌then◌else◌, arith, Bool-cases, inl, inr, take, drop,
  length, length-append, get_elem?,
}
use bmon.Prelude.Int.{pos, ◌+ℤ◌, ◌-ℤ◌}
use bmon.Tree.{Elements, empty, entry}
use bmon.Tree.Order.{preorder}
use bmon.Group.{ElementGroup}
use bmon.Curses.{
  foreach_element, group_foreach_element, group_foreach, ListLines, count_element_lines,
  count_group_lines, lines_required_for_list, CursesCfg,
}
use bmon.Curses.Layout.{place_list}
use bmon.Curses.Rows.{Row, group_row, element_row, draw_element_list}
use bmon.Curses.Drawn.{rows_of, draw_element_list-window}

zero_plus : (i : ℕ) → 0 + i ≡ i
zero_plus i = omega arith

suc_plus : (o i : ℕ) → suc o + i ≡ suc (o + i)
suc_plus o i = omega arith

neither : (a b : Bool) → (a || b) ≡ false → (a ≡ false) × (b ≡ false)
neither a b h = ground arith

module _ {A : Type 0} where
  get_elem?-append :
      (xs ys : List A) (i : ℕ) (x : A) → get_elem? xs i ≡ some x → get_elem? (xs ++ ys) i ≡ some x
  get_elem?-append [] ys i x h = ground arith
  get_elem?-append (y ∷ xs) ys zero x h = h
  get_elem?-append (y ∷ xs) ys (suc i) x h = get_elem?-append xs ys i x h

  get_elem?-length : (xs : List A) (x : A) → get_elem? (xs ++ x ∷ []) (length xs) ≡ some x
  get_elem?-length [] x = refl
  get_elem?-length (y ∷ xs) x = get_elem?-length xs x

  get_elem?-drop : (xs : List A) (o i : ℕ) → get_elem? (drop o xs) i ≡ get_elem? xs (o + i)
  get_elem?-drop xs zero i = rw (zero_plus i) refl
  get_elem?-drop [] (suc o) i = refl
  get_elem?-drop (x ∷ xs) (suc o) i = rw (suc_plus o i) (get_elem?-drop xs o i)

  get_elem?-take : (xs : List A) (l i : ℕ) → i < l → get_elem? (take l xs) i ≡ get_elem? xs i
  get_elem?-take xs zero i h = ground arith
  get_elem?-take [] (suc l) i h = refl
  get_elem?-take (x ∷ xs) (suc l) zero h = refl
  get_elem?-take (x ∷ xs) (suc l) (suc i) h = get_elem?-take xs l i (omega arith)

module _ {A : Type 0} (is_current : A → Bool) where
  abbrev pub current_row : Row A → Bool
  current_row (group_row g) = false
  current_row (element_row e) = is_current e

  -- The current element is among the rows.
  abbrev pub any_current : List (Row A) → Bool
  any_current [] = false
  any_current (x ∷ xs) = current_row x || any_current xs

  abbrev count_row : Row A → ListLines → ListLines
  count_row (group_row g) s = record s { lines = s.lines + 1 }
  count_row (element_row e) s = record {
    lines = s.lines + 1;
    selection_offset = if is_current e then s.lines else s.selection_offset;
  }

  abbrev count_rows : List (Row A) → ListLines → ListLines
  count_rows [] s = s
  count_rows (x ∷ xs) s = count_rows xs (count_row x s)

  count_rows-append :
      (xs ys : List (Row A)) (s : ListLines)
      → count_rows (xs ++ ys) s ≡ count_rows ys (count_rows xs s)
  count_rows-append [] ys s = refl
  count_rows-append (x ∷ xs) ys s = count_rows-append xs ys (count_row x s)

  count-elements :
      (es : Elements A) (s : ListLines)
      → foreach_element (count_element_lines is_current) es s
        ≡ count_rows (map element_row (preorder es)) s
  unfolding foreach_element count_element_lines
  count-elements empty s = refl
  count-elements (entry e childs next) s =
      let s1 = count_row (element_row e) s in
      let below = map element_row (preorder childs) in
      ap (foreach_element (count_element_lines is_current) next) (count-elements childs s1)
      ∙ count-elements next (count_rows below s1)
      ∙ sym (rw map-append (count_rows-append below (map element_row (preorder next)) s1))

  count-groups :
      (gs : List (ElementGroup A)) (s : ListLines)
      → group_foreach (count_group_lines is_current) gs s ≡ count_rows (rows_of gs) s
  unfolding group_foreach count_group_lines group_foreach_element
  count-groups [] s = refl
  count-groups (g ∷ gs) s =
      let s1 = count_row (group_row g) s in
      let below = map element_row (preorder g.g_elements) in
      ap (group_foreach (count_group_lines is_current) gs) (count-elements g.g_elements s1)
      ∙ count-groups gs (count_rows below s1)
      ∙ sym (count_rows-append below (rows_of gs) s1)

  -- The row at a line is that of the current element.
  abbrev pub IsCurrentAt : List (Row A) → ℕ → Type 0
  IsCurrentAt xs i = (e : A) × (is_current e ≡ true) × (get_elem? xs i ≡ some (element_row e))

  -- `s` counts the rows, and has the line of a current element where one is among them.
  abbrev pub IsCounted : List (Row A) → ListLines → Type 0
  IsCounted xs s =
      (s.lines ≡ length xs) × ((any_current xs ≡ false) ⊎ IsCurrentAt xs s.selection_offset)

  any_current-append :
      (xs ys : List (Row A)) → any_current xs ≡ false → any_current (xs ++ ys) ≡ any_current ys
  any_current-append [] ys h = refl
  any_current-append (x ∷ xs) ys h =
      let (h1, h2) = neither (current_row x) (any_current xs) h in
      rw h1 (any_current-append xs ys h2)

  IsCurrentAt-append : (xs ys : List (Row A)) (i : ℕ) → IsCurrentAt xs i → IsCurrentAt (xs ++ ys) i
  IsCurrentAt-append xs ys i (e, c, at) = (e, c, get_elem?-append xs ys i (element_row e) at)

  IsCounted-row :
      (xs : List (Row A)) (x : Row A) (s : ListLines)
      → IsCounted xs s
      → IsCounted (xs ++ x ∷ []) (count_row x s)
  IsCounted-row xs (group_row g) s (n, c) = (
    omega (arith, n, length-append xs (group_row g ∷ [])),
    elim c [
      | inl h ↦ inl (any_current-append xs (group_row g ∷ []) h)
      | inr at ↦ inr (IsCurrentAt-append xs _ _ at)
    ],
  )
  IsCounted-row xs (element_row e) s (n, c) = (
    omega (arith, n, length-append xs (element_row e ∷ [])),
    elim (Bool-cases (is_current e)) [
      | inl cur ↦ inr (rw cur (e, cur, rw n (get_elem?-length xs (element_row e))))
      | inr other ↦ rw other (elim c [
        | inl h ↦ inl (rw (any_current-append xs (element_row e ∷ []) h, other) refl)
        | inr at ↦ inr (IsCurrentAt-append xs _ _ at)
      ])
    ],
  )

  IsCounted-rows :
      (xs ys : List (Row A)) (s : ListLines)
      → IsCounted xs s
      → IsCounted (xs ++ ys) (count_rows ys s)
  IsCounted-rows xs [] s h = rw (append-nil xs) h
  IsCounted-rows xs (y ∷ ys) s h =
      subst (λ zs. IsCounted zs (count_rows ys (count_row y s))) (append_assoc xs (y ∷ []) ys)
        (IsCounted-rows (xs ++ y ∷ []) ys (count_row y s) (IsCounted-row xs y s h))

  -- The lines that the list asks for are its rows, and the selection is the line of the current element.
  pub lines_required_for_list-IsCounted :
      (cfg : CursesCfg) (gs : List (ElementGroup A))
      → cfg.c_show_list ≡ true
      → IsCounted (rows_of gs) (lines_required_for_list is_current cfg gs)
  unfolding lines_required_for_list
  lines_required_for_list-IsCounted cfg gs shown =
      rw (shown, count-groups gs (record { lines = 0; selection_offset = 0 }))
        (IsCounted-rows [] (rows_of gs) (record { lines = 0; selection_offset = 0 })
          (refl, inl refl))

-- Where the list begins, for a list that is not longer than its rows.
abbrev first_line : ℕ → ℕ → ℕ → ℕ
first_line s l req = if ltb (req - l) (s - l / 2) then req - l else s - l / 2

place_list-first_line :
    (s l req : ℕ)
    → 0 < s
    → 0 < l
    → l ≤ req
    → (place_list s (pos l) (pos req)).0 ≡ pos (first_line s l req)
unfolding place_list ◌-ℤ◌ ◌+ℤ◌
place_list-first_line s l req h u v = ground arith

first_line-window :
    (s l req : ℕ) → s < req → 0 < l → (first_line s l req ≤ s) × (s - first_line s l req < l)
first_line-window s l req h u = ground arith

module _ {A : Type 0} (is_current : A → Bool) where
  rows_of-element :
      (gs : List (ElementGroup A)) (i : ℕ) (e : A)
      → get_elem? (rows_of gs) i ≡ some (element_row e)
      → 0 < i
  rows_of-element [] i e h = ground arith
  rows_of-element (g ∷ gs) zero e h = ground arith
  rows_of-element (g ∷ gs) (suc i) e h = omega arith

  get_elem?-lt :
      {B : Type 0} (xs : List B) (i : ℕ) (x : B) → get_elem? xs i ≡ some x → i < length xs
  get_elem?-lt [] i x h = ground arith
  get_elem?-lt (y ∷ xs) zero x h = omega arith
  get_elem?-lt (y ∷ xs) (suc i) x h = omega (arith, get_elem?-lt xs i x h)

  in_window :
      {B : Type 0} (xs : List B) (s o l : ℕ) (x : B)
      → get_elem? xs s ≡ some x
      → o ≤ s
      → s - o < l
      → get_elem? (take l (drop o xs)) (s - o) ≡ some x
  in_window xs s o l x at h k =
      let back : o + (s - o) ≡ s = omega arith in
      get_elem?-take (drop o xs) l (s - o) k ∙ get_elem?-drop xs o (s - o) ∙ rw back at

  -- Where the list is shown and the current element is in it, its length is positive and not more
  -- than its rows, and the screen has a place for it, draw_element_list draws the row of the
  -- current element.
  pub selected-drawn :
      (cfg : CursesCfg) (gs : List (ElementGroup A)) (l rows row : ℕ)
      → cfg.c_show_list ≡ true
      → any_current is_current (rows_of gs) ≡ true
      → 0 < l
      → l ≤ (lines_required_for_list is_current cfg gs).lines
      → row + l < rows - 1
      → (i : ℕ) × IsCurrentAt is_current
          ((draw_element_list
            (record {
              offset =
                  (place_list
                    (lines_required_for_list is_current cfg gs).selection_offset
                    (pos l)
                    (pos (lines_required_for_list is_current cfg gs).lines)).0;
              list_length = pos l;
              rows = rows;
            })
            gs
            row).drawn)
          i
  selected-drawn cfg gs l rows row shown any h k room =
      let (n, c) = lines_required_for_list-IsCounted is_current cfg gs shown in
      elim c [
        | inl none_there ↦ cc
        | inr (e, cur, at) ↦
            let counted = lines_required_for_list is_current cfg gs in
            let s = counted.selection_offset in
            let inside : s < counted.lines = omega (arith, n, get_elem?-lt (rows_of gs) s _ at) in
            let (lo, hi) = first_line-window s l counted.lines inside h in
            (
              s - first_line s l counted.lines,
              (
                e,
                cur,
                rw (place_list-first_line s l counted.lines (rows_of-element gs s e at) h k) (
                    ap (λ xs. get_elem? xs (s - first_line s l counted.lines))
                      (draw_element_list-window gs (first_line s l counted.lines) l rows row room)
                    ∙ in_window (rows_of gs) s _ l _ at lo hi),
              ),
            )
      ]
