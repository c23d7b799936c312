-- ===== src/Group/Moves.antt =====
-- The moves of the current element between groups.
use bmon.Prelude.{
  ℕ, zero, suc, ◌+◌, ◌<◌, ◌≡◌, refl, ap, ◌∙◌, Option, none, some, List, [], ◌∷◌, arith,
  if◌then◌else◌, ltb, length, get_elem?, get_elem?-set_self,
}
use bmon.Cursor.{select_first, select_next, current}
use bmon.Tree.{Place, first_in, next_place}
use bmon.Group.{
  ElementGroup, Groups, the_group, set_current, group_current, group_select_next,
  element_select_first, element_select_next,
}

module _ {A : Type 0} where
  -- The current element, in the current group.
  abbrev pub current_place : Groups A → Option (Place A)
  current_place gs = elim (the_group gs) [ none ↦ none | some g ↦ g.g_current ]

  get_elem?-lt :
      (l : List (ElementGroup A)) (i : ℕ) (g : ElementGroup A)
      → get_elem? l i ≡ some g
      → i < length l
  get_elem?-lt [] i g h = absurd cc
  get_elem?-lt (x ∷ l) zero g h = omega arith
  get_elem?-lt (x ∷ l) (suc i) g h = omega (arith, get_elem?-lt l i g h)

  -- The group behind the one at `i`, or the first one behind the last.
  abbrev pub next_index : ℕ → Groups A → ℕ
  next_index i gs = if ltb (i + 1) (length gs.group_list) then i + 1 else 0

  select_next-next_index :
      (gs : Groups A) (i : ℕ)
      → 0 < length gs.group_list
      → select_next (length gs.group_list) (some i) ≡ some (next_index i gs)
  unfolding select_next select_first
  select_next-next_index gs i h = ground arith

  first_of_group :
      (gs : Groups A) (j : ℕ) (g : ElementGroup A)
      → get_elem? gs.group_list j ≡ some g
      → ((element_select_first (record gs { current_group = some j })).current_group ≡ some j)
        × (current_place (element_select_first (record gs { current_group = some j }))
            ≡ first_in g.g_elements [])
  unfolding element_select_first group_current current
  first_of_group gs j g h =
      let g' : ElementGroup A = record g { g_current = first_in g.g_elements [] } in
      (
        rw (h, element_select_first) (rw (h, set_current) refl),
        rw (h, element_select_first)
            (rw (h, set_current)
              (rw (get_elem?-set_self gs.group_list j g' (get_elem?-lt _ j g h), current_place)
                refl)),
      )

  leave_group :
      (gs : Groups A) (i : ℕ) (g : ElementGroup A) (e : Place A)
      → get_elem? gs.group_list i ≡ some g
      → g.g_current ≡ some e
      → next_place e ≡ none
      → element_select_next (record gs { current_group = some i })
        ≡ element_select_first
            (record gs { current_group = select_next (length gs.group_list) (some i) })
  unfolding element_select_next group_current current group_select_next
  leave_group gs i g e h c n = rw (h, element_select_next) (rw c (rw n refl))

  -- Behind the last element of the current group `element_select_next` goes to the first element of the
  -- next group, which is the first group behind the last one; in a group without elements to none.
  pub element_select_next-next_group :
      (gs : Groups A) (i : ℕ) (g g' : ElementGroup A) (e : Place A)
      → get_elem? gs.group_list i ≡ some g
      → g.g_current ≡ some e
      → next_place e ≡ none
      → get_elem? gs.group_list (next_index i gs) ≡ some g'
      → ((element_select_next (record gs { current_group = some i })).current_group
          ≡ some (next_index i gs))
        × (current_place (element_select_next (record gs { current_group = some i }))
            ≡ first_in g'.g_elements [])
  element_select_next-next_group gs i g g' e h c n h' =
      let lt = get_elem?-lt gs.group_list (next_index i gs) g' h' in
      let q =
        leave_group gs i g e h c n
        ∙ ap (λ (k : Option ℕ). element_select_first (record gs { current_group = k }))
            (select_next-next_index gs i (omega arith)) in
      let (a, b) = first_of_group gs (next_index i gs) g' h' in
      (ap (λ (s : Groups A). s.current_group) q ∙ a, ap current_place q ∙ b)
