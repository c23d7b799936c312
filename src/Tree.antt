-- ===== src/Tree.antt =====
-- src/element.c: the tree of elements of a group, and the moves of the current element in it. An entry
-- of a list of elements carries what is in the element, its list `e_childs`, and the entries behind it.
-- A pointer to an element is the place of the element: what is around it, as the code reaches it over
-- `e_list` and `e_parent`. The moves change nothing but the pointer `g_current`.
pub mod Order
pub mod Next
pub mod Prev
mod Tests
use bmon.Prelude.{ℕ, Option, none, some, List, [], ◌∷◌, get_elem?, set, length}
use bmon.Cursor.{select_next, select_prev, current}

pub data Elements (A : Type 0) : Type 0 where
  empty : Elements A
  entry : A → Elements A → Elements A → Elements A

-- The entries in front of an element, the nearest first, each with its children.
abbrev pub Before : Type 0 → Type 0
Before A = List (A × Elements A)

-- A parent, with what is in front of it and behind it in its own list.
pub record Parent (A : Type 0) : Type 0 where
  pub p_data : A
  pub p_prev : Before A
  pub p_next : Elements A

-- An element in its tree, with its parents, the nearest first.
pub record Place (A : Type 0) : Type 0 where
  pub e_data : A
  pub e_childs : Elements A
  pub e_prev : Before A
  pub e_next : Elements A
  pub e_parents : List (Parent A)

module _ {A : Type 0} where
  -- The list that an entry is in, from its start.
  abbrev pub rewind : Before A → Elements A → Elements A
  rewind [] es = es
  rewind ((a, childs) ∷ prev) es = rewind prev (entry a childs es)

  abbrev pub first_in : Elements A → List (Parent A) → Option (Place A)
  first_in empty ps = none
  first_in (entry a childs next) ps =
      some (record { e_data = a; e_childs = childs; e_prev = []; e_next = next; e_parents = ps })

  -- The last entry of a list, and while that has children, the last of these.
  unfoldable pub last_in : Elements A → Before A → List (Parent A) → Option (Place A)
  last_in empty prev ps = none
  last_in (entry a childs next) prev ps =
      let behind = last_in next ((a, childs) ∷ prev) ps in
      let below = last_in childs [] (record { p_data = a; p_prev = prev; p_next = empty } ∷ ps) in
      elim next [
        | empty ↦ elim below [
          | none ↦ some (record {
            e_data = a;
            e_childs = childs;
            e_prev = prev;
            e_next = empty;
            e_parents = ps;
          })
          | some p ↦ some p
        ]
        | entry _ _ _ ↦ behind
      ]

  -- The loop of `element_select_next` that moves upwards, and the step to the next entry behind it.
  -- `none` is the end of the tree.
  unfoldable pub next_up :
      A → Elements A → Before A → Elements A → List (Parent A) → Option (Place A)
  next_up a childs prev (entry b childs' next) ps = some (record {
    e_data = b;
    e_childs = childs';
    e_prev = (a, childs) ∷ prev;
    e_next = next;
    e_parents = ps;
  })
  next_up a childs prev empty [] = none
  next_up a childs prev empty (p ∷ ps) =
      next_up p.p_data (rewind prev (entry a childs empty)) p.p_prev p.p_next ps

  -- The parent of an entry, as it stands in its own list, seen from the entry with what is behind it.
  abbrev pub as_parent : Place A → Parent A
  as_parent p = record { p_data = p.e_data; p_prev = p.e_prev; p_next = p.e_next }

  -- The move inside one group; `none` where the code goes on to the next group.
  unfoldable pub next_place : Place A → Option (Place A)
  unfolding next_up
  next_place p = elim p.e_childs [
    | empty ↦ next_up p.e_data empty p.e_prev p.e_next p.e_parents
    | entry a childs next ↦ first_in (entry a childs next) (as_parent p ∷ p.e_parents)
  ]

  -- The last place in an entry: the entry itself, or its last child's.
  abbrev pub last_below : A → Elements A → Before A → Elements A → List (Parent A) → Place A
  last_below a childs prev next ps =
      elim (last_in childs [] (record { p_data = a; p_prev = prev; p_next = next } ∷ ps)) [
        | none ↦ record {
          e_data = a;
          e_childs = childs;
          e_prev = prev;
          e_next = next;
          e_parents = ps;
        }
        | some p ↦ p
      ]

  unfoldable pub prev_up : Place A → List (Parent A) → Option (Place A)
  prev_up p [] = none
  prev_up p (parent ∷ ps) = some (record {
    e_data = parent.p_data;
    e_childs = entry p.e_data p.e_childs p.e_next;
    e_prev = parent.p_prev;
    e_next = parent.p_next;
    e_parents = ps;
  })

  -- The move backwards inside one group; `none` where the code goes back to the previous group.
  unfoldable pub prev_place : Place A → Option (Place A)
  unfolding last_in prev_up
  prev_place p = elim p.e_prev [
    | [] ↦ prev_up p p.e_parents
    | (a, childs) ∷ prev ↦
        some (last_below a childs prev (entry p.e_data p.e_childs p.e_next) p.e_parents)
  ]
