-- ===== src/Group.antt =====
-- src/group.c and the moves of the current element of src/element.c: the groups of elements, their
-- titles, and what is current. The global lists and `current_group` are the state; the pointer to a
-- group is its index in `group_list`, which only grows at its end.
pub mod Lookup
pub mod Moves
mod Tests
use bmon.Prelude.{
  ℕ, ◌+◌, Bool, true, false, Option, none, some, List, [], ◌∷◌, ◌++◌, if◌then◌else◌, length,
  get_elem?, set,
}
use bmon.Prelude.Bytes.{Bytes, str_eq}
use bmon.Tree.{Elements, empty, Place, first_in, last_in, next_place, prev_place}
use bmon.Cursor.{select_first, select_last, select_next, select_prev, current}

-- `struct group_hdr`; `gh_column` has four entries.
pub record GroupHdr : Type 0 where
  pub gh_name : Bytes
  pub gh_title : Bytes
  pub gh_column : List Bytes

-- `struct element_group`, over what an element carries; `g_current` is the place of an element.
pub record ElementGroup (A : Type 0) : Type 0 where
  pub g_name : Bytes
  pub g_hdr : GroupHdr
  pub g_elements : Elements A
  pub g_nelements : ℕ
  pub g_current : Option (Place A)

pub record Groups (A : Type 0) : Type 0 where
  pub titles_list : List GroupHdr
  pub group_list : List (ElementGroup A)
  pub ngroups : ℕ
  pub current_group : Option ℕ

unfoldable pub group_lookup_hdr : Bytes → List GroupHdr → Option GroupHdr
group_lookup_hdr name [] = none
group_lookup_hdr name (hdr ∷ hdrs) =
    if str_eq hdr.gh_name name then some hdr else group_lookup_hdr name hdrs

-- The results 0, -EEXIST and -ENOENT.
pub data HdrResult : Type 0 where
  hdr_added hdr_exists hdr_no_template : HdrResult

unfoldable pub group_new_hdr :
    Bytes → Bytes → List Bytes → List GroupHdr → HdrResult × List GroupHdr
unfolding group_lookup_hdr
group_new_hdr name title columns hdrs = elim (group_lookup_hdr name hdrs) [
  | some hdr ↦ (hdr_exists, hdrs)
  | none ↦
      (hdr_added, hdrs ++ record { gh_name = name; gh_title = title; gh_column = columns } ∷ [])
]

unfoldable pub group_new_derived_hdr :
    Bytes → Bytes → Bytes → List GroupHdr → HdrResult × List GroupHdr
unfolding group_new_hdr
group_new_derived_hdr name title template hdrs = elim (group_lookup_hdr name hdrs) [
  | some hdr ↦ (hdr_exists, hdrs)
  | none ↦ elim (group_lookup_hdr template hdrs) [
    | none ↦ (hdr_no_template, hdrs)
    | some t ↦ group_new_hdr name title t.gh_column hdrs
  ]
]

module _ {A : Type 0} where
  -- The index of the first group of a name.
  unfoldable pub find_group : Bytes → List (ElementGroup A) → Option ℕ
  find_group name [] = none
  find_group name (g ∷ gs) =
      let rest = find_group name gs in
      if str_eq name g.g_name then some 0 else elim rest [ none ↦ none | some i ↦ some (i + 1) ]

  -- `group_lookup`, with the flag GROUP_CREATE or without.
  unfoldable pub group_lookup : Bytes → Bool → Groups A → Option ℕ × Groups A
  unfolding find_group
  group_lookup name create gs = elim (find_group name gs.group_list) [
    | some i ↦ (some i, gs)
    | none ↦
        if create
        then elim (group_lookup_hdr name gs.titles_list) [
          | none ↦ (none, gs)
          | some hdr ↦ (
            some (length gs.group_list),
            record gs {
              group_list =
                  gs.group_list
                  ++ record {
                    g_name = hdr.gh_name;
                    g_hdr = hdr;
                    g_elements = empty;
                    g_nelements = 0;
                    g_current = none;
                  }
                    ∷ [];
              ngroups = gs.ngroups + 1;
            },
          )
        ]
        else (none, gs)
  ]

  unfoldable pub group_select_first : Groups A → Groups A
  group_select_first gs = record gs { current_group = select_first (length gs.group_list) }

  unfoldable pub group_select_last : Groups A → Groups A
  group_select_last gs = record gs { current_group = select_last (length gs.group_list) }

  unfoldable pub group_select_next : Groups A → Groups A
  group_select_next gs = record gs {
    current_group = select_next (length gs.group_list) gs.current_group;
  }

  unfoldable pub group_select_prev : Groups A → Groups A
  group_select_prev gs = record gs {
    current_group = select_prev (length gs.group_list) gs.current_group;
  }

  unfoldable pub group_current : Groups A → Groups A
  group_current gs = record gs { current_group = current (length gs.group_list) gs.current_group }

  -- The group that `current_group` points to.
  abbrev pub the_group : Groups A → Option (ElementGroup A)
  the_group gs = elim gs.current_group [ none ↦ none | some i ↦ get_elem? gs.group_list i ]

  -- `g->g_current = p` for the group that `current_group` points to.
  abbrev pub set_current : Option (Place A) → Groups A → Groups A
  set_current p gs = elim gs.current_group [
    | none ↦ gs
    | some i ↦ elim (get_elem? gs.group_list i) [
      | none ↦ gs
      | some g ↦ record gs { group_list = set gs.group_list i (record g { g_current = p }) }
    ]
  ]

  unfoldable pub element_select_first : Groups A → Groups A
  unfolding group_current
  element_select_first gs =
      let gs' = group_current gs in
      elim (the_group gs') [ none ↦ gs' | some g ↦ set_current (first_in g.g_elements []) gs' ]

  unfoldable pub element_select_last : Groups A → Groups A
  unfolding group_current last_in
  element_select_last gs =
      let gs' = group_current gs in
      elim (the_group gs') [ none ↦ gs' | some g ↦ set_current (last_in g.g_elements [] []) gs' ]

  unfoldable pub element_select_next : Groups A → Groups A
  unfolding element_select_first group_select_next
  element_select_next gs =
      let gs' = group_current gs in
      elim (the_group gs') [
        | none ↦ gs'
        | some g ↦ elim g.g_current [
          | none ↦ element_select_first gs'
          | some e ↦ elim (next_place e) [
            | none ↦ element_select_first (group_select_next gs')
            | some e' ↦ set_current (some e') gs'
          ]
        ]
      ]

  unfoldable pub element_select_prev : Groups A → Groups A
  unfolding element_select_last group_select_prev
  element_select_prev gs =
      let gs' = group_current gs in
      elim (the_group gs') [
        | none ↦ gs'
        | some g ↦ elim g.g_current [
          | none ↦ element_select_last gs'
          | some e ↦ elim (prev_place e) [
            | none ↦ element_select_last (group_select_prev gs')
            | some e' ↦ set_current (some e') gs'
          ]
        ]
      ]
