-- ===== src/Tree/Next.antt =====
-- `element_select_next` inside one group, against the order of the tree.
use mathlib.Core.List.{append_assoc, append-nil}
use bmon.Prelude.{◌≡◌, refl, Option, none, some, List, [], ◌∷◌, ◌++◌}
use bmon.Tree.{Elements, empty, entry, Before, Parent, Place, rewind, next_up, next_place}
use bmon.Tree.Order.{
  preorder, before_list, before_parents, behind_parents, before, behind, root_of, root,
  preorder-rewind,
}

module _ {A : Type 0} where
  -- The element `q` is listed right behind `p` in the same tree; `none` where nothing is.
  abbrev pub IsNext : Place A → Option (Place A) → Type 0
  IsNext p none = behind p ≡ []
  IsNext p (some q) =
      (root q ≡ root p) × (before q ≡ before p ++ p.e_data ∷ []) × (behind p ≡ q.e_data ∷ behind q)

  -- What is listed up to the end of the children of an element, and what is behind these.
  abbrev UpNext : List A → List A → Elements A → Option (Place A) → Type 0
  UpNext done left whole none = left ≡ []
  UpNext done left whole (some q) =
      (root q ≡ whole) × (before q ≡ done) × (left ≡ q.e_data ∷ behind q)

  next_up-UpNext :
      (a : A) (childs : Elements A) (prev : Before A) (next : Elements A) (ps : List (Parent A))
      → UpNext
          (before_parents ps ++ before_list prev ++ a ∷ preorder childs)
          (preorder next ++ behind_parents ps)
          (root_of (rewind prev (entry a childs next)) ps)
          (next_up a childs prev next ps)
  unfolding next_up
  next_up-UpNext a childs prev (entry b childs' next) ps =
      (refl, simp append_assoc, simp append_assoc)
  next_up-UpNext a childs prev empty [] = refl
  next_up-UpNext a childs prev empty (p ∷ ps) =
      let up = rewind prev (entry a childs empty) in
      let e : before_parents (p ∷ ps) ++ before_list prev ++ a ∷ preorder childs
          ≡ before_parents ps ++ before_list p.p_prev ++ p.p_data ∷ preorder up =
        simp (append_assoc, append-nil, preorder-rewind) in
      rw e (next_up-UpNext p.p_data up p.p_prev p.p_next ps)

  abbrev place : A → Elements A → Before A → Elements A → List (Parent A) → Place A
  place a childs prev next ps = record {
    e_data = a;
    e_childs = childs;
    e_prev = prev;
    e_next = next;
    e_parents = ps;
  }

  UpNext-IsNext :
      (a : A) (prev : Before A) (next : Elements A) (ps : List (Parent A)) (o : Option (Place A))
      → UpNext
          (before_parents ps ++ before_list prev ++ a ∷ [])
          (preorder next ++ behind_parents ps)
          (root (place a empty prev next ps))
          o
      → IsNext (place a empty prev next ps) o
  UpNext-IsNext a prev next ps none h = h
  UpNext-IsNext a prev next ps (some q) h = h

  next_place-fields :
      (a : A) (childs : Elements A) (prev : Before A) (next : Elements A) (ps : List (Parent A))
      → IsNext (place a childs prev next ps) (next_place (place a childs prev next ps))
  unfolding next_place
  next_place-fields a empty prev next ps =
      UpNext-IsNext a prev next ps (next_up a empty prev next ps)
        (next_up-UpNext a empty prev next ps)
  next_place-fields a (entry b childs' next') prev next ps =
      (refl, simp (append_assoc, append-nil), simp append_assoc)

  -- The move to the next element goes to the one that is listed right behind in the same tree, and leaves
  -- the tree exactly at its last element.
  pub next_place-IsNext : (p : Place A) → IsNext p (next_place p)
  next_place-IsNext p = next_place-fields p.e_data p.e_childs p.e_prev p.e_next p.e_parents
