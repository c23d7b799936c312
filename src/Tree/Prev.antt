-- ===== src/Tree/Prev.antt =====
-- `element_select_prev` inside one group, against the order of the tree.
use mathlib.Core.List.{append_assoc, append-nil}
use bmon.Prelude.{◌≡◌, refl, ◌∙◌, Option, none, some, List, [], ◌∷◌, ◌++◌}
use bmon.Tree.{Elements, empty, entry, Before, Parent, Place, rewind, last_in, prev_place}
use bmon.Tree.Order.{
  preorder, before_list, before_parents, behind_parents, before, behind, root_of, root,
}

module _ {A : Type 0} where
  -- The element `q` is listed right before `p` in the same tree; `none` where nothing is.
  abbrev pub IsPrev : Place A → Option (Place A) → Type 0
  IsPrev p none = before p ≡ []
  IsPrev p (some q) =
      (root q ≡ root p) × (before p ≡ before q ++ q.e_data ∷ []) × (behind q ≡ p.e_data ∷ behind p)

  -- The element is the last of those that are listed in the order of the tree up to some point.
  pub record IsLast (whole : Elements A) (done left : List A) (q : Place A) : Type 0 where
    pub same_tree : root q ≡ whole
    pub is_last : done ≡ before q ++ q.e_data ∷ []
    pub left_behind : behind q ≡ left

  abbrev LastOr : Elements A → Elements A → List A → List A → Option (Place A) → Type 0
  LastOr es whole done left none = es ≡ empty
  LastOr es whole done left (some q) = IsLast whole done left q

  abbrev place : A → Elements A → Before A → Elements A → List (Parent A) → Place A
  place a childs prev next ps = record {
    e_data = a;
    e_childs = childs;
    e_prev = prev;
    e_next = next;
    e_parents = ps;
  }

  abbrev above : A → Before A → Elements A → List (Parent A) → List (Parent A)
  above a prev next ps = record { p_data = a; p_prev = prev; p_next = next } ∷ ps

  -- What a search among the children found is the last place in the entry; without children that is
  -- the entry itself.
  below-IsLast :
      (a : A) (childs : Elements A) (prev : Before A) (next : Elements A) (ps : List (Parent A))
      (o : Option (Place A))
      → LastOr childs
          (root_of childs (above a prev next ps))
          (before_parents (above a prev next ps) ++ [] ++ preorder childs)
          (behind_parents (above a prev next ps))
          o
      → IsLast
          (root (place a childs prev next ps))
          (before_parents ps ++ before_list prev ++ a ∷ preorder childs)
          (preorder next ++ behind_parents ps)
          (elim o [ none ↦ place a childs prev next ps | some p ↦ p ])
  below-IsLast a childs prev next ps none e = record {
    same_tree = refl;
    is_last = rw e refl;
    left_behind = rw e refl;
  }
  below-IsLast a childs prev next ps (some p) h =
      let e : before_parents ps ++ before_list prev ++ a ∷ preorder childs
          ≡ before_parents (above a prev next ps) ++ [] ++ preorder childs =
        simp (append_assoc, append-nil) in
      record { same_tree = h.same_tree; is_last = e ∙ h.is_last; left_behind = h.left_behind }

  some-LastOr :
      (es whole : Elements A) (done left : List A) (o : Option (Place A)) (q : Place A)
      → IsLast whole done left (elim o [ none ↦ q | some p ↦ p ])
      → LastOr es whole done left (elim o [ none ↦ some q | some p ↦ some p ])
  some-LastOr es whole done left none q h = h
  some-LastOr es whole done left (some p) q h = h

  behind-LastOr :
      (es : Elements A) (b : A) (c n : Elements A) (whole : Elements A) (done done' left : List A)
      (o : Option (Place A))
      → done' ≡ done
      → LastOr (entry b c n) whole done left o
      → LastOr es whole done' left o
  behind-LastOr es b c n whole done done' left none e h = cc
  behind-LastOr es b c n whole done done' left (some q) e h = record {
    same_tree = h.same_tree;
    is_last = e ∙ h.is_last;
    left_behind = h.left_behind;
  }

  last_in-IsLast :
      (es : Elements A) (prev : Before A) (ps : List (Parent A))
      → LastOr es
          (root_of (rewind prev es) ps)
          (before_parents ps ++ before_list prev ++ preorder es)
          (behind_parents ps)
          (last_in es prev ps)
  unfolding last_in
  last_in-IsLast empty prev ps = refl
  last_in-IsLast (entry a childs empty) prev ps =
      let up = above a prev empty ps in
      let h =
        below-IsLast a childs prev empty ps (last_in childs [] up) (last_in-IsLast childs [] up) in
      let e : before_parents ps ++ before_list prev ++ a ∷ (preorder childs ++ [])
          ≡ before_parents ps ++ before_list prev ++ a ∷ preorder childs =
        simp append-nil in
      some-LastOr _ _ _ _ (last_in childs [] up) (place a childs prev empty ps)
        (record { same_tree = h.same_tree; is_last = e ∙ h.is_last; left_behind = h.left_behind })
  last_in-IsLast (entry a childs (entry b c n)) prev ps =
      behind-LastOr _ b c n _ _ _ _ (last_in (entry b c n) ((a, childs) ∷ prev) ps)
        (simp append_assoc) (last_in-IsLast (entry b c n) ((a, childs) ∷ prev) ps)

  prev_place-fields :
      (a : A) (childs : Elements A) (prev : Before A) (next : Elements A) (ps : List (Parent A))
      → IsPrev (place a childs prev next ps) (prev_place (place a childs prev next ps))
  unfolding prev_place
  prev_place-fields a childs [] next [] = refl
  prev_place-fields a childs [] next (p ∷ ps) =
      (refl, simp (append_assoc, append-nil), simp append_assoc)
  prev_place-fields a childs ((b, c) ∷ prev) next ps =
      let up = above b prev (entry a childs next) ps in
      let h =
        below-IsLast b c prev (entry a childs next) ps (last_in c [] up) (last_in-IsLast c [] up) in
      let e : before_parents ps ++ (before_list prev ++ b ∷ preorder c)
          ≡ before_parents ps ++ before_list prev ++ b ∷ preorder c =
        simp append_assoc in
      (h.same_tree, e ∙ h.is_last, h.left_behind)

  -- The move to the previous element goes to the one that is listed right before in the same tree, and
  -- leaves the tree exactly at its first element.
  pub prev_place-IsPrev : (p : Place A) → IsPrev p (prev_place p)
  prev_place-IsPrev p = prev_place-fields p.e_data p.e_childs p.e_prev p.e_next p.e_parents
