-- ===== src/Tree/Order.antt =====
-- The order in which the elements of a tree are listed: a parent, its children, and what is behind it.
use mathlib.Core.List.{append_assoc, append-nil}
use bmon.Prelude.{◌≡◌, refl, ◌∙◌, List, [], ◌∷◌, ◌++◌}
use bmon.Tree.{Elements, empty, entry, Before, Parent, Place, rewind}

module _ {A : Type 0} where
  abbrev pub preorder : Elements A → List A
  preorder empty = []
  preorder (entry a childs next) = a ∷ preorder childs ++ preorder next

  -- What is listed before the entries behind `prev`.
  abbrev pub before_list : Before A → List A
  before_list [] = []
  before_list ((a, childs) ∷ prev) = before_list prev ++ a ∷ preorder childs

  abbrev pub before_parents : List (Parent A) → List A
  before_parents [] = []
  before_parents (p ∷ ps) = before_parents ps ++ before_list p.p_prev ++ p.p_data ∷ []

  abbrev pub behind_parents : List (Parent A) → List A
  behind_parents [] = []
  behind_parents (p ∷ ps) = preorder p.p_next ++ behind_parents ps

  -- The elements listed before an element, and those behind it.
  abbrev pub before : Place A → List A
  before p = before_parents p.e_parents ++ before_list p.e_prev

  abbrev pub behind : Place A → List A
  behind p = preorder p.e_childs ++ preorder p.e_next ++ behind_parents p.e_parents

  -- The tree around a list of children.
  abbrev pub root_of : Elements A → List (Parent A) → Elements A
  root_of es [] = es
  root_of es (p ∷ ps) = root_of (rewind p.p_prev (entry p.p_data es p.p_next)) ps

  -- The tree that an element stands in.
  abbrev pub root : Place A → Elements A
  root p = root_of (rewind p.e_prev (entry p.e_data p.e_childs p.e_next)) p.e_parents

  pub preorder-rewind :
      (prev : Before A) (es : Elements A)
      → preorder (rewind prev es) ≡ before_list prev ++ preorder es
  preorder-rewind [] es = refl
  preorder-rewind ((a, childs) ∷ prev) es =
      preorder-rewind prev (entry a childs es) ∙ simp append_assoc

  pub preorder-root_of :
      (es : Elements A) (ps : List (Parent A))
      → preorder (root_of es ps) ≡ before_parents ps ++ preorder es ++ behind_parents ps
  preorder-root_of es [] = simp append-nil
  preorder-root_of es (p ∷ ps) =
      preorder-root_of (rewind p.p_prev (entry p.p_data es p.p_next)) ps
      ∙ simp (append_assoc, preorder-rewind)

  -- The list of the tree is the elements before an element, the element, and those behind it.
  pub preorder-root : (p : Place A) → preorder (root p) ≡ before p ++ p.e_data ∷ behind p
  preorder-root p =
      preorder-root_of (rewind p.e_prev (entry p.e_data p.e_childs p.e_next)) p.e_parents
      ∙ simp (append_assoc, preorder-rewind)
