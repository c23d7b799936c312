-- ===== src/Tree/Tests.antt =====
-- The tree 1 (2 (3), 4), 5 and the places in it.
use bmon.Prelude.{ℕ, ◌≡◌, refl, [], ◌∷◌}
use bmon.Tree.{empty, entry, Place, next_place, prev_place}
use bmon.Tree.Next.{IsNext, next_place-IsNext}
use bmon.Tree.Prev.{IsPrev, prev_place-IsPrev}
use bmon.Tree.Order.{root, preorder}

-- The element 3, the last child of 2.
abbrev at_three : Place ℕ
at_three = record {
  e_data = 3;
  e_childs = empty;
  e_prev = [];
  e_next = empty;
  e_parents =
      record { p_data = 2; p_prev = []; p_next = entry 4 empty empty }
      ∷ record { p_data = 1; p_prev = []; p_next = entry 5 empty empty }
      ∷ [];
}

all_listed : preorder (root at_three) ≡ 1 ∷ 2 ∷ 3 ∷ 4 ∷ 5 ∷ []
all_listed = refl

next_place-IsNext_example : IsNext at_three (next_place at_three)
next_place-IsNext_example = next_place-IsNext at_three

prev_place-IsPrev_example : IsPrev at_three (prev_place at_three)
prev_place-IsPrev_example = prev_place-IsPrev at_three
