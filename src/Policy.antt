-- ===== src/Policy.antt =====
-- src/element.c: the policy that says which elements are tracked (`match_mask`, `element_allowed`,
-- `element_parse_policy`). The global lists `allowed` and `denied` are the state.
pub mod Glob
pub mod Parse
pub mod Allowed
mod Tests
use bmon.Prelude.{
  ℕ, Bool, true, false, Option, none, some, List, [], ◌∷◌, ◌++◌, if◌then◌else◌, ◌==◌, ◌≡◌,
}
use mathlib.Core.List.{reverse, foldl}
use bmon.Prelude.Bytes.{Bytes, tolower}
use bmon.ElementCfg.{ElementCfg}

-- A `struct policy` is its `p_rule`.
pub record Policies : Type 0 where
  pub allowed : List Bytes
  pub denied : List Bytes

-- `while (tolower(str[n]) != c) if (str[n++] == '\0') return 0;`: the text from the first byte that
-- equals `c` on.
unfoldable pub skip_to : ℕ → Bytes → Option Bytes
skip_to c [] = none
skip_to c (s ∷ str) = if tolower s == c then some (s ∷ str) else skip_to c str

-- The loop of `match_mask`: what is left of the rule from `i`, and of the text from `n`.
unfoldable pub match_rule : Bytes → Bytes → Bool
unfolding skip_to
match_rule [] [] = true
match_rule [] (s ∷ str) = false
match_rule (r ∷ rule) str = elim (r == b'*') [
  | true ↦ elim rule [
    | [] ↦ true
    | c ∷ _ ↦ elim (skip_to (tolower c) str) [ none ↦ false | some rest ↦ match_rule rule rest ]
  ]
  | false ↦ elim str [
    | [] ↦ false
    | s ∷ rest ↦ elim (tolower r == tolower s) [ true ↦ match_rule rule rest | false ↦ false ]
  ]
]

-- `none` is the NULL pointer.
unfoldable pub match_mask : Option Bytes → Option Bytes → Bool
unfolding match_rule
match_mask (some p) (some str) = match_rule p str
match_mask _ _ = false

unfoldable pub matches_one : List Bytes → Bytes → Bool
matches_one [] name = false
matches_one (p ∷ policies) name =
    if match_mask (some p) (some name) then true else matches_one policies name

unfoldable pub element_allowed : Policies → Bytes → Option ElementCfg → Bool
unfolding matches_one
element_allowed ps name cfg =
    let by_policy : Bool =
      if matches_one ps.denied name
      then false
      else elim ps.allowed [ [] ↦ true | p ∷ allowed ↦ matches_one (p ∷ allowed) name ] in
    elim cfg [
      | none ↦ by_policy
      | some ec ↦ if ec.ec_hide then false else if ec.ec_show then true else by_policy
    ]

-- `strtok_r` with the delimiter ',': a run of commas separates two tokens, and no token is empty.
-- The argument `tok` is the token read so far, backwards.
unfoldable pub strtok : Bytes → Bytes → List Bytes
strtok [] [] = []
strtok (t ∷ tok) [] = reverse (t ∷ tok) ∷ []
strtok [] (c ∷ s) = strtok (if c == b',' then [] else c ∷ []) s
strtok (t ∷ tok) (c ∷ s) =
    let close = reverse (t ∷ tok) ∷ strtok [] s in
    let grow = strtok (c ∷ t ∷ tok) s in if c == b',' then close else grow

-- One round of the loop of `element_parse_policy`.
unfoldable pub add_rule : Policies → Bytes → Policies
add_rule ps [] = record ps { allowed = ps.allowed ++ [] ∷ [] }
add_rule ps (c ∷ tok) =
    if c == b'!'
    then record ps { denied = ps.denied ++ tok ∷ [] }
    else record ps { allowed = ps.allowed ++ (c ∷ tok) ∷ [] }

unfoldable pub element_parse_policy : Option Bytes → Policies → Policies
unfolding strtok add_rule
element_parse_policy none ps = ps
element_parse_policy (some policy) ps = foldl add_rule ps (strtok [] policy)
