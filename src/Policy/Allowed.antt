-- ===== src/Policy/Allowed.antt =====
-- Which elements `element_allowed` lets in.
use bmon.Prelude.{◌≡◌, true, none, some, List, [], ◌∷◌, arith, ◌⊎◌, inl, inr, ◌↔◌, Bool-cases}
use bmon.Prelude.Bytes.{Bytes}
use bmon.Policy.{Policies, match_mask, matches_one, element_allowed}
use bmon.Policy.Glob.{Matches, OnlyLastStar, match_mask_sound, match_mask_iff}

-- Some rule of the list matches the name, in the sense of the manual.
pub data Covers (name : Bytes) : List Bytes → Type 0 where
  first : {p : Bytes} {ps : List Bytes} → Matches p name → Covers name (p ∷ ps)
  later : {p : Bytes} {ps : List Bytes} → Covers name ps → Covers name (p ∷ ps)

-- Every rule has its only star at its end.
abbrev pub AllOnlyLastStar : List Bytes → Type 0
AllOnlyLastStar [] = Unit
AllOnlyLastStar (p ∷ ps) = OnlyLastStar p × AllOnlyLastStar ps

matches_one_sound : (ps : List Bytes) (name : Bytes) → matches_one ps name ≡ true → Covers name ps
unfolding matches_one
matches_one_sound [] name h = cc
matches_one_sound (p ∷ ps) name h = elim (Bool-cases (match_mask (some p) (some name))) [
  | inl e ↦ first (match_mask_sound p name e)
  | inr e ↦ later (matches_one_sound ps name (ground (arith, e)))
]

Covers→matches_one :
    {name : Bytes} {ps : List Bytes}
    → AllOnlyLastStar ps
    → Covers name ps
    → matches_one ps name ≡ true
unfolding matches_one
Covers→matches_one {name} a (first {p} m) = ground (arith, (match_mask_iff p name a.0).1 m)
Covers→matches_one a (later c) = ground (arith, Covers→matches_one a.1 c)

matches_one_iff :
    (ps : List Bytes) (name : Bytes)
    → AllOnlyLastStar ps
    → (matches_one ps name ≡ true) ↔ Covers name ps
matches_one_iff ps name a = (matches_one_sound ps name, Covers→matches_one a)

-- Without a configuration of its own, and with stars only at the ends of the rules, an element is
-- tracked exactly when no denied rule covers its name, and the allowed rules are none or cover it.
pub element_allowed_iff :
    (ps : Policies) (name : Bytes)
    → AllOnlyLastStar ps.allowed
    → AllOnlyLastStar ps.denied
    → (element_allowed ps name none ≡ true)
      ↔ ((¬ Covers name ps.denied) × ((ps.allowed ≡ []) ⊎ Covers name ps.allowed))
unfolding element_allowed
element_allowed_iff ps name a d = (to, from)
  where
    to :
        element_allowed ps name none ≡ true
        → (¬ Covers name ps.denied) × ((ps.allowed ≡ []) ⊎ Covers name ps.allowed)
    to h = ground (arith, matches_one_iff ps.denied name d, matches_one_iff ps.allowed name a)

    from :
        (¬ Covers name ps.denied) × ((ps.allowed ≡ []) ⊎ Covers name ps.allowed)
        → element_allowed ps name none ≡ true
    from h = ground (arith, matches_one_iff ps.denied name d, matches_one_iff ps.allowed name a)
