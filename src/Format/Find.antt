-- ===== src/Format/Find.antt =====
-- What the loop of `format_probe` finds at a byte.

use bmon.Prelude.{
  ℕ, ◌≡◌, ◌≢◌, refl, ap, subst, Bool, true, false, ◌&&◌, Option, none, some, [], ◌∷◌, ◌++◌, arith,
  if◌then◌else◌, ◌==◌, Bool-cases, Option-cases, inl, inr,
}
use bmon.Prelude.Bytes.{Bytes}
use bmon.Conf.{cut}
use bmon.Conf.Pieces.{Without}
use bmon.Format.{
  escape, Found, found_token, found_end, found_invalid, found_escape, found_text, find_token, find,
}
use bmon.Format.Pieces.{IsText}

-- What `find` found says of the text.
abbrev pub FoundAt : ℕ → Bytes → Found → Type 0
FoundAt c s (found_token name rest) =
    (c ≡ b'$') × (s ≡ b'(' ∷ name ++ b')' ∷ rest) × Without b')' name
FoundAt c s found_end = (c ≡ b'$') × (s ≡ b'(' ∷ [])
FoundAt c s found_invalid = (c ≡ b'$') × ((name : Bytes) × (s ≡ b'(' ∷ name) × Without b')' name)
FoundAt c s (found_escape x rest) = (c ≡ b'\\') × ((d : ℕ) × (s ≡ d ∷ rest) × (escape d ≡ some x))
FoundAt c s found_text = IsText c s

-- What `cut` says of the text.
abbrev CutAt : Bytes → Bytes × Option Bytes → Type 0
CutAt s (before, none) = (s ≡ before) × Without b')' before
CutAt s (before, some behind) = (s ≡ before ++ b')' ∷ behind) × Without b')' before

cut_step :
    (x : ℕ) (s : Bytes) (b : Bool) (r : Bytes × Option Bytes)
    → (x == b')') ≡ b
    → CutAt s r
    → CutAt (x ∷ s) (if b then ([], some s) else (x ∷ r.0, r.1))
cut_step x s true r e h = (ap (λ c. c ∷ s) (ground arith), tt)
cut_step x s false (before, none) e h = (ap (λ t. x ∷ t) h.0, (ground arith, h.1))
cut_step x s false (before, some behind) e h = (ap (λ t. x ∷ t) h.0, (ground arith, h.1))

cut-CutAt : (s : Bytes) → CutAt s (cut b')' s)
unfolding cut
cut-CutAt [] = (refl, tt)
cut-CutAt (x ∷ s) = cut_step x s (x == b')') (cut b')' s) refl (cut-CutAt s)

cut-FoundAt :
    (s : Bytes) (r : Bytes × Option Bytes)
    → CutAt s r
    → FoundAt b'$' (b'(' ∷ s) (elim r.1 [ none ↦ found_invalid | some s' ↦ found_token r.0 s' ])
cut-FoundAt s (before, none) h = (refl, (before, ap (λ t. b'(' ∷ t) h.0, h.1))
cut-FoundAt s (before, some behind) h = (refl, ap (λ t. b'(' ∷ t) h.0, h.1)

find_token-FoundAt : (s : Bytes) → FoundAt b'$' (b'(' ∷ s) (find_token s)
unfolding find_token
find_token-FoundAt [] = (refl, refl)
find_token-FoundAt (d ∷ s) = cut-FoundAt (d ∷ s) (cut b')' (d ∷ s)) (cut-CutAt (d ∷ s))

pub find-FoundAt : (c : ℕ) (s : Bytes) → FoundAt c s (find c s)
unfolding find
find-FoundAt c [] = tt
find-FoundAt c (d ∷ s) = elim (Bool-cases ((c == b'$') && (d == b'('))) [
  | inl e ↦
      rw (e, find)
        (let c' : b'$' ≡ c = ground arith in
          let d' : b'(' ≡ d = ground arith in
          subst (λ x. FoundAt x (d ∷ s) (find_token s)) c'
            (subst (λ x. FoundAt b'$' (x ∷ s) (find_token s)) d' (find_token-FoundAt s)))
  | inr e ↦
      let open_paren : c ≡ b'$' → d ≢ b'(' = λ a b. ground arith in
      elim (Bool-cases (c == b'\\')) [
        | inl b ↦ elim (Option-cases (escape d)) [
          | inl n ↦ rw (e, b, n, find) (open_paren, λ _. n)
          | inr (x, n) ↦ rw (e, b, n, find) (ground arith, (d, refl, n))
        ]
        | inr b ↦ rw (e, b, find) (open_paren, λ a. ground arith)
      ]
]
