-- ===== src/Policy/Glob.antt =====
-- `match_mask` against the wildcards of man/bmon.8: a `*` stands for any run of bytes.
use bmon.Prelude.{
  ℕ, ◌≡◌, ◌≢◌, refl, true, false, none, some, [], ◌∷◌, ◌++◌, arith, ◌==◌, ==_iff, Bool-cases,
  Option-cases, inl, inr, ◌↔◌, ◌&&◌, ◌∙◌,
}
use mathlib.Core.Path.{subst}
use native.Mathlib.Decide.{ℕ_discrete}
use bmon.Prelude.Bytes.{Bytes, tolower}
use bmon.Policy.{skip_to, match_rule, match_mask}

-- The rule matches the whole text, whatever the case of the letters.
pub data Matches : Bytes → Bytes → Type 0 where
  empty : Matches [] []
  byte :
      {r s : ℕ} {rule str : Bytes}
      → r ≢ b'*'
      → tolower r ≡ tolower s
      → Matches rule str
      → Matches (r ∷ rule) (s ∷ str)
  leave : {r : ℕ} {rule str : Bytes} → r ≡ b'*' → Matches rule str → Matches (r ∷ rule) str
  take :
      {r s : ℕ} {rule str : Bytes}
      → r ≡ b'*'
      → Matches (r ∷ rule) str
      → Matches (r ∷ rule) (s ∷ str)

star-all : {r : ℕ} (str : Bytes) → r ≡ b'*' → Matches (r ∷ []) str
star-all [] e = leave e empty
star-all (s ∷ str) e = take e (star-all str e)

-- What the star skips, it may take.
star-skip_to :
    {r : ℕ} {rule rest : Bytes} (c : ℕ) (str : Bytes)
    → r ≡ b'*'
    → skip_to c str ≡ some rest
    → Matches (r ∷ rule) rest
    → Matches (r ∷ rule) str
unfolding skip_to
star-skip_to c [] e h m = cc
star-skip_to {r} {rule} c (s ∷ str) e h m = elim (Bool-cases (tolower s == c)) [
  | inl t ↦ subst (Matches (r ∷ rule)) (ground (arith, t)) m
  | inr t ↦ take e (star-skip_to c str e (ground (arith, t)) m)
]

-- The two branches of the loop, and what each needs to go on.
match_rule-star :
    (r c : ℕ) (rule str : Bytes)
    → r ≡ b'*'
    → match_rule (r ∷ c ∷ rule) str
      ≡ elim (skip_to (tolower c) str) [ none ↦ false | some rest ↦ match_rule (c ∷ rule) rest ]
unfolding match_rule
match_rule-star r c rule str e = rw ((==_iff r b'*').1 e, match_rule)

match_rule-last_star : (r : ℕ) (str : Bytes) → r ≡ b'*' → match_rule (r ∷ []) str ≡ true
unfolding match_rule
match_rule-last_star r str e = rw ((==_iff r b'*').1 e, match_rule)

match_rule-byte :
    (r s : ℕ) (rule str : Bytes)
    → r ≢ b'*'
    → match_rule (r ∷ rule) (s ∷ str) ≡ ((tolower r == tolower s) && match_rule rule str)
unfolding match_rule
match_rule-byte r s rule str n = ground arith

match_rule-byte_end : (r : ℕ) (rule : Bytes) → r ≢ b'*' → match_rule (r ∷ rule) [] ≡ false
unfolding match_rule
match_rule-byte_end r rule n = ground arith

sound_star :
    (r c : ℕ) (rule str : Bytes)
    → ((rest : Bytes) → match_rule (c ∷ rule) rest ≡ true → Matches (c ∷ rule) rest)
    → r ≡ b'*'
    → match_rule (r ∷ c ∷ rule) str ≡ true
    → Matches (r ∷ c ∷ rule) str
sound_star r c rule str ih e h = elim (Option-cases (skip_to (tolower c) str)) [
  | inl none_left ↦ cc (match_rule-star r c rule str e, none_left)
  | inr (rest, found) ↦
      star-skip_to (tolower c) str e found
        (leave e (ih rest (rw found at (rw (match_rule-star r c rule str e) at h))))
]

sound_byte :
    (r : ℕ) (rule str : Bytes)
    → ((rest : Bytes) → match_rule rule rest ≡ true → Matches rule rest)
    → r ≢ b'*'
    → match_rule (r ∷ rule) str ≡ true
    → Matches (r ∷ rule) str
sound_byte r rule [] ih n h = cc (match_rule-byte_end r rule n)
sound_byte r rule (s ∷ str) ih n h =
    byte n (ground (arith, match_rule-byte r s rule str n))
      (ih str (ground (arith, match_rule-byte r s rule str n)))

sound : (rule str : Bytes) → match_rule rule str ≡ true → Matches rule str
unfolding match_rule
sound [] [] h = empty
sound [] (s ∷ str) h = cc
sound (r ∷ []) str h = elim (ℕ_discrete r b'*') [
  | yes e ↦ star-all str e
  | no n ↦ sound_byte r [] str (sound []) n h
]
sound (r ∷ c ∷ rule) str h = elim (ℕ_discrete r b'*') [
  | yes e ↦ sound_star r c rule str (sound (c ∷ rule)) e h
  | no n ↦ sound_byte r (c ∷ rule) str (sound (c ∷ rule)) n h
]

-- Whatever `match_mask` accepts, the rule matches as the manual describes its wildcard.
pub match_mask_sound : (p str : Bytes) → match_mask (some p) (some str) ≡ true → Matches p str
unfolding match_mask
match_mask_sound p str h = sound p str h

-- A rule whose only star, if any, is its last byte: `eth0`, `eth*`, `*`.
pub data OnlyLastStar : Bytes → Type 0 where
  no_star : OnlyLastStar []
  last_star : {r : ℕ} → r ≡ b'*' → OnlyLastStar (r ∷ [])
  literal : {r : ℕ} {rule : Bytes} → r ≢ b'*' → OnlyLastStar rule → OnlyLastStar (r ∷ rule)

complete : {rule str : Bytes} → OnlyLastStar rule → Matches rule str → match_rule rule str ≡ true
complete no_star empty = unfold match_rule in refl
complete {str} (last_star e) m = match_rule-last_star _ str e
complete (literal n o) (byte {r} {s} {rule} {str} _ same m) =
    ground (arith, match_rule-byte r s rule str n, complete o m)
complete (literal n o) (leave e m) = absurd (n e)
complete (literal n o) (take e m) = absurd (n e)

-- With the star only at its end, `match_mask` decides exactly the wildcard match.
pub match_mask_iff :
    (p str : Bytes) → OnlyLastStar p → (match_mask (some p) (some str) ≡ true) ↔ Matches p str
unfolding match_mask
match_mask_iff p str o = (sound p str, complete o)

match_rule-not_end : (mid : Bytes) (c : ℕ) → match_rule [] (mid ++ c ∷ []) ≡ false
unfolding match_rule
match_rule-not_end [] c = refl
match_rule-not_end (s ∷ mid) c = refl

skip_to-here : (c : ℕ) (str : Bytes) → skip_to (tolower c) (c ∷ str) ≡ some (c ∷ str)
unfolding skip_to
skip_to-here c str = ground arith

Matches-star_append :
    {r : ℕ} {rule : Bytes} (pre str : Bytes)
    → r ≡ b'*'
    → Matches rule str
    → Matches (r ∷ rule) (pre ++ str)
Matches-star_append [] str e m = leave e m
Matches-star_append (s ∷ pre) str e m = take e (Matches-star_append pre str e m)

-- A rule `*c` refuses every text of more than one byte that begins and ends in c, though it
-- matches it.
pub match_mask_star_too_short :
    (c : ℕ) (mid : Bytes)
    → c ≢ b'*'
    → Matches (b'*' ∷ c ∷ []) (c ∷ mid ++ c ∷ [])
      × (match_mask (some (b'*' ∷ c ∷ [])) (some (c ∷ mid ++ c ∷ [])) ≡ false)
unfolding match_mask
match_mask_star_too_short c mid n =
    (Matches-star_append (c ∷ mid) (c ∷ []) refl (byte n refl empty), refused)
  where
    refused : match_rule (b'*' ∷ c ∷ []) (c ∷ mid ++ c ∷ []) ≡ false
    refused =
        match_rule-star b'*' c [] (c ∷ mid ++ c ∷ []) refl
        ∙ rw (skip_to-here c (mid ++ c ∷ []))
            (match_rule-byte c c [] (mid ++ c ∷ []) n ∙ ground (arith, match_rule-not_end mid c))
