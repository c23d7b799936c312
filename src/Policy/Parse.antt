-- ===== src/Policy/Parse.antt =====
-- `element_parse_policy` reads back what a list of rules looks like on the command line.
use mathlib.Core.List.{reverse, foldl, reverse_aux, append_assoc, append-nil}
use mathlib.Core.List.{reverse_aux-reverse_aux-nil}
use bmon.Prelude.{ℕ, ◌≡◌, ◌≢◌, refl, some, List, [], ◌∷◌, ◌++◌, arith, ap, ◌∙◌, map}
use bmon.Prelude.Bytes.{Bytes}
use bmon.Policy.{Policies, strtok, add_rule, element_parse_policy}

-- The entries of a policy: `rule` or `!rule`.
pub data Rule : Type 0 where
  allow : Bytes → Rule
  deny : Bytes → Rule

abbrev pub NoComma : Bytes → Type 0
NoComma [] = Unit
NoComma (c ∷ s) = (c ≢ b',') × NoComma s

-- A rule that can be written: an allowed one is not empty and does not begin with '!'.
abbrev pub IsValidRule : Rule → Type 0
IsValidRule (allow []) = ⊥
IsValidRule (allow (c ∷ s)) = (c ≢ b'!') × NoComma (c ∷ s)
IsValidRule (deny s) = NoComma s

abbrev pub AllValid : List Rule → Type 0
AllValid [] = Unit
AllValid (r ∷ rs) = IsValidRule r × AllValid rs

abbrev pub print_rule : Rule → Bytes
print_rule (allow s) = s
print_rule (deny s) = b'!' ∷ s

-- The rules with a comma between each two of them.
abbrev pub print_rules : List Rule → Bytes
print_rules [] = []
print_rules (r ∷ []) = print_rule r
print_rules (r ∷ s ∷ rs) = print_rule r ++ b',' ∷ print_rules (s ∷ rs)

abbrev pub allows : List Rule → List Bytes
allows [] = []
allows (allow s ∷ rs) = s ∷ allows rs
allows (deny s ∷ rs) = allows rs

abbrev pub denies : List Rule → List Bytes
denies [] = []
denies (allow s ∷ rs) = denies rs
denies (deny s ∷ rs) = s ∷ denies rs

strtok_started :
    (t : ℕ) (tok s rest : Bytes)
    → NoComma s
    → strtok (t ∷ tok) (s ++ b',' ∷ rest) ≡ reverse (reverse_aux s (t ∷ tok)) ∷ strtok [] rest
unfolding strtok
strtok_started t tok [] rest h = refl
strtok_started t tok (c ∷ s) rest h = ground (arith, strtok_started c (t ∷ tok) s rest h.1)

strtok_last :
    (t : ℕ) (tok s : Bytes)
    → NoComma s
    → strtok (t ∷ tok) s ≡ reverse (reverse_aux s (t ∷ tok)) ∷ []
unfolding strtok
strtok_last t tok [] h = refl
strtok_last t tok (c ∷ s) h = ground (arith, strtok_last c (t ∷ tok) s h.1)

-- A word with no comma in it is read as one token.
strtok-word :
    (c : ℕ) (s rest : Bytes)
    → NoComma (c ∷ s)
    → strtok [] ((c ∷ s) ++ b',' ∷ rest) ≡ (c ∷ s) ∷ strtok [] rest
unfolding strtok
strtok-word c s rest h =
    ground (arith, strtok_started c [] s rest h.1, reverse_aux-reverse_aux-nil s (c ∷ []))

strtok-last_word : (c : ℕ) (s : Bytes) → NoComma (c ∷ s) → strtok [] (c ∷ s) ≡ (c ∷ s) ∷ []
unfolding strtok
strtok-last_word c s h =
    ground (arith, strtok_last c [] s h.1, reverse_aux-reverse_aux-nil s (c ∷ []))

strtok-print_rules : (rs : List Rule) → AllValid rs → strtok [] (print_rules rs) ≡ map print_rule rs
strtok-print_rules [] v = unfold strtok in refl
strtok-print_rules (allow [] ∷ rs) v = absurd v.0
strtok-print_rules (allow (c ∷ s) ∷ []) v = strtok-last_word c s v.0.1
strtok-print_rules (deny s ∷ []) v = strtok-last_word b'!' s (omega arith, v.0)
strtok-print_rules (allow (c ∷ s) ∷ r ∷ rs) v =
    strtok-word c s (print_rules (r ∷ rs)) v.0.1 ∙ rw (strtok-print_rules (r ∷ rs) v.1)
strtok-print_rules (deny s ∷ r ∷ rs) v =
    strtok-word b'!' s (print_rules (r ∷ rs)) (omega arith, v.0)
    ∙ rw (strtok-print_rules (r ∷ rs) v.1)

add_rule-allow :
    (ps : Policies) (c : ℕ) (s : Bytes)
    → c ≢ b'!'
    → add_rule ps (c ∷ s) ≡ record ps { allowed = ps.allowed ++ (c ∷ s) ∷ [] }
unfolding add_rule
add_rule-allow ps c s n = ground arith

add_all :
    (rs : List Rule) (ps : Policies)
    → AllValid rs
    → foldl add_rule ps (map print_rule rs)
      ≡ record { allowed = ps.allowed ++ allows rs; denied = ps.denied ++ denies rs }
unfolding add_rule
add_all [] ps v = rw (append-nil, append-nil)
add_all (allow [] ∷ rs) ps v = absurd v.0
add_all (allow (c ∷ s) ∷ rs) ps v =
    ap (λ (p : Policies). foldl add_rule p (map print_rule rs)) (add_rule-allow ps c s v.0.0)
    ∙ add_all rs (record ps { allowed = ps.allowed ++ (c ∷ s) ∷ [] }) v.1
    ∙ rw append_assoc
add_all (deny s ∷ rs) ps v =
    add_all rs (record ps { denied = ps.denied ++ s ∷ [] }) v.1 ∙ rw append_assoc

-- Where no rule has a comma, and the allowed ones are not empty and do not begin with `!`: the policy
-- that lists the rules on the command line, with commas between them, adds to the two lists exactly
-- the allowed rules and the denied ones, each in order.
pub element_parse_policy-print_rules :
    (rs : List Rule) (ps : Policies)
    → AllValid rs
    → element_parse_policy (some (print_rules rs)) ps
      ≡ record { allowed = ps.allowed ++ allows rs; denied = ps.denied ++ denies rs }
unfolding element_parse_policy
element_parse_policy-print_rules rs ps v = rw (strtok-print_rules rs v) (add_all rs ps v)
