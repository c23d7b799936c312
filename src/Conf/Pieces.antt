-- ===== src/Conf/Pieces.antt =====
-- The strings between the separators of a text, and the text that has a separator between strings.
use bmon.Prelude.{ℕ, ◌≡◌, ◌≢◌, refl, sym, ap, ◌∙◌, none, some, List, [], ◌∷◌, ◌++◌, arith}
use bmon.Prelude.Bytes.{Bytes}
use bmon.Conf.{cut, pieces}

abbrev pub Without : ℕ → Bytes → Type 0
Without c [] = Unit
Without c (x ∷ s) = (x ≢ c) × Without c s

abbrev pub NonEmpty : Bytes → Type 0
NonEmpty [] = ⊥
NonEmpty (c ∷ s) = Unit

-- The strings with a separator between each two of them.
abbrev pub print_sep : ℕ → List Bytes → Bytes
print_sep c [] = []
print_sep c (s ∷ []) = s
print_sep c (s ∷ t ∷ rest) = s ++ c ∷ print_sep c (t ∷ rest)

pub cut-behind : (c : ℕ) (s t : Bytes) → Without c s → cut c (s ++ c ∷ t) ≡ (s, some t)
unfolding cut
cut-behind c [] t w = ground arith
cut-behind c (x ∷ s) t w = ground (arith, cut-behind c s t w.1)

pub cut-Without : (c : ℕ) (s : Bytes) → Without c s → cut c s ≡ (s, none)
unfolding cut
cut-Without c [] w = refl
cut-Without c (x ∷ s) w = ground (arith, cut-Without c s w.1)

pub pieces-behind : (c : ℕ) (s t : Bytes) → Without c s → pieces c (s ++ c ∷ t) ≡ s ∷ pieces c t
unfolding pieces
pieces-behind c [] t w = ground arith
pieces-behind c (x ∷ s) t w = ground (arith, pieces-behind c s t w.1)

pub pieces-Without : (c : ℕ) (s : Bytes) → Without c s → pieces c s ≡ s ∷ []
unfolding pieces
pieces-Without c [] w = refl
pieces-Without c (x ∷ s) w = ground (arith, pieces-Without c s w.1)

abbrev pub AllWithout : ℕ → List Bytes → Type 0
AllWithout c [] = Unit
AllWithout c (s ∷ rest) = Without c s × AllWithout c rest

-- Splitting undoes printing, where there is at least one string and none has the separator.
pub pieces-print_sep :
    (c : ℕ) (s : Bytes) (rest : List Bytes)
    → AllWithout c (s ∷ rest)
    → pieces c (print_sep c (s ∷ rest)) ≡ s ∷ rest
pieces-print_sep c s [] w = pieces-Without c s w.0
pieces-print_sep c s (t ∷ rest) w =
    pieces-behind c s (print_sep c (t ∷ rest)) w.0
    ∙ ap (λ (l : List Bytes). s ∷ l) (pieces-print_sep c t rest w.1)

pub Without-append : (c : ℕ) (s t : Bytes) → Without c s → Without c t → Without c (s ++ t)
Without-append c [] t w w' = w'
Without-append c (x ∷ s) t w w' = (w.0, Without-append c s t w.1 w')

pub Without-print_sep :
    (c d : ℕ) (l : List Bytes) → c ≢ d → AllWithout c l → Without c (print_sep d l)
Without-print_sep c d [] n w = tt
Without-print_sep c d (s ∷ []) n w = w.0
Without-print_sep c d (s ∷ t ∷ rest) n w =
    Without-append c s (d ∷ print_sep d (t ∷ rest)) w.0
      ((λ e. n (sym e)), Without-print_sep c d (t ∷ rest) n w.1)
