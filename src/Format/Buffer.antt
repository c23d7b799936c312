-- ===== src/Format/Buffer.antt =====
-- The strings in the buffer that `format_probe` cuts up, and their drawing.

use bmon.Prelude.{
  ℕ, zero, suc, ◌+◌, ◌≡◌, ◌≢◌, refl, sym, ap, ◌∙◌, Bool, true, false, Option, some, List, [], ◌∷◌,
  ◌++◌, arith, if◌then◌else◌, length, drop,
}
use bmon.Prelude.Bytes.{Bytes}
use bmon.Conf.Pieces.{Without}
use bmon.Format.{OutToken, escape, string_at, token_at, until_nul, or_nothing, draw_tokens}
use bmon.Format.Pieces.{Piece, byte, render}

drop-append : (u v : Bytes) → drop (length u) (u ++ v) ≡ v
drop-append [] v = refl
drop-append (x ∷ u) v = drop-append u v

abbrev no_bytes : Bytes
no_bytes = []

drop-nil : (n : ℕ) → drop n no_bytes ≡ []
drop-nil zero = refl
drop-nil (suc n) = refl

drop-drop : (m n : ℕ) (s : Bytes) → drop (m + n) s ≡ drop n (drop m s)
drop-drop zero n s = let e : zero + n ≡ n = omega arith in ap (λ k. drop k s) e
drop-drop (suc m) n [] = drop-nil (suc m + n) ∙ sym (drop-nil n)
drop-drop (suc m) n (x ∷ s) =
    let e : suc m + n ≡ suc (m + n) = omega arith in ap (λ k. drop k (x ∷ s)) e ∙ drop-drop m n s

-- The buffer behind what was passed.
pub drop-behind :
    (p q : ℕ) (whole u v : Bytes) → drop p whole ≡ u ++ v → p + length u ≡ q → drop q whole ≡ v
drop-behind p q whole u v h e =
    ap (λ n. drop n whole) (sym e)
    ∙ drop-drop p (length u) whole
    ∙ ap (drop (length u)) h
    ∙ drop-append u v

pub until_nul-name : (name s : Bytes) → Without 0 name → until_nul ((name ++ 0 ∷ []) ++ s) ≡ name
unfolding until_nul
until_nul-name [] s w = refl
until_nul-name (c ∷ name) s w = ground (arith, until_nul-name name s w.1)

until_nul-cons : (c : ℕ) (s : Bytes) → c ≢ 0 → until_nul (c ∷ s) ≡ c ∷ until_nul s
unfolding until_nul
until_nul-cons c s n = ground arith

pub escape-nonzero : (d x : ℕ) → escape d ≡ some x → x ≢ 0
unfolding escape
escape-nonzero d x h = ground arith

pub Without-parts : (c : ℕ) (s t : Bytes) → Without c (s ++ t) → Without c s × Without c t
Without-parts c [] t w = (tt, w)
Without-parts c (x ∷ s) t (n, w) = let (a, b) = Without-parts c s t w in ((n, a), b)

pub draw-string :
    (get : Bytes → Option Bytes) (whole : Bytes) (p : ℕ) (buffer : Bytes) (tokens : List OutToken)
    → drop p whole ≡ buffer
    → draw_tokens get whole (string_at p ∷ tokens)
      ≡ until_nul buffer ++ draw_tokens get whole tokens
unfolding draw_tokens
draw-string get whole p buffer tokens d = ap (λ b. until_nul b ++ draw_tokens get whole tokens) d

pub draw-token :
    (get : Bytes → Option Bytes) (whole : Bytes) (p : ℕ) (buffer : Bytes) (tokens : List OutToken)
    → drop p whole ≡ buffer
    → draw_tokens get whole (token_at p ∷ tokens)
      ≡ or_nothing (get (until_nul buffer)) ++ draw_tokens get whole tokens
unfolding draw_tokens
draw-token get whole p buffer tokens d =
    ap (λ b. or_nothing (get (until_nul b)) ++ draw_tokens get whole tokens) d

pub text-goes-on :
    (get : Bytes → Option Bytes) (c : ℕ) (buffer printed : Bytes) (ps : List Piece)
    → c ≢ 0
    → until_nul buffer ++ printed ≡ render get ps
    → until_nul (c ∷ buffer) ++ printed ≡ render get (byte c ∷ ps)
unfolding render
text-goes-on get c buffer printed ps n h =
    ap (λ s. s ++ printed) (until_nul-cons c buffer n) ∙ ap (λ s. c ∷ s) h

-- The string that went on before ends at a NUL.
pub nothing-before :
    (new_one : Bool) (buffer printed : Bytes)
    → (if new_one then [] else until_nul (0 ∷ buffer)) ++ printed ≡ printed
unfolding until_nul
nothing-before true buffer printed = refl
nothing-before false buffer printed = refl
