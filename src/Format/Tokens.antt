-- ===== src/Format/Tokens.antt =====
-- `format_probe` against the pieces of the format string.

use bmon.Prelude.{
  ℕ, zero, suc, ◌+◌, ◌≤◌, ◌≡◌, ◌≢◌, refl, ap, ◌∙◌, subst, Bool, true, false, Option, some, List, [],
  ◌∷◌, ◌++◌, arith, if◌then◌else◌, length, drop, length-append,
}
use bmon.Prelude.Bytes.{Bytes}
use bmon.Conf.Pieces.{Without}
use bmon.Format.{
  OutToken, ProbeResult, probed, unexpected_end, invalid, escape, Found, found_token, found_end,
  found_invalid, found_escape, found_text, find, passed, string_at, token_at, probe_loop,
  format_probe, until_nul, or_nothing, draw_tokens,
}
use bmon.Format.Pieces.{
  Piece, byte, field, IsText, Means, end, a_field, an_escape, a_text, Unclosed, here, behind_field,
  behind_escape, behind_text, render,
}
use bmon.Format.Find.{FoundAt, find-FoundAt}
use bmon.Format.Buffer.{
  drop-behind, until_nul-name, escape-nonzero, Without-parts, draw-string, draw-token, text-goes-on,
  nothing-before,
}

-- What the loop comes to at the index `p` of a buffer, in front of the text `s`: the string that goes on
-- at `p`, where there is one, and the tokens print what the pieces stand for; or a field is not closed.
data Outcome (p : ℕ) (new_one : Bool) (s : Bytes) : ProbeResult → Type 0 where
  accepted :
      (ps : List Piece) (buffer : Bytes) (tokens : List OutToken)
      → Means s ps
      → ((get : Bytes → Option Bytes) (whole : Bytes)
          → drop p whole ≡ buffer
          → (if new_one then [] else until_nul buffer) ++ draw_tokens get whole tokens
            ≡ render get ps)
      → Outcome p new_one s (probed buffer tokens)
  refused_end : Unclosed s → Outcome p new_one s unexpected_end
  refused_invalid : Unclosed s → Outcome p new_one s invalid

step_text :
    (p c : ℕ) (new_one : Bool) (s : Bytes) (r : ProbeResult)
    → IsText c s
    → c ≢ 0
    → Outcome (p + 1) false s r
    → Outcome p new_one (c ∷ s) (passed (c ∷ []) (if new_one then string_at p ∷ [] else []) r)
step_text p c new_one s r t n (refused_end u) = refused_end (behind_text t u)
step_text p c new_one s r t n (refused_invalid u) = refused_invalid (behind_text t u)
step_text p c true s r t n (accepted ps buffer tokens m h) =
    accepted (byte c ∷ ps) (c ∷ buffer) (string_at p ∷ tokens) (a_text t m) (λ get whole d.
      draw-string get whole p (c ∷ buffer) tokens d
      ∙ text-goes-on get c buffer _ _ n
          (h get whole (drop-behind p (p + 1) whole (c ∷ []) buffer d refl)))
step_text p c false s r t n (accepted ps buffer tokens m h) =
    accepted (byte c ∷ ps) (c ∷ buffer) tokens (a_text t m) (λ get whole d.
      text-goes-on get c buffer _ _ n
        (h get whole (drop-behind p (p + 1) whole (c ∷ []) buffer d refl)))

step_escape :
    (p d x : ℕ) (new_one : Bool) (s : Bytes) (r : ProbeResult)
    → escape d ≡ some x
    → Outcome (p + 2) false s r
    → Outcome p new_one (b'\\' ∷ d ∷ s) (passed (0 ∷ x ∷ []) (string_at (p + 1) ∷ []) r)
step_escape p d x new_one s r e (refused_end u) = refused_end (behind_escape e u)
step_escape p d x new_one s r e (refused_invalid u) = refused_invalid (behind_escape e u)
step_escape p d x new_one s r e (accepted ps buffer tokens m h) =
    accepted (byte x ∷ ps) (0 ∷ x ∷ buffer) (string_at (p + 1) ∷ tokens) (an_escape e m)
      (λ get whole w.
        nothing-before new_one (x ∷ buffer) _
        ∙ draw-string get whole (p + 1) (x ∷ buffer) tokens
            (drop-behind p (p + 1) whole (0 ∷ []) (x ∷ buffer) w refl)
        ∙ text-goes-on get x buffer _ _ (escape-nonzero d x e)
            (h get whole (drop-behind p (p + 2) whole (0 ∷ x ∷ []) buffer w refl)))

step_field :
    (p : ℕ) (name : Bytes) (new_one : Bool) (s : Bytes) (r : ProbeResult)
    → Without b')' name
    → Without 0 name
    → Outcome (p + length name + 3) true s r
    → Outcome p new_one
        (b'$' ∷ b'(' ∷ name ++ b')' ∷ s)
        (passed (0 ∷ b'(' ∷ name ++ 0 ∷ []) (token_at (p + 2) ∷ []) r)
unfolding render
step_field p name new_one s r w z (refused_end u) = refused_end (behind_field name s w u)
step_field p name new_one s r w z (refused_invalid u) = refused_invalid (behind_field name s w u)
step_field p name new_one s r w z (accepted ps buffer tokens m h) =
    accepted (field name ∷ ps) ((0 ∷ b'(' ∷ name ++ 0 ∷ []) ++ buffer) (token_at (p + 2) ∷ tokens)
      (a_field w m)
      (λ get whole d.
        nothing-before new_one (b'(' ∷ (name ++ 0 ∷ []) ++ buffer) _
        ∙ draw-token get whole (p + 2) ((name ++ 0 ∷ []) ++ buffer) tokens
            (drop-behind p (p + 2) whole (0 ∷ b'(' ∷ []) ((name ++ 0 ∷ []) ++ buffer) d refl)
        ∙ ap (λ n. or_nothing (get n) ++ draw_tokens get whole tokens)
            (until_nul-name name buffer z)
        ∙ ap (λ t. or_nothing (get name) ++ t)
            (h get whole (
              drop-behind p (p + length name + 3) whole (0 ∷ b'(' ∷ name ++ 0 ∷ []) buffer d
                (omega (arith, length-append name (0 ∷ []))))))

-- The loop behind what was found.
abbrev after : ℕ → ℕ → Bool → ℕ → Bytes → Found → ProbeResult
after fuel p new_one c s found = elim found [
  | found_end ↦ unexpected_end
  | found_invalid ↦ invalid
  | found_token name rest ↦
      passed (0 ∷ b'(' ∷ name ++ 0 ∷ []) (token_at (p + 2) ∷ [])
        (probe_loop fuel (p + length name + 3) true rest)
  | found_escape x rest ↦
      passed (0 ∷ x ∷ []) (string_at (p + 1) ∷ []) (probe_loop fuel (p + 2) false rest)
  | found_text ↦
      passed (c ∷ []) (if new_one then string_at p ∷ [] else []) (probe_loop fuel (p + 1) false s)
]

loop_step :
    (fuel p : ℕ) (new_one : Bool) (c : ℕ) (s : Bytes) (found : Found)
    → FoundAt c s found
    → length (c ∷ s) ≤ suc fuel
    → Without 0 (c ∷ s)
    → ((q : ℕ) (b : Bool) (t : Bytes)
        → length t ≤ fuel
        → Without 0 t
        → Outcome q b t (probe_loop fuel q b t))
    → Outcome p new_one (c ∷ s) (after fuel p new_one c s found)
loop_step fuel p new_one c s found_end (c', s') b z rec =
    let e : b'$' ∷ b'(' ∷ [] ≡ c ∷ s = cc in
    subst (λ t. Outcome p new_one t unexpected_end) e (refused_end (here [] tt))
loop_step fuel p new_one c s found_invalid (c', (name, s', w)) b z rec =
    let e : b'$' ∷ b'(' ∷ name ≡ c ∷ s = cc in
    subst (λ t. Outcome p new_one t invalid) e (refused_invalid (here name w))
loop_step fuel p new_one c s (found_token name rest) (c', s', w) b z rec =
    let e : b'$' ∷ b'(' ∷ name ++ b')' ∷ rest ≡ c ∷ s = cc in
    let (_, z') = subst (Without 0) s' z.1 in
    let (n, (_, r)) = Without-parts 0 name (b')' ∷ rest) z' in
    let short : length rest ≤ fuel =
      omega (arith, b, ap length s', length-append name (b')' ∷ rest)) in
    subst (λ t. Outcome p new_one t (after fuel p new_one c s (found_token name rest))) e
      (step_field p name new_one rest _ w n (rec (p + length name + 3) true rest short r))
loop_step fuel p new_one c s (found_escape x rest) (c', (d, s', h)) b z rec =
    let e : b'\\' ∷ d ∷ rest ≡ c ∷ s = cc in
    let (_, r) = subst (Without 0) s' z.1 in
    let short : length rest ≤ fuel = omega (arith, b, ap length s') in
    subst (λ t. Outcome p new_one t (after fuel p new_one c s (found_escape x rest))) e
      (step_escape p d x new_one rest _ h (rec (p + 2) false rest short r))
loop_step fuel p new_one c s found_text t b z rec =
    step_text p c new_one s _ t z.0 (rec (p + 1) false s (omega (arith, b)) z.1)

loop-Outcome :
    (fuel p : ℕ) (new_one : Bool) (s : Bytes)
    → length s ≤ fuel
    → Without 0 s
    → Outcome p new_one s (probe_loop fuel p new_one s)
unfolding probe_loop render draw_tokens until_nul
loop-Outcome fuel p true [] b z = accepted [] [] [] end (λ get whole d. refl)
loop-Outcome fuel p false [] b z = accepted [] [] [] end (λ get whole d. refl)
loop-Outcome zero p new_one (c ∷ s) b z = absurd (omega (arith, b))
loop-Outcome (suc fuel) p new_one (c ∷ s) b z =
    loop_step fuel p new_one c s (find c s) (find-FoundAt c s) b z (loop-Outcome fuel)

-- How `format_probe` ends for a format string: the tokens print what its pieces stand for, whatever the
-- fields are; or a field is not closed.
pub data ProbeOutcome (c_format : Bytes) : ProbeResult → Type 0 where
  prints :
      (ps : List Piece) (buffer : Bytes) (tokens : List OutToken)
      → Means c_format ps
      → ((get : Bytes → Option Bytes) → draw_tokens get buffer tokens ≡ render get ps)
      → ProbeOutcome c_format (probed buffer tokens)
  ends_in_field : Unclosed c_format → ProbeOutcome c_format unexpected_end
  not_closed : Unclosed c_format → ProbeOutcome c_format invalid

probe_end : (s : Bytes) (r : ProbeResult) → Outcome 0 true s r → ProbeOutcome s r
probe_end s r (accepted ps buffer tokens m h) = prints ps buffer tokens m (λ get. h get buffer refl)
probe_end s r (refused_end u) = ends_in_field u
probe_end s r (refused_invalid u) = not_closed u

-- A format string without a NUL is taken apart so that the tokens print its bytes, its escape sequences
-- and its fields in their order, or it is refused, where a field is not closed.
pub format_probe-ProbeOutcome :
    (c_format : Bytes) → Without 0 c_format → ProbeOutcome c_format (format_probe c_format)
unfolding format_probe
format_probe-ProbeOutcome c_format z =
    probe_end c_format _ (loop-Outcome (length c_format) 0 true c_format (omega arith) z)
