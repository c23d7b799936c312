-- ===== src/Dummy/Place.antt =====
-- The places of the counters in `cnts`, and an addition to one of them.

use native.Mathlib.Nat.{mul-le-mul_right, add-mul}
use bmon.Prelude.{
  ℕ, zero, suc, ◌+◌, ◌*◌, ◌%◌, ◌^◌, ◌≤◌, ◌<◌, ◌≡◌, ◌≢◌, ◌⊎◌, refl, sym, ap, ◌∙◌, Option, none, some,
  List, [], ◌∷◌, arith, length, set, get_elem?, length-set, get_elem?-set_self, get_elem?-set_ne,
  inl, inr,
}
use bmon.Dummy.{DummyCfg, cnt_size, cnt, add_to}

order : (a b : ℕ) → (a < b) ⊎ (a ≡ b) ⊎ (b < a)
order a b = omega arith

-- A group of devices ends before the next one begins.
group-before : (m g g' d : ℕ) → g < g' → d < m → g * m + d < g' * m
group-before m g g' d h l =
    let next : g + 1 ≤ g' = omega (arith, h) in
    omega (arith, l, mul-le-mul_right m next, add-mul g 1 m)

pub cnt-inside :
    (cfg : DummyCfg) (g d u w : ℕ)
    → g < cfg.c_numgroups
    → d < cfg.c_numdev
    → u < 2
    → w < 2
    → cnt cfg g d u w < cnt_size cfg
unfolding cnt cnt_size
cnt-inside cfg g d u w hg hd hu hw =
    omega (arith, group-before cfg.c_numdev g cfg.c_numgroups d hg hd, hu, hw)

-- Counters of different devices, units or directions have different places.
pub cnt-injective :
    (cfg : DummyCfg) (g d u w g' d' u' w' : ℕ)
    → d < cfg.c_numdev
    → d' < cfg.c_numdev
    → u < 2
    → w < 2
    → u' < 2
    → w' < 2
    → cnt cfg g d u w ≡ cnt cfg g' d' u' w'
    → (g ≡ g') × (d ≡ d') × (u ≡ u') × (w ≡ w')
unfolding cnt
cnt-injective cfg g d u w g' d' u' w' hd hd' hu hw hu' hw' e = elim (order g g') [
  | inl b ↦ absurd (omega (arith, e, group-before cfg.c_numdev g g' d b hd, hu, hw))
  | inr (inr b) ↦ absurd (omega (arith, e, group-before cfg.c_numdev g' g d' b hd', hu', hw'))
  | inr (inl s) ↦
      let base : g * cfg.c_numdev ≡ g' * cfg.c_numdev = ap (λ n. n * cfg.c_numdev) s in
      (s, omega (arith, e, base), omega (arith, e, base), omega (arith, e, base))
]

abbrev pub bumped : ℕ → Option ℕ → Option ℕ
bumped n none = none
bumped n (some v) = some ((v + n) % 2 ^ 64)

-- What an addition leaves.
pub record Added (i n : ℕ) (cnts : List ℕ) : Type 0 where
  pub after : List ℕ
  pub result : add_to i n cnts ≡ some after
  pub sized : length after ≡ length cnts
  pub own : get_elem? after i ≡ bumped n (get_elem? cnts i)
  pub others : (j : ℕ) → i ≢ j → get_elem? after j ≡ get_elem? cnts j

get_elem?-inside : (xs : List ℕ) (i : ℕ) → i < length xs → (v : ℕ) × (get_elem? xs i ≡ some v)
get_elem?-inside [] i h = absurd (omega (arith, h))
get_elem?-inside (x ∷ xs) zero h = (x, refl)
get_elem?-inside (x ∷ xs) (suc i) h = get_elem?-inside xs i (omega (arith, h))

pub add_to-Added : (i n : ℕ) (cnts : List ℕ) → i < length cnts → Added i n cnts
unfolding add_to
add_to-Added i n cnts h =
    let (v, e) = get_elem?-inside cnts i h in
    record {
      after = set cnts i ((v + n) % 2 ^ 64);
      result = rw (e, add_to) refl;
      sized = length-set cnts i _;
      own = get_elem?-set_self cnts i _ h ∙ ap (bumped n) (sym e);
      others = λ j ne. get_elem?-set_ne cnts _ ne;
    }
