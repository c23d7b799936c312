-- ===== src/Units/Pick.antt =====
-- Which divisor `unit_divisor` picks.
use mathlib.Core.List.{reverse, reverse-append, reverse-reverse, append_assoc}
use bmon.Prelude.{
  ℕ, zero, suc, ◌≡◌, refl, true, false, none, some, List, [], ◌∷◌, ◌++◌, arith, Bool-cases, inl,
  inr, get_elem?, ◌⊎◌, ap, ◌∙◌,
}
use mathlib.Core.Path.{subst}
use bmon.Prelude.Int.{ℤ, pos, negsuc, ◌-ℤ◌}
use bmon.Floats.{Floats}
use bmon.Units.{
  Fraction, UnitDef, UnitCfg, get_flist, count_down, find_le, pick, describe, unit_divisor,
}

dec_suc : (k : ℕ) → pos (suc k) -ℤ pos 1 ≡ pos k
unfolding ◌-ℤ◌
dec_suc k = ground arith

dec_negsuc : (k : ℕ) → negsuc k -ℤ pos 1 ≡ negsuc (suc k)
unfolding ◌-ℤ◌
dec_negsuc k = ground arith

module _ {F : Type 0} where
  -- An exponent of k + 1 counts down to the fraction at index k.
  count_down-suc :
      (k : ℕ) (flist : List (Fraction F)) → count_down (pos (suc k)) flist ≡ get_elem? flist k
  unfolding count_down
  count_down-suc k [] = refl
  count_down-suc zero (f ∷ flist) = refl
  count_down-suc (suc k) (f ∷ flist) = rw (dec_suc (suc k), count_down-suc k flist)

  -- An exponent below 0 never counts down to 0.
  count_down-negsuc : (k : ℕ) (flist : List (Fraction F)) → count_down (negsuc k) flist ≡ none
  unfolding count_down
  count_down-negsuc k [] = refl
  count_down-negsuc k (f ∷ flist) = rw (dec_negsuc k) (count_down-negsuc (suc k) flist)

  count_down-zero : (flist : List (Fraction F)) → count_down (pos 0) flist ≡ none
  unfolding count_down
  count_down-zero [] = refl
  count_down-zero (f ∷ flist) = count_down-negsuc 0 flist

  count_down-pos :
      (n : ℕ) (flist : List (Fraction F))
      → count_down (pos n) flist ≡ elim n [ zero ↦ none | suc k ↦ get_elem? flist k ]
  count_down-pos zero flist = count_down-zero flist
  count_down-pos (suc k) flist = count_down-suc k flist

module _ (fl : Floats) where
  open fl use {Float, Double, of_nat, widen, double_of_nat, le, eq}

  -- No fraction of the list has a divisor up to the value.
  abbrev pub AllAbove : ℕ → List (Fraction Float) → Type 0
  AllAbove hint [] = Unit
  AllAbove hint (f ∷ flist) = (le f.f_divisor (of_nat hint) ≡ false) × AllAbove hint flist

  AllAbove-append :
      (hint : ℕ) (xs ys : List (Fraction Float))
      → AllAbove hint xs
      → AllAbove hint ys
      → AllAbove hint (xs ++ ys)
  AllAbove-append hint [] ys p q = q
  AllAbove-append hint (x ∷ xs) ys p q = (p.0, AllAbove-append hint xs ys p.1 q)

  AllAbove-reverse :
      (hint : ℕ) (xs : List (Fraction Float)) → AllAbove hint xs → AllAbove hint (reverse xs)
  AllAbove-reverse hint [] p = p
  AllAbove-reverse hint (x ∷ xs) p =
      rw (reverse-append (x ∷ []) xs)
        (AllAbove-append hint (reverse xs) (x ∷ []) (AllAbove-reverse hint xs p.1) (p.0, tt))

  -- `f` is the last fraction of the list with a divisor up to the value.
  pub record IsLastBelow (hint : ℕ) (flist : List (Fraction Float)) (f : Fraction Float)
      : Type 0 where
    pub before : List (Fraction Float)
    pub after : List (Fraction Float)
    pub splits : flist ≡ before ++ f ∷ after
    pub below : le f.f_divisor (of_nat hint) ≡ true
    pub above : AllAbove hint after

  -- Of the list from its end the loop finds the first such fraction.
  find_le_cases :
      (hint : ℕ) (zs : List (Fraction Float))
      → ((find_le fl hint zs ≡ none) × AllAbove hint zs)
        ⊎ ((f : Fraction Float) × (find_le fl hint zs ≡ some f) × IsLastBelow hint (reverse zs) f)
  unfolding find_le
  find_le_cases hint [] = inl (refl, tt)
  find_le_cases hint (z ∷ zs) = elim (Bool-cases (le z.f_divisor (of_nat hint))) [
    | inl e ↦ inr (
      z,
      rw e,
      record {
        before = reverse zs;
        after = [];
        splits = reverse-append (z ∷ []) zs;
        below = e;
        above = tt;
      },
    )
    | inr e ↦ elim (find_le_cases hint zs) [
      | inl (p, q) ↦ inl (rw e p, (e, q))
      | inr (f, p, q) ↦ inr (
        f,
        rw e p,
        record {
          before = q.before;
          after = q.after ++ z ∷ [];
          splits =
              reverse-append (z ∷ []) zs
              ∙ ap (λ (l : List (Fraction Float)). l ++ z ∷ []) q.splits
              ∙ append_assoc q.before (f ∷ q.after) (z ∷ []);
          below = q.below;
          above = AllAbove-append hint q.after (z ∷ []) q.above (e, tt);
        },
      )
    ]
  ]

  pick-dynamic :
      (e : ℤ) (hint : ℕ) (flist : List (Fraction Float))
      → e ≡ negsuc 0
      → pick fl e hint flist ≡ find_le fl hint (reverse flist)
  unfolding pick
  pick-dynamic e hint flist h = rw h

  pick-static :
      (e : ℤ) (hint k : ℕ) (flist : List (Fraction Float))
      → e ≡ pos k
      → pick fl e hint flist ≡ count_down (pos k) flist
  unfolding pick
  pick-static e hint k flist h = rw h

  -- With the dynamic exponent the divisor is that of the last fraction in the unit's list that is not
  -- above the value, with its name; it is 1 with no name where every fraction is above the value.
  pub unit_divisor_dynamic :
      (cfg : UnitCfg) (hint : ℕ) (unit : UnitDef Float)
      → cfg.cfg_unit_exp ≡ negsuc 0
      → (AllAbove hint (get_flist cfg unit) × (unit_divisor fl cfg hint unit ≡ describe fl none))
        ⊎ ((f : Fraction Float) × IsLastBelow hint (get_flist cfg unit) f
            × (unit_divisor fl cfg hint unit ≡ describe fl (some f)))
  unfolding unit_divisor
  unit_divisor_dynamic cfg hint unit e =
      let flist = get_flist cfg unit in
      let picked = pick-dynamic cfg.cfg_unit_exp hint flist e in
      elim (find_le_cases hint (reverse flist)) [
        | inl (p, q) ↦ inl (
          subst (AllAbove hint) (reverse-reverse flist) (AllAbove-reverse hint (reverse flist) q),
          ap (describe fl) (picked ∙ p),
        )
        | inr (f, p, q) ↦ inr (
          f,
          subst (λ (l : List (Fraction Float)). IsLastBelow hint l f) (reverse-reverse flist) q,
          ap (describe fl) (picked ∙ p),
        )
      ]

  -- A fixed exponent picks by position, whatever the value is: the exponent k + 1 the fraction at
  -- index k of the unit's list, or none where the list is too short, and the exponent 0 none.
  pub unit_divisor_static :
      (cfg : UnitCfg) (hint n : ℕ) (unit : UnitDef Float)
      → cfg.cfg_unit_exp ≡ pos n
      → unit_divisor fl cfg hint unit
        ≡ describe fl (elim n [ zero ↦ none | suc k ↦ get_elem? (get_flist cfg unit) k ])
  unfolding unit_divisor
  unit_divisor_static cfg hint n unit h =
      let flist = get_flist cfg unit in
      ap (describe fl) (pick-static cfg.cfg_unit_exp hint n flist h ∙ count_down-pos n flist)
