-- ===== src/Conf/Refused.antt =====
-- Which module options are refused.
use mathlib.Core.List.{append_assoc, append-nil}
use bmon.Prelude.{
  ℕ, suc, ◌+◌, ◌≡◌, refl, ap, none, some, List, [], ◌∷◌, ◌++◌, arith, length, ◌⊎◌, inl, inr,
}
use bmon.Prelude.Bytes.{Bytes}
use bmon.Conf.{ModuleConf, cut, pieces, parse_tvs, parse_module, parse_modules, parse_module_param}
use bmon.Conf.Pieces.{NonEmpty}

add_one : (n : ℕ) → n + 1 ≡ suc n
add_one n = omega arith

abbrev pub AllNonEmpty : List Bytes → Type 0
AllNonEmpty [] = Unit
AllNonEmpty (s ∷ rest) = NonEmpty s × AllNonEmpty rest

-- The number of modules that are parsed is that of the pieces.
parse_modules-AllNonEmpty :
    (l : List Bytes) (list : List ModuleConf)
    → AllNonEmpty l
    → (ms : List ModuleConf) × (parse_modules l list ≡ some (length l, list ++ ms))
      × (length ms ≡ length l)
unfolding parse_modules parse_module
parse_modules-AllNonEmpty [] list h = ([], rw append-nil refl, refl)
parse_modules-AllNonEmpty ([] ∷ l) list h = absurd h.0
parse_modules-AllNonEmpty ((c ∷ s) ∷ l) list h =
    let (name, opts) = cut b':' (c ∷ s) in
    let m : ModuleConf = record {
      m_name = name;
      m_attrs = elim opts [ none ↦ [] | some o ↦ parse_tvs (pieces b';' o) ];
    } in
    let (ms, e, k) = parse_modules-AllNonEmpty l (list ++ m ∷ []) h.1 in
    (
      m ∷ ms,
      rw e (rw append_assoc (ap (λ n. some (n, list ++ m ∷ ms)) (add_one (length l)))),
      ap suc k,
    )

parse_modules-empty :
    (l : List Bytes) (list : List ModuleConf) → ¬ AllNonEmpty l → parse_modules l list ≡ none
unfolding parse_modules parse_module
parse_modules-empty [] list h = absurd (h tt)
parse_modules-empty ([] ∷ l) list h = refl
parse_modules-empty ((c ∷ s) ∷ l) list h =
    let rest = parse_modules-empty l in rw (rest _ (λ k. h (tt, k))) refl

AllNonEmpty-dec : (l : List Bytes) → AllNonEmpty l ⊎ (¬ AllNonEmpty l)
AllNonEmpty-dec [] = inl tt
AllNonEmpty-dec ([] ∷ l) = inr (λ h. h.0)
AllNonEmpty-dec ((c ∷ s) ∷ l) = elim (AllNonEmpty-dec l) [
  | inl h ↦ inl (tt, h)
  | inr h ↦ inr (λ k. h k.1)
]

-- The modules are read, and as many as there are strings between the commas, exactly where none of
-- these strings is empty; otherwise the program ends. So a name may be empty in front of a ':'.
pub parse_module_param_iff :
    (data' : Bytes) (list : List ModuleConf)
    → (AllNonEmpty (pieces b',' data')
        × ((ms : List ModuleConf) × (parse_module_param data' list
              ≡ some (length (pieces b',' data'), list ++ ms))
            × (length ms ≡ length (pieces b',' data'))))
      ⊎ ((¬ AllNonEmpty (pieces b',' data')) × (parse_module_param data' list ≡ none))
unfolding parse_module_param
parse_module_param_iff data' list = elim (AllNonEmpty-dec (pieces b',' data')) [
  | inl h ↦ inl (h, parse_modules-AllNonEmpty (pieces b',' data') list h)
  | inr h ↦ inr (h, parse_modules-empty (pieces b',' data') list h)
]
