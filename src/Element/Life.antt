-- ===== src/Element/Life.antt =====
-- The lifetime of an element: how many sweeps it survives without a lifesign.

use bmon.Prelude.{
  ℕ, zero, suc, ◌+◌, ◌-◌, ◌^◌, ◌<◌, ◌≡◌, refl, ap, ◌∙◌, Option, none, some, arith, if◌then◌else◌,
  ltb, Bool-cases, Option-cases, inl, inr, ◌>>=◌,
}
use bmon.Prelude.Bytes.{Bytes}
use bmon.Tree.{Elements, empty, entry}
use bmon.Element.{
  Element, element_check_if_dead, is_named, lookup_in, free_unused_elements, size, freed, sweep,
  ElementStore,
}
use bmon.Element.Facts.{
  UniqueElements, IsCounted, is_named-eq, lookup_in-named, lookup_in-other, lookup_in-none,
}

module _ {F : Type 0} where
  check-is_named :
      (e e' : Element F) (name : Bytes) (id : ℕ)
      → element_check_if_dead e ≡ some e'
      → is_named name id e' ≡ is_named name id e
  unfolding element_check_if_dead
  check-is_named e e' name id h = ground arith

  check-keeps :
      (e e' : Element F)
      → element_check_if_dead e ≡ some e'
      → (e'.e_name ≡ e.e_name) × (e'.e_id ≡ e.e_id)
  unfolding element_check_if_dead
  check-keeps e e' h = ground arith

  free-dead :
      (e : Element F) (childs next : Elements (Element F))
      → element_check_if_dead e ≡ none
      → free_unused_elements (entry e childs next) ≡ free_unused_elements next
  unfolding free_unused_elements
  free-dead e childs next d = rw (d, free_unused_elements) refl

  free-alive :
      (e e' : Element F) (childs next : Elements (Element F))
      → element_check_if_dead e ≡ some e'
      → free_unused_elements (entry e childs next)
        ≡ entry e' (free_unused_elements childs) (free_unused_elements next)
  unfolding free_unused_elements
  free-alive e e' childs next d = rw (d, free_unused_elements) refl

  freed-dead :
      (e : Element F) (childs next : Elements (Element F))
      → element_check_if_dead e ≡ none
      → freed (entry e childs next) ≡ 1 + size childs + freed next
  unfolding freed
  freed-dead e childs next d = rw (d, freed) refl

  freed-alive :
      (e e' : Element F) (childs next : Elements (Element F))
      → element_check_if_dead e ≡ some e'
      → freed (entry e childs next) ≡ freed childs + freed next
  unfolding freed
  freed-alive e e' childs next d = rw (d, freed) refl

  lookup_in-free_none :
      (name : Bytes) (id : ℕ) (es : Elements (Element F))
      → lookup_in name id es ≡ none
      → lookup_in name id (free_unused_elements es) ≡ none
  unfolding lookup_in free_unused_elements
  lookup_in-free_none name id empty h = refl
  lookup_in-free_none name id (entry e childs next) h =
      let (n, h') = lookup_in-none name id e childs next h in
      let rest = lookup_in-free_none name id next h' in
      elim (Option-cases (element_check_if_dead e)) [
        | inl d ↦ ap (lookup_in name id) (free-dead e childs next d) ∙ rest
        | inr (e', d) ↦
            ap (lookup_in name id) (free-alive e e' childs next d)
            ∙ lookup_in-other name id e' (free_unused_elements childs) (free_unused_elements next)
                (check-is_named e e' name id d ∙ n)
            ∙ rest
      ]

  -- After a sweep a lookup finds the element with one lifecycle less, or no longer where that was its
  -- last.
  lookup_in-free :
      (name : Bytes) (id : ℕ) (es : Elements (Element F))
      → UniqueElements es
      → lookup_in name id (free_unused_elements es)
        ≡ (lookup_in name id es >>= element_check_if_dead)
  unfolding lookup_in free_unused_elements
  lookup_in-free name id empty u = refl
  lookup_in-free name id (entry e childs next) (fresh, u) =
      let rest = lookup_in-free name id next u in
      elim (Bool-cases (is_named name id e)) [
        | inl n ↦
            let (a, b) = is_named-eq name id e n in
            let gone : lookup_in name id next ≡ none = rw (a, ← b) fresh in
            elim (Option-cases (element_check_if_dead e)) [
              | inl d ↦
                  rw (n, d)
                    (ap (lookup_in name id) (free-dead e childs next d)
                      ∙ lookup_in-free_none name id next gone)
              | inr (e', d) ↦
                  rw (n, d)
                    (ap (lookup_in name id) (free-alive e e' childs next d)
                      ∙ lookup_in-named name id e' (free_unused_elements childs)
                          (free_unused_elements next) (check-is_named e e' name id d ∙ n))
            ]
        | inr n ↦ elim (Option-cases (element_check_if_dead e)) [
          | inl d ↦ rw n (ap (lookup_in name id) (free-dead e childs next d) ∙ rest)
          | inr (e', d) ↦ rw n (
              ap (lookup_in name id) (free-alive e e' childs next d)
              ∙ lookup_in-other name id e' (free_unused_elements childs) (free_unused_elements next)
                  (check-is_named e e' name id d ∙ n)
              ∙ rest)
        ]
      ]

  free_unused_elements-UniqueElements :
      (es : Elements (Element F)) → UniqueElements es → UniqueElements (free_unused_elements es)
  free_unused_elements-UniqueElements empty u = unfold free_unused_elements in tt
  free_unused_elements-UniqueElements (entry e childs next) (fresh, u) =
      let rest = free_unused_elements-UniqueElements next u in
      elim (Option-cases (element_check_if_dead e)) [
        | inl d ↦ rw (free-dead e childs next d) rest
        | inr (e', d) ↦
            let (a, b) = check-keeps e e' d in
            rw (free-alive e e' childs next d)
              (rw (a, b) (lookup_in-free_none e.e_name e.e_id next fresh), rest)
      ]

  -- The sweeps of `n` reads in which no lifesign comes.
  unfoldable pub sweeps : ℕ → Elements (Element F) → Elements (Element F)
  sweeps zero es = es
  sweeps (suc n) es = sweeps n (free_unused_elements es)

  abbrev pub with_lifecycles : Element F → ℕ → Element F
  with_lifecycles e n = record e { e_lifecycles = n }

  check-last : (e : Element F) → e.e_lifecycles ≡ 1 → element_check_if_dead e ≡ none
  unfolding element_check_if_dead
  check-last e h = ground arith

  check-alive :
      (e : Element F) (k : ℕ)
      → e.e_lifecycles ≡ suc (suc k)
      → e.e_lifecycles < 2 ^ 32
      → element_check_if_dead e ≡ some (with_lifecycles e (suc k))
  unfolding element_check_if_dead
  check-alive e k h b = ground arith

  sweeps-gone :
      (name : Bytes) (id n : ℕ) (es : Elements (Element F))
      → lookup_in name id es ≡ none
      → lookup_in name id (sweeps n es) ≡ none
  unfolding sweeps
  sweeps-gone name id zero es h = h
  sweeps-gone name id (suc n) es h =
      sweeps-gone name id n (free_unused_elements es) (lookup_in-free_none name id es h)

  first-round : (k : ℕ) (o : Option (Element F)) → o ≡ (if ltb 0 (suc k) then o else none)
  first-round k o = ground arith

  no-round : (n : ℕ) (o : Option (Element F)) → none ≡ (if ltb (suc n) 1 then o else none)
  no-round n o = ground arith

  later-round :
      (n k : ℕ) (f : ℕ → Element F)
      → (if ltb n (suc k) then some (f (suc k - n)) else none)
        ≡ (if ltb (suc n) (suc (suc k)) then some (f (suc (suc k) - suc n)) else none)
  later-round n k f = let e : suc (suc k) - suc n ≡ suc k - n = omega arith in rw e (ground arith)

  -- In a list with unique names an element with `k + 1` lifecycles, below 2^32, is found after `n` sweeps
  -- without a lifesign exactly if `n` is at most `k`, with one lifecycle less for each sweep.
  pub lookup_in-sweeps :
      (name : Bytes) (id k n : ℕ) (es : Elements (Element F)) (e : Element F)
      → UniqueElements es
      → lookup_in name id es ≡ some e
      → e.e_lifecycles ≡ suc k
      → e.e_lifecycles < 2 ^ 32
      → lookup_in name id (sweeps n es)
        ≡ (if ltb n (suc k) then some (with_lifecycles e (suc k - n)) else none)
  unfolding sweeps
  lookup_in-sweeps name id k zero es e u h l b =
      let same : e.e_lifecycles ≡ suc k - 0 = omega (arith, l) in
      h ∙ ap (λ (n : ℕ). some (with_lifecycles e n)) same ∙ first-round k _
  lookup_in-sweeps name id zero (suc n) es e u h l b =
      let dead =
        lookup_in-free name id es u ∙ ap (λ o. o >>= element_check_if_dead) h ∙ check-last e l in
      sweeps-gone name id n (free_unused_elements es) dead ∙ no-round n _
  lookup_in-sweeps name id (suc k) (suc n) es e u h l b =
      let alive =
        lookup_in-free name id es u
        ∙ ap (λ o. o >>= element_check_if_dead) h
        ∙ check-alive e k l b in
      lookup_in-sweeps name id k n (free_unused_elements es) (with_lifecycles e (suc k))
        (free_unused_elements-UniqueElements es u) alive refl (omega (arith, l, b))
      ∙ later-round n k (with_lifecycles e)

  size-free : (es : Elements (Element F)) → size (free_unused_elements es) + freed es ≡ size es
  unfolding size
  size-free empty = unfold free_unused_elements freed in refl
  size-free (entry e childs next) = elim (Option-cases (element_check_if_dead e)) [
    | inl d ↦
        rw (free-dead e childs next d, freed-dead e childs next d) (omega (arith, size-free next))
    | inr (e', d) ↦
        rw (free-alive e e' childs next d, freed-alive e e' childs next d)
          (omega (arith, size-free childs, size-free next))
  ]

  -- A sweep keeps the names unique and `g_nelements` the number of elements, those freed with their
  -- parents included.
  pub sweep-IsCounted : (st : ElementStore F) → IsCounted st → IsCounted (sweep st)
  unfolding sweep
  sweep-IsCounted st v = record {
    unique = free_unused_elements-UniqueElements st.elements v.unique;
    counted = omega (arith, v.counted, size-free st.elements);
  }
