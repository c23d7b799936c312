-- ===== src/Element/Write.antt =====
-- A write through the pointer to an element of a list.
use bmon.Prelude.{
  ℕ, ◌≡◌, refl, sym, ap, ◌∙◌, Bool, true, false, Option, some, arith, if◌then◌else◌, Bool-cases,
  inl, inr,
}
use bmon.Prelude.Bytes.{Bytes, str_eq_iff, str_eq_comm}
use bmon.Tree.{Elements, empty, entry}
use bmon.Element.{Element, is_named, lookup_in, size, write_element}
use bmon.Element.Facts.{UniqueElements, IsFor, same_element, is_named-IsFor, is_named-eq}

same_element-eq :
    (j : Bytes) (k : ℕ) (name : Bytes) (id : ℕ)
    → same_element j k name id ≡ true
    → (j ≡ name) × (k ≡ id)
same_element-eq j k name id s = ground (arith, str_eq_iff j name)

module _ {F : Type 0} where
  pub lookup_in-IsFor :
      (name : Bytes) (id : ℕ) (es : Elements (Element F)) (e : Element F)
      → lookup_in name id es ≡ some e
      → IsFor name id e
  unfolding lookup_in
  lookup_in-IsFor name id empty e h = cc
  lookup_in-IsFor name id (entry e' childs next) e h = elim (Bool-cases (is_named name id e')) [
    | inl n ↦
        let (a, b) = is_named-eq name id e' n in
        let same : e' ≡ e = cc in
        (
          ap (λ (x : Element F). x.e_name) (sym same) ∙ sym a,
          ap (λ (x : Element F). x.e_id) (sym same) ∙ b,
        )
    | inr n ↦ let rest : lookup_in name id next ≡ some e = cc in lookup_in-IsFor name id next e rest
  ]

  pub size-write_element :
      (name : Bytes) (id : ℕ) (e' : Element F) (es : Elements (Element F))
      → size (write_element name id e' es) ≡ size es
  unfolding size write_element
  size-write_element name id e' empty = refl
  size-write_element name id e' (entry e childs next) =
      ground (arith, size-write_element name id e' next)

  if_twice :
      (b : Bool) (e' x : Element F) (o : Option (Element F))
      → (if b then some e' else o) ≡ (if b then some e' else (if b then some x else o))
  if_twice true e' x o = refl
  if_twice false e' x o = refl

  -- The element that was found is replaced, for its own name and identifier alone.
  pub lookup_in-write_element :
      (name j : Bytes) (id k : ℕ) (e e' : Element F) (es : Elements (Element F))
      → lookup_in name id es ≡ some e
      → IsFor name id e'
      → lookup_in j k (write_element name id e' es)
        ≡ (if same_element j k name id then some e' else lookup_in j k es)
  unfolding write_element lookup_in
  lookup_in-write_element name j id k e e' empty h f = cc
  lookup_in-write_element name j id k e e' (entry x childs next) h f =
      let written = is_named-IsFor j name k id e' f in
      elim (Bool-cases (is_named name id x)) [
        | inl n ↦
            let (a, b) = is_named-eq name id x n in
            let old = is_named-IsFor j name k id x (sym a, b) in
            rw (n, written, old) (if_twice (same_element j k name id) e' x (lookup_in j k next))
        | inr n ↦
            let found : lookup_in name id next ≡ some e = cc in
            let rest = lookup_in-write_element name j id k e e' next found f in
            elim (Bool-cases (same_element j k name id)) [
              | inl s ↦
                  let (a, b) = same_element-eq j k name id s in
                  let other : is_named j k x ≡ false =
                    ap (λ m. is_named m k x) a ∙ ap (λ m. is_named name m x) b ∙ n in
                  rw (n, other) (rest ∙ rw s refl)
              | inr s ↦ rw n (ap (λ o. if is_named j k x then some x else o) rest ∙ rw s refl)
            ]
      ]

  lookup_in-write_other :
      (name j : Bytes) (id k : ℕ) (e' : Element F) (es : Elements (Element F))
      → IsFor name id e'
      → same_element j k name id ≡ false
      → lookup_in j k (write_element name id e' es) ≡ lookup_in j k es
  unfolding write_element lookup_in
  lookup_in-write_other name j id k e' empty f s = refl
  lookup_in-write_other name j id k e' (entry x childs next) f s =
      let written = is_named-IsFor j name k id e' f in
      elim (Bool-cases (is_named name id x)) [
        | inl n ↦
            let (a, b) = is_named-eq name id x n in
            let old = is_named-IsFor j name k id x (sym a, b) in rw (n, written, old, s) refl
        | inr n ↦ rw n (
            ap (λ o. if is_named j k x then some x else o)
              (lookup_in-write_other name j id k e' next f s))
      ]

  pub write_element-UniqueElements :
      (name : Bytes) (id : ℕ) (e' : Element F) (es : Elements (Element F))
      → IsFor name id e'
      → UniqueElements es
      → UniqueElements (write_element name id e' es)
  unfolding write_element
  write_element-UniqueElements name id e' empty f u = tt
  write_element-UniqueElements name id e' (entry x childs next) f (fresh, u) =
      elim (Bool-cases (is_named name id x)) [
        | inl n ↦
            let (a, b) = is_named-eq name id x n in
            rw n (
              ap (λ m. lookup_in m e'.e_id next) (f.0 ∙ a)
                  ∙ ap (λ m. lookup_in x.e_name m next) (f.1 ∙ sym b)
                  ∙ fresh,
              u,
            )
        | inr n ↦
            let other : same_element x.e_name x.e_id name id ≡ false =
              ground (arith, str_eq_comm x.e_name name) in
            rw n (
              lookup_in-write_other name x.e_name id x.e_id e' next f other ∙ fresh,
              write_element-UniqueElements name id e' next f u,
            )
      ]
