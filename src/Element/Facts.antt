-- ===== src/Element/Facts.antt =====
-- Lookups in a list of elements.

use bmon.Prelude.{
  ℕ, ◌≡◌, refl, sym, ap, ◌∙◌, Bool, true, false, none, some, arith, ◌==◌, Bool-cases, inl, inr,
  ◌&&◌,
}
use bmon.Prelude.Bytes.{Bytes, str_eq, str_eq_iff}
use bmon.Tree.{Elements, empty, entry}
use bmon.Element.{Element, is_named, lookup_in, size, ElementStore}

-- Whether a lookup of `j` and `k` means the element `name` and `id`.
abbrev pub same_element : Bytes → ℕ → Bytes → ℕ → Bool
same_element j k name id = str_eq j name && (id == k)

module _ {F : Type 0} where
  abbrev pub IsFor : Bytes → ℕ → Element F → Type 0
  IsFor name id e = (e.e_name ≡ name) × (e.e_id ≡ id)

  -- No two elements of the list have the same name and identifier.
  abbrev pub UniqueElements : Elements (Element F) → Type 0
  UniqueElements empty = Unit
  UniqueElements (entry e childs next) =
      (lookup_in e.e_name e.e_id next ≡ none) × UniqueElements next

  -- Each list has unique names, and the count is that of the elements, the children included.
  pub record IsCounted (st : ElementStore F) : Type 0 where
    pub unique : UniqueElements st.elements
    pub counted : st.g_nelements ≡ size st.elements

  pub is_named-eq :
      (name : Bytes) (id : ℕ) (e : Element F)
      → is_named name id e ≡ true
      → (name ≡ e.e_name) × (e.e_id ≡ id)
  is_named-eq name id e h = ground (arith, str_eq_iff name e.e_name)

  pub is_named-IsFor :
      (j name : Bytes) (k id : ℕ) (e : Element F)
      → IsFor name id e
      → is_named j k e ≡ same_element j k name id
  is_named-IsFor j name k id e (a, b) =
      ap (λ n. str_eq j n && (e.e_id == k)) a ∙ ap (λ i. str_eq j name && (i == k)) b

  pub lookup_in-named :
      (name : Bytes) (id : ℕ) (e : Element F) (childs next : Elements (Element F))
      → is_named name id e ≡ true
      → lookup_in name id (entry e childs next) ≡ some e
  unfolding lookup_in
  lookup_in-named name id e childs next n = rw n refl

  pub lookup_in-other :
      (name : Bytes) (id : ℕ) (e : Element F) (childs next : Elements (Element F))
      → is_named name id e ≡ false
      → lookup_in name id (entry e childs next) ≡ lookup_in name id next
  unfolding lookup_in
  lookup_in-other name id e childs next n = rw n refl

  pub lookup_in-none :
      (name : Bytes) (id : ℕ) (e : Element F) (childs next : Elements (Element F))
      → lookup_in name id (entry e childs next) ≡ none
      → (is_named name id e ≡ false) × (lookup_in name id next ≡ none)
  unfolding lookup_in
  lookup_in-none name id e childs next h = elim (Bool-cases (is_named name id e)) [
    | inl n ↦ absurd (cc (lookup_in-named name id e childs next n))
    | inr n ↦ (n, sym (lookup_in-other name id e childs next n) ∙ h)
  ]
