-- ===== src/Attr/Sorted.antt =====
-- The sorted list of an element's attributes: it holds what the hash holds, and it is in order.
use Prim.Native.Nat.{Ordering}
use bmon.Prelude.{
  ◌≡◌, ◌⊎◌, refl, sym, ap, ◌∙◌, ◌≢◌, true, false, List, [], ◌∷◌, ◌++◌, ◌||◌, arith, inl, inr,
}
use bmon.Prelude.Bytes.{Bytes, strcasecmp}
use bmon.AttrDef.{AttrDef}
use bmon.Attr.{ElementAttrs, is_key, attrcmp, insert_sorted}

-- `a` does not come after `b` in the alphabet, whatever case its letters have.
abbrev pub NotAfter : AttrDef → AttrDef → Type 0
NotAfter a b = strcasecmp a.ad_description b.ad_description ≢ Ordering.gt

abbrev pub HeadNotBefore : AttrDef → List AttrDef → Type 0
HeadNotBefore a [] = Unit
HeadNotBefore a (b ∷ sorted) = NotAfter a b

-- No entry is after the next.
abbrev pub IsAlphabetic : List AttrDef → Type 0
IsAlphabetic [] = Unit
IsAlphabetic (a ∷ sorted) = HeadNotBefore a sorted × IsAlphabetic sorted

-- Swapping the arguments swaps the sign.
abbrev flip : Ordering → Ordering
flip Ordering.lt = Ordering.gt
flip Ordering.eq = Ordering.eq
flip Ordering.gt = Ordering.lt

strcasecmp-flip : (s t : Bytes) → strcasecmp t s ≡ flip (strcasecmp s t)
unfolding strcasecmp
strcasecmp-flip [] [] = refl
strcasecmp-flip [] (b ∷ t) = refl
strcasecmp-flip (a ∷ s) [] = refl
strcasecmp-flip (a ∷ s) (b ∷ t) = ground (arith, strcasecmp-flip s t)

-- Neither of the two keys is among the attributes.
abbrev pub NoKey : {F : Type 0} → ElementAttrs F → List AttrDef → Type 0
NoKey e [] = Unit
NoKey e (a ∷ sorted) =
    (is_key e.e_key_major a ≡ false) × (is_key e.e_key_minor a ≡ false) × NoKey e sorted

attrcmp-NoKey :
    {F : Type 0} (e : ElementAttrs F) (a b : AttrDef)
    → is_key e.e_key_major b ≡ false
    → is_key e.e_key_minor b ≡ false
    → attrcmp e a b ≡ strcasecmp a.ad_description b.ad_description
unfolding attrcmp
attrcmp-NoKey e a b h h' = ground arith

flip-ne_gt : (o : Ordering) → o ≢ Ordering.lt → flip o ≢ Ordering.gt
flip-ne_gt Ordering.lt h = absurd (h refl)
flip-ne_gt Ordering.eq h = cc
flip-ne_gt Ordering.gt h = cc

NotAfter-flip :
    (a b : AttrDef) → strcasecmp a.ad_description b.ad_description ≢ Ordering.lt → NotAfter b a
NotAfter-flip a b h =
    rw (strcasecmp-flip a.ad_description b.ad_description)
      (flip-ne_gt (strcasecmp a.ad_description b.ad_description) h)

Ordering-cases : (o : Ordering) → (o ≡ Ordering.lt) ⊎ (o ≢ Ordering.lt)
Ordering-cases Ordering.lt = inl refl
Ordering-cases Ordering.eq = inr (λ e. cc)
Ordering-cases Ordering.gt = inr (λ e. cc)

-- In front of the head, or behind it.
insert_sorted-step :
    {F : Type 0} (e : ElementAttrs F) (a n : AttrDef) (sorted : List AttrDef)
    → ((attrcmp e a n ≡ Ordering.lt) × (insert_sorted e a (n ∷ sorted) ≡ a ∷ n ∷ sorted))
      ⊎ ((attrcmp e a n ≢ Ordering.lt)
          × (insert_sorted e a (n ∷ sorted) ≡ n ∷ insert_sorted e a sorted))
unfolding insert_sorted
insert_sorted-step e a n sorted = elim (Ordering-cases (attrcmp e a n)) [
  | inl o ↦ inl (o, rw (o, insert_sorted) refl)
  | inr o ↦ inr (o, ground (arith, o))
]

insert_sorted-head :
    {F : Type 0} (e : ElementAttrs F) (n a : AttrDef) (sorted : List AttrDef)
    → NotAfter n a
    → HeadNotBefore n sorted
    → HeadNotBefore n (insert_sorted e a sorted)
unfolding insert_sorted
insert_sorted-head e n a [] h k = h
insert_sorted-head e n a (b ∷ sorted) h k = elim (insert_sorted-step e a b sorted) [
  | inl (_, q) ↦ rw q h
  | inr (_, q) ↦ rw q k
]

pub insert_sorted-IsAlphabetic :
    {F : Type 0} (e : ElementAttrs F) (a : AttrDef) (sorted : List AttrDef)
    → NoKey e sorted
    → IsAlphabetic sorted
    → IsAlphabetic (insert_sorted e a sorted)
unfolding insert_sorted
insert_sorted-IsAlphabetic e a [] k h = (tt, tt)
insert_sorted-IsAlphabetic e a (n ∷ sorted) (k, k', ks) (h, hs) =
    let c = attrcmp-NoKey e a n k k' in
    elim (insert_sorted-step e a n sorted) [
      | inl (o, q) ↦ rw q ((λ g. cc), (h, hs))
      | inr (o, q) ↦ rw q (
        insert_sorted-head e n a sorted (NotAfter-flip a n (λ g. o (c ∙ g))) h,
        insert_sorted-IsAlphabetic e a sorted ks hs,
      )
    ]

-- Each attribute is one of the two keys.
abbrev pub AllKeys : {F : Type 0} → ElementAttrs F → List AttrDef → Type 0
AllKeys e [] = Unit
AllKeys e (a ∷ keys) = ((is_key e.e_key_major a || is_key e.e_key_minor a) ≡ true) × AllKeys e keys

insert_sorted-NoKey :
    {F : Type 0} (e : ElementAttrs F) (a : AttrDef) (sorted : List AttrDef)
    → is_key e.e_key_major a ≡ false
    → is_key e.e_key_minor a ≡ false
    → NoKey e sorted
    → NoKey e (insert_sorted e a sorted)
unfolding insert_sorted
insert_sorted-NoKey e a [] m n k = (m, n, tt)
insert_sorted-NoKey e a (b ∷ sorted) m n k = elim (insert_sorted-step e a b sorted) [
  | inl (_, q) ↦ rw q (m, n, k)
  | inr (_, q) ↦ rw q (k.0, k.1, insert_sorted-NoKey e a sorted m n k.2)
]

insert_sorted-AllKeys :
    {F : Type 0} (e : ElementAttrs F) (a : AttrDef) (keys rest : List AttrDef)
    → is_key e.e_key_major a ≡ false
    → AllKeys e keys
    → insert_sorted e a (keys ++ rest) ≡ keys ++ insert_sorted e a rest
unfolding insert_sorted attrcmp
insert_sorted-AllKeys e a [] rest m k = refl
insert_sorted-AllKeys e a (b ∷ keys) rest m (h, k) =
    ground (arith, insert_sorted-AllKeys e a keys rest m k)

-- The keys come first, and behind them the other attributes in the order of the alphabet.
pub record KeysFirst {F : Type 0} (e : ElementAttrs F) (sorted keys : List AttrDef) : Type 0 where
  pub rest : List AttrDef
  pub parts : sorted ≡ keys ++ rest
  pub are_keys : AllKeys e keys
  pub no_key : NoKey e rest
  pub in_order : IsAlphabetic rest

-- Where the keys come first and the others behind them in the order of the alphabet, the list stays so
-- when an attribute is added that is no key, and the keys stay where they are.
pub insert_sorted-KeysFirst :
    {F : Type 0} (e : ElementAttrs F) (a : AttrDef) (sorted keys : List AttrDef)
    → is_key e.e_key_major a ≡ false
    → is_key e.e_key_minor a ≡ false
    → KeysFirst e sorted keys
    → KeysFirst e (insert_sorted e a sorted) keys
insert_sorted-KeysFirst e a sorted keys m n k = record {
  rest = insert_sorted e a k.rest;
  parts = rw k.parts (insert_sorted-AllKeys e a keys k.rest m k.are_keys);
  are_keys = k.are_keys;
  no_key = insert_sorted-NoKey e a k.rest m n k.no_key;
  in_order = insert_sorted-IsAlphabetic e a k.rest k.no_key k.in_order;
}

-- None of the attributes comes behind `a` in the alphabet.
abbrev pub AllNotAfter : List AttrDef → AttrDef → Type 0
AllNotAfter [] a = Unit
AllNotAfter (b ∷ sorted) a =
    (strcasecmp a.ad_description b.ad_description ≢ Ordering.lt) × AllNotAfter sorted a

-- An attribute is put behind all those that are there, if none is a key and none comes behind it in the
-- alphabet. This is so of the major key attribute too, which is then last.
pub insert_sorted-last :
    {F : Type 0} (e : ElementAttrs F) (a : AttrDef) (sorted : List AttrDef)
    → NoKey e sorted
    → AllNotAfter sorted a
    → insert_sorted e a sorted ≡ sorted ++ a ∷ []
unfolding insert_sorted
insert_sorted-last e a [] k h = refl
insert_sorted-last e a (b ∷ sorted) (m, n, k) (h, hs) = elim (insert_sorted-step e a b sorted) [
  | inl (o, q) ↦ absurd (h (sym (attrcmp-NoKey e a b m n) ∙ o))
  | inr (o, q) ↦ q ∙ ap (λ (l : List AttrDef). b ∷ l) (insert_sorted-last e a sorted k hs)
]
