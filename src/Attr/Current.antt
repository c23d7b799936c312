-- ===== src/Attr/Current.antt =====
-- src/attr.c: the selected attribute of an element, `e_current_attr`. A pointer to an attribute is its
-- index in `e_attr_sorted`, of the length `len`, which the selection does not change. The source can
-- also make the pointer an entry of the list's head, which is no attribute.
use native.Mathlib.Nat.{mod-add-mod, mod-eq_of_lt, mod_self, mod-lt}
use bmon.Prelude.{
  ℕ, zero, suc, ◌+◌, ◌-◌, ◌%◌, ◌<◌, ◌≡◌, refl, ◌∙◌, ap, false, if◌then◌else◌, ◌==◌, ltb, ltb→lt,
  arith, sym, Bool-cases, inl, inr,
}

pub data AttrPointer : Type 0 where
  no_attr : AttrPointer
  attr_at : ℕ → AttrPointer
  list_head : AttrPointer

unfoldable pub attr_select_first : ℕ → AttrPointer
attr_select_first len = if len == 0 then no_attr else attr_at 0

-- `list_entry(&e->e_attr_sorted, ...)`
unfoldable pub attr_select_last : ℕ → AttrPointer
attr_select_last len = if len == 0 then no_attr else list_head

unfoldable pub attr_select_next : ℕ → AttrPointer → AttrPointer
unfolding attr_select_first
attr_select_next len no_attr = attr_select_first len
attr_select_next len (attr_at i) =
    if ltb (i + 1) len then attr_at (i + 1) else attr_select_first len
attr_select_next len list_head = if len == 0 then attr_select_first len else attr_at 0

unfoldable pub attr_select_prev : ℕ → AttrPointer → AttrPointer
unfolding attr_select_last
attr_select_prev len no_attr = attr_select_last len
attr_select_prev len (attr_at i) = if i == 0 then attr_select_last len else attr_at (i - 1)
attr_select_prev len list_head = if len == 0 then attr_select_last len else attr_at (len - 1)

unfoldable pub attr_current : ℕ → AttrPointer → AttrPointer
unfolding attr_select_first
attr_current len no_attr = attr_select_first len
attr_current len (attr_at i) = attr_at i
attr_current len list_head = list_head

-- `n` moves.
abbrev pub attr_moves : ℕ → (AttrPointer → AttrPointer) → AttrPointer → AttrPointer
attr_moves zero f p = p
attr_moves (suc n) f p = attr_moves n f (f p)

next-mod : (len i : ℕ) → i < len → attr_select_next len (attr_at i) ≡ attr_at ((i + 1) % len)
unfolding attr_select_next attr_select_first
next-mod len i h = elim (Bool-cases (ltb (i + 1) len)) [
  | inl e ↦ rw (e, mod-eq_of_lt (ltb→lt (i + 1) len e)) refl
  | inr e ↦
      let last : i + 1 ≡ len = ground arith in
      let some_there : (len == 0) ≡ false = ground arith in
      rw (e, last, mod_self len, some_there) refl
]

-- Forwards the moves go round the attributes.
pub attr_select_next-round :
    (n len i : ℕ)
    → i < len
    → attr_moves n (attr_select_next len) (attr_at i) ≡ attr_at ((i + n) % len)
attr_select_next-round zero len i h =
    let same : i + 0 ≡ i = omega arith in ap attr_at (sym (rw same (mod-eq_of_lt h)))
attr_select_next-round (suc n) len i h =
    let shift : i + 1 + n ≡ i + suc n = omega arith in
    ap (attr_moves n (attr_select_next len)) (next-mod len i h)
    ∙ attr_select_next-round n len ((i + 1) % len) (mod-lt (i + 1) (omega arith))
    ∙ ap attr_at (mod-add-mod (i + 1) len n ∙ ap (λ k. k % len) shift)

-- From the attribute at index i, i + 1 moves with attr_select_prev lead to the head of the list,
-- which is no attribute, and the next move to the last attribute.
pub attr_select_prev-head :
    (len i : ℕ)
    → i < len
    → (attr_moves (suc i) (attr_select_prev len) (attr_at i) ≡ list_head)
      × (attr_select_prev len list_head ≡ attr_at (len - 1))
unfolding attr_select_prev attr_select_last
attr_select_prev-head len zero h = ground arith
attr_select_prev-head len (suc i) h =
    let back : attr_select_prev len (attr_at (suc i)) ≡ attr_at i = ground arith in
    let (there, last) = attr_select_prev-head len i (omega arith) in
    (ap (attr_moves (suc i) (attr_select_prev len)) back ∙ there, last)
