-- ===== src/Cursor/Laws.antt =====
-- Moving the cursor forwards and back.
use bmon.Prelude.{ℕ, zero, suc, ◌+◌, ◌%◌, ◌<◌, ◌≡◌, Option, none, some, arith, ◌∙◌, ap, sym}
use native.Mathlib.Nat.{mod-eq_of_lt, mod-add-mod, mod_self, add-zero}
use native.Mathlib.Decide.{dec_lt}
use bmon.Cursor.{select_first, select_last, select_next, select_prev}

-- The cursor is at no entry, or at one of the list's.
abbrev pub InList : ℕ → Option ℕ → Type 0
InList len none = Unit
InList len (some i) = i < len

-- Every move leaves the cursor in the list.
pub select-InList :
    (len : ℕ) (c : Option ℕ)
    → InList len c
    → InList len (select_first len)
      × InList len (select_last len)
      × InList len (select_next len c)
      × InList len (select_prev len c)
unfolding select_next select_prev
select-InList len none h = (ground arith, ground arith, ground arith, ground arith)
select-InList len (some i) h = (ground arith, ground arith, ground arith, ground arith)

-- From an entry of the list one step forwards and one back, in either order, lead to that entry.
pub select_next-select_prev :
    (len i : ℕ)
    → i < len
    → (select_next len (select_prev len (some i)) ≡ some i)
      × (select_prev len (select_next len (some i)) ≡ some i)
unfolding select_next select_prev
select_next-select_prev len i h = (ground arith, ground arith)

unfoldable pub next_times : ℕ → ℕ → Option ℕ → Option ℕ
next_times len zero c = c
next_times len (suc n) c = next_times len n (select_next len c)

next-mod_wraps : (len i : ℕ) → i < len → ¬ (i + 1 < len) → (i + 1) % len ≡ 0
next-mod_wraps len i h p = let e : i + 1 ≡ len = omega arith in rw e (mod_self len)

select_next-mod : (len i : ℕ) → i < len → select_next len (some i) ≡ some ((i + 1) % len)
unfolding select_next
select_next-mod len i h = elim (dec_lt (i + 1) len) [
  | yes p ↦ ground (arith, mod-eq_of_lt p)
  | no p ↦ ground (arith, next-mod_wraps len i h p)
]

-- From an entry of the list n steps forwards lead to the entry n further on, round the list: every
-- entry is reached, and as many steps as there are entries lead back.
pub next_times-mod : (len n i : ℕ) → i < len → next_times len n (some i) ≡ some ((i + n) % len)
unfolding next_times
next_times-mod len zero i h = ap some (sym (rw add-zero (mod-eq_of_lt h)))
next_times-mod len (suc n) i h = rw (select_next-mod len i h) (
    next_times-mod len n ((i + 1) % len) (omega arith)
    ∙ ap some (rw mod-add-mod (ap (λ (k : ℕ). k % len) (omega arith))))
