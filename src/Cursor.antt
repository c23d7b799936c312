-- ===== src/Cursor.antt =====
-- The current entry of a circular list (include/bmon/list.h) of `len` entries, as the index of the
-- entry, and the four ways to move it that src/history.c and src/group.c spell out.
pub mod Laws
mod Tests
use bmon.Prelude.{ℕ, zero, suc, ◌+◌, ◌-◌, Option, none, some, if◌then◌else◌, ltb, ◌==◌}

-- The first entry, where the list is not empty.
unfoldable pub select_first : ℕ → Option ℕ
select_first len = if len == 0 then none else some 0

unfoldable pub select_last : ℕ → Option ℕ
select_last len = if len == 0 then none else some (len - 1)

-- At the last entry `next` is the list's head.
unfoldable pub select_next : ℕ → Option ℕ → Option ℕ
unfolding select_first
select_next len none = select_first len
select_next len (some i) = if ltb (i + 1) len then some (i + 1) else select_first len

unfoldable pub select_prev : ℕ → Option ℕ → Option ℕ
unfolding select_last
select_prev len none = select_last len
select_prev len (some i) = if i == 0 then select_last len else some (i - 1)

unfoldable pub current : ℕ → Option ℕ → Option ℕ
unfolding select_first
current len none = select_first len
current len (some i) = some i
