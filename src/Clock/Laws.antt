-- ===== src/Clock/Laws.antt =====
-- What the arithmetic on time stamps computes, read in microseconds.
use bmon.Prelude.{ℕ, ◌+◌, ◌*◌, ◌<◌, ◌≡◌, ◌↔◌, true, arith, Bool-cases, inl, inr, ◌∙◌}
use mathlib.Core.Path.{ap₂}
use bmon.Prelude.Int.{
  ℤ, pos, negsuc, ◌+ℤ◌, ◌-ℤ◌, ◌*ℤ◌, ltb_ℤ, ◌≤ℤ◌, pos_part, neg_part, int_laws, +ℤ_parts, -ℤ_parts,
  eq_of_parts,
}
use bmon.Clock.{
  Timestamp, usec_per_sec, timestamp_to_int, timestamp_add, timestamp_sub, timestamp_le,
  schedule_next_read,
}

-- The microseconds are a fraction of a second.
abbrev pub IsNormal : Timestamp → Type 0
IsNormal t = (pos 0 ≤ℤ t.tv_usec) × (pos_part t.tv_usec < usec_per_sec)

pub scale_parts :
    (k : ℕ) (a : ℤ)
    → (pos_part (pos k *ℤ a) ≡ k * pos_part a) × (neg_part (pos k *ℤ a) ≡ k * neg_part a)
unfolding ◌*ℤ◌
scale_parts k (pos n) = ground arith
scale_parts k (negsuc n) = ground arith

-- The microseconds of a stamp, without `timestamp_to_int`'s product.
pub to_int_parts :
    (t : Timestamp)
    → pos_part (timestamp_to_int t) + usec_per_sec * neg_part t.tv_sec + neg_part t.tv_usec
      ≡ neg_part (timestamp_to_int t) + usec_per_sec * pos_part t.tv_sec + pos_part t.tv_usec
unfolding timestamp_to_int
to_int_parts t =
    omega
      (arith, scale_parts usec_per_sec t.tv_sec, +ℤ_parts (pos usec_per_sec *ℤ t.tv_sec) t.tv_usec)

ruleset int_values = (arith, +ℤ_parts, -ℤ_parts, to_int_parts)

timestamp_add-IsNormal : (a b : Timestamp) → IsNormal a → IsNormal b → IsNormal (timestamp_add a b)
unfolding timestamp_add
timestamp_add-IsNormal a b na nb =
    ground
      (arith, +ℤ_parts a.tv_usec b.tv_usec, -ℤ_parts (a.tv_usec +ℤ b.tv_usec) (pos usec_per_sec))

timestamp_sub-IsNormal : (a b : Timestamp) → IsNormal a → IsNormal b → IsNormal (timestamp_sub a b)
unfolding timestamp_sub
timestamp_sub-IsNormal a b na nb =
    ground
      (arith, -ℤ_parts a.tv_usec b.tv_usec, +ℤ_parts (a.tv_usec -ℤ b.tv_usec) (pos usec_per_sec))

-- Two integers are equal: their parts agree crosswise.
abbrev Agree : ℤ → ℤ → Type 0
Agree x y = pos_part x + neg_part y ≡ pos_part y + neg_part x

add_value :
    (a b : Timestamp)
    → Agree (timestamp_to_int (timestamp_add a b)) (timestamp_to_int a +ℤ timestamp_to_int b)
unfolding timestamp_add
add_value a b = elim (Bool-cases (ltb_ℤ (a.tv_usec +ℤ b.tv_usec) (pos usec_per_sec))) [
  | inl e ↦ rw e (omega int_values)
  | inr e ↦ rw e (omega int_values)
]

sub_value :
    (a b : Timestamp)
    → Agree (timestamp_to_int (timestamp_sub a b)) (timestamp_to_int a -ℤ timestamp_to_int b)
unfolding timestamp_sub
sub_value a b = elim (Bool-cases (ltb_ℤ (a.tv_usec -ℤ b.tv_usec) (pos 0))) [
  | inl e ↦ rw e (omega int_values)
  | inr e ↦ rw e (omega int_values)
]

-- The sum of two normal stamps is normal, and is their sum in microseconds.
pub timestamp_add_lem :
    (a b : Timestamp)
    → IsNormal a
    → IsNormal b
    → IsNormal (timestamp_add a b)
      × (timestamp_to_int (timestamp_add a b) ≡ timestamp_to_int a +ℤ timestamp_to_int b)
timestamp_add_lem a b na nb = (timestamp_add-IsNormal a b na nb, eq_of_parts _ _ (add_value a b))

-- The difference of two normal stamps is normal, and is their difference in microseconds.
pub timestamp_sub_lem :
    (a b : Timestamp)
    → IsNormal a
    → IsNormal b
    → IsNormal (timestamp_sub a b)
      × (timestamp_to_int (timestamp_sub a b) ≡ timestamp_to_int a -ℤ timestamp_to_int b)
timestamp_sub_lem a b na nb = (timestamp_sub-IsNormal a b na nb, eq_of_parts _ _ (sub_value a b))

-- Between normal stamps `timestamp_le` decides the order of their microseconds.
pub timestamp_le_iff :
    (a b : Timestamp)
    → IsNormal a
    → IsNormal b
    → (timestamp_le a b ≡ true) ↔ (timestamp_to_int a ≤ℤ timestamp_to_int b)
unfolding timestamp_le
timestamp_le_iff a b na nb = ground (arith, to_int_parts a, to_int_parts b)

-- A read that is due at `e` moves the next read on by exactly the read interval `ri`, however late
-- the reader is: the schedule does not drift.
pub schedule_next_read_lem :
    (rt_next_read e ri : Timestamp)
    → IsNormal rt_next_read
    → IsNormal e
    → IsNormal ri
    → IsNormal (schedule_next_read rt_next_read e ri)
      × (timestamp_to_int (schedule_next_read rt_next_read e ri)
          ≡ timestamp_to_int rt_next_read +ℤ timestamp_to_int ri)
unfolding schedule_next_read
schedule_next_read_lem nr e ri nn ne ni =
    let (n_sum, v_sum) = timestamp_add_lem e ri ne ni in
    let (n_c, v_c) = timestamp_sub_lem nr e nn ne in
    let (n_all, v_all) = timestamp_add_lem (timestamp_add e ri) (timestamp_sub nr e) n_sum n_c in
    (n_all, v_all ∙ ap₂ ◌+ℤ◌ v_sum v_c ∙ omega int_laws)
