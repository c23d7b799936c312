-- ===== src/Loop/Round.antt =====
-- src/bmon.c: what one round of the main loop does, over the timing of the reader.
use bmon.Prelude.{
  ℕ, ◌≤◌, ◌<◌, ◌≡◌, subst, false, List, ◌∷◌, Option, none, some, arith, Bool-cases, inl, inr,
}
use bmon.Prelude.Int.{ℤ, pos, pos_part, neg_part, ◌+ℤ◌, ◌-ℤ◌, ◌≤ℤ◌, ◌<ℤ◌}
use bmon.Clock.{Timestamp, timestamp_to_int, timestamp_le, timestamp_sub, usec_per_sec}
use bmon.Clock.Laws.{
  IsNormal, timestamp_sub_lem, timestamp_le_iff, schedule_next_read_lem, to_int_parts,
}
use bmon.Loop.{
  ReaderTiming, Call, output_pre, reset_update_flags, input_read, free_unused_elements, output_draw,
  output_post, sleep_for, round, sleep_calls,
}

-- The sleep is asked for in microseconds; there is none exactly where the time left is negative.
abbrev pub IsSleep : ℕ → ℤ → Option ℕ → Type 0
IsSleep sleep_time left none = pos_part left < neg_part left
IsSleep sleep_time left (some st) = (st ≤ sleep_time) × (pos st ≤ℤ left) × (pos 0 ≤ℤ left)

sleep_for-IsSleep :
    (sleep_time : ℕ) (tmp : Timestamp)
    → IsNormal tmp
    → sleep_time ≤ usec_per_sec
    → IsSleep sleep_time (timestamp_to_int tmp) (sleep_for sleep_time tmp)
unfolding sleep_for
sleep_for-IsSleep sleep_time tmp n h = ground (arith, to_int_parts tmp)

-- What a round at the reading `e` leaves behind, and the calls that it makes. A read that is due moves
-- the next one on by the read interval and runs every part once; no round sleeps past the next read.
pub data AfterRound (ri : Timestamp) (sleep_time : ℕ) (t : ReaderTiming) (e : Timestamp)
    : ReaderTiming → List Call → Type 0 where
  read_due :
      (nr : Timestamp) (st : Option ℕ)
      → timestamp_to_int t.rt_next_read ≤ℤ timestamp_to_int e
      → timestamp_to_int nr ≡ timestamp_to_int t.rt_next_read +ℤ timestamp_to_int ri
      → IsNormal nr
      → IsSleep sleep_time (timestamp_to_int nr -ℤ timestamp_to_int e) st
      → AfterRound ri sleep_time t e
          (record { rt_last_read = e; rt_next_read = nr })
          (output_pre
            ∷ reset_update_flags
            ∷ input_read
            ∷ free_unused_elements
            ∷ output_draw
            ∷ output_post
            ∷ sleep_calls st)
  not_yet :
      (st : Option ℕ)
      → timestamp_to_int e <ℤ timestamp_to_int t.rt_next_read
      → IsSleep sleep_time (timestamp_to_int t.rt_next_read -ℤ timestamp_to_int e) st
      → AfterRound ri sleep_time t e t (output_pre ∷ sleep_calls st)

left-IsSleep :
    (sleep_time : ℕ) (nr e : Timestamp)
    → IsNormal nr
    → IsNormal e
    → sleep_time ≤ usec_per_sec
    → IsSleep sleep_time
        (timestamp_to_int nr -ℤ timestamp_to_int e)
        (sleep_for sleep_time (timestamp_sub nr e))
left-IsSleep sleep_time nr e nn ne h =
    let (n, v) = timestamp_sub_lem nr e nn ne in
    subst (λ z. IsSleep sleep_time z (sleep_for sleep_time (timestamp_sub nr e))) v
      (sleep_for-IsSleep sleep_time (timestamp_sub nr e) n h)

later :
    (a b : Timestamp)
    → IsNormal a
    → IsNormal b
    → timestamp_le a b ≡ false
    → timestamp_to_int b <ℤ timestamp_to_int a
unfolding timestamp_le
later a b na nb early = ground (arith, to_int_parts a, to_int_parts b)

-- With a sleep time of at most a second a round reads exactly where the next read is not later
-- than the clock, then runs each part once in its order and moves the next read on by the read
-- interval; it never sleeps longer than the sleep time nor past the next read, and goes on without
-- a sleep exactly where that is already late.
pub round-AfterRound :
    (ri : Timestamp) (sleep_time : ℕ) (t : ReaderTiming) (e : Timestamp)
    → IsNormal ri
    → IsNormal t.rt_next_read
    → IsNormal e
    → sleep_time ≤ usec_per_sec
    → AfterRound ri sleep_time t e (round ri sleep_time t e).0 (round ri sleep_time t e).1
unfolding round
round-AfterRound ri sleep_time t e ni nn ne h =
    let (n, v) = schedule_next_read_lem t.rt_next_read e ri nn ne ni in
    let iff = timestamp_le_iff t.rt_next_read e nn ne in
    elim (Bool-cases (timestamp_le t.rt_next_read e)) [
      | inl due ↦ rw due (read_due _ _ (iff.0 due) v n (left-IsSleep sleep_time _ e n ne h))
      | inr early ↦
          rw early (not_yet _ (later _ e nn ne early) (left-IsSleep sleep_time _ e nn ne h))
    ]
