-- ===== src/Loop/Schedule.antt =====
-- src/bmon.c: the schedule of the reads over the rounds of the main loop.
use bmon.Prelude.{
  ℕ, suc, ◌+◌, ◌≤◌, ◌≡◌, refl, ◌∙◌, ◌⊎◌, inl, inr, List, [], ◌∷◌, ◌++◌, Option, none, some, arith,
  length,
}
use bmon.Prelude.Int.{ℤ, pos, pos_part, neg_part, ◌+ℤ◌, ◌*ℤ◌, ◌≤ℤ◌, ◌<ℤ◌, int_laws, eq_of_parts}
use native.Mathlib.Nat.{add-mul, mul-le-mul_left}
use bmon.Clock.{Timestamp, timestamp_to_int, usec_per_sec}
use bmon.Clock.Laws.{IsNormal, scale_parts}
use bmon.Loop.{
  ReaderTiming, Call, output_pre, reset_update_flags, input_read, free_unused_elements, output_draw,
  output_post, usleep, sleep_calls, round, rounds, main_loop,
}
use bmon.Loop.Round.{AfterRound, read_due, not_yet, round-AfterRound}

-- How many times the inputs are read.
abbrev pub reads : List Call → ℕ
reads [] = 0
reads (input_read ∷ calls) = suc (reads calls)
reads (_ ∷ calls) = reads calls

reads-append : (xs ys : List Call) → reads (xs ++ ys) ≡ reads xs + reads ys
reads-append [] ys = omega arith
reads-append (input_read ∷ xs) ys = omega (arith, reads-append xs ys)
reads-append (output_pre ∷ xs) ys = reads-append xs ys
reads-append (reset_update_flags ∷ xs) ys = reads-append xs ys
reads-append (free_unused_elements ∷ xs) ys = reads-append xs ys
reads-append (output_draw ∷ xs) ys = reads-append xs ys
reads-append (output_post ∷ xs) ys = reads-append xs ys
reads-append (usleep _ ∷ xs) ys = reads-append xs ys

reads-sleep_calls : (st : Option ℕ) → reads (sleep_calls st) ≡ 0
reads-sleep_calls none = refl
reads-sleep_calls (some st) = refl

-- Every reading of the clock is normal, and not before `from`, in microseconds.
abbrev pub IsReading : ℤ → List Timestamp → Type 0
IsReading from [] = Unit
IsReading from (e ∷ es) = IsNormal e × (from ≤ℤ timestamp_to_int e) × IsReading from es

-- `k` reads lead from one timing to another: the next read is due `k` read intervals later, and the
-- last one was not made before it was due.
abbrev pub IsOnSchedule : ℤ → ReaderTiming → ReaderTiming → ℕ → Type 0
IsOnSchedule ri t t' k =
    IsNormal t'.rt_next_read
    × (timestamp_to_int t'.rt_next_read ≡ timestamp_to_int t.rt_next_read +ℤ pos k *ℤ ri)
    × ((k ≡ 0) × (t'.rt_last_read ≡ t.rt_last_read)
        ⊎ (timestamp_to_int t'.rt_next_read ≤ℤ timestamp_to_int t'.rt_last_read +ℤ ri))

one_more : (a b r : ℤ) → b ≡ a +ℤ r → b ≡ a +ℤ pos 1 *ℤ r
one_more a b r h = h ∙ eq_of_parts _ _ (omega (int_laws, scale_parts 1 r))

none_more : (a r : ℤ) → a ≡ a +ℤ pos 0 *ℤ r
none_more a r = eq_of_parts _ _ (omega (int_laws, scale_parts 0 r))

add_more :
    (a b c r : ℤ) (m n : ℕ) → b ≡ a +ℤ pos m *ℤ r → c ≡ b +ℤ pos n *ℤ r → c ≡ a +ℤ pos (m + n) *ℤ r
add_more a b c r m n h k =
    k
    ∙ rw h (
        eq_of_parts _ _ (
          omega (
            int_laws,
            scale_parts m r,
            scale_parts n r,
            scale_parts (m + n) r,
            add-mul m n (pos_part r),
            add-mul m n (neg_part r),
          )))

grows : (a r : ℤ) (k : ℕ) → pos 0 ≤ℤ r → a ≤ℤ a +ℤ pos k *ℤ r
grows a r k up =
    let small : neg_part r ≤ pos_part r = omega arith in
    omega (int_laws, scale_parts k r, mul-le-mul_left k small)

ahead : (from e a b : ℤ) → from ≤ℤ e → e <ℤ a → a ≤ℤ b → from <ℤ b
ahead from e a b h k l = omega arith

-- Schedules compose.
IsOnSchedule-append :
    (ri : ℤ) (t t' t'' : ReaderTiming) (m n : ℕ)
    → IsOnSchedule ri t t' m
    → IsOnSchedule ri t' t'' n
    → IsOnSchedule ri t t'' (m + n)
IsOnSchedule-append ri t t' t'' m n (_, v, l) (n'', v', l') = (
  n'',
  add_more _ _ _ ri m n v v',
  elim l' [
    | inr late ↦ inr late
    | inl (n0, same') ↦ elim l [
      | inl (m0, same) ↦ inl (omega (arith, m0, n0), same' ∙ same)
      | inr late ↦ inr (rw (v', n0, same') (omega (int_laws, scale_parts 0 ri)))
    ]
  ],
)

-- A round is on schedule, and reads or finds the next read still to come.
pub round-IsOnSchedule :
    (ri : Timestamp) (sleep_time : ℕ) (t : ReaderTiming) (e : Timestamp)
    → IsNormal ri
    → IsNormal t.rt_next_read
    → IsNormal e
    → sleep_time ≤ usec_per_sec
    → (after : ReaderTiming) (calls : List Call) → AfterRound ri sleep_time t e after calls
    → IsOnSchedule (timestamp_to_int ri) t after (reads calls)
      × ((reads calls ≡ 1)
          ⊎ (reads calls ≡ 0) × (timestamp_to_int e <ℤ timestamp_to_int after.rt_next_read))
round-IsOnSchedule ri sleep_time t e ni nn ne h _ _ (read_due nr st due v n s) =
    rw (reads-sleep_calls st) ((n, one_more _ _ _ v, inr (rw v (omega (int_laws, due)))), inl refl)
round-IsOnSchedule ri sleep_time t e ni nn ne h _ _ (not_yet st early s) =
    rw (reads-sleep_calls st) ((nn, none_more _ _, inl (refl, refl)), inr (refl, early))

-- The rounds keep the schedule.
pub rounds-IsOnSchedule :
    (ri : Timestamp) (sleep_time : ℕ) (t : ReaderTiming) (from : ℤ) (es : List Timestamp)
    → IsNormal ri
    → IsNormal t.rt_next_read
    → sleep_time ≤ usec_per_sec
    → IsReading from es
    → IsOnSchedule
        (timestamp_to_int ri)
        t
        (rounds ri sleep_time t es).0
        (reads (rounds ri sleep_time t es).1)
unfolding rounds
rounds-IsOnSchedule ri sleep_time t from [] ni nn h _ = (nn, none_more _ _, inl (refl, refl))
rounds-IsOnSchedule ri sleep_time t from (e ∷ es) ni nn h (ne, _, nes) =
    let (first, _) =
      round-IsOnSchedule ri sleep_time t e ni nn ne h _ _
        (round-AfterRound ri sleep_time t e ni nn ne h) in
    rw
      (reads-append (round ri sleep_time t e).1
        (rounds ri sleep_time (round ri sleep_time t e).0 es).1)
      (IsOnSchedule-append _ t _ _ _ _ first
        (rounds-IsOnSchedule ri sleep_time (round ri sleep_time t e).0 from es ni first.0 h nes))

-- With a read interval that is not negative and a sleep time of at most a second, rounds of which
-- none is before some time have all read, or the next read is later than that time: a late reader
-- catches up.
pub rounds-catch_up :
    (ri : Timestamp) (sleep_time : ℕ) (t : ReaderTiming) (from : ℤ) (es : List Timestamp)
    → IsNormal ri
    → pos 0 ≤ℤ timestamp_to_int ri
    → IsNormal t.rt_next_read
    → sleep_time ≤ usec_per_sec
    → IsReading from es
    → (reads (rounds ri sleep_time t es).1 ≡ length es)
      ⊎ (from <ℤ timestamp_to_int (rounds ri sleep_time t es).0.rt_next_read)
unfolding rounds
rounds-catch_up ri sleep_time t from [] ni up nn h _ = inl refl
rounds-catch_up ri sleep_time t from (e ∷ es) ni up nn h (ne, after, nes) =
    let (first, now) =
      round-IsOnSchedule ri sleep_time t e ni nn ne h _ _
        (round-AfterRound ri sleep_time t e ni nn ne h) in
    let rest =
      rounds-catch_up ri sleep_time (round ri sleep_time t e).0 from es ni up first.0 h nes in
    let later =
      rounds-IsOnSchedule ri sleep_time (round ri sleep_time t e).0 from es ni first.0 h nes in
    rw
      (reads-append (round ri sleep_time t e).1
        (rounds ri sleep_time (round ri sleep_time t e).0 es).1)
      (elim rest [
        | inr late ↦ inr late
        | inl all ↦ elim now [
          | inl one ↦ inl (rw (one, all) (omega arith))
          | inr (_, late) ↦
              inr (rw later.1 (ahead from (timestamp_to_int e) _ _ after late (grows _ _ _ up)))
        ]
      ])

-- Whatever the readings of the clock are, and with a sleep time of at most a second, after k reads
-- of the main loop the next read is due exactly k read intervals after the start, and the last
-- read was not made before it was due.
pub main_loop-IsOnSchedule :
    (ri : Timestamp) (sleep_time : ℕ) (rtiming : ReaderTiming) (now : Timestamp)
    (es : List Timestamp)
    → IsNormal ri
    → IsNormal now
    → sleep_time ≤ usec_per_sec
    → IsReading (timestamp_to_int now) es
    → IsOnSchedule
        (timestamp_to_int ri)
        (record { rt_last_read = rtiming.rt_last_read; rt_next_read = now })
        (main_loop ri sleep_time rtiming now es).0
        (reads (main_loop ri sleep_time rtiming now es).1)
unfolding main_loop
main_loop-IsOnSchedule ri sleep_time rtiming now es ni nn h r =
    rounds-IsOnSchedule ri sleep_time _ (timestamp_to_int now) es ni nn h r
