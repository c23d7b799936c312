-- ===== src/Loop.antt =====
-- src/bmon.c: the main loop of `main`. Its calls of the other parts are kept as a list, in the order
-- in which they are made; the clock's readings are given, one for each round.
pub mod Round
pub mod Schedule
mod Tests
use bmon.Prelude.{
  ℕ, ◌+◌, ◌-◌, ◌^◌, ◌%◌, Bool, true, false, ◌&&◌, List, [], ◌∷◌, ◌++◌, Option, none, some,
  if◌then◌else◌, ltb, ◌==◌,
}
use bmon.Prelude.Int.{ℤ, pos, negsuc, ltb_ℤ}
use bmon.Floats.{Floats}
use bmon.Clock.{Timestamp, timestamp_le, timestamp_sub, schedule_next_read}

-- `struct reader_timing`, without the statistics that the code has switched off.
pub record ReaderTiming : Type 0 where
  pub rt_last_read : Timestamp
  pub rt_next_read : Timestamp

pub data Call : Type 0 where
  output_pre : Call
  reset_update_flags : Call
  input_read : Call
  free_unused_elements : Call
  output_draw : Call
  output_post : Call
  usleep : ℕ → Call

-- The sleep time before the loop: no longer than the read interval.
pub configured_sleep : (fl : Floats) → ℕ → fl.Double → ℕ
configured_sleep fl sleep_time read_interval =
    if fl.lt_double read_interval
      (fl.div_double (fl.double_of_nat sleep_time) (fl.double_of_nat 1000000))
    then fl.double_to_u64 (fl.mul_double read_interval (fl.double_of_nat 1000000))
    else sleep_time

-- An `int64_t` where it meets an `unsigned long`.
abbrev pub as_unsigned : ℤ → ℕ
as_unsigned (pos n) = n
as_unsigned (negsuc n) = 2 ^ 64 - 1 - n % 2 ^ 64

abbrev pub is_zero : ℤ → Bool
is_zero (pos n) = n == 0
is_zero (negsuc n) = false

-- ST, from `tmp`, which is NR - E; `none` is the `continue` that goes on without a sleep.
unfoldable pub sleep_for : ℕ → Timestamp → Option ℕ
sleep_for sleep_time tmp =
    if ltb_ℤ tmp.tv_sec (pos 0)
    then none
    else if is_zero tmp.tv_sec && ltb (as_unsigned tmp.tv_usec) sleep_time
    then if ltb_ℤ tmp.tv_usec (pos 0) then none else some (as_unsigned tmp.tv_usec)
    else some sleep_time

abbrev pub sleep_calls : Option ℕ → List Call
sleep_calls none = []
sleep_calls (some st) = usleep st ∷ []

-- One round of the loop, at the clock's reading `e`: the timing behind it, and the calls it makes.
unfoldable pub round : Timestamp → ℕ → ReaderTiming → Timestamp → ReaderTiming × List Call
round ri sleep_time rtiming e =
    let due = timestamp_le rtiming.rt_next_read e in
    let after =
      if due
      then record { rt_last_read = e; rt_next_read = schedule_next_read rtiming.rt_next_read e ri }
      else rtiming in
    let calls =
      if due
      then reset_update_flags ∷ input_read ∷ free_unused_elements ∷ output_draw ∷ output_post ∷ []
      else [] in
    let st = sleep_for sleep_time (timestamp_sub after.rt_next_read e) in
    (after, output_pre ∷ calls ++ sleep_calls st)

-- The rounds at the given readings of the clock.
unfoldable pub rounds : Timestamp → ℕ → ReaderTiming → List Timestamp → ReaderTiming × List Call
rounds ri sleep_time rtiming [] = (rtiming, [])
rounds ri sleep_time rtiming (e ∷ es) =
    let (after, calls) = round ri sleep_time rtiming e in
    let (last, more) = rounds ri sleep_time after es in (last, calls ++ more)

-- The loop: NR := NOW, and the rounds.
unfoldable pub main_loop :
    Timestamp → ℕ → ReaderTiming → Timestamp → List Timestamp → ReaderTiming × List Call
main_loop ri sleep_time rtiming now es =
    rounds ri sleep_time (record { rt_last_read = rtiming.rt_last_read; rt_next_read = now }) es
