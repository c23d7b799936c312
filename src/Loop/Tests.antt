-- ===== src/Loop/Tests.antt =====
-- The main loop at concrete readings of the clock.
use bmon.Prelude.{ℕ, ◌≡◌, ◌⊎◌, refl, List, [], ◌∷◌, arith, length}
use bmon.Prelude.Int.{pos, ◌+ℤ◌, ◌-ℤ◌, ◌*ℤ◌, ◌<ℤ◌, ◌≤ℤ◌}
use bmon.Clock.{
  Timestamp, timestamp_to_int, timestamp_le, timestamp_add, timestamp_sub, schedule_next_read,
}
use bmon.Loop.{
  ReaderTiming, output_pre, reset_update_flags, input_read, free_unused_elements, output_draw,
  output_post, usleep, sleep_for, round, rounds, main_loop,
}
use bmon.Loop.Round.{AfterRound, round-AfterRound}
use bmon.Loop.Schedule.{reads, IsReading, IsOnSchedule, main_loop-IsOnSchedule, rounds-catch_up}

abbrev stamp : ℕ → ℕ → Timestamp
stamp s us = record { tv_sec = pos s; tv_usec = pos us }

abbrev read_interval : Timestamp
read_interval = stamp 1 0

abbrev at_start : ReaderTiming
at_start = record { rt_last_read = stamp 0 0; rt_next_read = stamp 100 500 }

-- The reader is late from its second reading on, so it does not sleep until it has
-- caught up; the sleep behind its last read ends when the next one is due.
abbrev readings : List Timestamp
readings = stamp 100 500 ∷ stamp 103 0 ∷ stamp 103 990600 ∷ stamp 103 991100 ∷ []

calls_at_readings :
    (main_loop read_interval 20000 at_start (stamp 100 500) readings).1
    ≡ output_pre
      ∷ reset_update_flags
      ∷ input_read
      ∷ free_unused_elements
      ∷ output_draw
      ∷ output_post
      ∷ usleep 20000
      ∷ output_pre
      ∷ reset_update_flags
      ∷ input_read
      ∷ free_unused_elements
      ∷ output_draw
      ∷ output_post
      ∷ output_pre
      ∷ reset_update_flags
      ∷ input_read
      ∷ free_unused_elements
      ∷ output_draw
      ∷ output_post
      ∷ output_pre
      ∷ reset_update_flags
      ∷ input_read
      ∷ free_unused_elements
      ∷ output_draw
      ∷ output_post
      ∷ usleep 9400
      ∷ []
unfolding main_loop rounds round sleep_for schedule_next_read timestamp_le timestamp_add
    timestamp_sub ◌+ℤ◌ ◌-ℤ◌
calls_at_readings = refl

in_order : IsReading (timestamp_to_int (stamp 100 500)) readings
unfolding timestamp_to_int ◌+ℤ◌ ◌*ℤ◌
in_order = (
  (omega arith, omega arith),
  omega arith,
  (
    (omega arith, omega arith),
    omega arith,
    ((omega arith, omega arith), omega arith, ((omega arith, omega arith), omega arith, tt)),
  ),
)

positive : pos 0 ≤ℤ timestamp_to_int read_interval
unfolding timestamp_to_int ◌+ℤ◌ ◌*ℤ◌
positive = omega arith

main_loop_example :
    IsOnSchedule
      (timestamp_to_int read_interval)
      (record { rt_last_read = stamp 0 0; rt_next_read = stamp 100 500 })
      (main_loop read_interval 20000 at_start (stamp 100 500) readings).0
      (reads (main_loop read_interval 20000 at_start (stamp 100 500) readings).1)
main_loop_example =
    main_loop-IsOnSchedule read_interval 20000 at_start (stamp 100 500) readings (omega arith)
      (omega arith) (omega arith) in_order

rounds_example :
    (reads (rounds read_interval 20000 at_start readings).1 ≡ length readings)
    ⊎ (timestamp_to_int (stamp 100 500)
        <ℤ timestamp_to_int (rounds read_interval 20000 at_start readings).0.rt_next_read)
rounds_example =
    rounds-catch_up read_interval 20000 at_start (timestamp_to_int (stamp 100 500)) readings
      (omega arith) positive (omega arith) (omega arith) in_order

round_example :
    AfterRound read_interval 20000 at_start
      (stamp 103 0)
      (round read_interval 20000 at_start (stamp 103 0)).0
      (round read_interval 20000 at_start (stamp 103 0)).1
round_example =
    round-AfterRound read_interval 20000 at_start (stamp 103 0) (omega arith) (omega arith)
      (omega arith) (omega arith)
