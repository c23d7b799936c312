-- ===== src/Rate/Tests.antt =====
-- Counters at concrete values, with whole numbers for floats.
use bmon.Prelude.{ℕ, ◌+◌, ◌%◌, ◌≡◌, refl, true, false, [], ◌∷◌, arith}
use bmon.Prelude.Int.{pos, ◌-ℤ◌}
use bmon.Clock.{Timestamp}
use bmon.Floats.{whole_floats}
use bmon.AttrDef.{AttrFlags}
use bmon.Rate.{u64_mod, Rate, RateCfg, counter_delta, timestamp_diff, smooth, calc_counter_rate}
use bmon.Rate.Counter.{with_current, early_steps_lost}
use bmon.Rate.Run.{Reads, IsCounting, run_reads, run_reads-total}

abbrev no_flags : AttrFlags
no_flags = record {
  force_history = false;
  ignore_overflows = false;
  true_64bit = false;
  rx_enabled = true;
  tx_enabled = true;
  doing_history = false;
}

abbrev at_second : ℕ → Timestamp
at_second n = record { tv_sec = pos n; tv_usec = pos 0 }

abbrev cfg : RateCfg ℕ
cfg = record { cfg_rate_interval = 10; cfg_rate_variance = 1 }

-- A counter of 32 bits near its end.
abbrev near_end : Rate ℕ
near_end = record {
  r_total = 5000;
  r_current = 4294967290;
  r_prev = 4294967290;
  r_reset = 0;
  r_rate = 0;
  r_last_calc = at_second 100;
}

abbrev reads : Reads
reads = (10, at_second 101) ∷ (20, at_second 112) ∷ []

early_steps_lost_example :
    (calc_counter_rate whole_floats cfg no_flags
      (with_current
        (calc_counter_rate whole_floats cfg no_flags (with_current near_end 4) (at_second 101))
        24)
      (at_second 110)).r_rate
    ≡ smooth whole_floats 0 (whole_floats.div (counter_delta no_flags 24 4) 10)
unfolding timestamp_diff ◌-ℤ◌ counter_delta
early_steps_lost_example =
    early_steps_lost whole_floats cfg no_flags near_end 4 24 (at_second 101) (at_second 110)
      (omega arith) (omega arith) (omega arith) refl refl

near_end-IsCounting : IsCounting no_flags near_end
near_end-IsCounting = record { no_ignore = refl; prev_in = omega arith; total_in = omega arith }

run_reads_example :
    ((run_reads whole_floats cfg no_flags near_end reads).r_total ≡ (5000 + 30) % u64_mod)
    × ((run_reads whole_floats cfg no_flags near_end reads).r_reset ≡ 0)
    × IsCounting no_flags (run_reads whole_floats cfg no_flags near_end reads)
run_reads_example =
    run_reads-total whole_floats cfg no_flags near_end reads near_end-IsCounting (omega arith)
