-- ===== src/Clock/Tests.antt =====
-- Time stamps at concrete values.
use bmon.Prelude.{◌≡◌, refl, arith}
use bmon.Prelude.Int.{pos, negsuc, ◌+ℤ◌, ◌-ℤ◌}
use bmon.Clock.{Timestamp, timestamp_to_int, timestamp_add, timestamp_sub}
use bmon.Clock.Laws.{IsNormal, timestamp_add_lem, timestamp_sub_lem}

abbrev early : Timestamp
early = record { tv_sec = pos 10; tv_usec = pos 900000 }

abbrev late : Timestamp
late = record { tv_sec = pos 12; tv_usec = pos 300000 }

late_minus_early : timestamp_sub early late ≡ record { tv_sec = negsuc 1; tv_usec = pos 600000 }
unfolding timestamp_sub ◌-ℤ◌ ◌+ℤ◌
late_minus_early = refl

timestamp_add_example :
    IsNormal (timestamp_add early late)
    × (timestamp_to_int (timestamp_add early late)
        ≡ timestamp_to_int early +ℤ timestamp_to_int late)
timestamp_add_example = timestamp_add_lem early late (omega arith) (omega arith)

timestamp_sub_example :
    IsNormal (timestamp_sub early late)
    × (timestamp_to_int (timestamp_sub early late)
        ≡ timestamp_to_int early -ℤ timestamp_to_int late)
timestamp_sub_example = timestamp_sub_lem early late (omega arith) (omega arith)
