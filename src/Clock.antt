-- ===== src/Clock.antt =====
-- src/utils.c: the time stamps of the reader (`timestamp_t` of include/bmon/bmon.h). An `int64_t` is
-- an integer here: the seconds of a monotonic clock stay far from 2^63, and signed overflow is
-- undefined in the source.
pub mod Laws
mod Tests
use bmon.Prelude.{ℕ, ◌<◌, Bool, true, false, ◌||◌, if◌then◌else◌}
use bmon.Prelude.Int.{ℤ, pos, negsuc, ◌+ℤ◌, ◌-ℤ◌, ◌*ℤ◌, ltb_ℤ, pos_part, neg_part}

pub record Timestamp : Type 0 where
  pub tv_sec : ℤ
  pub tv_usec : ℤ

abbrev pub usec_per_sec : ℕ
usec_per_sec = 1000000

-- The unsigned product and sum of the source, converted back, are the sum itself while that fits.
unfoldable pub timestamp_to_int : Timestamp → ℤ
timestamp_to_int src = pos usec_per_sec *ℤ src.tv_sec +ℤ src.tv_usec

unfoldable pub timestamp_add : Timestamp → Timestamp → Timestamp
timestamp_add src1 src2 =
    let sec = src1.tv_sec +ℤ src2.tv_sec in
    let usec = src1.tv_usec +ℤ src2.tv_usec in
    if ltb_ℤ usec (pos usec_per_sec)
    then record { tv_sec = sec; tv_usec = usec }
    else record { tv_sec = sec +ℤ pos 1; tv_usec = usec -ℤ pos usec_per_sec }

unfoldable pub timestamp_sub : Timestamp → Timestamp → Timestamp
timestamp_sub src1 src2 =
    let sec = src1.tv_sec -ℤ src2.tv_sec in
    let usec = src1.tv_usec -ℤ src2.tv_usec in
    if ltb_ℤ usec (pos 0)
    then record { tv_sec = sec -ℤ pos 1; tv_usec = usec +ℤ pos usec_per_sec }
    else record { tv_sec = sec; tv_usec = usec }

unfoldable pub timestamp_le : Timestamp → Timestamp → Bool
timestamp_le a b =
    if ltb_ℤ b.tv_sec a.tv_sec
    then false
    else if ltb_ℤ a.tv_sec b.tv_sec
    then true
    else if ltb_ℤ b.tv_usec a.tv_usec
    then false
    else true

pub timestamp_is_negative : Timestamp → Bool
timestamp_is_negative ts = ltb_ℤ ts.tv_sec (pos 0) || ltb_ℤ ts.tv_usec (pos 0)

-- The part of the main loop of src/bmon.c that runs when a read is due at `e`: C := NR - E, and the
-- next read is at E + RI + C.
unfoldable pub schedule_next_read : Timestamp → Timestamp → Timestamp → Timestamp
schedule_next_read rt_next_read e ri =
    let c = timestamp_sub rt_next_read e in timestamp_add (timestamp_add e ri) c
