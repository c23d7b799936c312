-- ===== src/Rate.antt =====
-- src/attr.c: the counters and rates of an attribute (`struct rate`). A `uint64_t` is a number, and
-- its wrap-around is written out.
pub mod Counter
pub mod Run
mod Tests
use bmon.Prelude.{ℕ, ◌+◌, ◌-◌, ◌%◌, ◌^◌, Bool, true, false, not, ◌&&◌, if◌then◌else◌, ◌==◌, ltb}
use bmon.Prelude.Int.{pos, ◌-ℤ◌}
use bmon.Clock.{Timestamp}
use bmon.Floats.{Floats}
use bmon.AttrDef.{AttrType, attr_type_counter, attr_type_percent, AttrFlags}

abbrev pub u64_mod : ℕ
u64_mod = 2 ^ 64

abbrev pub add64 : ℕ → ℕ → ℕ
add64 a b = (a + b) % u64_mod

abbrev pub sub64 : ℕ → ℕ → ℕ
sub64 a b = (a + u64_mod - b) % u64_mod

pub record Rate (F : Type 0) : Type 0 where
  pub r_total : ℕ
  pub r_current : ℕ
  pub r_prev : ℕ
  pub r_reset : ℕ
  pub r_rate : F
  pub r_last_calc : Timestamp

-- The intervals of the configuration, and the zero of `xcalloc`.
pub record RateCfg (F : Type 0) : Type 0 where
  pub cfg_rate_interval : F
  pub cfg_rate_variance : F

unfoldable pub rate_get_total : {F : Type 0} → Rate F → ℕ
rate_get_total r = sub64 r.r_total r.r_reset

-- The first `delta` of `calc_counter_rate`: how far the counter went since the last read.
unfoldable pub counter_delta : AttrFlags → ℕ → ℕ → ℕ
counter_delta flags r_current r_prev =
    let width_max = if flags.true_64bit then 2 ^ 64 - 1 else 2 ^ 32 - 1 in
    if ltb r_current r_prev
    then (if flags.ignore_overflows
        then r_current
        else add64 (sub64 width_max r_prev) (add64 r_current 1))
    else r_current - r_prev

-- The second `delta`, between two totals.
unfoldable pub total_delta : ℕ → ℕ → ℕ
total_delta r_total prev_total =
    if ltb r_total prev_total
    then add64 (2 ^ 64 - 1 - prev_total) (add64 r_total 1)
    else r_total - prev_total

module _ (fl : Floats) where
  open fl use {Float, Double, of_int, of_nat, widen, double_of_nat, add, sub, mul, div, lt, eq}
  open fl use {div_double, mul_double, narrow, is_zero_double}

  unfoldable pub timestamp_diff : Timestamp → Timestamp → Float
  timestamp_diff t1 t2 =
      add (of_int (t2.tv_sec -ℤ t1.tv_sec))
        (div (sub (of_int t2.tv_usec) (of_int t1.tv_usec)) (of_nat 1000000))

  -- The moving average: the old rate counts for a quarter, unless it is 0.
  unfoldable pub smooth : Float → Float → Float
  smooth old_rate r_rate =
      if eq old_rate (of_nat 0)
      then r_rate
      else div (add (mul r_rate (of_nat 3)) old_rate) (of_nat 4)

  -- `ts` is the time of the read.
  unfoldable pub calc_counter_rate : RateCfg Float → AttrFlags → Rate Float → Timestamp → Rate Float
  unfolding counter_delta total_delta
  calc_counter_rate cfg flags rate ts =
      let prev_total = rate.r_total in
      let r_total = add64 prev_total (counter_delta flags rate.r_current rate.r_prev) in
      let counted = record rate { r_total = r_total; r_prev = rate.r_current } in
      let diff = timestamp_diff rate.r_last_calc ts in
      let measured = div (of_nat (total_delta r_total prev_total)) diff in
      if prev_total == 0
      then record counted { r_last_calc = ts }
      else if lt diff (sub cfg.cfg_rate_interval cfg.cfg_rate_variance)
      then counted
      else record counted { r_rate = smooth rate.r_rate measured; r_last_calc = ts }

  -- `r_prev = r_rate = r_total = r_current`, from the right: `r_total` gets the counter, `r_rate`
  -- its float, and `r_prev` that float converted back.
  unfoldable pub calc_rate_total : Rate Float → Timestamp → Rate Float
  calc_rate_total rate ts =
      let r_rate = of_nat rate.r_current in
      record rate {
        r_prev = fl.to_u64 r_rate;
        r_rate = r_rate;
        r_total = rate.r_current;
        r_last_calc = ts;
      }

  -- `flt_max` is FLT_MAX.
  unfoldable pub calc_usage : RateCfg Float → Float → Float → ℕ → Float
  calc_usage cfg flt_max rate max =
      if max == 0
      then flt_max
      else if is_zero_double (widen rate)
      then of_nat 0
      else narrow (
          div_double (double_of_nat 100) (
            div_double (double_of_nat max) (mul_double (widen rate) (widen cfg.cfg_rate_interval))))

  -- What goes through `rx` or `tx` of `attr_calc_usage`.
  unfoldable pub attr_calc_usage : RateCfg Float → Float → AttrType → Rate Float → ℕ → Float
  unfolding calc_usage
  attr_calc_usage cfg flt_max attr_type_percent rate max = of_nat rate.r_total
  attr_calc_usage cfg flt_max _ rate max = calc_usage cfg flt_max rate.r_rate max

  -- One of the two assignments of `attr_reset_counter`.
  unfoldable pub reset_counter : AttrType → Rate Float → Rate Float
  reset_counter attr_type_counter rate = record rate { r_reset = rate.r_total }
  reset_counter _ rate = rate
