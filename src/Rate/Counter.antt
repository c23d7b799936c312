-- ===== src/Rate/Counter.antt =====
-- The counter arithmetic of `calc_counter_rate`: what one read adds, and what the rate is made of.
use bmon.Prelude.{ℕ, ◌+◌, ◌-◌, ◌%◌, ◌^◌, ◌<◌, ◌≡◌, ◌≢◌, true, false, arith, if◌then◌else◌}
use bmon.Clock.{Timestamp}
use bmon.Floats.{Floats}
use bmon.AttrDef.{AttrFlags}
use bmon.Rate.{
  u64_mod, add64, Rate, RateCfg, counter_delta, total_delta, timestamp_diff, smooth,
  calc_counter_rate,
}

-- The number of values of a counter: 2^32, or 2^64 for one with ATTR_TRUE_64BIT.
abbrev pub counter_mod : AttrFlags → ℕ
counter_mod flags = if flags.true_64bit then 2 ^ 64 else 2 ^ 32

-- Between two values of a counter that wraps at its width, `delta` is the number of steps from the
-- one to the other: it is below the width, and leads from the old value to the new one.
pub counter_delta_wraps :
    (flags : AttrFlags) (r_current r_prev : ℕ)
    → flags.ignore_overflows ≡ false
    → r_current < counter_mod flags
    → r_prev < counter_mod flags
    → (counter_delta flags r_current r_prev < counter_mod flags)
      × ((r_prev + counter_delta flags r_current r_prev) % counter_mod flags ≡ r_current)
unfolding counter_delta
counter_delta_wraps flags r_current r_prev n hc hp = ground arith

-- A counter of 64 bits without the flag ATTR_TRUE_64BIT that falls by more than 2^32, as it does when
-- it is reset to 0, is taken for a step of nearly 2^64.
pub counter_delta_reset :
    (flags : AttrFlags) (r_current r_prev : ℕ)
    → flags.ignore_overflows ≡ false
    → flags.true_64bit ≡ false
    → r_prev < 2 ^ 64
    → r_current + 2 ^ 32 < r_prev
    → counter_delta flags r_current r_prev ≡ 2 ^ 64 - (r_prev - r_current - 2 ^ 32)
unfolding counter_delta
counter_delta_reset flags r_current r_prev n w hp h = ground arith

-- The difference between two totals is what was added, however the total wrapped.
total_delta-add64 :
    (prev_total delta : ℕ)
    → prev_total < u64_mod
    → delta < u64_mod
    → total_delta (add64 prev_total delta) prev_total ≡ delta
unfolding total_delta
total_delta-add64 prev_total delta hp hd = ground arith

pub counter_delta-lt :
    (flags : AttrFlags) (r_current r_prev : ℕ)
    → r_current < u64_mod
    → counter_delta flags r_current r_prev < u64_mod
unfolding counter_delta
counter_delta-lt flags r_current r_prev h = ground arith

-- A new value of the counter, as `attr_update` stores it.
abbrev pub with_current : {F : Type 0} → Rate F → ℕ → Rate F
with_current rate value = record rate { r_current = value }

module _ (fl : Floats) (cfg : RateCfg fl.Float) (flags : AttrFlags) where
  open fl use {Float, of_nat, sub, div, lt}

  -- The time since the last calculation is too short for a new rate.
  abbrev pub TooEarly : Rate Float → Timestamp → Type 0
  TooEarly rate ts =
      lt (timestamp_diff fl rate.r_last_calc ts) (sub cfg.cfg_rate_interval cfg.cfg_rate_variance)
      ≡ true

  abbrev pub Due : Rate Float → Timestamp → Type 0
  Due rate ts =
      lt (timestamp_diff fl rate.r_last_calc ts) (sub cfg.cfg_rate_interval cfg.cfg_rate_variance)
      ≡ false

  -- A read that is due makes the rate from the steps of the counter since the read before it and from
  -- the time since the last calculation, smoothed by the old rate.
  pub calc_counter_rate-Due :
      (rate : Rate Float) (ts : Timestamp)
      → rate.r_total ≢ 0
      → rate.r_total < u64_mod
      → rate.r_current < u64_mod
      → Due rate ts
      → (calc_counter_rate fl cfg flags rate ts).r_rate
        ≡ smooth fl rate.r_rate (
            div
              (of_nat (counter_delta flags rate.r_current rate.r_prev))
              (timestamp_diff fl rate.r_last_calc ts))
  unfolding calc_counter_rate
  calc_counter_rate-Due rate ts nz ht hc d = ground (
    arith,
    d,
    total_delta-add64 rate.r_total (counter_delta flags rate.r_current rate.r_prev) ht,
    counter_delta-lt flags rate.r_current rate.r_prev hc,
  )

  pub calc_counter_rate_early :
      (rate : Rate Float) (ts : Timestamp)
      → rate.r_total ≢ 0
      → TooEarly rate ts
      → calc_counter_rate fl cfg flags rate ts ≡ record rate {
        r_total = add64 rate.r_total (counter_delta flags rate.r_current rate.r_prev);
        r_prev = rate.r_current;
      }
  unfolding calc_counter_rate
  calc_counter_rate_early rate ts nz e = ground (arith, e)

  -- After a read that came too early for a rate, the next due read divides only its own steps of the
  -- counter by the whole time since the last calculation: the steps of the early read, from `r_prev`
  -- to `c1`, count for no rate.
  pub early_steps_lost :
      (rate : Rate Float) (c1 c2 : ℕ) (ts1 ts2 : Timestamp)
      → rate.r_total ≢ 0
      → add64 rate.r_total (counter_delta flags c1 rate.r_prev) ≢ 0
      → c2 < u64_mod
      → TooEarly rate ts1
      → Due rate ts2
      → (calc_counter_rate fl cfg flags
          (with_current (calc_counter_rate fl cfg flags (with_current rate c1) ts1) c2)
          ts2).r_rate
        ≡ smooth fl rate.r_rate
            (div (of_nat (counter_delta flags c2 c1)) (timestamp_diff fl rate.r_last_calc ts2))
  early_steps_lost rate c1 c2 ts1 ts2 nz nz1 hc e d =
      rw (calc_counter_rate_early (with_current rate c1) ts1 nz e) (
        calc_counter_rate-Due
          (record rate {
            r_total = add64 rate.r_total (counter_delta flags c1 rate.r_prev);
            r_current = c2;
            r_prev = c1;
          })
          ts2 nz1 (omega arith) hc d)
