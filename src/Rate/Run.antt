-- ===== src/Rate/Run.antt =====
-- The total of a counter over many reads.
use bmon.Prelude.{ℕ, ◌+◌, ◌%◌, ◌<◌, ◌≡◌, refl, false, List, [], ◌∷◌, arith, ◌∙◌, ap}
use bmon.Clock.{Timestamp}
use bmon.Floats.{Floats}
use bmon.AttrDef.{attr_type_counter, AttrFlags}
use bmon.Rate.{
  u64_mod, add64, Rate, RateCfg, rate_get_total, counter_delta, calc_counter_rate, reset_counter,
}
use bmon.Rate.Counter.{counter_mod, with_current}

-- How far the device's counter goes until a read, and when that read is.
abbrev pub Reads : Type 0
Reads = List (ℕ × Timestamp)

abbrev pub steps : Reads → ℕ
steps [] = 0
steps ((d, ts) ∷ reads) = d + steps reads

-- Between two reads the counter does not go all the way round.
abbrev pub AllBelow : ℕ → Reads → Type 0
AllBelow m [] = Unit
AllBelow m ((d, ts) ∷ reads) = (d < m) × AllBelow m reads

-- The counter is where it stood at the last read, and the numbers fit their width.
pub record IsCounting {F : Type 0} (flags : AttrFlags) (rate : Rate F) : Type 0 where
  pub no_ignore : flags.ignore_overflows ≡ false
  pub prev_in : rate.r_prev < counter_mod flags
  pub total_in : rate.r_total < u64_mod

module _ (fl : Floats) (cfg : RateCfg fl.Float) (flags : AttrFlags) where
  open fl use {Float}

  -- The counter of the device wraps at its width; each read stores it and calls `calc_counter_rate`.
  pub run_reads : Rate Float → Reads → Rate Float
  run_reads rate [] = rate
  run_reads rate ((d, ts) ∷ reads) =
      run_reads
        (calc_counter_rate fl cfg flags (with_current rate ((rate.r_prev + d) % counter_mod flags))
          ts)
        reads

  mod_lt : (g : AttrFlags) (n : ℕ) → n % counter_mod g < counter_mod g
  mod_lt g n = ground arith

  calc_counter_rate_fields :
      (rate : Rate Float) (ts : Timestamp)
      → ((calc_counter_rate fl cfg flags rate ts).r_prev ≡ rate.r_current)
        × ((calc_counter_rate fl cfg flags rate ts).r_total
            ≡ add64 rate.r_total (counter_delta flags rate.r_current rate.r_prev))
        × ((calc_counter_rate fl cfg flags rate ts).r_reset ≡ rate.r_reset)
  unfolding calc_counter_rate
  calc_counter_rate_fields rate ts = (ground arith, ground arith, ground arith)

  -- The steps that one read counts are the steps that the counter went.
  delta_of_step :
      (prev d : ℕ)
      → flags.ignore_overflows ≡ false
      → prev < counter_mod flags
      → d < counter_mod flags
      → counter_delta flags ((prev + d) % counter_mod flags) prev ≡ d
  unfolding counter_delta
  delta_of_step prev d n hp hd = ground arith

  abbrev step : Rate Float → ℕ → Timestamp → Rate Float
  step rate d ts =
      calc_counter_rate fl cfg flags (with_current rate ((rate.r_prev + d) % counter_mod flags)) ts

  step_total :
      (rate : Rate Float) (d : ℕ) (ts : Timestamp)
      → IsCounting flags rate
      → d < counter_mod flags
      → ((step rate d ts).r_total ≡ (rate.r_total + d) % u64_mod)
        × ((step rate d ts).r_reset ≡ rate.r_reset)
  step_total rate d ts c h =
      let value = (rate.r_prev + d) % counter_mod flags in
      let (_, total, reset) = calc_counter_rate_fields (with_current rate value) ts in
      let delta = delta_of_step rate.r_prev d c.no_ignore c.prev_in h in
      (total ∙ ap (add64 rate.r_total) delta, reset)

  step_counts :
      (rate : Rate Float) (d : ℕ) (ts : Timestamp)
      → IsCounting flags rate
      → d < counter_mod flags
      → IsCounting flags (step rate d ts)
  step_counts rate d ts c h =
      let value = (rate.r_prev + d) % counter_mod flags in
      let (prev, _, _) = calc_counter_rate_fields (with_current rate value) ts in
      record {
        no_ignore = c.no_ignore;
        prev_in = rw prev (mod_lt flags (rate.r_prev + d));
        total_in = omega (arith, step_total rate d ts c h);
      }

  -- Without `ignore_overflows`, with a previous value below the bound of the counter and a total below
  -- 2^64: over any number of reads, each less than a full round of 2^32 or 2^64 behind the one before,
  -- the total grows by exactly the steps of the counter, modulo 2^64, though the counter may wrap between
  -- any two reads; `r_reset` stays, and the state is such a one again.
  pub run_reads-total :
      (rate : Rate Float) (reads : Reads)
      → IsCounting flags rate
      → AllBelow (counter_mod flags) reads
      → ((run_reads rate reads).r_total ≡ (rate.r_total + steps reads) % u64_mod)
        × ((run_reads rate reads).r_reset ≡ rate.r_reset)
        × IsCounting flags (run_reads rate reads)
  unfolding run_reads
  run_reads-total rate [] c b = (omega arith, refl, c)
  run_reads-total rate ((d, ts) ∷ reads) c b =
      let (total, reset, counting) =
        run_reads-total (step rate d ts) reads (step_counts rate d ts c b.0) b.1 in
      let (t, r) = step_total rate d ts c b.0 in (omega (arith, total, t), reset ∙ r, counting)

  -- After `attr_reset_counter` the total that is shown counts the steps from the reset on.
  pub rate_get_total-reset :
      (rate : Rate Float) (reads : Reads)
      → IsCounting flags rate
      → AllBelow (counter_mod flags) reads
      → rate_get_total (run_reads (reset_counter fl attr_type_counter rate) reads)
        ≡ steps reads % u64_mod
  unfolding rate_get_total reset_counter
  rate_get_total-reset rate reads c b =
      let rate' = reset_counter fl attr_type_counter rate in
      let c' : IsCounting flags (record rate { r_reset = rate.r_total }) = record {
        no_ignore = c.no_ignore;
        prev_in = c.prev_in;
        total_in = c.total_in;
      } in
      let (total, reset, _) = run_reads-total (record rate { r_reset = rate.r_total }) reads c' b in
      omega (arith, total, reset)
