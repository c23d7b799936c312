-- ===== src/Dummy.antt =====
-- src/in_dummy.c: the counters of the devices that the module makes up, which are one array. `none` is an
-- access outside it. What `rand` returns is a parameter.
pub mod Place
pub mod Count
mod Tests
use bmon.Prelude.{
  ℕ, zero, suc, ◌+◌, ◌*◌, ◌%◌, ◌^◌, Bool, Option, none, some, List, [], ◌∷◌, if◌then◌else◌, ◌>>=◌,
  get_elem?, set,
}

pub record DummyCfg : Type 0 where
  pub c_rx_b_inc : ℕ
  pub c_tx_b_inc : ℕ
  pub c_rx_p_inc : ℕ
  pub c_tx_p_inc : ℕ
  pub c_numdev : ℕ
  pub c_randomize : Bool
  pub c_mtu : ℕ
  pub c_maxpps : ℕ
  pub c_numgroups : ℕ

unfoldable pub cnt_size : DummyCfg → ℕ
cnt_size cfg = cfg.c_numgroups * cfg.c_numdev * 2 * 2

-- The index in `cnts`.
unfoldable pub cnt : DummyCfg → ℕ → ℕ → ℕ → ℕ → ℕ
cnt cfg group dev unit direction = group * cfg.c_numdev * 2 * 2 + dev * 2 * 2 + unit * 2 + direction

-- The four results of `rand` in the order of their use.
pub record Rands : Type 0 where
  pub rand_rx : ℕ
  pub rand_tx : ℕ
  pub rand_rx_size : ℕ
  pub rand_tx_size : ℕ

-- What is added to the counters of a device: `step u d` to the one of the unit `u` and the direction `d`.
unfoldable pub step : DummyCfg → Rands → ℕ → ℕ → ℕ
step cfg r zero zero = if cfg.c_randomize then r.rand_rx % cfg.c_maxpps else cfg.c_rx_p_inc
step cfg r zero (suc d) = if cfg.c_randomize then r.rand_tx % cfg.c_maxpps else cfg.c_tx_p_inc
step cfg r (suc u) zero =
    if cfg.c_randomize
    then r.rand_rx % cfg.c_maxpps * (r.rand_rx_size % cfg.c_mtu)
    else cfg.c_rx_b_inc
step cfg r (suc u) (suc d) =
    if cfg.c_randomize
    then r.rand_tx % cfg.c_maxpps * (r.rand_tx_size % cfg.c_mtu)
    else cfg.c_tx_b_inc

-- `cnts[i] += n`
unfoldable pub add_to : ℕ → ℕ → List ℕ → Option (List ℕ)
add_to i n cnts = elim (get_elem? cnts i) [
  | none ↦ none
  | some v ↦ some (set cnts i ((v + n) % 2 ^ 64))
]

-- The four additions for a device.
unfoldable pub count : DummyCfg → Rands → ℕ → ℕ → List ℕ → Option (List ℕ)
unfolding add_to cnt step
count cfg r gidx n cnts = do
  a ← add_to (cnt cfg gidx n 0 0) (step cfg r 0 0) cnts
  b ← add_to (cnt cfg gidx n 0 1) (step cfg r 0 1) a
  c ← add_to (cnt cfg gidx n 1 0) (step cfg r 1 0) b
  add_to (cnt cfg gidx n 1 1) (step cfg r 1 1) c

-- The two values that `attr_update` gets for `link_attrs[i]`, which are bytes and packets.
unfoldable pub dummy_values : DummyCfg → ℕ → ℕ → ℕ → List ℕ → Option (ℕ × ℕ)
unfolding cnt
dummy_values cfg gidx n i cnts = do
  rx ← get_elem? cnts (cnt cfg gidx n i 0)
  tx ← get_elem? cnts (cnt cfg gidx n i 1)
  some (rx, tx)
