-- ===== src/Dummy/Tests.antt =====
-- The counters of the made-up devices at concrete values.

use bmon.Prelude.{refl, false, arith, replicate}
use bmon.Dummy.{DummyCfg, Rands, cnt_size}
use bmon.Dummy.Count.{AfterCount, count-AfterCount}

-- The defaults, with three groups of two devices.
abbrev cfg : DummyCfg
cfg = record {
  c_rx_b_inc = 1000000000;
  c_tx_b_inc = 80000000;
  c_rx_p_inc = 1000;
  c_tx_p_inc = 800;
  c_numdev = 2;
  c_randomize = false;
  c_mtu = 1540;
  c_maxpps = 100000;
  c_numgroups = 3;
}

abbrev rands : Rands
rands = record { rand_rx = 5; rand_tx = 6; rand_rx_size = 7; rand_tx_size = 8 }

count-AfterCount_example : AfterCount cfg rands 1 1 (replicate 24 7)
count-AfterCount_example =
    count-AfterCount cfg rands 1 1 (replicate 24 7) (omega arith) (omega arith)
      (unfold cnt_size in refl)
