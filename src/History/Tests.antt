-- ===== src/History/Tests.antt =====
-- A history of three samples of 8 bits, with whole numbers for floats.
use bmon.Prelude.{ℕ, ◌%◌, ◌^◌, ◌≡◌, refl, none, some, [], ◌∷◌, arith, take}
use mathlib.Core.Option
use bmon.Prelude.Int.{pos, ◌-ℤ◌}
use bmon.Prelude.Bytes.{codes}
use bmon.Clock.{Timestamp}
use bmon.Floats.{whole_floats}
use bmon.AttrDef.{attr_type_counter}
use bmon.History.{
  history_type_8, HistoryDef, History, history_delta, store_both, discard, history_update,
}
use bmon.History.Window.{window, forth, window-store}
use bmon.History.Store.{IsValid, samples, store_both-samples}

abbrev def : HistoryDef ℕ
def = record { hd_name = codes "second"; hd_size = 3; hd_type = history_type_8; hd_interval = 2 }

abbrev at_second : ℕ → Timestamp
at_second n = record { tv_sec = pos n; tv_usec = pos 0 }

-- The samples 5, 6 and 7, in that order, were stored; the next goes to index 1.
abbrev running : History ℕ
running = record {
  h_index = 1;
  h_definition = def;
  h_last_update = at_second 10;
  h_min_interval = 1;
  h_max_interval = 20;
  h_rx = record { hs_data = some (7 ∷ 5 ∷ 6 ∷ []); hs_prev_total = 100 };
  h_tx = record { hs_data = some (0 ∷ 0 ∷ 1 ∷ []); hs_prev_total = 1 };
}

newest_first : samples running running.h_rx ≡ 7 ∷ 6 ∷ 5 ∷ []
newest_first = refl

late_update_is_unknown :
    Option.map
      (λ h. samples h h.h_rx)
      (history_update whole_floats 12 1 attr_type_counter 140 3 running (at_second 34))
    ≡ some (255 ∷ 255 ∷ 255 ∷ [])
unfolding history_update discard store_both history_delta ◌-ℤ◌
late_update_is_unknown = refl

running-IsValid : IsValid running
running-IsValid = record { index_in = omega arith; rx_size = refl; tx_size = refl }

window-store_example :
    window (7 ∷ 9 ∷ 6 ∷ []) 3 (forth 3 1) 2 ≡ take 2 (9 ∷ window (7 ∷ 5 ∷ 6 ∷ []) 3 1 3)
window-store_example = window-store (7 ∷ 5 ∷ 6 ∷ []) 3 1 9 2 refl (omega arith) (omega arith)

store_both-samples_example :
    let h' = store_both whole_floats running 140 3 2 in
    (samples h' h'.h_rx
      ≡ take 3 (history_delta whole_floats 100 140 2 % 2 ^ 8 ∷ samples running running.h_rx))
    × (samples h' h'.h_tx
        ≡ take 3 (history_delta whole_floats 1 3 2 % 2 ^ 8 ∷ samples running running.h_tx))
store_both-samples_example =
    store_both-samples whole_floats running 140 3 2 (7 ∷ 5 ∷ 6 ∷ []) (0 ∷ 0 ∷ 1 ∷ [])
      running-IsValid refl refl

abbrev fresh : History ℕ
fresh = record running {
  h_last_update = at_second 0;
  h_rx = record { hs_data = none; hs_prev_total = 0 };
}
