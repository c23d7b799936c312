-- ===== src/Element/Samples.antt =====
-- Elements at concrete values, for the tests.

use Prim.Native.String.{String}
use bmon.Prelude.{ℕ, ◌+◌, refl, arith, true, false, none, some, [], ◌∷◌, ◌==◌, if◌then◌else◌}
use bmon.Prelude.Int.{pos, ◌-ℤ◌}
use bmon.Prelude.Bytes.{codes, str_eq}
use bmon.Clock.{Timestamp}
use bmon.AttrDef.{AttrFlags, AttrDef, AttrDefs, attr_type_counter}
use bmon.Rate.{Rate}
use bmon.History.{History, HistoryDef, history_type_8}
use bmon.Attr.{Attr, AttrCfg}
use bmon.Tree.{empty, entry}
use bmon.Element.{Element, ElementEnv, ElementStore, lookup_in}
use bmon.Floats.{whole_floats}
use bmon.Element.Ends.{Ends}
use bmon.Element.Facts.{UniqueElements, IsCounted}

abbrev pub at_second : ℕ → Timestamp
at_second n = record { tv_sec = pos n; tv_usec = pos 0 }

abbrev no_flags : AttrFlags
no_flags = record {
  force_history = false;
  ignore_overflows = false;
  true_64bit = false;
  rx_enabled = false;
  tx_enabled = false;
  doing_history = false;
}

abbrev pub bytes_def : AttrDef
bytes_def = record {
  ad_id = 1;
  ad_name = codes "bytes";
  ad_description = codes "Bytes";
  ad_type = attr_type_counter;
  ad_flags = no_flags;
  ad_unit = codes "byte";
}

abbrev pub packets_def : AttrDef
packets_def = record bytes_def {
  ad_id = 33;
  ad_name = codes "packets";
  ad_description = codes "Packets";
}

abbrev pub defs : AttrDefs
defs = record { attr_def_list = bytes_def ∷ packets_def ∷ []; attr_id_gen = 34 }

abbrev cfg : AttrCfg ℕ
cfg = record {
  cfg_rate = record { cfg_rate_interval = 10; cfg_rate_variance = 1 };
  cfg_read_interval = 1;
  cfg_history_variance = 1;
  history_defs = [];
}

-- Interfaces of the name `lo` are not let in.
abbrev pub env : ElementEnv ℕ
env = record {
  policies = record { allowed = []; denied = codes "lo" ∷ [] };
  lifecycles = 30;
  show_u64 = λ n. n ∷ [];
  flt_max = 1000000;
  attr_cfg = cfg;
}

abbrev second : HistoryDef ℕ
second = record { hd_name = codes "second"; hd_size = 3; hd_type = history_type_8; hd_interval = 2 }

abbrev pub history : History ℕ
history = record {
  h_index = 1;
  h_definition = second;
  h_last_update = at_second 10;
  h_min_interval = 1;
  h_max_interval = 20;
  h_rx = record { hs_data = some (7 ∷ 5 ∷ 6 ∷ []); hs_prev_total = 100 };
  h_tx = record { hs_data = some (0 ∷ 0 ∷ 1 ∷ []); hs_prev_total = 1 };
}

abbrev rate : ℕ → Rate ℕ
rate n = record {
  r_total = n;
  r_current = n + 40;
  r_prev = n;
  r_reset = 0;
  r_rate = 0;
  r_last_calc = at_second 10;
}

-- An attribute with a history.
abbrev pub bytes_attr : Attr ℕ
bytes_attr = record {
  a_rx_rate = rate 100;
  a_tx_rate = rate 1;
  a_flags = record no_flags { doing_history = true };
  a_def = bytes_def;
  a_last_update = at_second 34;
  a_history_list = history ∷ [];
}

abbrev pub named : String → ℕ → Element ℕ
named name lifecycles = record {
  e_name = codes name;
  e_id = 0;
  e_updated = false;
  e_created = false;
  e_lifecycles = lifecycles;
  e_level = 0;
  e_info_list = [];
  e_ninfo = 0;
  e_attrs = record {
    e_attrhash = λ h. if h == 1 then bytes_attr ∷ [] else [];
    e_attr_sorted = bytes_def ∷ [];
    e_nattrs = 1;
    e_key_major = some bytes_def;
    e_key_minor = some packets_def;
  };
  e_usage_attr = some bytes_def;
  e_rx_usage = 0;
  e_tx_usage = 0;
  e_cfg = none;
}

-- The interface `br0`, with a child, has one lifecycle left.
abbrev pub store : ElementStore ℕ
store = record {
  elements = entry (named "eth0" 3) empty (
      entry (named "br0" 1) (entry (named "eth2" 3) empty empty)
        (entry (named "eth3" 5) empty empty));
  g_nelements = 4;
  cfgs =
      record {
        ec_name = codes "eth1";
        ec_description = some (codes "uplink");
        ec_rxmax = 1000;
        ec_txmax = 500;
        ec_show = true;
        ec_hide = false;
        ec_refcnt = 1;
      }
      ∷ [];
}

pub store-UniqueElements : UniqueElements store.elements
unfolding lookup_in str_eq
store-UniqueElements = (refl, (refl, (refl, tt)))

pub store-IsCounted : IsCounted store
store-IsCounted = record {
  unique = store-UniqueElements;
  counted = unfold bmon.Element.size in refl;
}

pub history-Ends : Ends whole_floats 12 (at_second 34) history
unfolding bmon.History.history_timediff ◌-ℤ◌
history-Ends = record {
  rounds = 12;
  enough = omega arith;
  late = refl;
  valid = record { index_in = omega arith; rx_size = refl; tx_size = refl };
}
