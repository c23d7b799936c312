-- ===== src/Attr/Tests.antt =====
-- The attributes of an element at concrete values.
use mathlib.Core.Option
use bmon.Prelude.{ℕ, ◌≡◌, refl, arith, true, false, some, List, [], ◌∷◌, ◌==◌, if◌then◌else◌}
use bmon.Prelude.Int.{pos}
use bmon.Prelude.Bytes.{codes}
use bmon.Clock.{Timestamp}
use bmon.Floats.{whole_floats}
use bmon.AttrDef.{AttrFlags, AttrDef, AttrDefs, attr_type_counter, find_id}
use bmon.Attr.Current.{
  attr_at, list_head, attr_moves, attr_select_first, attr_select_next, attr_select_prev,
  attr_select_prev-head,
}
use bmon.Attr.{
  ElementAttrs, AttrCfg, UpdateFlags, is_key, find_attr, attr_lookup, set_counters, attr_update,
}
use bmon.Attr.Table.{target, attr_lookup-attr_update}
use bmon.Attr.Tracked.{IsTracked, attr_update-IsTracked}
use bmon.Attr.Sorted.{KeysFirst}

abbrev no_flags : AttrFlags
no_flags = record {
  force_history = false;
  ignore_overflows = false;
  true_64bit = false;
  rx_enabled = false;
  tx_enabled = false;
  doing_history = false;
}

abbrev bytes_def : AttrDef
bytes_def = record {
  ad_id = 1;
  ad_name = codes "bytes";
  ad_description = codes "Bytes";
  ad_type = attr_type_counter;
  ad_flags = no_flags;
  ad_unit = codes "byte";
}

abbrev packets_def : AttrDef
packets_def = record bytes_def {
  ad_id = 33;
  ad_name = codes "packets";
  ad_description = codes "packets";
}

abbrev errors_def : AttrDef
errors_def = record bytes_def {
  ad_id = 3;
  ad_name = codes "errors";
  ad_description = codes "Errors";
}

abbrev abort_def : AttrDef
abort_def = record bytes_def { ad_id = 4; ad_name = codes "abort"; ad_description = codes "Abort" }

-- The identifiers 1 and 33 share a bucket.
abbrev defs : AttrDefs
defs = record {
  attr_def_list = bytes_def ∷ packets_def ∷ errors_def ∷ abort_def ∷ [];
  attr_id_gen = 34;
}

abbrev cfg : AttrCfg ℕ
cfg = record {
  cfg_rate = record { cfg_rate_interval = 10; cfg_rate_variance = 1 };
  cfg_read_interval = 10;
  cfg_history_variance = 1;
  history_defs = [];
}

abbrev eth0 : ElementAttrs ℕ
eth0 = record {
  e_attrhash = λ h. [];
  e_attr_sorted = [];
  e_nattrs = 0;
  e_key_major = some bytes_def;
  e_key_minor = some packets_def;
}

abbrev rx_only : UpdateFlags
rx_only = record { update_flag_rx = true; update_flag_tx = false }

abbrev now : Timestamp
now = record { tv_sec = pos 7; tv_usec = pos 0 }

abbrev with_bytes : ElementAttrs ℕ
with_bytes = attr_update whole_floats cfg defs eth0 1 100 0 rx_only now

-- The attribute in the bucket that `packets` shares is found beside it.
attr_lookup-attr_update_example :
    attr_lookup (attr_update whole_floats cfg defs with_bytes 33 5 0 rx_only now) 1 ≡ (
      if 1 == 33
      then Option.map (set_counters 5 0 rx_only now) (target whole_floats cfg defs with_bytes 33)
      else attr_lookup with_bytes 1)
attr_lookup-attr_update_example =
    attr_lookup-attr_update whole_floats cfg defs with_bytes 33 5 0 rx_only now 1

eth0-IsTracked : IsTracked eth0
unfolding attr_lookup find_attr find_id
eth0-IsTracked = record { count = refl; agree = λ j. refl }

attr_update-IsTracked_example : IsTracked with_bytes
attr_update-IsTracked_example =
    attr_update-IsTracked whole_floats cfg defs eth0 1 100 0 rx_only now eth0-IsTracked

abbrev key_list : List AttrDef
key_list = bytes_def ∷ packets_def ∷ []

keys-KeysFirst : KeysFirst eth0 key_list key_list
unfolding is_key
keys-KeysFirst = record {
  rest = [];
  parts = refl;
  are_keys = (refl, (refl, tt));
  no_key = tt;
  in_order = tt;
}

-- Three attributes: from the second, three moves forwards and two moves backwards.
forwards : attr_moves 3 (attr_select_next 3) (attr_at 1) ≡ attr_at 1
unfolding attr_select_next attr_select_first
forwards = refl

attr_select_prev-head_example :
    (attr_moves 2 (attr_select_prev 3) (attr_at 1) ≡ list_head)
    × (attr_select_prev 3 list_head ≡ attr_at 2)
attr_select_prev-head_example = attr_select_prev-head 3 1 (omega arith)
