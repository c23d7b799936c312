-- ===== src/Proc/Tests.antt =====
-- Lines of /proc/net/dev at concrete values.

use bmon.Prelude.{ℕ, ◌≡◌, refl, none, some, List, [], ◌∷◌, ◌==◌, arith, Bool-cases, inl, inr}
use bmon.Prelude.Bytes.{Bytes, codes, str_eq, tolower}
use bmon.Floats.{whole_floats}
use bmon.AttrDef.{AttrMap, attr_def_lookup_id, find_id}
use bmon.Attr.{attr_update, set_bucket, attr_lookup, collect_history, attr_notify_update}
use bmon.History.{history_attach, history_update, discard, store_both}
use bmon.Prelude.Int.{◌-ℤ◌}
use bmon.ElementCfg.{element_cfg_lookup}
use bmon.Policy.{element_allowed, match_mask}
use bmon.Element.{ElementStore, lookup_in, element_lookup, element_notify_update}
use bmon.Element.Ends.{AttrsEnd}
use bmon.Element.Samples.{
  bytes_def, packets_def, defs, env, named, store, history-Ends, store-IsCounted, at_second,
}
use bmon.Proc.{
  ProcEnv, proc_parse, proc_update, update_attr, setup_created, proc_line, proc_lines, proc_read,
}
use bmon.Proc.Stop.{proc_read-denied}
use bmon.Proc.Attrs.{AllDistinct, AllDefined, AllCurrent, proc_update-AllCurrent}
use bmon.Proc.Line.{updated_attrs, AfterLine, proc_line-AfterLine}

abbrev link : ℕ → AttrMap
link id = record {
  name = [];
  description = [];
  unit = [];
  attrid = id;
  type = bytes_def.ad_type;
  flags = bytes_def.ad_flags;
}

abbrev sixteen : Bytes → List ℕ
sixteen s = 100 ∷ 2 ∷ 0 ∷ 0 ∷ 0 ∷ 0 ∷ 0 ∷ 0 ∷ 50 ∷ 1 ∷ 0 ∷ 0 ∷ 0 ∷ 0 ∷ 0 ∷ 0 ∷ []

abbrev pe : ProcEnv ℕ
pe = record {
  env = env;
  link_attrs = link 1 ∷ link 33 ∷ [];
  defs = defs;
  now = at_second 34;
  rt_last_read = at_second 34;
  fuel = 12;
  sscanf = sixteen;
}

abbrev values : List (ℕ × ℕ)
values = (100, 50) ∷ (2, 1) ∷ (0, 0) ∷ (0, 0) ∷ (0, 0) ∷ (0, 0) ∷ (0, 0) ∷ (0, 0) ∷ []

distinct : AllDistinct pe.link_attrs
distinct = ((omega arith, tt), (tt, tt))

defined : AllDefined pe.link_attrs pe.defs
unfolding attr_def_lookup_id find_id
defined = ((bytes_def, refl), ((packets_def, refl), tt))

proc_update-AllCurrent_example :
    AllCurrent pe.link_attrs values
      (proc_update (update_attr whole_floats pe) pe.link_attrs values (named "eth0" 3).e_attrs)
proc_update-AllCurrent_example =
    proc_update-AllCurrent whole_floats pe pe.link_attrs values (named "eth0" 3).e_attrs distinct
      defined

-- The store behind the line of `eth0`.
abbrev read_eth0 : ElementStore ℕ
read_eth0 = elim (proc_lines whole_floats pe (codes "eth0: 100 2" ∷ []) store) [
  | none ↦ store
  | some st ↦ st
]

proc_read-denied_example :
    proc_read whole_floats pe
      ([] ∷ [] ∷ codes "eth0: 100 2" ∷ codes "lo: 1" ∷ codes "eth1: 1" ∷ [])
      store
    ≡ proc_read whole_floats pe ([] ∷ [] ∷ codes "eth0: 100 2" ∷ []) store
unfolding proc_read proc_lines proc_line proc_parse element_lookup lookup_in str_eq element_allowed
    element_cfg_lookup match_mask tolower element_notify_update attr_update attr_lookup
    attr_def_lookup_id find_id attr_notify_update history_update ◌-ℤ◌ discard store_both
    collect_history history_attach
proc_read-denied_example =
    proc_read-denied whole_floats pe (codes "lo: 1") [] [] (codes "eth0: 100 2" ∷ [])
      (codes "eth1: 1" ∷ []) store read_eth0 (codes "lo") values refl refl refl refl

no_history_late :
    (h : ℕ)
    → AttrsEnd whole_floats pe.fuel pe.rt_last_read
        ((updated_attrs whole_floats pe values (named "eth0" 3)).e_attrhash h)
unfolding proc_update attr_update set_bucket attr_lookup attr_def_lookup_id find_id collect_history
    history_attach
no_history_late h = elim (Bool-cases (h == 1)) [
  | inl s ↦ rw s ((history-Ends, tt), (tt, tt))
  | inr s ↦ rw s tt
]

proc_line-AfterLine_example :
    AfterLine whole_floats pe
      (codes "eth0")
      values
      store
      (proc_line whole_floats pe (codes "  eth0: 100 2") store)
unfolding proc_parse element_lookup setup_created str_eq
proc_line-AfterLine_example =
    proc_line-AfterLine whole_floats pe (codes "  eth0: 100 2") (codes "eth0") values store
      (named "eth0" 3) (named "eth0" 3) store-IsCounted distinct defined refl refl refl
      no_history_late
