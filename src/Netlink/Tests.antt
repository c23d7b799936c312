-- ===== src/Netlink/Tests.antt =====
-- Links and traffic control objects at concrete values.
use Prim.Native.String.{String}
use bmon.Prelude.{
  ℕ, ◌+◌, ◌≡◌, refl, true, false, none, some, List, [], ◌∷◌, ◌++◌, ◌==◌, arith, if◌then◌else◌, ◌||◌,
}
use bmon.Prelude.Bytes.{codes, str_eq, tolower}
use bmon.Prelude.Int.{pos, negsuc}
use bmon.Floats.{whole_floats}
use bmon.Tree.{empty, entry}
use bmon.AttrDef.{AttrMap, attr_def_lookup, find_name}
use bmon.Attr.{UpdateFlags}
use bmon.Policy.{element_allowed, match_mask}
use bmon.ElementCfg.{element_cfg_lookup}
use bmon.Element.{Element, ElementStore, lookup_in, element_notify_update}
use bmon.Element.Samples.{bytes_def, defs, env, named, store, at_second}
use bmon.Netlink.{link_update, link_stat}
use bmon.Netlink.Objects.{
  TcCaches, TcElements, cache_foreach, handle_with, htb_rate, below_class, below_qdisc,
  handle_class, handle_qdisc, handle_tc, find_cls, handle_cls, find_classes, find_qdiscs,
}
use bmon.Netlink.Visits.{IsHierarchy}
use bmon.Netlink.Fuel.{handle_tc_unrolls}
use bmon.Netlink.Links.{LinkFunctions, NetEnv, tc_elements, master_of, do_link}

-- The qdisc 10 at the root has the classes 11 and 12 and a filter 15; the qdisc 20 is on the class 12,
-- and the class 13 is at the root.
abbrev classes : ℕ → ℕ → List ℕ
classes cache parent =
    if parent == 10 then 11 ∷ 12 ∷ [] else if parent == 4294967295 then 13 ∷ [] else []

abbrev caches : TcCaches ℕ
caches = record {
  rtnl_tc_get_handle = λ tc. tc;
  rtnl_tc_get_parent = λ tc.
      if tc == 10 then 4294967295 else if tc == 13 then 4294967295 else if tc == 20 then 12 else 10;
  rtnl_tc_get_ifindex = λ tc. 3;
  rtnl_tc_get_kind = λ tc. codes "htb";
  rtnl_htb_get_rate = λ tc. 1000;
  class_cache = λ ifindex. true;
  classes_of = classes;
  qdiscs_of = λ ifindex parent. if parent == 12 then 20 ∷ [] else [];
  cls_of = λ ifindex parent. if parent == 10 then 15 ∷ [] else [];
  qdisc_by_parent = λ ifindex parent. if parent == 4294967295 then some 10 else none;
  tc_h_root = 4294967295;
  tc_h_ingress = 4294967281;
}

-- The objects in the order in which they are handled, with their levels.
abbrev trace : TcElements ℕ (List (ℕ × ℕ))
trace = record {
  handle_tc_obj = λ prefix level tc s. some (true, s ++ (level, tc) ∷ []);
  set_txmax = λ tc s. some s;
  in_children = λ prefix tc f s. f s;
}

handled_in_order :
    handle_tc caches trace 3 3 []
    ≡ some ((1, 10) ∷ (2, 15) ∷ (2, 13) ∷ (2, 11) ∷ (2, 12) ∷ (3, 20) ∷ [])
unfolding handle_tc handle_class handle_qdisc find_cls handle_cls find_classes find_qdiscs
    cache_foreach str_eq
handled_in_order = refl

abbrev attr : AttrMap
attr = record {
  name = codes "bytes";
  description = codes "Bytes";
  unit = [];
  attrid = 1;
  type = bytes_def.ad_type;
  flags = bytes_def.ad_flags;
}

abbrev keep_update :
    ℕ → ℕ → ℕ → UpdateFlags → List (ℕ × ℕ × ℕ × UpdateFlags) → List (ℕ × ℕ × ℕ × UpdateFlags)
keep_update id rx tx flags e = (id, rx, tx, flags) ∷ e

-- A counter that is only received.
received_only :
    link_update keep_update
      (λ id. id + 100)
      (record { attr = attr; rxid = pos 2; txid = negsuc 0 } ∷ [])
      []
    ≡ (1, 102, 0, record { update_flag_rx = true; update_flag_tx = false }) ∷ []
unfolding link_update link_stat
received_only = refl

-- A link has a name, an index and the index of its master, 0 for none.
abbrev Link : Type 0
Link = String × ℕ × ℕ

abbrev link_functions : LinkFunctions Link ℕ
link_functions = record {
  rtnl_link_is_up = λ l. true;
  rtnl_link_get_link = λ l. l.2;
  rtnl_link_get_name = λ l. codes l.0;
  rtnl_link_get_ifindex = λ l. l.1;
  rtnl_link_get_stat = λ l id. 0;
  rtnl_link_info = λ l name. [];
  rtnl_link_i2name = λ i. codes "br0";
  rtnl_tc_handle2str = λ h. [];
  rtnl_tc_get_stat = λ tc id. 0;
  rtnl_tc_info = λ tc name. [];
}

abbrev net_env : NetEnv ℕ
net_env = record {
  env = env;
  link_attrs = [];
  tc_attrs = [];
  defs = defs;
  now = at_second 34;
  rt_last_read = at_second 34;
  fuel = 12;
  tc_fuel = 3;
  cfg_show_all = false;
  c_notc = true;
  has_qdiscs = true;
}

-- `eth2` was read before its master `br0`, so it has an element next to it.
abbrev br0 : Element ℕ
br0 = record (named "br0" 1) { e_id = 7 }

abbrev late_master : ElementStore ℕ
late_master = record store {
  elements = entry (record (named "eth2" 3) { e_id = 9 }) empty (entry br0 empty empty);
}

abbrev after_slave : ElementStore ℕ
after_slave = elim (do_link whole_floats net_env caches link_functions ("eth2", 9, 7) late_master) [
  | none ↦ late_master
  | some st ↦ st
]

-- The element of `eth2` next to its master stays as it was.
stale_slave :
    lookup_in (codes "eth2") 9 after_slave.elements
    ≡ lookup_in (codes "eth2") 9 late_master.elements
unfolding do_link master_of str_eq element_allowed element_cfg_lookup match_mask tolower
    attr_def_lookup find_name element_notify_update lookup_in
stale_slave = refl

-- The height of an object above the last one of its branch.
abbrev class_rank : ℕ → ℕ
class_rank tc = if (tc == 10) || (tc == 4294967295) then 2 else if tc == 12 then 1 else 0

abbrev qdisc_rank : ℕ → ℕ
qdisc_rank tc = if tc == 20 then 0 else 2

abbrev elements_of : TcElements ℕ (ElementStore ℕ)
elements_of = tc_elements whole_floats net_env caches link_functions

is_tree : IsHierarchy caches elements_of class_rank qdisc_rank 3
is_tree = record {
  classes = λ tc. ground arith;
  qdiscs = λ tc. ground arith;
  qdisc_classes = λ tc. ground arith;
  roots = λ tc h. ground arith;
}

-- On elements, the class 12 has the qdisc 20 below.
handle_tc_unrolls_example :
    let on_class = handle_class caches elements_of 3 3 in
    let on_qdisc = handle_qdisc caches elements_of 3 3 in
    (on_class 1 12 store
      ≡ handle_with caches elements_of
          (codes "class")
          1
          12
          (htb_rate caches elements_of 12)
          (below_class caches elements_of (on_class 2) (on_qdisc 2) 3 12)
          store)
    × (on_qdisc 1 10 store
        ≡ handle_with caches elements_of
            (codes "qdisc")
            1
            10
            (λ s'. some s')
            (below_qdisc caches elements_of (on_class 2) 3 2 10)
            store)
    × (handle_tc caches elements_of 3 3 store ≡ handle_tc caches elements_of 5 3 store)
handle_tc_unrolls_example =
    handle_tc_unrolls caches elements_of class_rank qdisc_rank 3 is_tree 3 5 1 12 10 store
      (omega arith) (omega arith) (omega arith, tt, tt) (omega arith, tt, tt)
