-- ===== src/Netlink/Objects.antt =====
-- src/in_netlink.c: the traversal of the traffic control objects of a link. What is done with one
-- object is a record of operations, `TcElements`, on a list of elements `S`.
use bmon.Prelude.{
  ℕ, zero, suc, ◌+◌, Bool, Option, none, some, List, [], ◌∷◌, if◌then◌else◌, ◌==◌, ◌>>=◌,
}
use bmon.Prelude.Bytes.{Bytes, codes, str_eq}

-- The functions of libnl on a traffic control object, and on the caches: the objects of a cache with a
-- given interface and parent. `class_cache` says whether the classes of an interface could be read.
pub record TcCaches (Tc : Type 0) : Type 0 where
  pub rtnl_tc_get_handle : Tc → ℕ
  pub rtnl_tc_get_parent : Tc → ℕ
  pub rtnl_tc_get_ifindex : Tc → ℕ
  pub rtnl_tc_get_kind : Tc → Bytes
  pub rtnl_htb_get_rate : Tc → ℕ
  pub class_cache : ℕ → Bool
  pub classes_of : ℕ → ℕ → List Tc
  pub qdiscs_of : ℕ → ℕ → List Tc
  pub cls_of : ℕ → ℕ → List Tc
  pub qdisc_by_parent : ℕ → ℕ → Option Tc
  pub tc_h_root : ℕ
  pub tc_h_ingress : ℕ

-- What is done with one object. `handle_tc_obj` takes the prefix of the name and the level, and says
-- whether there is an element; `in_children` goes on in the list of the element's children. `none` is
-- the end of the program or a run out of fuel.
pub record TcElements (Tc S : Type 0) : Type 0 where
  pub handle_tc_obj : Bytes → ℕ → Tc → S → Option (Bool × S)
  pub set_txmax : Tc → S → Option S
  pub in_children : Bytes → Tc → (S → Option S) → S → Option S

-- `nl_cache_foreach`
unfoldable pub cache_foreach : {Tc S : Type 0} → (Tc → S → Option S) → List Tc → S → Option S
cache_foreach cb [] s = some s
cache_foreach cb (tc ∷ tcs) s = cb tc s >>= cache_foreach cb tcs

module _ {Tc S : Type 0} (nl : TcCaches Tc) (ops : TcElements Tc S) where
  unfoldable pub handle_cls : ℕ → Tc → S → Option S
  handle_cls level tc s = do (found, s') ← ops.handle_tc_obj (codes "cls") level tc s; some s'

  unfoldable pub find_cls : ℕ → ℕ → ℕ → S → Option S
  unfolding cache_foreach handle_cls
  find_cls level ifindex parent s = cache_foreach (handle_cls level) (nl.cls_of ifindex parent) s

  -- The callback is `handle_qdisc` and `handle_class`, with what they pass on.
  unfoldable pub find_qdiscs : (Tc → S → Option S) → ℕ → ℕ → S → Option S
  unfolding cache_foreach
  find_qdiscs cb ifindex parent s = cache_foreach cb (nl.qdiscs_of ifindex parent) s

  unfoldable pub find_classes : (Tc → S → Option S) → ℕ → ℕ → S → Option S
  unfolding cache_foreach
  find_classes cb cache parent s = cache_foreach cb (nl.classes_of cache parent) s

  -- `if (!(e = handle_tc_obj(tc, prefix, rdata))) return;`, and the rest with the element as parent.
  abbrev pub handle_with : Bytes → ℕ → Tc → (S → Option S) → (S → Option S) → S → Option S
  handle_with prefix level tc set below s = do
    (found, s') ← ops.handle_tc_obj prefix level tc s
    (if found then (do s'' ← set s'; ops.in_children prefix tc below s'') else some s')

  -- What is done in the list of the children: of a class, whose rate is the maximum to send, and of a
  -- qdisc. The callbacks go on with the classes and the qdiscs.
  abbrev pub htb_rate : Tc → S → Option S
  htb_rate tc s =
      if str_eq (nl.rtnl_tc_get_kind tc) (codes "htb") then ops.set_txmax tc s else some s

  abbrev pub below_class : (Tc → S → Option S) → (Tc → S → Option S) → ℕ → Tc → S → Option S
  below_class on_class on_qdisc cache tc s = do
    s' ← find_classes on_class cache (nl.rtnl_tc_get_handle tc) s
    find_qdiscs on_qdisc (nl.rtnl_tc_get_ifindex tc) (nl.rtnl_tc_get_handle tc) s'

  abbrev pub root_classes : (Tc → S → Option S) → ℕ → ℕ → Tc → S → Option S
  root_classes on_class cache level tc s =
      if nl.rtnl_tc_get_parent tc == nl.tc_h_root
      then (do
        s' ← find_cls level (nl.rtnl_tc_get_ifindex tc) nl.tc_h_root s
        find_classes on_class cache nl.tc_h_root s')
      else some s

  abbrev pub below_qdisc : (Tc → S → Option S) → ℕ → ℕ → Tc → S → Option S
  below_qdisc on_class cache level tc s = do
    s1 ← find_cls level (nl.rtnl_tc_get_ifindex tc) (nl.rtnl_tc_get_handle tc) s
    s2 ← root_classes on_class cache level tc s1
    find_classes on_class cache (nl.rtnl_tc_get_handle tc) s2

  -- The classes of `cache` are those of the link's interface.
  unfoldable mutual
    pub handle_class : ℕ → ℕ → ℕ → Tc → S → Option S
    handle_class zero cache level tc s = none
    handle_class (suc fuel) cache level tc s =
        handle_with (codes "class") level tc (htb_rate tc)
          (below_class (handle_class fuel cache (level + 1)) (handle_qdisc fuel cache (level + 1))
            cache tc)
          s

    pub handle_qdisc : ℕ → ℕ → ℕ → Tc → S → Option S
    handle_qdisc zero cache level tc s = none
    handle_qdisc (suc fuel) cache level tc s =
        handle_with (codes "qdisc") level tc (λ s'. some s')
          (below_qdisc (handle_class fuel cache (level + 1)) cache (level + 1) tc) s

  -- `if (qdisc) { ... }`
  abbrev pub handle_root : ℕ → ℕ → Option Tc → S → Option S
  handle_root fuel ifindex none s = some s
  handle_root fuel ifindex (some qdisc) s = handle_qdisc fuel ifindex 1 qdisc s

  -- The qdiscs of the link's interface, in the list of the link's children.
  unfoldable pub handle_tc : ℕ → ℕ → S → Option S
  handle_tc fuel ifindex s =
      if nl.class_cache ifindex
      then (do
        s1 ← handle_root fuel ifindex (nl.qdisc_by_parent ifindex nl.tc_h_root) s
        s2 ← handle_root fuel ifindex (nl.qdisc_by_parent ifindex 0) s1
        handle_root fuel ifindex (nl.qdisc_by_parent ifindex nl.tc_h_ingress) s2)
      else some s
