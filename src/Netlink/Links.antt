-- ===== src/Netlink/Links.antt =====
-- src/in_netlink.c: the links and the objects of their traffic control as elements, `do_link` and
-- `netlink_read`. The list of a parent's children stands for the pointer to the parent.
use bmon.Prelude.{
  ℕ, ◌+◌, ◌-◌, Bool, true, false, not, ◌&&◌, ◌||◌, Option, none, some, List, [], ◌∷◌, ◌++◌,
  if◌then◌else◌, ◌==◌, ◌>>=◌, take,
}
use bmon.Prelude.Bytes.{Bytes, codes}
use bmon.Prelude.Int.{ℤ}
use bmon.Clock.{Timestamp}
use bmon.Floats.{Floats}
use bmon.AttrDef.{AttrDefs}
use bmon.Attr.{ElementAttrs, UpdateFlags, attr_update}
use bmon.Tree.{Elements, empty, entry}
use bmon.Element.{
  Element, ElementEnv, ElementStore, is_named, lookup_in, element_lookup, element_set_key_attr,
  element_set_usage_attr, element_set_txmax, element_update_info, element_notify_update,
  element_lifesign, write_element,
}
use bmon.Netlink.{NetAttr, link_update, update_tc_attrs}
use bmon.Netlink.Objects.{TcCaches, TcElements, cache_foreach, handle_tc}

-- The functions of libnl on a link. `rtnl_link_info` and `rtnl_tc_info` are the texts that are printed
-- for an information of the given name; `rtnl_link_is_up` is the flag IFF_UP.
pub record LinkFunctions (Link Tc : Type 0) : Type 0 where
  pub rtnl_link_is_up : Link → Bool
  pub rtnl_link_get_link : Link → ℕ
  pub rtnl_link_get_name : Link → Bytes
  pub rtnl_link_get_ifindex : Link → ℕ
  pub rtnl_link_get_stat : Link → ℕ → ℕ
  pub rtnl_link_info : Link → Bytes → Bytes
  pub rtnl_link_i2name : ℕ → Bytes
  pub rtnl_tc_handle2str : ℕ → Bytes
  pub rtnl_tc_get_stat : Tc → ℤ → ℕ
  pub rtnl_tc_info : Tc → Bytes → Bytes

-- The settings, the tables as `attr_map_load` left them, the time, `rtiming.rt_last_read`, and the fuel
-- of `history_update` and of the traversal. `has_qdiscs` says that `qdisc_cache` is not NULL.
pub record NetEnv (F : Type 0) : Type 0 where
  pub env : ElementEnv F
  pub link_attrs : List NetAttr
  pub tc_attrs : List NetAttr
  pub defs : AttrDefs
  pub now : Timestamp
  pub rt_last_read : Timestamp
  pub fuel : ℕ
  pub tc_fuel : ℕ
  pub cfg_show_all : Bool
  pub c_notc : Bool
  pub has_qdiscs : Bool

abbrev pub tc_info_names : List Bytes
tc_info_names = codes "MTU" ∷ codes "MPU" ∷ codes "Overhead" ∷ codes "Id" ∷ codes "Parent" ∷ []

abbrev pub link_info_names : List Bytes
link_info_names =
    codes "MTU"
    ∷ codes "Flags"
    ∷ codes "Operstate"
    ∷ codes "IfIndex"
    ∷ codes "Address"
    ∷ codes "Broadcast"
    ∷ codes "Mode"
    ∷ codes "TXQlen"
    ∷ codes "Family"
    ∷ codes "Alias"
    ∷ codes "Qdisc"
    ∷ []

module _ {F : Type 0} where
  -- One `element_update_info` for each name.
  unfoldable pub update_infos : (Bytes → Bytes) → List Bytes → Element F → Element F
  unfolding element_update_info
  update_infos value [] e = e
  update_infos value (name ∷ names) e =
      update_infos value names (element_update_info e name (value name))

  unfoldable pub update_tc_infos : (Bytes → Bytes) → Element F → Element F
  unfolding update_infos
  update_tc_infos value e = update_infos value tc_info_names e

  unfoldable pub update_link_infos : ℕ → (Bytes → Bytes) → Element F → Element F
  unfolding update_infos
  update_link_infos master value e =
      let e' = update_infos value link_info_names e in
      if master == 0
      then e'
      else element_update_info e' (codes "SlaveOfIndex") (value (codes "SlaveOfIndex"))

  unfoldable pub children_of : Bytes → ℕ → Elements (Element F) → Option (Elements (Element F))
  children_of name id empty = none
  children_of name id (entry e childs next) =
      if is_named name id e then some childs else children_of name id next

  unfoldable pub put_children :
      Bytes → ℕ → Elements (Element F) → Elements (Element F) → Elements (Element F)
  put_children name id childs' empty = empty
  put_children name id childs' (entry e childs next) =
      if is_named name id e
      then entry e childs' next
      else entry e childs (put_children name id childs' next)

  -- The work `f` in the list of the children of an element of the list.
  unfoldable pub with_parent :
      Bytes
      → ℕ
      → (ElementStore F → Option (ElementStore F))
      → ElementStore F
      → Option (ElementStore F)
  unfolding children_of put_children
  with_parent name id f st = elim (children_of name id st.elements) [
    | none ↦ some st
    | some childs ↦ do
      st' ← f (record st { elements = childs })
      some (record st' { elements = put_children name id st'.elements st.elements })
  ]

abbrev pub ifname_max : ℕ
ifname_max = 32

-- `snprintf(name, sizeof(name), "%s %s (%s)", prefix, buf, kind)`
abbrev pub tc_name : Bytes → Bytes → Bytes → Bytes
tc_name prefix buf kind =
    take (ifname_max - 1) (prefix ++ codes " " ++ buf ++ codes " (" ++ kind ++ codes ")")

module _ (fl : Floats) {Link Tc : Type 0} (ne : NetEnv fl.Float) (nl : TcCaches Tc)
    (lf : LinkFunctions Link Tc) where
  open fl use {Float}

  abbrev pub update : ℕ → ℕ → ℕ → UpdateFlags → ElementAttrs Float → ElementAttrs Float
  update id rx tx flags e = attr_update fl ne.env.attr_cfg ne.defs e id rx tx flags ne.now

  -- `if (element_set_key_attr(...) || element_set_usage_attr(...)) BUG();`
  unfoldable pub set_attrs : Bytes → Bytes → Element Float → Option (Element Float)
  unfolding element_set_key_attr element_set_usage_attr
  set_attrs major minor e =
      let (ok, e') = element_set_key_attr e major minor ne.defs in
      let (ok', e'') = element_set_usage_attr e' major ne.defs in
      if not ok || not ok' then none else some e''

  abbrev pub name_of : Bytes → Tc → Bytes
  name_of prefix tc =
      tc_name prefix (lf.rtnl_tc_handle2str (nl.rtnl_tc_get_handle tc)) (nl.rtnl_tc_get_kind tc)

  -- `if (e->e_flags & ELEMENT_FLAG_CREATED) { ... }` of handle_tc_obj.
  unfoldable pub setup_tc : ℕ → Tc → Element Float → Option (Element Float)
  unfolding set_attrs update_tc_infos
  setup_tc level tc e =
      let made : Option (Element Float) = (do
        e' ← set_attrs (codes "tc_bytes") (codes "tc_packets") (record e { e_level = level })
        some (record (update_tc_infos (lf.rtnl_tc_info tc) e') { e_created = false })) in
      if e.e_created then made else some e

  -- The update of the attributes, the notification and the lifesign of a traffic control object.
  unfoldable pub handle_tc_obj :
      Bytes → ℕ → Tc → ElementStore Float → Option (Bool × ElementStore Float)
  unfolding element_lookup setup_tc update_tc_attrs element_lifesign write_element
  handle_tc_obj prefix level tc st =
      let name = name_of prefix tc in
      let id = nl.rtnl_tc_get_handle tc in
      let (found, st') = element_lookup fl ne.env name id true st in
      elim found [
        | none ↦ some (false, st')
        | some e ↦ do
          e1 ← setup_tc level tc e
          e2 ←
              element_notify_update fl ne.fuel ne.env st'.cfgs
                (record e1 {
                  e_attrs = update_tc_attrs update (lf.rtnl_tc_get_stat tc) ne.tc_attrs e1.e_attrs;
                })
                ne.rt_last_read
          some (
            true,
            record st' {
              elements = write_element name id (element_lifesign ne.env e2 1) st'.elements;
            },
          )
      ]

  -- `element_set_txmax(e, rtnl_htb_get_rate(...))`, for the element of a class.
  unfoldable pub set_class_txmax : Tc → ElementStore Float → Option (ElementStore Float)
  unfolding lookup_in element_set_txmax write_element
  set_class_txmax tc st =
      let name = name_of (codes "class") tc in
      let id = nl.rtnl_tc_get_handle tc in
      elim (lookup_in name id st.elements) [
        | none ↦ some st
        | some e ↦
            let (e', cfgs') = element_set_txmax ne.env e (nl.rtnl_htb_get_rate tc) st.cfgs in
            some (record st { elements = write_element name id e' st.elements; cfgs = cfgs' })
      ]

  -- The operations of the traversal, on elements.
  abbrev pub tc_elements : TcElements Tc (ElementStore Float)
  tc_elements = record {
    handle_tc_obj = handle_tc_obj;
    set_txmax = set_class_txmax;
    in_children = λ prefix tc f st. with_parent (name_of prefix tc) (nl.rtnl_tc_get_handle tc) f st;
  }

  -- `if (e->e_flags & ELEMENT_FLAG_CREATED) { ... }` of do_link, with the level of the parent.
  unfoldable pub setup_link : Option ℕ → Link → Element Float → Option (Element Float)
  unfolding set_attrs update_link_infos
  setup_link parent link e =
      let made : Option (Element Float) = (do
        e' ←
            set_attrs (codes "bytes") (codes "packets")
              (elim parent [ none ↦ e | some level ↦ record e { e_level = level + 1 } ])
        some (record (update_link_infos (lf.rtnl_link_get_link link) (lf.rtnl_link_info link) e') {
          e_created = false;
        })) in
      if e.e_created then made else some e

  -- A link in the list that it belongs to.
  unfoldable pub link_element : Option ℕ → Link → ElementStore Float → Option (ElementStore Float)
  unfolding element_lookup setup_link link_update with_parent handle_tc element_lifesign
      write_element
  link_element parent link st =
      let name = lf.rtnl_link_get_name link in
      let id = lf.rtnl_link_get_ifindex link in
      let (found, st') = element_lookup fl ne.env name id true st in
      elim found [
        | none ↦ some st'
        | some e ↦ do
          e1 ← setup_link parent link e
          let e2 : Element Float = record e1 {
            e_attrs = link_update update (lf.rtnl_link_get_stat link) ne.link_attrs e1.e_attrs;
          }
          let st2 : ElementStore Float = record st' {
            elements = write_element name id e2 st'.elements;
          }
          st3 ←
              (if not ne.c_notc && ne.has_qdiscs
                then with_parent name id (handle_tc nl tc_elements ne.tc_fuel id) st2
                else some st2)
          e3 ← element_notify_update fl ne.fuel ne.env st3.cfgs e2 ne.rt_last_read
          some (record st3 {
            elements = write_element name id (element_lifesign ne.env e3 1) st3.elements;
          })
      ]

  -- The element of the master, where the link has one.
  unfoldable pub master_of : Link → ElementStore Float → Option (Element Float)
  unfolding element_lookup
  master_of link st =
      let master = lf.rtnl_link_get_link link in
      let found = element_lookup fl ne.env (lf.rtnl_link_i2name master) master false st in
      if master == 0 then none else found.0

  unfoldable pub do_link : Link → ElementStore Float → Option (ElementStore Float)
  unfolding master_of link_element with_parent
  do_link link st =
      let run : Option (ElementStore Float) = elim (master_of link st) [
        | none ↦ link_element none link st
        | some parent ↦
            with_parent parent.e_name parent.e_id (link_element (some parent.e_level) link) st
      ] in
      if not ne.cfg_show_all && not (lf.rtnl_link_is_up link) then some st else run

  -- The Boolean is the flag ENABLED of the module afterwards: a cache that cannot be read again
  -- disables it. `link_ok` and `qdisc_ok` are the results of nl_cache_resync.
  unfoldable pub netlink_read :
      Bool → Bool → List Link → ElementStore Float → Option (Bool × ElementStore Float)
  unfolding cache_foreach do_link
  netlink_read link_ok qdisc_ok link_cache st =
      let run : Option (Bool × ElementStore Float) = (do
        st' ← cache_foreach do_link link_cache st
        some (true, st')) in
      if not link_ok
      then some (false, st)
      else if ne.has_qdiscs && not qdisc_ok
      then some (false, st)
      else run
