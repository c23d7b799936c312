-- ===== src/Element.antt =====
-- src/element.c: an element with its information, its attributes and its lifetime, and the lists of
-- elements that are searched, extended and swept. A pointer to a configuration is its name.
pub mod Facts
pub mod Lookup
pub mod Life
pub mod Ends
pub mod Notify
pub mod Write
pub mod Samples
mod Tests
use bmon.Prelude.{
  ℕ, zero, suc, ◌+◌, ◌-◌, ◌*◌, ◌%◌, ◌^◌, Bool, true, false, not, ◌&&◌, Option, none, some, List, [],
  ◌∷◌, ◌++◌, if◌then◌else◌, ◌==◌, ◌>>=◌,
}
use bmon.Prelude.Bytes.{Bytes, codes, str_eq}
use bmon.Clock.{Timestamp}
use bmon.Floats.{Floats}
use bmon.ElementCfg.{ElementCfg, CfgList, element_cfg_lookup, element_cfg_create, update_cfg}
use bmon.Policy.{Policies, element_allowed}
use bmon.AttrDef.{AttrDef, AttrDefs, attr_def_lookup}
use bmon.Rate.{attr_calc_usage}
use bmon.Attr.{
  Attr, ElementAttrs, AttrCfg, attr_hash_size, attr_lookup, set_bucket, attr_notify_update,
}
use bmon.Tree.{Elements, empty, entry}

pub record Info : Type 0 where
  pub i_name : Bytes
  pub i_value : Bytes

-- What `struct element` has beside its links; `e_updated` and `e_created` are the flags UPDATED and
-- CREATED.
pub record Element (F : Type 0) : Type 0 where
  pub e_name : Bytes
  pub e_id : ℕ
  pub e_updated : Bool
  pub e_created : Bool
  pub e_lifecycles : ℕ
  pub e_level : ℕ
  pub e_info_list : List Info
  pub e_ninfo : ℕ
  pub e_attrs : ElementAttrs F
  pub e_usage_attr : Option AttrDef
  pub e_rx_usage : F
  pub e_tx_usage : F
  pub e_cfg : Option Bytes

-- The configuration that the functions on elements read: the policy, the result of `get_lifecycles`,
-- how a `uint64_t` is printed, FLT_MAX, and what the attributes need.
pub record ElementEnv (F : Type 0) : Type 0 where
  pub policies : Policies
  pub lifecycles : ℕ
  pub show_u64 : ℕ → Bytes
  pub flt_max : F
  pub attr_cfg : AttrCfg F

unfoldable pub update_info : Bytes → Bytes → List Info → List Info
update_info name value [] = record { i_name = name; i_value = value } ∷ []
update_info name value (i ∷ infos) =
    if str_eq i.i_name name
    then record i { i_value = value } ∷ infos
    else i ∷ update_info name value infos

unfoldable pub element_info_lookup : Bytes → List Info → Option Info
element_info_lookup name [] = none
element_info_lookup name (i ∷ infos) =
    if str_eq i.i_name name then some i else element_info_lookup name infos

module _ {F : Type 0} where
  unfoldable pub element_update_info : Element F → Bytes → Bytes → Element F
  unfolding update_info element_info_lookup
  element_update_info e name value = record e {
    e_info_list = update_info name value e.e_info_list;
    e_ninfo = elim (element_info_lookup name e.e_info_list) [
      | some i ↦ e.e_ninfo
      | none ↦ e.e_ninfo + 1
    ];
  }

  -- `if (!e->e_cfg) e->e_cfg = element_cfg_create(e->e_name)`
  unfoldable pub with_cfg : Element F → CfgList → Element F × CfgList
  with_cfg e cfgs = elim e.e_cfg [
    | some name ↦ (e, cfgs)
    | none ↦ (record e { e_cfg = some e.e_name }, (element_cfg_create e.e_name cfgs).1)
  ]

  -- `if (ec_description) element_update_info(e, "Description", ec_description)`
  abbrev pub set_description : Element F → Option Bytes → Element F
  set_description e none = e
  set_description e (some description) = element_update_info e (codes "Description") description

  -- The name of the configuration that the element has after `with_cfg`.
  abbrev pub cfg_name : Element F → Bytes
  cfg_name e = elim e.e_cfg [ some name ↦ name | none ↦ e.e_name ]

  -- The bits that are shown for a number of bytes: `unit_bit2str` prints the number, as no unit is set.
  abbrev pub show_bits : ElementEnv F → ℕ → Bytes
  show_bits env max = env.show_u64 (max * 8 % 2 ^ 64)

  unfoldable pub element_set_rxmax : ElementEnv F → Element F → ℕ → CfgList → Element F × CfgList
  unfolding with_cfg element_update_info update_cfg
  element_set_rxmax env e max cfgs =
      let (e', cfgs') = with_cfg e cfgs in
      (
        element_update_info e' (codes "RxMax") (show_bits env max),
        update_cfg (cfg_name e) (λ ec. record ec { ec_rxmax = max }) cfgs',
      )

  unfoldable pub element_set_txmax : ElementEnv F → Element F → ℕ → CfgList → Element F × CfgList
  unfolding with_cfg element_update_info update_cfg
  element_set_txmax env e max cfgs =
      let (e', cfgs') = with_cfg e cfgs in
      (
        element_update_info e' (codes "TxMax") (show_bits env max),
        update_cfg (cfg_name e) (λ ec. record ec { ec_txmax = max }) cfgs',
      )

  -- The Boolean is the result 0.
  unfoldable pub element_set_key_attr : Element F → Bytes → Bytes → AttrDefs → Bool × Element F
  element_set_key_attr e major minor defs =
      let e' : Element F = record e {
        e_attrs = record (e.e_attrs) { e_key_major = attr_def_lookup major defs };
      } in
      let e'' : Element F = record e' {
        e_attrs = record (e'.e_attrs) { e_key_minor = attr_def_lookup minor defs };
      } in
      elim (attr_def_lookup major defs) [
        | none ↦ (false, e')
        | some _ ↦ elim (attr_def_lookup minor defs) [ none ↦ (false, e'') | some _ ↦ (true, e'') ]
      ]

  unfoldable pub element_set_usage_attr : Element F → Bytes → AttrDefs → Bool × Element F
  element_set_usage_attr e usage defs =
      let e' : Element F = record e { e_usage_attr = attr_def_lookup usage defs } in
      elim (attr_def_lookup usage defs) [ none ↦ (false, e') | some _ ↦ (true, e') ]

  unfoldable pub element_lifesign : ElementEnv F → Element F → ℕ → Element F
  element_lifesign env e n = record e { e_lifecycles = n * env.lifecycles % 2 ^ 32 }

  -- `none` where the element is freed. The count is unsigned, so it is never below 0.
  unfoldable pub element_check_if_dead : Element F → Option (Element F)
  element_check_if_dead e =
      let left = (e.e_lifecycles + 2 ^ 32 - 1) % 2 ^ 32 in
      if left == 0 then none else some (record e { e_lifecycles = left })

  abbrev pub is_named : Bytes → ℕ → Element F → Bool
  is_named name id e = str_eq name e.e_name && (e.e_id == id)

  -- The loop of `__lookup_element`.
  unfoldable pub lookup_in : Bytes → ℕ → Elements (Element F) → Option (Element F)
  lookup_in name id empty = none
  lookup_in name id (entry e childs next) =
      if is_named name id e then some e else lookup_in name id next

  -- A write through the pointer that a lookup returned.
  unfoldable pub write_element : Bytes → ℕ → Element F → Elements (Element F) → Elements (Element F)
  write_element name id e' empty = empty
  write_element name id e' (entry e childs next) =
      if is_named name id e
      then entry e' childs next
      else entry e childs (write_element name id e' next)

  -- `list_add_tail`
  unfoldable pub add_tail : Element F → Elements (Element F) → Elements (Element F)
  add_tail e' empty = entry e' empty empty
  add_tail e' (entry e childs next) = entry e childs (add_tail e' next)

  unfoldable pub size : Elements (Element F) → ℕ
  size empty = 0
  size (entry e childs next) = 1 + size childs + size next

  -- `group_foreach_recursive(&element_reset_update_flag)`, on one list.
  unfoldable pub reset_update_flags : Elements (Element F) → Elements (Element F)
  reset_update_flags empty = empty
  reset_update_flags (entry e childs next) =
      entry (record e { e_updated = false }) (reset_update_flags childs) (reset_update_flags next)

  -- `group_foreach_recursive(&element_check_if_dead)`, on one list. A freed element is freed with its
  -- children. The source then looks for children in the freed memory; here there are none.
  unfoldable pub free_unused_elements : Elements (Element F) → Elements (Element F)
  unfolding element_check_if_dead
  free_unused_elements empty = empty
  free_unused_elements (entry e childs next) =
      let childs' = free_unused_elements childs in
      let next' = free_unused_elements next in
      elim (element_check_if_dead e) [ none ↦ next' | some e' ↦ entry e' childs' next' ]

-- A list of elements, `g_nelements` of its group, and the configurations of elements.
pub record ElementStore (F : Type 0) : Type 0 where
  pub elements : Elements (Element F)
  pub g_nelements : ℕ
  pub cfgs : CfgList

-- The elements that a sweep frees, each of which `element_free` takes off `g_nelements`.
unfoldable pub freed : {F : Type 0} → Elements (Element F) → ℕ
unfolding element_check_if_dead size
freed empty = 0
freed (entry e childs next) =
    let here = freed childs in
    let rest = freed next in
    elim (element_check_if_dead e) [ none ↦ 1 + size childs + rest | some e' ↦ here + rest ]

-- `free_unused_elements` for one group.
unfoldable pub sweep : {F : Type 0} → ElementStore F → ElementStore F
unfolding freed free_unused_elements
sweep st = record st {
  elements = free_unused_elements st.elements;
  g_nelements = st.g_nelements - freed st.elements;
}

module _ (fl : Floats) where
  open fl use {Float, of_nat}

  -- What `element_lookup` allocates.
  unfoldable pub new_element : ElementEnv Float → Bytes → ℕ → Option ElementCfg → Element Float
  new_element env name id cfg = record {
    e_name = name;
    e_id = id;
    e_updated = false;
    e_created = true;
    e_lifecycles = env.lifecycles;
    e_level = 0;
    e_info_list = [];
    e_ninfo = 0;
    e_attrs = record {
      e_attrhash = λ h. [];
      e_attr_sorted = [];
      e_nattrs = 0;
      e_key_major = none;
      e_key_minor = none;
    };
    e_usage_attr = none;
    e_rx_usage = of_nat 0;
    e_tx_usage = of_nat 0;
    e_cfg = elim cfg [ none ↦ none | some ec ↦ some ec.ec_name ];
  }

  -- `if (e->e_cfg) { ... }` of `element_lookup`.
  unfoldable pub apply_cfg :
      ElementEnv Float → Element Float → Option ElementCfg → CfgList → Element Float × CfgList
  unfolding element_set_rxmax element_set_txmax element_update_info
  apply_cfg env e none cfgs = (e, cfgs)
  apply_cfg env e (some ec) cfgs =
      let (e', cfgs') =
        element_set_rxmax env (set_description e ec.ec_description) ec.ec_rxmax cfgs in
      element_set_txmax env e' ec.ec_txmax cfgs'

  -- The list is that of the group, or the children of the parent; `create` is the flag ELEMENT_CREAT.
  unfoldable pub element_lookup :
      ElementEnv Float
      → Bytes
      → ℕ
      → Bool
      → ElementStore Float
      → Option (Element Float) × ElementStore Float
  unfolding lookup_in new_element apply_cfg add_tail
  element_lookup env name id create st =
      let cfg = element_cfg_lookup name st.cfgs in
      let (e, cfgs') = apply_cfg env (new_element env name id cfg) cfg st.cfgs in
      elim (lookup_in name id st.elements) [
        | some old ↦ (some old, st)
        | none ↦
            if create && element_allowed env.policies name cfg
            then (
              some e,
              record {
                elements = add_tail e st.elements;
                g_nelements = st.g_nelements + 1;
                cfgs = cfgs';
              },
            )
            else (none, st)
      ]

  -- The inner loop of `element_notify_update`; `none` is a run out of fuel.
  unfoldable pub notify_list :
      ℕ → ElementEnv Float → Timestamp → List (Attr Float) → Option (List (Attr Float))
  notify_list fuel env ts [] = some []
  notify_list fuel env ts (a ∷ attrs) = do
    a' ← attr_notify_update fl fuel env.attr_cfg a ts
    attrs' ← notify_list fuel env ts attrs
    some (a' ∷ attrs')

  -- The loop over the first `n` buckets.
  unfoldable pub notify_buckets :
      ℕ
      → ElementEnv Float
      → Timestamp
      → ℕ
      → (ℕ → List (Attr Float))
      → Option (ℕ → List (Attr Float))
  unfolding notify_list set_bucket
  notify_buckets fuel env ts zero hash = some hash
  notify_buckets fuel env ts (suc n) hash = do
    hash' ← notify_buckets fuel env ts n hash
    attrs ← notify_list fuel env ts (hash' n)
    some (set_bucket hash' n attrs)

  -- The two usages, from the attribute of the usage and the configuration, where there are both.
  unfoldable pub usage_of : ElementEnv Float → CfgList → Element Float → Float × Float
  usage_of env cfgs e = elim e.e_usage_attr [
    | none ↦ (env.flt_max, env.flt_max)
    | some def ↦ elim e.e_cfg [
      | none ↦ (env.flt_max, env.flt_max)
      | some name ↦ elim (attr_lookup e.e_attrs def.ad_id) [
        | none ↦ (env.flt_max, env.flt_max)
        | some a ↦ elim (element_cfg_lookup name cfgs) [
          | none ↦ (env.flt_max, env.flt_max)
          | some ec ↦ (
            attr_calc_usage fl env.attr_cfg.cfg_rate env.flt_max a.a_def.ad_type a.a_rx_rate
                ec.ec_rxmax,
            attr_calc_usage fl env.attr_cfg.cfg_rate env.flt_max a.a_def.ad_type a.a_tx_rate
                ec.ec_txmax,
          )
        ]
      ]
    ]
  ]

  abbrev pub set_usage : ElementEnv Float → CfgList → Element Float → Element Float
  set_usage env cfgs e =
      let (rx, tx) = usage_of env cfgs e in record e { e_rx_usage = rx; e_tx_usage = tx }

  unfoldable pub element_notify_update :
      ℕ → ElementEnv Float → CfgList → Element Float → Timestamp → Option (Element Float)
  unfolding notify_buckets usage_of
  element_notify_update fuel env cfgs e ts = do
    hash ← notify_buckets fuel env ts attr_hash_size e.e_attrs.e_attrhash
    some (
        set_usage env cfgs
          (record e { e_updated = true; e_attrs = record (e.e_attrs) { e_attrhash = hash } }))

  -- `(unsigned int) (lifetime / read_interval)`, in double.
  unfoldable pub get_lifecycles : fl.Double → fl.Double → ℕ
  get_lifecycles lifetime read_interval = fl.to_u32 (fl.div_double lifetime read_interval)
