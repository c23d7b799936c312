-- ===== src/ElementCfg.antt =====
-- src/element_cfg.c: the reference-counted configurations of elements. The list `cfg_list` is the
-- state; a pointer into it is the name, which is unique in it.
pub mod Laws
mod Tests
use bmon.Prelude.{
  ℕ, ◌+◌, ◌-◌, Bool, false, Option, none, some, List, [], ◌∷◌, ◌++◌, if◌then◌else◌, ◌==◌,
}
use bmon.Prelude.Bytes.{Bytes, str_eq}

-- ELEMENT_CFG_SHOW and ELEMENT_CFG_HIDE of `ec_flags` are a field each.
pub record ElementCfg : Type 0 where
  pub ec_name : Bytes
  pub ec_description : Option Bytes
  pub ec_rxmax : ℕ
  pub ec_txmax : ℕ
  pub ec_show : Bool
  pub ec_hide : Bool
  pub ec_refcnt : ℕ

abbrev pub CfgList : Type 0
CfgList = List ElementCfg

unfoldable pub element_cfg_lookup : Bytes → CfgList → Option ElementCfg
element_cfg_lookup name [] = none
element_cfg_lookup name (ec ∷ cfg_list) =
    if str_eq name ec.ec_name then some ec else element_cfg_lookup name cfg_list

-- A write through the pointer that `element_cfg_lookup` returns.
unfoldable pub update_cfg : Bytes → (ElementCfg → ElementCfg) → CfgList → CfgList
update_cfg name f [] = []
update_cfg name f (ec ∷ cfg_list) =
    if str_eq name ec.ec_name then f ec ∷ cfg_list else ec ∷ update_cfg name f cfg_list

abbrev pub new_cfg : Bytes → ElementCfg
new_cfg name = record {
  ec_name = name;
  ec_description = none;
  ec_rxmax = 0;
  ec_txmax = 0;
  ec_show = false;
  ec_hide = false;
  ec_refcnt = 1;
}

abbrev pub incr_refcnt : ElementCfg → ElementCfg
incr_refcnt ec = record ec { ec_refcnt = ec.ec_refcnt + 1 }

-- The result is the configuration that the returned pointer leads to, and the list.
unfoldable pub element_cfg_alloc : Bytes → CfgList → ElementCfg × CfgList
element_cfg_alloc name cfg_list = elim (element_cfg_lookup name cfg_list) [
  | some ec ↦ (incr_refcnt ec, update_cfg name incr_refcnt cfg_list)
  | none ↦ (new_cfg name, cfg_list ++ new_cfg name ∷ [])
]

unfoldable pub element_cfg_create : Bytes → CfgList → ElementCfg × CfgList
element_cfg_create name cfg_list = elim (element_cfg_lookup name cfg_list) [
  | some ec ↦ (ec, cfg_list)
  | none ↦ element_cfg_alloc name cfg_list
]

-- `list_del` of the configuration that `name` points to.
unfoldable pub list_del_cfg : Bytes → CfgList → CfgList
list_del_cfg name [] = []
list_del_cfg name (ec ∷ cfg_list) =
    if str_eq name ec.ec_name then cfg_list else ec ∷ list_del_cfg name cfg_list

-- The argument is the pointer: NULL, or a configuration of the list. A count of 0 would fall below
-- it, to a number that is not 0.
unfoldable pub element_cfg_free : Option Bytes → CfgList → CfgList
unfolding update_cfg list_del_cfg
element_cfg_free none cfg_list = cfg_list
element_cfg_free (some name) cfg_list = elim (element_cfg_lookup name cfg_list) [
  | none ↦ cfg_list
  | some ec ↦
      if ec.ec_refcnt == 1
      then list_del_cfg name cfg_list
      else update_cfg name (λ ec. record ec { ec_refcnt = ec.ec_refcnt - 1 }) cfg_list
]
