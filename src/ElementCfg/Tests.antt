-- ===== src/ElementCfg/Tests.antt =====
-- Configurations of `eth0` and `lo`.
use bmon.Prelude.{refl, [], ◌∷◌, arith}
use bmon.Prelude.Bytes.{Bytes, codes, str_eq}
use bmon.ElementCfg.{CfgList, new_cfg, incr_refcnt, element_cfg_lookup}
use bmon.ElementCfg.Laws.{IsValid}

abbrev eth0 : Bytes
eth0 = codes "eth0"

abbrev two_cfgs : CfgList
two_cfgs = incr_refcnt (new_cfg eth0) ∷ new_cfg (codes "lo") ∷ []

two_cfgs-IsValid : IsValid two_cfgs
unfolding element_cfg_lookup str_eq
two_cfgs-IsValid = (omega arith, refl, (omega arith, refl, tt))
