-- ===== src/Module/Tests.antt =====
-- Two modules of a subsystem, one whose probe fails, over the number of runs as the state.

use bmon.Prelude.{ℕ, ◌+◌, refl, true, false, none, some, [], ◌∷◌}
use bmon.Prelude.Bytes.{codes}
use bmon.Module.{Module, Subsys, module_set}
use bmon.Module.Enabled.{AfterSet, module_set-AfterSet}

abbrev proc_module : Module ℕ
proc_module = record {
  m_name = codes "proc";
  m_init = none;
  m_probe = none;
  m_shutdown = none;
  m_parse_opt = none;
  m_pre = none;
  m_do = some (λ w. w + 1);
  m_post = none;
  m_enabled = false;
  m_default = true;
  m_auto = false;
}

abbrev broken_module : Module ℕ
broken_module = record proc_module { m_name = codes "netlink"; m_probe = some (λ w. (false, w)) }

abbrev input_subsys : Subsys ℕ
input_subsys = record {
  s_name = codes "input";
  s_nmod = 0;
  s_mod_list = broken_module ∷ proc_module ∷ [];
}

module_set-AfterSet_example :
    AfterSet input_subsys (module_set (some (codes "netlink,proc")) input_subsys 0)
module_set-AfterSet_example = module_set-AfterSet (some (codes "netlink,proc")) input_subsys 0 refl
