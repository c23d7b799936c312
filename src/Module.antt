-- ===== src/Module.antt =====
-- src/module.c, src/input.c and src/output.c: the modules of the two subsystems. The callbacks of a
-- module are fields of it and act on a state `W` of the program; `quit` ends the program and is `none`.
-- A module is registered with one subsystem, so it stands in the list of that subsystem.
pub mod Enabled
mod Tests
use bmon.Prelude.{
  ℕ, ◌+◌, Bool, true, false, not, ◌&&◌, Option, none, some, List, [], ◌∷◌, ◌++◌, if◌then◌else◌,
  ◌==◌, ◌>>=◌,
}
use mathlib.Core.List.{foldl}
use bmon.Prelude.Bytes.{Bytes, codes, str_eq, str_case_eq}
use bmon.Conf.{Tv, ModuleConf, parse_module_param}

-- `struct bmon_module`, with its flags ENABLED, DEFAULT and AUTO. A callback that is NULL is `none`.
-- `m_init` returns whether it failed, and `m_probe` whether it succeeded.
pub record Module (W : Type 0) : Type 0 where
  pub m_name : Bytes
  pub m_init : Option (W → Bool × W)
  pub m_probe : Option (W → Bool × W)
  pub m_shutdown : Option (W → W)
  pub m_parse_opt : Option (Bytes → Option Bytes → W → W)
  pub m_pre : Option (W → W)
  pub m_do : Option (W → W)
  pub m_post : Option (W → W)
  pub m_enabled : Bool
  pub m_default : Bool
  pub m_auto : Bool

-- `struct bmon_subsys`
pub record Subsys (W : Type 0) : Type 0 where
  pub s_name : Bytes
  pub s_nmod : ℕ
  pub s_mod_list : List (Module W)

-- `m->m_subsys->s_nmod++` where the module was enabled.
abbrev pub count : Bool → ℕ → ℕ
count ok n = if ok then n + 1 else n

module _ {W : Type 0} where
  -- A callback that may be NULL.
  abbrev pub call : Option (W → W) → W → W
  call none w = w
  call (some f) w = f w

  unfoldable pub run_enabled : (Module W → Option (W → W)) → List (Module W) → W → W
  run_enabled cb [] w = w
  run_enabled cb (m ∷ ms) w = run_enabled cb ms (if m.m_enabled then call (cb m) w else w)

  unfoldable pub module_foreach_run_enabled_pre : Subsys W → W → W
  unfolding run_enabled
  module_foreach_run_enabled_pre ss w = run_enabled (λ m. m.m_pre) ss.s_mod_list w

  unfoldable pub module_foreach_run_enabled : Subsys W → W → W
  unfolding run_enabled
  module_foreach_run_enabled ss w = run_enabled (λ m. m.m_do) ss.s_mod_list w

  unfoldable pub module_foreach_run_enabled_post : Subsys W → W → W
  unfolding run_enabled
  module_foreach_run_enabled_post ss w = run_enabled (λ m. m.m_post) ss.s_mod_list w

  -- The loop over the options of a module.
  abbrev pub parse_opts : Option (Bytes → Option Bytes → W → W) → List Tv → W → W
  parse_opts none attrs w = w
  parse_opts (some f) [] w = w
  parse_opts (some f) (tv ∷ attrs) w = parse_opts (some f) attrs (f tv.tv_type tv.tv_value w)

  -- `cfg` may be NULL. The Boolean says whether the module was enabled (the result 0), and `s_nmod` of
  -- its subsystem counted up.
  unfoldable pub module_configure : Module W → Option ModuleConf → W → Bool × Module W × W
  module_configure m cfg w =
      let w' : W = elim cfg [ none ↦ w | some c ↦ parse_opts m.m_parse_opt c.m_attrs w ] in
      let enabled : Module W = record m { m_enabled = true } in
      elim m.m_probe [
        | none ↦ (true, enabled, w')
        | some probe ↦
            let (ok, w'') = probe w' in if ok then (true, enabled, w'') else (false, m, w'')
      ]

  -- `module_lookup` and `module_configure` of what it found; `none` where there is none of the name.
  unfoldable pub configure_named :
      Bytes → ModuleConf → List (Module W) → W → Option (Bool × List (Module W) × W)
  unfolding module_configure
  configure_named name cfg [] w = none
  configure_named name cfg (m ∷ ms) w =
      let (ok, m', w') = module_configure m (some cfg) w in
      let rest = configure_named name cfg ms w in
      if str_eq m.m_name name
      then some (ok, m' ∷ ms, w')
      else elim rest [ none ↦ none | some (ok', ms', w'') ↦ some (ok', m ∷ ms', w'') ]

  -- The loop of `module_set` over the modules of the command line.
  unfoldable pub configure_all : List ModuleConf → Subsys W → W → Option (Subsys W × W)
  unfolding configure_named
  configure_all [] ss w = some (ss, w)
  configure_all (cfg ∷ tmp_list) ss w = do
    (ok, ms, w') ← configure_named cfg.m_name cfg ss.s_mod_list w
    configure_all tmp_list (record ss { s_nmod = count ok ss.s_nmod; s_mod_list = ms }) w'

  -- `module_foreach(ss, __auto_load)`, with the number of modules that it enabled.
  unfoldable pub auto_load : List (Module W) → W → ℕ × List (Module W) × W
  unfolding module_configure
  auto_load [] w = (0, [], w)
  auto_load (m ∷ ms) w =
      let (ok, m', w') = module_configure m none w in
      let (n, ms', w'') = auto_load ms w' in
      let (n', ms'', w''') = auto_load ms w in
      if m.m_auto && not m.m_enabled then (count ok n, m' ∷ ms', w'') else (n', m ∷ ms'', w''')

  -- What follows the loop over the command line.
  unfoldable pub finish_set : Subsys W → W → Option (Bool × Subsys W × W)
  unfolding auto_load
  finish_set ss w =
      let (n, ms, w') = auto_load ss.s_mod_list w in
      if ss.s_nmod + n == 0
      then none
      else some (false, record ss { s_nmod = ss.s_nmod + n; s_mod_list = ms }, w')

  -- The Boolean is the result: 1 where the modules were only listed.
  unfoldable pub module_set : Option Bytes → Subsys W → W → Option (Bool × Subsys W × W)
  unfolding configure_all finish_set
  module_set none ss w = some (true, ss, w)
  module_set (some name) ss w = if str_case_eq name (codes "list") then some (true, ss, w) else (do
    (n, tmp_list) ← parse_module_param name []
    (ss', w') ← configure_all tmp_list ss w
    finish_set ss' w')

  -- The calls of `module_set` in `activate_default`, each made where the one before returned 1.
  unfoldable pub try_set : List Bytes → Subsys W → W → Option (Subsys W × W)
  unfolding module_set
  try_set [] ss w = none
  try_set (name ∷ names) ss w = do
    (listed, ss', w') ← module_set (some name) ss w
    (let rest = try_set names ss' w' in if listed then rest else some (ss', w'))

  abbrev pub default_names : List (Module W) → List Bytes
  default_names [] = []
  default_names (m ∷ ms) = if m.m_default then m.m_name ∷ default_names ms else default_names ms

  -- `first` are the names that are tried first: netlink and proc for the input (on Linux), curses and
  -- ascii for the output.
  unfoldable pub activate_default : List Bytes → Subsys W → W → Option (Subsys W × W)
  unfolding try_set
  activate_default first ss w =
      if ss.s_nmod == 0 then try_set (first ++ default_names ss.s_mod_list) ss w else some (ss, w)

  -- `module_foreach(ss, __module_init)`: enabled or not, every module is initialised.
  unfoldable pub init_modules : List (Module W) → W → List (Module W) × W
  init_modules [] w = ([], w)
  init_modules (m ∷ ms) w = elim m.m_init [
    | none ↦ let (ms', w') = init_modules ms w in (m ∷ ms', w')
    | some init ↦
        let (failed, w') = init w in
        let (ms', w'') = init_modules ms w' in
        ((if failed then record m { m_enabled = false } else m) ∷ ms', w'')
  ]

  -- `module_init` for one subsystem.
  unfoldable pub init_subsys : List Bytes → Subsys W → W → Option (Subsys W × W)
  unfolding activate_default init_modules
  init_subsys first ss w = do
    (ss', w') ← activate_default first ss w
    (let (ms, w'') = init_modules ss'.s_mod_list w' in some (record ss' { s_mod_list = ms }, w''))

  -- `module_foreach(ss, __module_shutdown)`
  unfoldable pub shutdown_modules : List (Module W) → W → List (Module W) × W
  shutdown_modules [] w = ([], w)
  shutdown_modules (m ∷ ms) w = elim m.m_shutdown [
    | none ↦ let (ms', w') = shutdown_modules ms w in (m ∷ ms', w')
    | some shutdown ↦
        let (ms', w') = shutdown_modules ms (shutdown w) in
        (record m { m_enabled = false } ∷ ms', w')
  ]
