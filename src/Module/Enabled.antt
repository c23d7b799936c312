-- ===== src/Module/Enabled.antt =====
-- Whether a subsystem has an enabled module, and what `s_nmod` says of it.
use bmon.Prelude.{
  ℕ, ◌+◌, ◌≡◌, refl, Bool, true, false, not, ◌||◌, Option, none, some, List, [], ◌∷◌, ◌++◌, arith,
  ◌==◌, if◌then◌else◌, Bool-cases, Option-cases, inl, inr, ◌>>=◌,
}
use mathlib.Core.Option
use bmon.Prelude.Bytes.{Bytes, codes, str_eq, str_case_eq}
use bmon.Conf.{ModuleConf, parse_module_param}
use bmon.Module.{
  Module, Subsys, count, module_configure, configure_named, configure_all, auto_load, finish_set,
  module_set, try_set, activate_default, default_names,
}

module _ {W : Type 0} where
  abbrev pub any_enabled : List (Module W) → Bool
  any_enabled [] = false
  any_enabled (m ∷ ms) = m.m_enabled || any_enabled ms

  -- `s_nmod` is 0 exactly where no module is enabled. It is not their number: a module that is named
  -- twice counts twice.
  abbrev pub CountsEnabled : ℕ → List (Module W) → Type 0
  CountsEnabled n ms = any_enabled ms ≡ not (n == 0)

  -- The module is enabled where it was, or where this was its success.
  module_configure-enabled :
      (m : Module W) (cfg : Option ModuleConf) (w : W)
      → (module_configure m cfg w).1.m_enabled ≡ ((module_configure m cfg w).0 || m.m_enabled)
  unfolding module_configure
  module_configure-enabled m cfg w = ground arith

  abbrev EnabledAfter : List (Module W) → Option (Bool × List (Module W) × W) → Type 0
  EnabledAfter ms none = Unit
  EnabledAfter ms (some (ok, ms', w')) = any_enabled ms' ≡ (ok || any_enabled ms)

  EnabledAfter-behind :
      (m : Module W) (ms : List (Module W)) (o : Option (Bool × List (Module W) × W))
      → EnabledAfter ms o
      → EnabledAfter (m ∷ ms) (elim o [ none ↦ none | some (ok, ms', w') ↦ some (ok, m ∷ ms', w') ])
  EnabledAfter-behind m ms none h = tt
  EnabledAfter-behind m ms (some (ok, ms', w')) h = ground (arith, h)

  configure_named-enabled :
      (name : Bytes) (cfg : ModuleConf) (ms : List (Module W)) (w : W)
      → EnabledAfter ms (configure_named name cfg ms w)
  unfolding configure_named
  configure_named-enabled name cfg [] w = tt
  configure_named-enabled name cfg (m ∷ ms) w = elim (Bool-cases (str_eq m.m_name name)) [
    | inl e ↦ rw e (ground (arith, module_configure-enabled m (some cfg) w))
    | inr e ↦ rw e (EnabledAfter-behind m ms _ (configure_named-enabled name cfg ms w))
  ]

  auto_load-enabled :
      (ms : List (Module W)) (w : W)
      → any_enabled (auto_load ms w).1 ≡ (not ((auto_load ms w).0 == 0) || any_enabled ms)
  unfolding auto_load
  auto_load-enabled [] w = refl
  auto_load-enabled (m ∷ ms) w =
      let (ok, m', w') = module_configure m none w in
      ground
        (arith, module_configure-enabled m none w, auto_load-enabled ms w, auto_load-enabled ms w')

  abbrev CountsAfter : Option (Subsys W × W) → Type 0
  CountsAfter none = Unit
  CountsAfter (some (ss, w)) = CountsEnabled ss.s_nmod ss.s_mod_list

  count-CountsEnabled :
      (ok : Bool) (n : ℕ) (ms ms' : List (Module W))
      → CountsEnabled n ms
      → any_enabled ms' ≡ (ok || any_enabled ms)
      → CountsEnabled (count ok n) ms'
  count-CountsEnabled true n ms ms' h e = ground (arith, h, e)
  count-CountsEnabled false n ms ms' h e = ground (arith, h, e)

  configure_all-CountsEnabled :
      (tmp_list : List ModuleConf) (ss : Subsys W) (w : W)
      → CountsEnabled ss.s_nmod ss.s_mod_list
      → CountsAfter (configure_all tmp_list ss w)
  unfolding configure_all
  configure_all-CountsEnabled [] ss w h = h
  configure_all-CountsEnabled (cfg ∷ tmp_list) ss w h =
      let e = configure_named-enabled cfg.m_name cfg ss.s_mod_list w in
      elim (Option-cases (configure_named cfg.m_name cfg ss.s_mod_list w)) [
        | inl n ↦ rw n tt
        | inr ((ok, ms, w'), q) ↦ rw q (
            configure_all-CountsEnabled tmp_list
              (record ss { s_nmod = count ok ss.s_nmod; s_mod_list = ms }) w'
              (count-CountsEnabled ok ss.s_nmod ss.s_mod_list ms h (rw q at e)))
      ]

  -- What a call of `module_set` leaves: with the result 1 the subsystem as it was, with the result 0 one
  -- with an enabled module.
  abbrev pub AfterSet : Subsys W → Option (Bool × Subsys W × W) → Type 0
  AfterSet ss none = Unit
  AfterSet ss (some (true, ss', w)) = ss' ≡ ss
  AfterSet ss (some (false, ss', w)) =
      (any_enabled ss'.s_mod_list ≡ true) × CountsEnabled ss'.s_nmod ss'.s_mod_list

  finish_set-AfterSet :
      (ss ss' : Subsys W) (w : W)
      → CountsEnabled ss'.s_nmod ss'.s_mod_list
      → AfterSet ss (finish_set ss' w)
  unfolding finish_set
  finish_set-AfterSet ss ss' w h =
      let e = auto_load-enabled ss'.s_mod_list w in
      elim (Bool-cases (ss'.s_nmod + (auto_load ss'.s_mod_list w).0 == 0)) [
        | inl z ↦ rw z tt
        | inr z ↦ rw z (ground (arith, h, e), ground (arith, h, e))
      ]

  -- Where `s_nmod` is 0 exactly if no module is enabled, and a call of `module_set` returns, it either
  -- returned 1 and changed nothing, or it returned 0, a module is enabled, and `s_nmod` still says so.
  pub module_set-AfterSet :
      (name : Option Bytes) (ss : Subsys W) (w : W)
      → CountsEnabled ss.s_nmod ss.s_mod_list
      → AfterSet ss (module_set name ss w)
  unfolding module_set
  module_set-AfterSet none ss w h = refl
  module_set-AfterSet (some name) ss w h = elim (Bool-cases (str_case_eq name (codes "list"))) [
    | inl e ↦ rw e refl
    | inr e ↦ rw e (elim (Option-cases (parse_module_param name [])) [
      | inl n ↦ rw n tt
      | inr ((k, tmp_list), q) ↦ rw q (
          let c = configure_all-CountsEnabled tmp_list ss w h in
          elim (Option-cases (configure_all tmp_list ss w)) [
            | inl n ↦ rw n tt
            | inr ((ss', w'), r) ↦ rw r (finish_set-AfterSet ss ss' w' (rw r at c))
          ])
    ])
  ]

  -- The result of `module_set` is 0 where it returns at all.
  abbrev ReturnsZero : Option (Bool × Subsys W × W) → Type 0
  ReturnsZero none = Unit
  ReturnsZero (some (listed, ss, w)) = listed ≡ false

  finish_set-ReturnsZero : (ss : Subsys W) (w : W) → ReturnsZero (finish_set ss w)
  unfolding finish_set
  finish_set-ReturnsZero ss w = elim (Bool-cases (ss.s_nmod + (auto_load ss.s_mod_list w).0 == 0)) [
    | inl z ↦ rw z tt
    | inr z ↦ rw z refl
  ]

  module_set-ReturnsZero :
      (name : Bytes) (ss : Subsys W) (w : W)
      → str_case_eq name (codes "list") ≡ false
      → ReturnsZero (module_set (some name) ss w)
  unfolding module_set
  module_set-ReturnsZero name ss w e = rw e (elim (Option-cases (parse_module_param name [])) [
    | inl n ↦ rw n tt
    | inr ((k, tmp_list), q) ↦ rw q (elim (Option-cases (configure_all tmp_list ss w)) [
      | inl n ↦ rw n tt
      | inr ((ss', w'), r) ↦ rw r (finish_set-ReturnsZero ss' w')
    ])
  ])

  abbrev pub without_result : Bool × Subsys W × W → Subsys W × W
  without_result r = (r.1, r.2)

  try_set-ReturnsZero :
      (o : Option (Bool × Subsys W × W)) (rest : Subsys W → W → Option (Subsys W × W))
      → ReturnsZero o
      → (o >>= λ (listed, ss', w'). if listed then rest ss' w' else some (ss', w'))
        ≡ Option.map without_result o
  try_set-ReturnsZero none rest h = refl
  try_set-ReturnsZero (some (listed, ss, w)) rest h = rw h refl

  -- Only the first of the default modules is tried, as `module_set` ends the program where it cannot
  -- enable it: the others, and the modules that are marked as a default, are never reached. The first
  -- name is not `list`, and no module is enabled.
  pub activate_default-first :
      (name : Bytes) (names : List Bytes) (ss : Subsys W) (w : W)
      → str_case_eq name (codes "list") ≡ false
      → ss.s_nmod ≡ 0
      → activate_default (name ∷ names) ss w
        ≡ Option.map without_result (module_set (some name) ss w)
  unfolding activate_default try_set
  activate_default-first name names ss w e z =
      let z' : (ss.s_nmod == 0) ≡ true = ground arith in
      rw z' (
        try_set-ReturnsZero (module_set (some name) ss w)
          (try_set (names ++ default_names ss.s_mod_list)) (module_set-ReturnsZero name ss w e))
