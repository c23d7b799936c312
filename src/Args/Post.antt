-- ===== src/Args/Post.antt =====
-- src/bmon.c: what the second pass over the options does to the modules.
use bmon.Prelude.{
  ℕ, ◌≡◌, refl, ◌⊎◌, Bool, true, false, Option, none, some, List, [], ◌∷◌, if◌then◌else◌, ◌==◌,
  ◌||◌, ◌>>=◌, Bool-cases, inl, inr, arith, ◌∙◌, ap,
}
use bmon.Prelude.Bytes.{Bytes}
use bmon.Module.{Subsys, module_set}
use bmon.Module.Enabled.{any_enabled, CountsEnabled, AfterSet, module_set-AfterSet}
use bmon.Args.{Opt, Confuse, Program, set_option, post_option, parse_args_post}

abbrev pub has : ℕ → List Opt → Bool
has k [] = false
has k ((o, optarg) ∷ opts) = (k == o) || has k opts

module _ {W : Type 0} where
  -- The options with the letter `k` set the modules of a subsystem: one is enabled then, and nothing
  -- changes where there is no such option.
  abbrev pub SetBy : ℕ → List Opt → Subsys W → Subsys W → Type 0
  SetBy k opts ss ss' = (any_enabled ss'.s_mod_list ≡ true) ⊎ (has k opts ≡ false) × (ss' ≡ ss)

  abbrev pub BothCount : {C : Type 0} → Program C W → Type 0
  BothCount p =
      CountsEnabled p.input_subsys.s_nmod p.input_subsys.s_mod_list
      × CountsEnabled p.output_subsys.s_nmod p.output_subsys.s_mod_list

  abbrev pub AfterPost :
      {C : Type 0} → List Opt → Program C W → Option (Bool × Program C W) → Type 0
  AfterPost opts p none = Unit
  AfterPost opts p (some (true, p')) = (has 105 opts || has 111 opts) ≡ true
  AfterPost opts p (some (false, p')) =
      SetBy 105 opts p.input_subsys p'.input_subsys
      × SetBy 111 opts p.output_subsys p'.output_subsys
      × BothCount p'

module _ {C D W : Type 0} (co : Confuse C D) where
  -- A call of `module_set` for the inputs, and one for the outputs.
  input-AfterPost :
      (optarg : Bytes) (p : Program C W) (r : Option (Bool × Subsys W × W))
      → BothCount p
      → AfterSet p.input_subsys r
      → AfterPost
          ((105, optarg) ∷ [])
          p
          (r >>= λ (listed, ss, w). some (listed, record p { input_subsys = ss; world = w }))
  input-AfterPost optarg p none c h = tt
  input-AfterPost optarg p (some (true, ss, w)) c h = refl
  input-AfterPost optarg p (some (false, ss, w)) c h = (inl h.0, inr (refl, refl), (h.1, c.1))

  output-AfterPost :
      (optarg : Bytes) (p : Program C W) (r : Option (Bool × Subsys W × W))
      → BothCount p
      → AfterSet p.output_subsys r
      → AfterPost
          ((111, optarg) ∷ [])
          p
          (r >>= λ (listed, ss, w). some (listed, record p { output_subsys = ss; world = w }))
  output-AfterPost optarg p none c h = tt
  output-AfterPost optarg p (some (true, ss, w)) c h = refl
  output-AfterPost optarg p (some (false, ss, w)) c h = (inr (refl, refl), inl h.0, (c.0, h.1))

  -- An option that is none of the two.
  other-AfterPost :
      (o : ℕ) (optarg : Bytes) (p : Program C W) (r : Option C)
      → (105 == o) ≡ false
      → (111 == o) ≡ false
      → BothCount p
      → AfterPost ((o, optarg) ∷ []) p (r >>= λ cfg. some (false, record p { cfg = cfg }))
  other-AfterPost o optarg p none i u c = tt
  other-AfterPost o optarg p (some cfg) i u c = (inr (rw i refl, refl), inr (rw u refl, refl), c)

  post_option-AfterPost :
      (o : ℕ) (optarg : Bytes) (p : Program C W)
      → BothCount p
      → AfterPost ((o, optarg) ∷ []) p (post_option co (o, optarg) p)
  unfolding post_option
  post_option-AfterPost o optarg p c = elim (Bool-cases (o == 105)) [
    | inl e ↦
        let same : o ≡ 105 = ground arith in
        rw same (
          input-AfterPost optarg p (module_set (some optarg) p.input_subsys p.world) c
            (module_set-AfterSet (some optarg) p.input_subsys p.world c.0))
    | inr e ↦ rw e (elim (Bool-cases (o == 111)) [
      | inl e' ↦
          let same : o ≡ 111 = ground arith in
          rw same (
            output-AfterPost optarg p (module_set (some optarg) p.output_subsys p.world) c
              (module_set-AfterSet (some optarg) p.output_subsys p.world c.1))
      | inr e' ↦ rw e' (
          other-AfterPost o optarg p (set_option co (o, optarg) p.cfg) (ground arith) (ground arith)
            c)
    ])
  ]

  -- The option and those behind it.
  SetBy-cons :
      (k : ℕ) (opt : Opt) (opts : List Opt) (ss ss' ss'' : Subsys W)
      → SetBy k (opt ∷ []) ss ss'
      → SetBy k opts ss' ss''
      → SetBy k (opt ∷ opts) ss ss''
  SetBy-cons k (o, optarg) opts ss ss' ss'' first (inl on) = inl on
  SetBy-cons k (o, optarg) opts ss ss' ss'' (inl on) (inr (absent, same)) =
      inl (ap (λ (s : Subsys W). any_enabled s.s_mod_list) same ∙ on)
  SetBy-cons k (o, optarg) opts ss ss' ss'' (inr (absent', same')) (inr (absent, same)) =
      inr (ground (arith, absent, absent'), same ∙ same')

  rest-AfterPost :
      (opt : Opt) (opts : List Opt) (p p' : Program C W) (r : Option (Bool × Program C W))
      → AfterPost (opt ∷ []) p (some (false, p'))
      → AfterPost opts p' r
      → AfterPost (opt ∷ opts) p r
  rest-AfterPost opt opts p p' none f h = tt
  rest-AfterPost (o, optarg) opts p p' (some (true, p'')) f h = ground (arith, h)
  rest-AfterPost opt opts p p' (some (false, p'')) (i, u, c) (i', u', c') = (
    SetBy-cons 105 opt opts p.input_subsys p'.input_subsys p''.input_subsys i i',
    SetBy-cons 111 opt opts p.output_subsys p'.output_subsys p''.output_subsys u u',
    c',
  )

  first-AfterPost :
      (opt : Opt) (opts : List Opt) (p : Program C W) (r : Option (Bool × Program C W))
      → ((p' : Program C W) → BothCount p' → AfterPost opts p' (parse_args_post co opts p'))
      → AfterPost (opt ∷ []) p r
      → AfterPost
          (opt ∷ opts)
          p
          (r >>= λ (failed, p'). if failed then some (true, p') else parse_args_post co opts p')
  first-AfterPost opt opts p none h f = tt
  first-AfterPost (o, optarg) opts p (some (true, p')) h f = ground (arith, f)
  first-AfterPost opt opts p (some (false, p')) h (i, u, c) =
      rest-AfterPost opt opts p p' (parse_args_post co opts p') (i, u, c) (h p' c)

  -- Where s_nmod of both subsystems is 0 exactly if no module is enabled, the options keep this,
  -- and where parse_args_post returns 0, each subsystem has an enabled module or had no option -i
  -- (or -o) and is as it was; it returns 1 only with one of these options.
  pub parse_args_post-AfterPost :
      (opts : List Opt) (p : Program C W)
      → BothCount p
      → AfterPost opts p (parse_args_post co opts p)
  unfolding parse_args_post
  parse_args_post-AfterPost [] p c = (inr (refl, refl), inr (refl, refl), c)
  parse_args_post-AfterPost ((o, optarg) ∷ opts) p c =
      first-AfterPost (o, optarg) opts p (post_option co (o, optarg) p)
        (parse_args_post-AfterPost opts) (post_option-AfterPost o optarg p c)
