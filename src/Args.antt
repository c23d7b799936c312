-- ===== src/Args.antt =====
-- src/bmon.c: the options of the command line, and the start of `main` up to the main loop. getopt gives
-- the options as a list, libconfuse keeps the configuration, and `strtod` and `strtoul` read numbers:
-- they are parameters.
pub mod File
pub mod Post
mod Tests
use bmon.Prelude.{
  ℕ, Bool, true, false, Option, none, some, List, [], ◌∷◌, ◌++◌, if◌then◌else◌, ◌==◌, ◌||◌, ◌>>=◌,
}
use bmon.Prelude.Bytes.{Bytes, codes}
use bmon.Module.{Subsys, module_set}

-- What `getopt_long` returns, with `optarg`, which is empty for an option without an argument. A `?`
-- or a `:` stands for an option that is not known or lacks its argument.
abbrev pub Opt : Type 0
Opt = ℕ × Bytes

-- `configfile` of src/conf.c, and `set` of set_configfile.
pub record ConfigFile : Type 0 where
  pub configfile : Option Bytes
  pub set : Bool

unfoldable pub set_configfile : Bytes → ConfigFile → ConfigFile
set_configfile file c = if c.set then c else record { configfile = some file; set = true }

-- The exit status where the program ends.
pub data PreResult : Type 0 where
  goes_on : ConfigFile → PreResult
  exits : ℕ → PreResult

-- The options are f (102), h (104), V (86) and v (118).
unfoldable pub parse_args_pre : List Opt → ConfigFile → PreResult
unfolding set_configfile
parse_args_pre [] c = goes_on c
parse_args_pre ((o, optarg) ∷ opts) c =
    let with_file = parse_args_pre opts (set_configfile optarg c) in
    let rest = parse_args_pre opts c in
    if o == 102
    then with_file
    else if o == 104
    then exits 1
    else if o == 86 || o == 118
    then exits 0
    else rest

-- The setters of libconfuse on a configuration `C`, and the readers of numbers.
pub record Confuse (C D : Type 0) : Type 0 where
  pub cfg_setstr : Bytes → Bytes → C → C
  pub cfg_setfloat : Bytes → D → C → C
  pub cfg_setint : Bytes → ℕ → C → C
  pub cfg_setbool : Bytes → Bool → C → C
  pub strtod : Bytes → D
  pub strtoul : Bytes → ℕ

-- The configuration, and the modules with the state that their callbacks act on.
pub record Program (C W : Type 0) : Type 0 where
  pub cfg : C
  pub input_subsys : Subsys W
  pub output_subsys : Subsys W
  pub world : W

module _ {C D : Type 0} (co : Confuse C D) where
  open co use {cfg_setstr, cfg_setfloat, cfg_setint, cfg_setbool, strtod, strtoul}

  -- The options that set the configuration; -f was handled before. `none` is the default branch, quit.
  unfoldable pub set_option : Opt → C → Option C
  set_option (o, optarg) cfg =
      if o == 112
      then some (cfg_setstr (codes "policy") optarg cfg)
      else if o == 114
      then some (cfg_setfloat (codes "read_interval") (strtod optarg) cfg)
      else if o == 82
      then some (cfg_setfloat (codes "rate_interval") (strtod optarg) cfg)
      else if o == 115
      then some (cfg_setint (codes "sleep_time") (strtoul optarg) cfg)
      else if o == 97
      then some (cfg_setbool (codes "show_all") true cfg)
      else if o == 85
      then some (cfg_setbool (codes "use_si") true cfg)
      else if o == 98
      then some (cfg_setbool (codes "use_bit") true cfg)
      else if o == 76
      then some (cfg_setint (codes "lifetime") (strtoul optarg) cfg)
      else if o == 102
      then some cfg
      else none

module _ {C D W : Type 0} (co : Confuse C D) where
  -- One option; the Boolean is `return 1`, and `none` is quit.
  unfoldable pub post_option : Opt → Program C W → Option (Bool × Program C W)
  unfolding module_set set_option
  post_option (o, optarg) p =
      if o == 105
      then (do
        (listed, ss, w) ← module_set (some optarg) p.input_subsys p.world
        some (listed, record p { input_subsys = ss; world = w }))
      else if o == 111
      then (do
        (listed, ss, w) ← module_set (some optarg) p.output_subsys p.world
        some (listed, record p { output_subsys = ss; world = w }))
      else (do cfg' ← set_option co (o, optarg) p.cfg; some (false, record p { cfg = cfg' }))

  unfoldable pub parse_args_post : List Opt → Program C W → Option (Bool × Program C W)
  unfolding post_option
  parse_args_post [] p = some (false, p)
  parse_args_post (opt ∷ opts) p = do
    (failed, p') ← post_option opt p
    (let rest = parse_args_post opts p' in if failed then some (true, p') else rest)
