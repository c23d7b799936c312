-- ===== src/Args/Tests.antt =====
-- The options of the command line at concrete values.
use bmon.Prelude.{ℕ, ◌≡◌, refl, true, false, none, some, List, [], ◌∷◌}
use bmon.Prelude.Bytes.{Bytes, codes}
use bmon.Module.{Module, Subsys}
use bmon.Args.{
  Opt, ConfigFile, goes_on, exits, parse_args_pre, set_configfile, Confuse, Program,
  parse_args_post,
}
use bmon.Args.File.{first_exit, first_file, file_after, pre_result, parse_args_pre-pre_result}
use bmon.Args.Post.{AfterPost, parse_args_post-AfterPost}

abbrev no_file : ConfigFile
no_file = record { configfile = none; set = false }

-- `-f a -f b`, and `-f a -h -V`.
first_file_kept :
    parse_args_pre ((102, codes "a") ∷ (102, codes "b") ∷ []) no_file
    ≡ goes_on (record { configfile = some (codes "a"); set = true })
unfolding parse_args_pre set_configfile
first_file_kept = refl

help_first : parse_args_pre ((102, codes "a") ∷ (104, []) ∷ (86, []) ∷ []) no_file ≡ exits 1
unfolding parse_args_pre set_configfile
help_first = refl

-- The configuration is the list of the names that are set.
abbrev confuse : Confuse (List Bytes) ℕ
confuse = record {
  cfg_setstr = λ name value c. name ∷ c;
  cfg_setfloat = λ name value c. name ∷ c;
  cfg_setint = λ name value c. name ∷ c;
  cfg_setbool = λ name value c. name ∷ c;
  strtod = λ s. 0;
  strtoul = λ s. 0;
}

abbrev null : Module ℕ
null = record {
  m_name = codes "null";
  m_init = none;
  m_probe = none;
  m_shutdown = none;
  m_parse_opt = none;
  m_pre = none;
  m_do = none;
  m_post = none;
  m_enabled = false;
  m_default = false;
  m_auto = false;
}

abbrev nulls : Subsys ℕ
nulls = record { s_name = codes "input"; s_nmod = 0; s_mod_list = null ∷ [] }

abbrev program : Program (List Bytes) ℕ
program = record { cfg = []; input_subsys = nulls; output_subsys = nulls; world = 0 }

abbrev options : List Opt
options = (97, []) ∷ (105, codes "null") ∷ (98, []) ∷ []

parse_args_post_example : AfterPost options program (parse_args_post confuse options program)
parse_args_post_example = parse_args_post-AfterPost confuse options program (refl, refl)

parse_args_pre_example :
    parse_args_pre ((102, codes "a") ∷ (98, []) ∷ []) no_file
    ≡ pre_result
        (first_exit ((102, codes "a") ∷ (98, []) ∷ []))
        (file_after (first_file ((102, codes "a") ∷ (98, []) ∷ [])) no_file)
parse_args_pre_example = parse_args_pre-pre_result ((102, codes "a") ∷ (98, []) ∷ []) no_file
