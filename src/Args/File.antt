-- ===== src/Args/File.antt =====
-- src/bmon.c: what the first pass over the options does.
use bmon.Prelude.{
  ℕ, ◌≡◌, refl, ◌∙◌, ap, arith, true, Option, none, some, List, [], ◌∷◌, if◌then◌else◌, ◌==◌, ◌||◌,
  Bool-cases, inl, inr,
}
use bmon.Prelude.Bytes.{Bytes}
use bmon.Args.{Opt, ConfigFile, set_configfile, PreResult, goes_on, exits, parse_args_pre}

-- The status of the first option that ends the program.
abbrev pub first_exit : List Opt → Option ℕ
first_exit [] = none
first_exit ((o, optarg) ∷ opts) =
    if o == 104 then some 1 else if o == 86 || o == 118 then some 0 else first_exit opts

-- The file of the first -f.
abbrev pub first_file : List Opt → Option Bytes
first_file [] = none
first_file ((o, optarg) ∷ opts) = if o == 102 then some optarg else first_file opts

-- The configuration file after the options: the one that was set before, or else the first one.
abbrev pub file_after : Option Bytes → ConfigFile → ConfigFile
file_after none c = c
file_after (some file) c = if c.set then c else record { configfile = some file; set = true }

abbrev pub pre_result : Option ℕ → ConfigFile → PreResult
pre_result none c = goes_on c
pre_result (some status) c = exits status

-- Of two files the first one is kept.
kept :
    (o : Option Bytes) (file : Bytes) (c : ConfigFile)
    → file_after o (set_configfile file c) ≡ set_configfile file c
unfolding set_configfile
kept none file c = refl
kept (some other) file c = elim (Bool-cases c.set) [
  | inl s ↦ simp (s, s) refl
  | inr s ↦ simp (s, s) refl
]

-- Whatever the options are, parse_args_pre ends the program with the status of the first of -h, -v
-- and -V, or else sets the configuration file to that of the first -f, where none was set.
pub parse_args_pre-pre_result :
    (opts : List Opt) (c : ConfigFile)
    → parse_args_pre opts c ≡ pre_result (first_exit opts) (file_after (first_file opts) c)
unfolding parse_args_pre
parse_args_pre-pre_result [] c = refl
parse_args_pre-pre_result ((o, optarg) ∷ opts) c = elim (Bool-cases (o == 102)) [
  | inl f ↦
      let same : o ≡ 102 = ground arith in
      rw same (
        parse_args_pre-pre_result opts (set_configfile optarg c)
        ∙ ap (pre_result (first_exit opts)) (kept (first_file opts) optarg c))
  | inr f ↦ rw f (elim (Bool-cases (o == 104)) [
    | inl h ↦ rw h refl
    | inr h ↦ rw h (elim (Bool-cases (o == 86 || o == 118)) [
      | inl v ↦ rw v refl
      | inr v ↦ rw v (parse_args_pre-pre_result opts c)
    ])
  ])
]
