-- ===== src/Conf.antt =====
-- src/conf.c: the module options of the command line (`-i` and `-o`), and what is read out of a parsed
-- configuration. libconfuse parses the file; its sections come as arguments. `quit` ends the program
-- and is `none`.
pub mod Pieces
pub mod Param
pub mod Refused
pub mod Read
mod Tests
use bmon.Prelude.{
  ℕ, ◌+◌, Bool, true, false, Option, none, some, List, [], ◌∷◌, ◌++◌, if◌then◌else◌, ◌==◌, ◌>>=◌,
}
use bmon.Prelude.Bytes.{Bytes, tolower, str_case_eq}
use bmon.Prelude.Int.{ℤ, pos, negsuc}

-- `strchr(s, c)` with the separator overwritten by NUL: what is before it, and what is behind it where
-- there is one.
unfoldable pub cut : ℕ → Bytes → Bytes × Option Bytes
cut c [] = ([], none)
cut c (x ∷ s) =
    let (before, behind) = cut c s in if x == c then ([], some s) else (x ∷ before, behind)

-- The strings that a loop `do { next = strchr(current, c); ... current = next; } while (next)` visits.
unfoldable pub pieces : ℕ → Bytes → List Bytes
pieces c [] = [] ∷ []
pieces c (x ∷ s) =
    let rest = pieces c s in
    if x == c then [] ∷ rest else elim rest [ [] ↦ (x ∷ []) ∷ [] | p ∷ ps ↦ (x ∷ p) ∷ ps ]

-- `tv_t`
pub record Tv : Type 0 where
  pub tv_type : Bytes
  pub tv_value : Option Bytes

-- `module_conf_t`
pub record ModuleConf : Type 0 where
  pub m_name : Bytes
  pub m_attrs : List Tv

unfoldable pub parse_tv : Bytes → Tv
unfolding cut
parse_tv data' = let (type, value) = cut b'=' data' in record { tv_type = type; tv_value = value }

unfoldable pub parse_tvs : List Bytes → List Tv
unfolding parse_tv
parse_tvs [] = []
parse_tvs (opts ∷ next) = parse_tv opts ∷ parse_tvs next

-- The test for a name is made on all of `data`.
unfoldable pub parse_module : Bytes → Option ModuleConf
unfolding cut pieces parse_tvs
parse_module [] = none
parse_module (c ∷ data') =
    let (name, opts) = cut b':' (c ∷ data') in
    some (record {
      m_name = name;
      m_attrs = elim opts [ none ↦ [] | some opts' ↦ parse_tvs (pieces b';' opts') ];
    })

unfoldable pub parse_modules : List Bytes → List ModuleConf → Option (ℕ × List ModuleConf)
unfolding parse_module
parse_modules [] list = some (0, list)
parse_modules (current ∷ next) list = do
  m ← parse_module current
  (n, list') ← parse_modules next (list ++ m ∷ [])
  some (n + 1, list')

-- The number of modules, and the list with them added.
unfoldable pub parse_module_param : Bytes → List ModuleConf → Option (ℕ × List ModuleConf)
unfolding parse_modules pieces
parse_module_param data' list = parse_modules (pieces b',' data') list

-- DYNAMIC_EXP
abbrev pub dynamic_exp : ℤ
dynamic_exp = negsuc 0

-- The value that `set_unit_exp` gives `unit_exp`; `name` of no bytes reads its NUL.
unfoldable pub set_unit_exp : Bytes → Option ℤ
unfolding tolower
set_unit_exp [] = none
set_unit_exp (c ∷ name) =
    if tolower c == b'b'
    then some (pos 0)
    else if tolower c == b'k'
    then some (pos 1)
    else if tolower c == b'm'
    then some (pos 2)
    else if tolower c == b'g'
    then some (pos 3)
    else if tolower c == b't'
    then some (pos 4)
    else if tolower c == b'd'
    then some dynamic_exp
    else none
