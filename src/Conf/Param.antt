-- ===== src/Conf/Param.antt =====
-- The module options of the command line, printed and parsed.
use mathlib.Core.List.{append_assoc, append-nil}
use bmon.Prelude.{
  ℕ, suc, ◌+◌, ◌≡◌, ◌≢◌, refl, sym, ap, ◌∙◌, Option, none, some, List, [], ◌∷◌, ◌++◌, arith, map,
  length,
}
use bmon.Prelude.Bytes.{Bytes}
use bmon.Conf.{
  Tv, ModuleConf, cut, pieces, parse_tv, parse_tvs, parse_module, parse_modules, parse_module_param,
}
use bmon.Conf.Pieces.{
  Without, NonEmpty, print_sep, cut-behind, cut-Without, AllWithout, pieces-print_sep,
  Without-append, Without-print_sep,
}

abbrev pub print_tv : Tv → Bytes
print_tv tv = elim tv.tv_value [ none ↦ tv.tv_type | some v ↦ tv.tv_type ++ b'=' ∷ v ]

abbrev pub print_module : ModuleConf → Bytes
print_module m = elim m.m_attrs [
  | [] ↦ m.m_name
  | tv ∷ attrs ↦ m.m_name ++ b':' ∷ print_sep b';' (map print_tv (tv ∷ attrs))
]

abbrev pub print_modules : List ModuleConf → Bytes
print_modules ms = print_sep b',' (map print_module ms)

-- A value without a separator; `=` and `:` may occur in it.
abbrev pub IsValidValue : Option Bytes → Type 0
IsValidValue none = Unit
IsValidValue (some v) = Without b',' v × Without b';' v

-- An option that can be written: its name has no separator and no '='.
abbrev pub IsValidTv : Tv → Type 0
IsValidTv tv =
    Without b',' tv.tv_type
    × Without b';' tv.tv_type
    × Without b'=' tv.tv_type
    × IsValidValue tv.tv_value

abbrev pub AllValidTv : List Tv → Type 0
AllValidTv [] = Unit
AllValidTv (tv ∷ tvs) = IsValidTv tv × AllValidTv tvs

-- A module that can be written: its name is not empty and has neither ',' nor ':'.
abbrev pub IsValidModule : ModuleConf → Type 0
IsValidModule m =
    NonEmpty m.m_name × Without b',' m.m_name × Without b':' m.m_name × AllValidTv m.m_attrs

abbrev pub AllValidModule : List ModuleConf → Type 0
AllValidModule [] = Unit
AllValidModule (m ∷ ms) = IsValidModule m × AllValidModule ms

parse_tv-print_tv :
    (type : Bytes) (value : Option Bytes)
    → Without b'=' type
    → parse_tv (print_tv (record { tv_type = type; tv_value = value }))
      ≡ record { tv_type = type; tv_value = value }
unfolding parse_tv
parse_tv-print_tv type none w = rw (cut-Without b'=' type w) refl
parse_tv-print_tv type (some v) w = rw (cut-behind b'=' type v w) refl

parse_tvs-print_tv : (tvs : List Tv) → AllValidTv tvs → parse_tvs (map print_tv tvs) ≡ tvs
unfolding parse_tvs
parse_tvs-print_tv [] v = refl
parse_tvs-print_tv (tv ∷ tvs) v =
    rw (parse_tv-print_tv tv.tv_type tv.tv_value v.0.2, parse_tvs-print_tv tvs v.1) refl

abbrev ValueWithout : ℕ → Option Bytes → Type 0
ValueWithout c none = Unit
ValueWithout c (some v) = Without c v

Without-print_tv :
    (c : ℕ) (type : Bytes) (value : Option Bytes)
    → c ≢ b'='
    → Without c type
    → ValueWithout c value
    → Without c (print_tv (record { tv_type = type; tv_value = value }))
Without-print_tv c type none n w w' = w
Without-print_tv c type (some v) n w w' = Without-append c type (b'=' ∷ v) w ((λ e. n (sym e)), w')

value-semicolon : (value : Option Bytes) → IsValidValue value → ValueWithout b';' value
value-semicolon none v = tt
value-semicolon (some s) v = v.1

value-comma : (value : Option Bytes) → IsValidValue value → ValueWithout b',' value
value-comma none v = tt
value-comma (some s) v = v.0

AllWithout-semicolon : (tvs : List Tv) → AllValidTv tvs → AllWithout b';' (map print_tv tvs)
AllWithout-semicolon [] v = tt
AllWithout-semicolon (tv ∷ tvs) v = (
  Without-print_tv b';' tv.tv_type tv.tv_value (omega arith) v.0.1
      (value-semicolon tv.tv_value v.0.3),
  AllWithout-semicolon tvs v.1,
)

AllWithout-comma : (tvs : List Tv) → AllValidTv tvs → AllWithout b',' (map print_tv tvs)
AllWithout-comma [] v = tt
AllWithout-comma (tv ∷ tvs) v = (
  Without-print_tv b',' tv.tv_type tv.tv_value (omega arith) v.0.0 (value-comma tv.tv_value v.0.3),
  AllWithout-comma tvs v.1,
)

-- A text that is not empty is parsed by cutting the name off.
parse_module-NonEmpty :
    (s name : Bytes) (opts : Option Bytes)
    → NonEmpty s
    → cut b':' s ≡ (name, opts)
    → parse_module s
      ≡ some (record {
        m_name = name;
        m_attrs = elim opts [ none ↦ [] | some o ↦ parse_tvs (pieces b';' o) ];
      })
unfolding parse_module
parse_module-NonEmpty [] name opts n e = absurd n
parse_module-NonEmpty (c ∷ s) name opts n e = rw e refl

NonEmpty-append : (s t : Bytes) → NonEmpty s → NonEmpty (s ++ t)
NonEmpty-append [] t n = absurd n
NonEmpty-append (c ∷ s) t n = tt

parse_module-print_module :
    (name : Bytes) (attrs : List Tv)
    → NonEmpty name
    → Without b':' name
    → AllValidTv attrs
    → parse_module (print_module (record { m_name = name; m_attrs = attrs }))
      ≡ some (record { m_name = name; m_attrs = attrs })
parse_module-print_module name [] n w v =
    parse_module-NonEmpty name name none n (cut-Without b':' name w)
parse_module-print_module name (tv ∷ tvs) n w v =
    let texts = map print_tv (tv ∷ tvs) in
    let text = print_sep b';' texts in
    parse_module-NonEmpty (name ++ b':' ∷ text) name (some text)
      (NonEmpty-append name (b':' ∷ text) n) (cut-behind b':' name text w)
    ∙ ap (λ (l : List Tv). some (record { m_name = name; m_attrs = l }))
        (ap parse_tvs (
            pieces-print_sep b';' (print_tv tv) (map print_tv tvs)
              (AllWithout-semicolon (tv ∷ tvs) v))
          ∙ parse_tvs-print_tv (tv ∷ tvs) v)

Without-print_module :
    (name : Bytes) (attrs : List Tv)
    → Without b',' name
    → AllValidTv attrs
    → Without b',' (print_module (record { m_name = name; m_attrs = attrs }))
Without-print_module name [] w v = w
Without-print_module name (tv ∷ tvs) w v =
    Without-append b',' name (b':' ∷ print_sep b';' (map print_tv (tv ∷ tvs))) w (
      omega arith,
      Without-print_sep b',' b';' (map print_tv (tv ∷ tvs)) (omega arith)
          (AllWithout-comma (tv ∷ tvs) v),
    )

AllWithout-modules :
    (ms : List ModuleConf) → AllValidModule ms → AllWithout b',' (map print_module ms)
AllWithout-modules [] v = tt
AllWithout-modules (m ∷ ms) v =
    (Without-print_module m.m_name m.m_attrs v.0.1 v.0.3, AllWithout-modules ms v.1)

add_one : (n : ℕ) → n + 1 ≡ suc n
add_one n = omega arith

parse_modules-print_module :
    (ms list : List ModuleConf)
    → AllValidModule ms
    → parse_modules (map print_module ms) list ≡ some (length ms, list ++ ms)
unfolding parse_modules
parse_modules-print_module [] list v = rw append-nil refl
parse_modules-print_module (m ∷ ms) list v =
    let e = parse_module-print_module m.m_name m.m_attrs v.0.0 v.0.2 v.0.3 in
    let e' = parse_modules-print_module ms (list ++ m ∷ []) v.1 in
    rw e (rw e' (rw append_assoc (ap (λ k. some (k, list ++ m ∷ ms)) (add_one (length ms)))))

-- A list of modules, written as on the command line, is read back behind the modules that were given
-- before, with its length as the result. It has at least one module; a name is not empty and has
-- neither ',' nor ':', the name of an option has none of ',', ';' and '=', and a value neither ',' nor
-- ';'.
pub parse_module_param-print_modules :
    (m : ModuleConf) (ms list : List ModuleConf)
    → AllValidModule (m ∷ ms)
    → parse_module_param (print_modules (m ∷ ms)) list ≡ some (length (m ∷ ms), list ++ m ∷ ms)
unfolding parse_module_param
parse_module_param-print_modules m ms list v =
    ap (λ l. parse_modules l list)
      (pieces-print_sep b',' (print_module m) (map print_module ms) (AllWithout-modules (m ∷ ms) v))
    ∙ parse_modules-print_module (m ∷ ms) list v
