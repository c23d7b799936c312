-- ===== src/Curses/Options.antt =====
-- src/out_curses.c: the options of the module, curses_parse_opt.
use bmon.Prelude.{
  ℕ, zero, suc, ◌≡◌, refl, Bool, true, false, Option, none, some, List, [], ◌∷◌, if◌then◌else◌,
  ◌>>=◌,
}
use bmon.Prelude.Bytes.{Bytes, codes, str_case_eq}
use bmon.Prelude.Int.{ℤ, pos, negsuc}
use bmon.Ascii.{first_byte}

-- The settings that options change, before the keys do; the sizes of a graph are `int`.
pub record CursesOptions : Type 0 where
  pub gc_foreground : ℕ
  pub gc_background : ℕ
  pub gc_noise : ℕ
  pub gc_unknown : ℕ
  pub gc_height : ℤ
  pub gc_width : ℤ
  pub c_ngraph : ℤ
  pub c_list_min : ℤ
  pub c_show_graph : Bool
  pub c_show_details : Bool
  pub c_show_info : Bool
  pub c_use_colors : Bool

-- `!!n`
abbrev pub is_set : ℤ → Bool
is_set (pos zero) = false
is_set (pos (suc n)) = true
is_set (negsuc n) = true

-- The options that are read with or without a value; `none` is `exit(0)` behind the help.
unfoldable pub parse_switch : CursesOptions → Bytes → Option CursesOptions
parse_switch o type =
    if str_case_eq type (codes "details")
    then some (record o { c_show_details = true })
    else if str_case_eq type (codes "info")
    then some (record o { c_show_info = true })
    else if str_case_eq type (codes "nocolors")
    then some (record o { c_use_colors = false })
    else if str_case_eq type (codes "help")
    then none
    else some o

-- `strtol` is the function of that name with base 0. No name has two branches, so the order of
-- `minlist`, which stands behind the switches in the source, is that of the others with a value.
unfoldable pub curses_parse_opt :
    (Bytes → ℤ) → CursesOptions → Bytes → Option Bytes → Option CursesOptions
unfolding parse_switch
curses_parse_opt strtol o type none = parse_switch o type
curses_parse_opt strtol o type (some value) =
    if str_case_eq type (codes "fgchar")
    then some (record o { gc_foreground = first_byte value })
    else if str_case_eq type (codes "bgchar")
    then some (record o { gc_background = first_byte value })
    else if str_case_eq type (codes "nchar")
    then some (record o { gc_noise = first_byte value })
    else if str_case_eq type (codes "uchar")
    then some (record o { gc_unknown = first_byte value })
    else if str_case_eq type (codes "gheight")
    then some (record o { gc_height = strtol value })
    else if str_case_eq type (codes "gwidth")
    then some (record o { gc_width = strtol value })
    else if str_case_eq type (codes "ngraph")
    then some (record o { c_ngraph = strtol value; c_show_graph = is_set (strtol value) })
    else if str_case_eq type (codes "minlist")
    then some (record o { c_list_min = strtol value })
    else parse_switch o type

-- module_parse_opts of src/module.c goes through the options of a module in their order.
unfoldable pub curses_parse_opts :
    (Bytes → ℤ) → CursesOptions → List (Bytes × Option Bytes) → Option CursesOptions
unfolding curses_parse_opt
curses_parse_opts strtol o [] = some o
curses_parse_opts strtol o ((type, value) ∷ opts) = do
  o' ← curses_parse_opt strtol o type value
  curses_parse_opts strtol o' opts

-- The graphs are shown exactly where their number is not 0.
abbrev pub ShowsGraphs : CursesOptions → Type 0
ShowsGraphs o = o.c_show_graph ≡ is_set o.c_ngraph

-- The settings that are left, if any, have the property.
pub data AllKeep : Option CursesOptions → Type 0 where
  ended : AllKeep none
  kept : (o : CursesOptions) → ShowsGraphs o → AllKeep (some o)

if-AllKeep :
    (b : Bool) {x y : Option CursesOptions} → AllKeep x → AllKeep y → AllKeep (if b then x else y)
if-AllKeep true h k = h
if-AllKeep false h k = k

>>=-AllKeep :
    {r : Option CursesOptions} (f : CursesOptions → Option CursesOptions)
    → AllKeep r
    → ((o : CursesOptions) → ShowsGraphs o → AllKeep (f o))
    → AllKeep (r >>= f)
>>=-AllKeep f ended h = ended
>>=-AllKeep f (kept o k) h = h o k

parse_switch-AllKeep :
    (o : CursesOptions) (type : Bytes) → ShowsGraphs o → AllKeep (parse_switch o type)
unfolding parse_switch
parse_switch-AllKeep o type h =
    if-AllKeep (str_case_eq type (codes "details")) (kept (record o { c_show_details = true }) h) (
      if-AllKeep (str_case_eq type (codes "info")) (kept (record o { c_show_info = true }) h) (
        if-AllKeep (str_case_eq type (codes "nocolors"))
          (kept (record o { c_use_colors = false }) h)
          (if-AllKeep (str_case_eq type (codes "help")) ended (kept o h))))

parse_opt-AllKeep :
    (strtol : Bytes → ℤ) (o : CursesOptions) (type : Bytes) (value : Option Bytes)
    → ShowsGraphs o
    → AllKeep (curses_parse_opt strtol o type value)
unfolding curses_parse_opt
parse_opt-AllKeep strtol o type none h = parse_switch-AllKeep o type h
parse_opt-AllKeep strtol o type (some value) h =
    if-AllKeep (str_case_eq type (codes "fgchar"))
      (kept (record o { gc_foreground = first_byte value }) h)
      (if-AllKeep (str_case_eq type (codes "bgchar"))
        (kept (record o { gc_background = first_byte value }) h)
        (if-AllKeep (str_case_eq type (codes "nchar"))
          (kept (record o { gc_noise = first_byte value }) h)
          (if-AllKeep (str_case_eq type (codes "uchar"))
            (kept (record o { gc_unknown = first_byte value }) h)
            (if-AllKeep (str_case_eq type (codes "gheight"))
              (kept (record o { gc_height = strtol value }) h)
              (if-AllKeep (str_case_eq type (codes "gwidth"))
                (kept (record o { gc_width = strtol value }) h)
                (if-AllKeep (str_case_eq type (codes "ngraph"))
                  (kept (record o { c_ngraph = strtol value; c_show_graph = is_set (strtol value) })
                    refl)
                  (if-AllKeep (str_case_eq type (codes "minlist"))
                    (kept (record o { c_list_min = strtol value }) h)
                    (parse_switch-AllKeep o type h))))))))

-- Where the graphs are shown exactly where their number is not 0, they are so behind all the options,
-- unless an option asks for the help.
pub curses_parse_opts-AllKeep :
    (strtol : Bytes → ℤ) (opts : List (Bytes × Option Bytes)) (o : CursesOptions)
    → ShowsGraphs o
    → AllKeep (curses_parse_opts strtol o opts)
unfolding curses_parse_opts
curses_parse_opts-AllKeep strtol [] o h = kept o h
curses_parse_opts-AllKeep strtol ((type, value) ∷ opts) o h =
    >>=-AllKeep (λ o'. curses_parse_opts strtol o' opts) (parse_opt-AllKeep strtol o type value h)
      (λ o' k. curses_parse_opts-AllKeep strtol opts o' k)
