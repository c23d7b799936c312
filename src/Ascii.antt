-- ===== src/Ascii.antt =====
-- src/out_ascii.c: the order in which the elements are printed, the names with their indentation, and
-- the options of the module. What printf writes for an element is not a part of the model.
pub mod Order
pub mod Label
mod Tests
use bmon.Prelude.{
  ℕ, ◌+◌, ◌-◌, Bool, true, false, Option, none, some, List, [], ◌∷◌, ◌++◌, if◌then◌else◌, ◌==◌, ltb,
  ◌>>=◌, replicate, take, length,
}
use bmon.Prelude.Bytes.{Bytes, codes, str_case_eq, tolower}
use bmon.Prelude.Int.{ℤ}
use bmon.Graph.{GraphCfg}
use bmon.Group.{ElementGroup}
use bmon.Curses.{group_foreach_element, group_foreach}
use bmon.Format.{quit_after}

pub data DiagramType : Type 0 where
  d_list d_graph d_details : DiagramType

-- The height of a graph is an `int`, so it is kept beside the other settings of the graph.
pub record AsciiCfg : Type 0 where
  pub c_diagram_type : DiagramType
  pub c_hist : Bytes
  pub c_quit_after : ℤ
  pub gc_foreground : ℕ
  pub gc_background : ℕ
  pub gc_noise : ℕ
  pub gc_height : ℤ

-- The end of an option: the new settings, a call of quit, or `exit(0)` behind the help.
pub data OptResult (A : Type 0) : Type 0 where
  set_to : A → OptResult A
  quits : OptResult A
  helped : OptResult A

-- `value[0]`, the NUL of an empty string included.
abbrev pub first_byte : Bytes → ℕ
first_byte [] = 0
first_byte (c ∷ s) = c

-- The diagram by the first letter.
unfoldable pub diagram_of : Bytes → Option DiagramType
diagram_of value =
    let c = tolower (first_byte value) in
    if c == 108
    then some d_list
    else if c == 103
    then some d_graph
    else if c == 100
    then some d_details
    else none

-- An option that has a value; `strtol` is the function of that name with base 0.
abbrev pub set_value :
    (Bytes → ℤ) → AsciiCfg → Bytes → Bytes → OptResult AsciiCfg → OptResult AsciiCfg
set_value strtol cfg type value other =
    let diagram : OptResult AsciiCfg = elim (diagram_of value) [
      | none ↦ quits
      | some t ↦ set_to (record cfg { c_diagram_type = t })
    ] in
    if str_case_eq type (codes "diagram")
    then diagram
    else if str_case_eq type (codes "fgchar")
    then set_to (record cfg { gc_foreground = first_byte value })
    else if str_case_eq type (codes "bgchar")
    then set_to (record cfg { gc_background = first_byte value })
    else if str_case_eq type (codes "nchar")
    then set_to (record cfg { gc_noise = first_byte value })
    else if str_case_eq type (codes "xunit")
    then set_to (record cfg { c_hist = value })
    else if str_case_eq type (codes "height")
    then set_to (record cfg { gc_height = strtol value })
    else if str_case_eq type (codes "quitafter")
    then set_to (record cfg { c_quit_after = strtol value })
    else other

unfoldable pub ascii_parse_opt : (Bytes → ℤ) → AsciiCfg → Bytes → Option Bytes → OptResult AsciiCfg
unfolding diagram_of
ascii_parse_opt strtol cfg type value =
    let other : OptResult AsciiCfg = if str_case_eq type (codes "help") then helped else quits in
    elim value [ none ↦ other | some v ↦ set_value strtol cfg type v other ]

-- What is printed: the title of a group, with its columns for a list, or an element.
pub data Printed (A : Type 0) : Type 0 where
  titles : ElementGroup A → Printed A
  title : ElementGroup A → Printed A
  list_line : A → Printed A
  details : A → Printed A
  graphs : A → Printed A

module _ {A : Type 0} where
  abbrev pub printed_element : DiagramType → A → Printed A
  printed_element d_list e = list_line e
  printed_element d_details e = details e
  printed_element d_graph e = graphs e

  abbrev pub printed_title : DiagramType → ElementGroup A → Printed A
  printed_title d_list g = titles g
  printed_title d_details g = title g
  printed_title d_graph g = title g

module _ {A : Type 0} (diagram : DiagramType) where
  unfoldable pub ascii_draw_element : A → List (Printed A) → List (Printed A)
  ascii_draw_element e out = out ++ printed_element diagram e ∷ []

  unfoldable pub ascii_draw_group : ElementGroup A → List (Printed A) → List (Printed A)
  unfolding group_foreach_element ascii_draw_element
  ascii_draw_group g out =
      group_foreach_element ascii_draw_element g (out ++ printed_title diagram g ∷ [])

-- The number of the drawings still to come is `none` where the program ends behind the drawing.
unfoldable pub ascii_draw :
    {A : Type 0} → AsciiCfg → List (ElementGroup A) → List (Printed A) × Option ℤ
unfolding group_foreach ascii_draw_group quit_after
ascii_draw cfg gs =
    (group_foreach (ascii_draw_group cfg.c_diagram_type) gs [], quit_after cfg.c_quit_after)

-- `strncat(pad, s, sizeof(pad) - strlen(pad) - 1)`, for an array of `size` bytes.
unfoldable pub strncat_pad : ℕ → Bytes → Bytes → Bytes
strncat_pad size pad s = pad ++ take (size - length pad - 1) s

-- The name of an element behind `spaces` spaces, with its description in parentheses.
unfoldable pub element_pad : ℕ → ℕ → Bytes → Option Bytes → Bytes
unfolding strncat_pad
element_pad size spaces name description =
    let named = strncat_pad size (replicate spaces 32) name in
    elim description [
      | none ↦ named
      | some d ↦
          strncat_pad size (strncat_pad size (strncat_pad size named (codes " (")) d) (codes ")")
    ]

-- The indentation of a level in print_list, and in draw_element of src/out_curses.c.
unfoldable pub ascii_spaces : ℕ → ℕ
ascii_spaces e_level = if ltb e_level 15 then e_level else 15

unfoldable pub curses_spaces : ℕ → ℕ
curses_spaces e_level = if ltb e_level 6 then e_level + e_level else 12
