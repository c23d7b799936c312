-- ===== src/Format.antt =====
-- src/out_format.c: the format string, which is cut in place into tokens that point into it, and the
-- drawing of an element by the tokens. A pointer into the string is an index.
pub mod Pieces
pub mod Find
pub mod Buffer
pub mod Tokens
pub mod Quit
mod Tests
use bmon.Prelude.{
  ℕ, zero, suc, ◌+◌, Bool, true, false, ◌&&◌, Option, none, some, List, [], ◌∷◌, ◌++◌,
  if◌then◌else◌, ◌==◌, length, drop, ◌-◌,
}
use bmon.Prelude.Int.{ℤ, pos, negsuc}
use bmon.Prelude.Bytes.{Bytes, codes, tolower, str_case_eq}
use bmon.Floats.{Floats}
use bmon.Conf.{cut}
use bmon.AttrDef.{AttrDefs, attr_def_lookup}
use bmon.Rate.{rate_get_total}
use bmon.Attr.{attr_lookup}
use bmon.Element.{Element}

pub data TokenType : Type 0 where
  ot_string : TokenType
  ot_token : TokenType

-- `ot_str` is an index of the format string.
pub record OutToken : Type 0 where
  pub ot_type : TokenType
  pub ot_str : ℕ

-- What `format_probe` leaves: the string with its NULs and the tokens, or one of its two messages. The
-- loop goes on fuel, and `out_of_fuel` is a run out of it.
pub data ProbeResult : Type 0 where
  probed : Bytes → List OutToken → ProbeResult
  unexpected_end : ProbeResult
  invalid : ProbeResult
  out_of_fuel : ProbeResult

-- The `switch` behind a backslash.
unfoldable pub escape : ℕ → Option ℕ
escape c =
    if c == b'n'
    then some 10
    else if c == b't'
    then some 9
    else if c == b'r'
    then some 13
    else if c == b'v'
    then some 11
    else if c == b'b'
    then some 8
    else if c == b'f'
    then some 12
    else if c == b'a'
    then some 7
    else none

-- What the loop finds at a byte.
pub data Found : Type 0 where
  found_token : Bytes → Bytes → Found
  found_end : Found
  found_invalid : Found
  found_escape : ℕ → Bytes → Found
  found_text : Found

-- The bytes behind `$(`.
unfoldable pub find_token : Bytes → Found
unfolding cut
find_token [] = found_end
find_token (d ∷ s) =
    let (name, rest) = cut b')' (d ∷ s) in
    elim rest [ none ↦ found_invalid | some s' ↦ found_token name s' ]

unfoldable pub find : ℕ → Bytes → Found
unfolding find_token escape
find c [] = found_text
find c (d ∷ s) =
    if (c == b'$') && (d == b'(')
    then find_token s
    else if c == b'\\'
    then elim (escape d) [ none ↦ found_text | some x ↦ found_escape x s ]
    else found_text

-- The bytes that are passed, and the tokens that were added for them.
abbrev pub passed : Bytes → List OutToken → ProbeResult → ProbeResult
passed bytes tokens (probed buffer more) = probed (bytes ++ buffer) (tokens ++ more)
passed bytes tokens r = r

abbrev pub string_at : ℕ → OutToken
string_at p = record { ot_type = ot_string; ot_str = p }

abbrev pub token_at : ℕ → OutToken
token_at p = record { ot_type = ot_token; ot_str = p }

-- The loop at the index `p`, with `new_one`. A backslash, a `$` and a `)` are overwritten by NUL.
unfoldable pub probe_loop : ℕ → ℕ → Bool → Bytes → ProbeResult
unfolding find
probe_loop fuel p new_one [] = probed [] []
probe_loop zero p new_one (c ∷ s) = out_of_fuel
probe_loop (suc fuel) p new_one (c ∷ s) = elim (find c s) [
  | found_end ↦ unexpected_end
  | found_invalid ↦ invalid
  | found_token name rest ↦
      passed (0 ∷ b'(' ∷ name ++ 0 ∷ []) (token_at (p + 2) ∷ [])
        (probe_loop fuel (p + length name + 3) true rest)
  | found_escape x rest ↦
      passed (0 ∷ x ∷ []) (string_at (p + 1) ∷ []) (probe_loop fuel (p + 2) false rest)
  | found_text ↦
      passed (c ∷ []) (if new_one then string_at p ∷ [] else []) (probe_loop fuel (p + 1) false s)
]

unfoldable pub format_probe : Bytes → ProbeResult
unfolding probe_loop
format_probe c_format = probe_loop (length c_format) 0 true c_format

-- The string at an index, as far as its NUL.
unfoldable pub until_nul : Bytes → Bytes
until_nul [] = []
until_nul (c ∷ s) = if c == 0 then [] else c ∷ until_nul s

abbrev pub or_nothing : Option Bytes → Bytes
or_nothing none = []
or_nothing (some s) = s

-- The loop of `draw_element`: what it prints, where `get` is `get_token`.
unfoldable pub draw_tokens : (Bytes → Option Bytes) → Bytes → List OutToken → Bytes
unfolding until_nul
draw_tokens get buffer [] = []
draw_tokens get buffer (t ∷ tokens) =
    let str = until_nul (drop t.ot_str buffer) in
    elim t.ot_type [ ot_string ↦ str | ot_token ↦ or_nothing (get str) ]
    ++ draw_tokens get buffer tokens

-- `strncasecmp(s, prefix, strlen(prefix))`: the bytes behind the prefix, where the text begins with it.
unfoldable pub behind_prefix : Bytes → Bytes → Option Bytes
unfolding tolower
behind_prefix [] s = some s
behind_prefix (c ∷ prefix) [] = none
behind_prefix (c ∷ prefix) (d ∷ s) = if tolower c == tolower d then behind_prefix prefix s else none

-- How the four kinds of numbers are printed: `%u`, `PRIu64`, `%2.0f` and `%.2f`.
pub record Printf (F : Type 0) : Type 0 where
  pub show_u32 : ℕ → Bytes
  pub show_u64 : ℕ → Bytes
  pub show_usage : F → Bytes
  pub show_rate : F → Bytes

-- What a field can name of the group, and of the element what is not in `Element`.
pub record DrawContext : Type 0 where
  pub g_nelements : ℕ
  pub g_name : Bytes
  pub gh_title : Bytes
  pub e_description : Option Bytes
  pub e_level : ℕ
  pub e_parent : Option Bytes
  pub has_childs : Bool

abbrev unknown : Option Bytes
unknown = some (codes "unknown")

module _ (fl : Floats) where
  open fl use {Float, of_nat, eq}

  unfoldable pub group_field : Printf Float → DrawContext → Bytes → Option Bytes
  unfolding str_case_eq
  group_field io g n =
      if str_case_eq n (codes "nelements")
      then some (io.show_u32 g.g_nelements)
      else if str_case_eq n (codes "name")
      then some g.g_name
      else if str_case_eq n (codes "title")
      then some g.gh_title
      else unknown

  -- `usage == FLT_MAX ? usage : 0.0f`
  abbrev shown_usage : Float → Float → Float
  shown_usage flt_max usage = if eq usage flt_max then usage else of_nat 0

  unfoldable pub element_field :
      Printf Float → Float → DrawContext → Element Float → Bytes → Option Bytes
  unfolding str_case_eq
  element_field io flt_max c e n =
      if str_case_eq n (codes "name")
      then some e.e_name
      else if str_case_eq n (codes "description")
      then c.e_description
      else if str_case_eq n (codes "nattrs")
      then some (io.show_u32 e.e_attrs.e_nattrs)
      else if str_case_eq n (codes "lifecycles")
      then some (io.show_u32 e.e_lifecycles)
      else if str_case_eq n (codes "level")
      then some (io.show_u32 c.e_level)
      else if str_case_eq n (codes "parent")
      then some (or_nothing c.e_parent)
      else if str_case_eq n (codes "id")
      then some (io.show_u32 e.e_id)
      else if str_case_eq n (codes "rxusage")
      then some (io.show_usage (shown_usage flt_max e.e_rx_usage))
      else if str_case_eq n (codes "txusage")
      then some (io.show_usage (shown_usage flt_max e.e_tx_usage))
      else if str_case_eq n (codes "haschilds")
      then some (io.show_u32 (if c.has_childs then 1 else 0))
      else unknown

  -- What is behind `attr:`.
  unfoldable pub attr_field : Printf Float → AttrDefs → Element Float → Bytes → Option Bytes
  unfolding cut behind_prefix
  attr_field io defs e type = elim (cut b':' type).1 [
    | none ↦ unknown
    | some name ↦ elim (attr_def_lookup name defs) [
      | none ↦ unknown
      | some def ↦ elim (attr_lookup e.e_attrs def.ad_id) [
        | none ↦ unknown
        | some a ↦ elim (behind_prefix (codes "rx:") type) [
          | some _ ↦ some (io.show_u64 (rate_get_total a.a_rx_rate))
          | none ↦ elim (behind_prefix (codes "tx:") type) [
            | some _ ↦ some (io.show_u64 (rate_get_total a.a_tx_rate))
            | none ↦ elim (behind_prefix (codes "rxrate:") type) [
              | some _ ↦ some (io.show_rate a.a_rx_rate.r_rate)
              | none ↦ elim (behind_prefix (codes "txrate:") type) [
                | some _ ↦ some (io.show_rate a.a_tx_rate.r_rate)
                | none ↦ unknown
              ]
            ]
          ]
        ]
      ]
    ]
  ]

  -- Without what it prints to stderr.
  unfoldable pub get_token :
      Printf Float → Float → AttrDefs → DrawContext → Element Float → Bytes → Option Bytes
  unfolding group_field element_field attr_field behind_prefix
  get_token io flt_max defs c e token = elim (behind_prefix (codes "group:") token) [
    | some n ↦ group_field io c n
    | none ↦ elim (behind_prefix (codes "element:") token) [
      | some n ↦ element_field io flt_max c e n
      | none ↦ elim (behind_prefix (codes "attr:") token) [
        | some type ↦ attr_field io defs e type
        | none ↦ unknown
      ]
    ]
  ]

  unfoldable pub draw_element :
      Printf Float → Float → AttrDefs → Bytes → List OutToken → DrawContext → Element Float → Bytes
  unfolding draw_tokens get_token
  draw_element io flt_max defs buffer tokens c e =
      draw_tokens (get_token io flt_max defs c e) buffer tokens

-- The end of `format_draw`, and of `ascii_draw`: the next `c_quit_after`, or `none` for `exit(0)`.
unfoldable pub quit_after : ℤ → Option ℤ
quit_after (pos zero) = some (pos zero)
quit_after (pos (suc zero)) = none
quit_after (pos (suc (suc n))) = some (pos (suc n))
quit_after (negsuc n) = some (negsuc n)
