-- ===== src/Proc.antt =====
-- src/in_proc.c: the reader of /proc/net/dev. The file is the list of the strings that `fgets` returns,
-- and what `sscanf` converts is a parameter.
pub mod Stop
pub mod Attrs
pub mod Line
mod Tests
use bmon.Prelude.{
  ℕ, Bool, true, false, not, ◌||◌, Option, none, some, List, [], ◌∷◌, if◌then◌else◌, ◌==◌, ◌>>=◌,
  length, drop,
}
use bmon.Prelude.Bytes.{Bytes, codes}
use bmon.Clock.{Timestamp}
use bmon.Floats.{Floats}
use bmon.AttrDef.{AttrDefs, AttrMap}
use bmon.Attr.{ElementAttrs, UpdateFlags, AttrCfg, attr_update}
use bmon.Conf.{cut}
use bmon.Element.{
  Element, ElementEnv, ElementStore, element_lookup, element_set_key_attr, element_set_usage_attr,
  element_notify_update, element_lifesign, write_element,
}

-- `for (p = &buf[0]; *p == ' '; p++)`
unfoldable pub skip_spaces : Bytes → Bytes
skip_spaces [] = []
skip_spaces (c ∷ s) = if c == b' ' then skip_spaces s else c ∷ s

-- The 16 numbers of a line, in the order of `link_attrs`, received and transmitted: the file has
-- them in the order bytes, packets, errors, drop, fifo, frame, compressed, multicast. `none` where
-- `sscanf` converted another number of values than 16.
unfoldable pub proc_values : List ℕ → Option (List (ℕ × ℕ))
proc_values (b ∷ p ∷ e ∷ d ∷ fi ∷ fr ∷ c ∷ m ∷ b' ∷ p' ∷ e' ∷ d' ∷ fi' ∷ fr' ∷ c' ∷ m' ∷ []) =
    some ((b, b') ∷ (p, p') ∷ (e, e') ∷ (d, d') ∷ (c, c') ∷ (fi, fi') ∷ (fr, fr') ∷ (m, m') ∷ [])
proc_values _ = none

-- The name and the numbers of a line; `none` where the line is passed over. `sscanf` is the list of
-- the values that sscanf converts with the format of the source.
unfoldable pub proc_parse : (Bytes → List ℕ) → Bytes → Option (Bytes × List (ℕ × ℕ))
unfolding cut skip_spaces proc_values
proc_parse sscanf [] = none
proc_parse sscanf (c ∷ buf) =
    let (name, rest) = cut b':' (c ∷ buf) in
    if c == 13 || c == 10
    then none
    else (do s ← rest; values ← proc_values (sscanf s); some (skip_spaces name, values))

abbrev pub rx_and_tx : UpdateFlags
rx_and_tx = record { update_flag_rx = true; update_flag_tx = true }

-- The loop over `link_attrs`.
unfoldable pub proc_update :
    {F : Type 0}
    → (ℕ → ℕ → ℕ → ElementAttrs F → ElementAttrs F)
    → List AttrMap
    → List (ℕ × ℕ)
    → ElementAttrs F
    → ElementAttrs F
proc_update update (m ∷ map) ((rx, tx) ∷ values) e =
    proc_update update map values (update m.attrid rx tx e)
proc_update update _ _ e = e

-- How the work on a line ends: go on with the next line, `goto skip`, or the end of the program.
pub data LineResult (F : Type 0) : Type 0 where
  next_line : ElementStore F → LineResult F
  skip : ElementStore F → LineResult F
  bug : LineResult F

-- What the reader uses: the attributes of a link as `attr_map_load` left them, the definitions, the
-- time, `rtiming.rt_last_read`, the fuel of `history_update`, and `sscanf`.
pub record ProcEnv (F : Type 0) : Type 0 where
  pub env : ElementEnv F
  pub link_attrs : List AttrMap
  pub defs : AttrDefs
  pub now : Timestamp
  pub rt_last_read : Timestamp
  pub fuel : ℕ
  pub sscanf : Bytes → List ℕ

module _ (fl : Floats) where
  open fl use {Float}

  abbrev pub update_attr : ProcEnv Float → ℕ → ℕ → ℕ → ElementAttrs Float → ElementAttrs Float
  update_attr pe id rx tx e = attr_update fl pe.env.attr_cfg pe.defs e id rx tx rx_and_tx pe.now

  -- `if (e->e_flags & ELEMENT_FLAG_CREATED) { ... }`; `none` is BUG().
  unfoldable pub setup_created : AttrDefs → Element Float → Option (Element Float)
  unfolding element_set_key_attr element_set_usage_attr
  setup_created defs e =
      let (ok, e') = element_set_key_attr e (codes "bytes") (codes "packets") defs in
      let (ok', e'') = element_set_usage_attr e' (codes "bytes") defs in
      if not e.e_created
      then some e
      else if not ok || not ok'
      then none
      else some (record e'' { e_created = false })

  -- What is done with the element of a line; `none` is BUG(), or a run out of fuel.
  unfoldable pub proc_element :
      ProcEnv Float → ElementStore Float → List (ℕ × ℕ) → Element Float → Option (Element Float)
  unfolding setup_created proc_update element_lifesign
  proc_element pe st values e = do
    e' ← setup_created pe.defs e
    e'' ←
        element_notify_update fl pe.fuel pe.env st.cfgs
          (record e' { e_attrs = proc_update (update_attr pe) pe.link_attrs values e'.e_attrs })
          pe.rt_last_read
    some (element_lifesign pe.env e'' 1)

  unfoldable pub proc_line : ProcEnv Float → Bytes → ElementStore Float → LineResult Float
  unfolding proc_parse element_lookup proc_element write_element
  proc_line pe buf st = elim (proc_parse pe.sscanf buf) [
    | none ↦ next_line st
    | some (name, values) ↦
        let (found, st') = element_lookup fl pe.env name 0 true st in
        elim found [
          | none ↦ skip st'
          | some e ↦ elim (proc_element pe st' values e) [
            | none ↦ bug
            | some e' ↦ next_line (record st' { elements = write_element name 0 e' st'.elements })
          ]
        ]
  ]

  unfoldable pub proc_lines :
      ProcEnv Float → List Bytes → ElementStore Float → Option (ElementStore Float)
  unfolding proc_line
  proc_lines pe [] st = some st
  proc_lines pe (buf ∷ lines) st = elim (proc_line pe buf st) [
    | next_line st' ↦ proc_lines pe lines st'
    | skip st' ↦ some st'
    | bug ↦ none
  ]

  -- The two lines of the header are passed over.
  unfoldable pub proc_read :
      ProcEnv Float → List Bytes → ElementStore Float → Option (ElementStore Float)
  unfolding proc_lines
  proc_read pe lines st = proc_lines pe (drop 2 lines) st
