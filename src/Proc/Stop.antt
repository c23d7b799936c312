-- ===== src/Proc/Stop.antt =====
-- What one interface that the policy denies does to the rest of the file.
use bmon.Prelude.{ℕ, ◌≡◌, refl, ap, sym, ◌∙◌, true, false, Option, none, some, List, [], ◌∷◌, ◌++◌}
use bmon.Prelude.Bytes.{Bytes}
use bmon.Floats.{Floats}
use bmon.ElementCfg.{element_cfg_lookup}
use bmon.Policy.{element_allowed}
use bmon.Element.{ElementStore, lookup_in, element_lookup}
use bmon.Proc.{
  ProcEnv, LineResult, next_line, skip, bug, proc_parse, proc_line, proc_lines, proc_read,
}

module _ (fl : Floats) where
  open fl use {Float}

  lookup_denied :
      (pe : ProcEnv Float) (st : ElementStore Float) (name : Bytes)
      → lookup_in name 0 st.elements ≡ none
      → element_allowed pe.env.policies name (element_cfg_lookup name st.cfgs) ≡ false
      → element_lookup fl pe.env name 0 true st ≡ (none, st)
  unfolding element_lookup
  lookup_denied pe st name h d = rw (h, d, element_lookup) refl

  denied_line :
      (pe : ProcEnv Float) (buf : Bytes) (lines : List Bytes) (st : ElementStore Float)
      (name : Bytes) (values : List (ℕ × ℕ))
      → proc_parse pe.sscanf buf ≡ some (name, values)
      → lookup_in name 0 st.elements ≡ none
      → element_allowed pe.env.policies name (element_cfg_lookup name st.cfgs) ≡ false
      → proc_lines fl pe (buf ∷ lines) st ≡ some st
  unfolding proc_lines proc_line
  denied_line pe buf lines st name values p h d =
      let r = lookup_denied pe st name h d in
      rw (p, proc_lines, proc_line, ap (λ x. x.0) r) (ap (λ x. some (x.1)) r)

  -- The rest of the lines, behind one that goes on.
  behind_line :
      (f g : ElementStore Float → Option (ElementStore Float)) (st1 : ElementStore Float)
      → ((st : ElementStore Float) → f st ≡ some st1 → g st ≡ some st1)
      → (r : LineResult Float)
      → elim r [ next_line st ↦ f st | skip st ↦ some st | bug ↦ none ] ≡ some st1
      → elim r [ next_line st ↦ g st | skip st ↦ some st | bug ↦ none ] ≡ some st1
  behind_line f g st1 k (next_line st) h = k st h
  behind_line f g st1 k (skip st) h = h
  behind_line f g st1 k bug h = h

  -- Lines that are read up to the state `st1`, in front of lines whose read leaves it as it is.
  proc_lines-append :
      (pe : ProcEnv Float) (before after : List Bytes) (st st1 : ElementStore Float)
      → proc_lines fl pe before st ≡ some st1
      → proc_lines fl pe after st1 ≡ some st1
      → proc_lines fl pe (before ++ after) st ≡ some st1
  unfolding proc_lines
  proc_lines-append pe [] after st st1 h e = let same : st ≡ st1 = cc in rw same e
  proc_lines-append pe (buf ∷ before) after st st1 h e =
      behind_line (proc_lines fl pe before) (proc_lines fl pe (before ++ after)) st1
        (λ st' h'. proc_lines-append pe before after st' st1 h' e) (proc_line fl pe buf st) h

  -- Behind two lines of a header and lines `before` whose read ends, a line with a name and 16 numbers of
  -- an interface that has no element then and that the policy denies: the read of the file is the read
  -- of the lines in front of it, whatever the lines behind it are.
  pub proc_read-denied :
      (pe : ProcEnv Float) (buf head1 head2 : Bytes) (before after : List Bytes)
      (st st1 : ElementStore Float) (name : Bytes) (values : List (ℕ × ℕ))
      → proc_read fl pe (head1 ∷ head2 ∷ before) st ≡ some st1
      → proc_parse pe.sscanf buf ≡ some (name, values)
      → lookup_in name 0 st1.elements ≡ none
      → element_allowed pe.env.policies name (element_cfg_lookup name st1.cfgs) ≡ false
      → proc_read fl pe (head1 ∷ head2 ∷ before ++ buf ∷ after) st
        ≡ proc_read fl pe (head1 ∷ head2 ∷ before) st
  unfolding proc_read
  proc_read-denied pe buf head1 head2 before after st st1 name values r p h d =
      proc_lines-append pe before (buf ∷ after) st st1 r
        (denied_line pe buf after st1 name values p h d)
      ∙ sym r
