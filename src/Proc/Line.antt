-- ===== src/Proc/Line.antt =====
-- One line of the file: from its text to the element with its numbers.

use bmon.Prelude.{
  ℕ, ◌*◌, ◌%◌, ◌^◌, ◌≡◌, refl, sym, ap, subst, ◌∙◌, Bool, true, false, not, ◌||◌, none, some, List,
  [], ◌∷◌, if◌then◌else◌, Option-cases, inl, inr,
}
use bmon.Prelude.Bytes.{Bytes, codes, str_eq_refl}
use bmon.Floats.{Floats}
use bmon.AttrDef.{AttrDefs, AttrMap, attr_def_lookup}
use bmon.Attr.{ElementAttrs, attr_hash, attr_lookup}
use bmon.Element.{
  Element, ElementStore, lookup_in, set_usage, element_lookup, element_notify_update,
  element_lifesign, write_element, element_set_key_attr, element_set_usage_attr,
}
use bmon.Element.Facts.{IsCounted, IsFor, same_element}
use bmon.Element.Lookup.{element_lookup-AfterLookup}
use bmon.Element.Ends.{AttrsEnd}
use bmon.Element.Notify.{element_notify_update-IsNotified, notified, notified-currents}
use bmon.Element.Write.{
  lookup_in-IsFor, lookup_in-write_element, size-write_element, write_element-UniqueElements,
}
use bmon.Proc.{
  ProcEnv, LineResult, next_line, proc_parse, proc_update, update_attr, setup_created, proc_element,
  proc_line,
}
use bmon.Proc.Attrs.{AllDistinct, AllDefined, HasCurrent, AllCurrent, proc_update-AllCurrent}

module _ (fl : Floats) where
  open fl use {Float}

  abbrev pub updated_attrs : ProcEnv Float → List (ℕ × ℕ) → Element Float → ElementAttrs Float
  updated_attrs pe values e = proc_update (update_attr fl pe) pe.link_attrs values e.e_attrs

  set_key_attr-IsFor :
      (e : Element Float) (major minor : Bytes) (defs : AttrDefs) (name : Bytes) (id : ℕ)
      → IsFor name id e
      → IsFor name id (element_set_key_attr e major minor defs).1
  unfolding element_set_key_attr
  set_key_attr-IsFor e major minor defs name id f =
      elim (Option-cases (attr_def_lookup major defs)) [
        | inl n ↦ rw (n, element_set_key_attr) f
        | inr (_, n) ↦ elim (Option-cases (attr_def_lookup minor defs)) [
          | inl n' ↦ rw (n, n', element_set_key_attr) f
          | inr (_, n') ↦ rw (n, n', element_set_key_attr) f
        ]
      ]

  set_usage_attr-IsFor :
      (e : Element Float) (usage : Bytes) (defs : AttrDefs) (name : Bytes) (id : ℕ)
      → IsFor name id e
      → IsFor name id (element_set_usage_attr e usage defs).1
  unfolding element_set_usage_attr
  set_usage_attr-IsFor e usage defs name id f = elim (Option-cases (attr_def_lookup usage defs)) [
    | inl n ↦ rw (n, element_set_usage_attr) f
    | inr (_, n) ↦ rw (n, element_set_usage_attr) f
  ]

  setup_choice :
      (created failed : Bool) (e e'' e' : Element Float) (name : Bytes) (id : ℕ)
      → e.e_created ≡ created
      → IsFor name id e
      → IsFor name id e''
      → (if not created
          then some e
          else if failed
          then none
          else some (record e'' { e_created = false }))
        ≡ some e'
      → IsFor name id e' × (e'.e_created ≡ false)
  setup_choice false failed e e'' e' name id c f f'' h =
      let same : e ≡ e' = cc in subst (λ x. IsFor name id x × (x.e_created ≡ false)) same (f, c)
  setup_choice true true e e'' e' name id c f f'' h = cc
  setup_choice true false e e'' e' name id c f f'' h =
      let x : Element Float = record e'' { e_created = false } in
      let same : x ≡ e' = cc in
      subst (λ y. IsFor name id y × (y.e_created ≡ false)) same (f'', refl)

  setup_created-IsFor :
      (defs : AttrDefs) (e e' : Element Float) (name : Bytes) (id : ℕ)
      → setup_created fl defs e ≡ some e'
      → IsFor name id e
      → IsFor name id e' × (e'.e_created ≡ false)
  unfolding setup_created
  setup_created-IsFor defs e e' name id h f =
      let k = set_key_attr-IsFor e (codes "bytes") (codes "packets") defs name id f in
      let keyed = element_set_key_attr e (codes "bytes") (codes "packets") defs in
      let used = element_set_usage_attr keyed.1 (codes "bytes") defs in
      let u = set_usage_attr-IsFor keyed.1 (codes "bytes") defs name id k in
      setup_choice e.e_created (not keyed.0 || not used.0) e used.1 e' name id refl f u h

  notified-HasCurrent :
      (pe : ProcEnv Float) (e e' : ElementAttrs Float) (id rx tx : ℕ)
      → ((h : ℕ) → AttrsEnd fl pe.fuel pe.rt_last_read (e.e_attrhash h))
      → attr_lookup e' id ≡ notified fl pe.fuel pe.env.attr_cfg pe.rt_last_read (attr_lookup e id)
      → HasCurrent (attr_lookup e id) rx tx
      → HasCurrent (attr_lookup e' id) rx tx
  unfolding attr_lookup
  notified-HasCurrent pe e e' id rx tx v each h =
      let (a, n, r, t) =
        notified-currents fl pe.fuel pe.env.attr_cfg pe.rt_last_read (e.e_attrhash (attr_hash id))
          id h.attr (v (attr_hash id)) h.found in
      record {
        attr = a;
        found = each ∙ ap (notified fl pe.fuel pe.env.attr_cfg pe.rt_last_read) h.found ∙ n;
        rx_current = r ∙ h.rx_current;
        tx_current = t ∙ h.tx_current;
      }

  AllCurrent-map :
      (map : List AttrMap) (values : List (ℕ × ℕ)) (e e' : ElementAttrs Float)
      → ((id rx tx : ℕ)
          → HasCurrent (attr_lookup e id) rx tx
          → HasCurrent (attr_lookup e' id) rx tx)
      → AllCurrent map values e
      → AllCurrent map values e'
  AllCurrent-map [] values e e' f c = tt
  AllCurrent-map (m ∷ map) [] e e' f c = tt
  AllCurrent-map (m ∷ map) ((rx, tx) ∷ values) e e' f (c, cs) =
      (f m.attrid rx tx c, AllCurrent-map map values e e' f cs)

  if_later :
      {A : Type 0} (b : Bool) (x y o o' : A)
      → o' ≡ (if b then y else o)
      → (if b then x else o') ≡ (if b then x else o)
  if_later true x y o o' e = refl
  if_later false x y o o' e = e

  proc_element_eq :
      (pe : ProcEnv Float) (st : ElementStore Float) (values : List (ℕ × ℕ))
      (e e' e'' : Element Float)
      → setup_created fl pe.defs e ≡ some e'
      → element_notify_update fl pe.fuel pe.env st.cfgs
          (record e' { e_attrs = updated_attrs pe values e' })
          pe.rt_last_read
        ≡ some e''
      → proc_element fl pe st values e ≡ some (element_lifesign pe.env e'' 1)
  unfolding proc_element
  proc_element_eq pe st values e e' e'' setup notify = rw (setup, notify) refl

  proc_line_eq :
      (pe : ProcEnv Float) (buf name : Bytes) (values : List (ℕ × ℕ)) (st : ElementStore Float)
      (e e' : Element Float)
      → proc_parse pe.sscanf buf ≡ some (name, values)
      → (element_lookup fl pe.env name 0 true st).0 ≡ some e
      → proc_element fl pe (element_lookup fl pe.env name 0 true st).1 values e ≡ some e'
      → proc_line fl pe buf st
        ≡ next_line (record ((element_lookup fl pe.env name 0 true st).1) {
          elements = write_element name 0 e' (element_lookup fl pe.env name 0 true st).1.elements;
        })
  unfolding proc_line
  proc_line_eq pe buf name values st e e' parsed found done =
      rw (parsed, found, done, proc_line) refl

  -- What a line leaves: an element of its name that has its numbers and all its lifecycles, and the
  -- other elements as before.
  pub record AfterLine (pe : ProcEnv Float) (name : Bytes) (values : List (ℕ × ℕ))
      (st : ElementStore Float) (r : LineResult Float) : Type 0 where
    pub element : Element Float
    pub store : ElementStore Float
    pub result : r ≡ next_line store
    pub lookups :
        (j : Bytes) (k : ℕ)
        → lookup_in j k store.elements
          ≡ (if same_element j k name 0 then some element else lookup_in j k st.elements)
    pub counters : AllCurrent pe.link_attrs values element.e_attrs
    pub alive : element.e_lifecycles ≡ 1 * pe.env.lifecycles % 2 ^ 32
    pub updated : element.e_updated ≡ true
    pub created : element.e_created ≡ false
    pub valid : IsCounted store

  -- A line of /proc/net/dev leaves an element of its name with the numbers of the line in its counters
  -- and all its lifecycles, and the other elements as before. The names of the store are unique and
  -- counted, the attributes of a link are distinct and defined, the line has a name and 16 numbers, the
  -- lookup returns an element, its key attributes are set up, and its histories are valid and not further
  -- behind than the fuel allows.
  pub proc_line-AfterLine :
      (pe : ProcEnv Float) (buf name : Bytes) (values : List (ℕ × ℕ)) (st : ElementStore Float)
      (e e' : Element Float)
      → IsCounted st
      → AllDistinct pe.link_attrs
      → AllDefined pe.link_attrs pe.defs
      → proc_parse pe.sscanf buf ≡ some (name, values)
      → (element_lookup fl pe.env name 0 true st).0 ≡ some e
      → setup_created fl pe.defs e ≡ some e'
      → ((h : ℕ) → AttrsEnd fl pe.fuel pe.rt_last_read ((updated_attrs pe values e').e_attrhash h))
      → AfterLine pe name values st (proc_line fl pe buf st)
  unfolding element_lifesign
  proc_line-AfterLine pe buf name values st e e' valid distinct defined parsed found setup ends =
      let st' = (element_lookup fl pe.env name 0 true st).1 in
      let l = element_lookup-AfterLookup fl pe.env name 0 true st valid in
      let here : lookup_in name 0 st'.elements ≡ some e =
        l.later name 0 ∙ rw (str_eq_refl name) found in
      let (named, created) =
        setup_created-IsFor pe.defs e e' name 0 setup
          (lookup_in-IsFor name 0 st'.elements e here) in
      let counted = proc_update-AllCurrent fl pe pe.link_attrs values e'.e_attrs distinct defined in
      let n =
        element_notify_update-IsNotified fl pe.fuel pe.env st'.cfgs
          (record e' { e_attrs = updated_attrs pe values e' }) pe.rt_last_read ends in
      let element =
        element_lifesign pe.env
          (set_usage fl pe.env st'.cfgs (record e' { e_updated = true; e_attrs = n.attrs })) 1 in
      record {
        element = element;
        store = record st' { elements = write_element name 0 element st'.elements };
        result =
            proc_line_eq pe buf name values st e element parsed found
              (proc_element_eq pe st' values e e' _ setup n.result);
        lookups = λ j k.
            lookup_in-write_element name j 0 k e element st'.elements here named
            ∙ if_later (same_element j k name 0) (some element) _ _ _ (l.later j k);
        counters =
            AllCurrent-map pe.link_attrs values (updated_attrs pe values e') n.attrs
              (λ id rx tx h.
                notified-HasCurrent pe (updated_attrs pe values e') n.attrs id rx tx ends
                  (n.each id) h)
              counted;
        alive = refl;
        updated = refl;
        created = created;
        valid = record {
          unique = write_element-UniqueElements name 0 element st'.elements named l.valid.unique;
          counted = l.valid.counted ∙ sym (size-write_element name 0 element st'.elements);
        };
      }
