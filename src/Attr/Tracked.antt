-- ===== src/Attr/Tracked.antt =====
-- The hash of an element's attributes and its sorted list hold the same attributes.
use mathlib.Core.Option
use bmon.Prelude.{
  ℕ, Bool, ◌+◌, ◌≡◌, refl, sym, ap, ◌∙◌, true, false, Option, none, some, List, [], ◌∷◌, ◌==◌,
  arith, if◌then◌else◌, Option-cases, Bool-cases, inl, inr, length,
}
use bmon.Clock.{Timestamp}
use bmon.Floats.{Floats}
use bmon.AttrDef.{AttrDef, AttrDefs, find_id, attr_def_lookup_id}
use bmon.Attr.{
  Attr, ElementAttrs, AttrCfg, UpdateFlags, insert_sorted, attr_lookup, set_counters, new_attr,
  attr_update,
}
use bmon.Attr.Table.{
  target, attr_lookup-attr_update, set_counters-a_def, new_attr-a_def, find_id-has_id,
}

abbrev pub def_of : {F : Type 0} → Attr F → AttrDef
def_of a = a.a_def

-- The sorted list holds the definition of each attribute that a lookup finds and no other, and
-- `e_nattrs` is its length.
pub record IsTracked {F : Type 0} (e : ElementAttrs F) : Type 0 where
  pub count : e.e_nattrs ≡ length e.e_attr_sorted
  pub agree : (j : ℕ) → Option.map def_of (attr_lookup e j) ≡ find_id j e.e_attr_sorted

length-insert_sorted :
    {F : Type 0} (e : ElementAttrs F) (a : AttrDef) (sorted : List AttrDef)
    → length (insert_sorted e a sorted) ≡ length sorted + 1
unfolding insert_sorted
length-insert_sorted e a [] = refl
length-insert_sorted e a (b ∷ sorted) = ground (arith, length-insert_sorted e a sorted)

find_id-insert_sorted :
    {F : Type 0} (e : ElementAttrs F) (a : AttrDef) (sorted : List AttrDef) (j : ℕ)
    → find_id a.ad_id sorted ≡ none
    → find_id j (insert_sorted e a sorted) ≡ (if j == a.ad_id then some a else find_id j sorted)
unfolding insert_sorted find_id
find_id-insert_sorted e a [] j h = ground arith
find_id-insert_sorted e a (b ∷ sorted) j h = ground (arith, find_id-insert_sorted e a sorted j)

agree-if :
    {F : Type 0} (c : Bool) (b : Attr F) (d : AttrDef) (x : Option (Attr F)) (y : Option AttrDef)
    → def_of b ≡ d
    → Option.map def_of x ≡ y
    → Option.map def_of (if c then some b else x) ≡ (if c then some d else y)
agree-if true b d x y h h' = ap some h
agree-if false b d x y h h' = h'

find_id-if :
    (id j : ℕ) (defs : List AttrDef) (d : AttrDef)
    → find_id id defs ≡ some d
    → (if j == id then some d else find_id j defs) ≡ find_id j defs
find_id-if id j defs d h = elim (Bool-cases (j == id)) [
  | inl e ↦ let e' : j ≡ id = ground arith in ground (arith, h)
  | inr e ↦ ground arith
]

module _ (fl : Floats) where
  open fl use {Float}

  -- What an update does to the sorted list and the count.
  update-known :
      (cfg : AttrCfg Float) (defs : AttrDefs) (e : ElementAttrs Float) (id rx tx : ℕ)
      (flags : UpdateFlags) (now : Timestamp) (a : Attr Float)
      → attr_lookup e id ≡ some a
      → ((attr_update fl cfg defs e id rx tx flags now).e_attr_sorted ≡ e.e_attr_sorted)
        × ((attr_update fl cfg defs e id rx tx flags now).e_nattrs ≡ e.e_nattrs)
        × (target fl cfg defs e id ≡ some a)
  unfolding attr_update target
  update-known cfg defs e id rx tx flags now a h =
      (rw (h, attr_update) refl, rw (h, attr_update) refl, rw (target, h) refl)

  update-ignored :
      (cfg : AttrCfg Float) (defs : AttrDefs) (e : ElementAttrs Float) (id rx tx : ℕ)
      (flags : UpdateFlags) (now : Timestamp)
      → attr_lookup e id ≡ none
      → attr_def_lookup_id id defs ≡ none
      → attr_update fl cfg defs e id rx tx flags now ≡ e
  unfolding attr_update
  update-ignored cfg defs e id rx tx flags now h d = rw (h, d, attr_update) refl

  update-new :
      (cfg : AttrCfg Float) (defs : AttrDefs) (e : ElementAttrs Float) (id rx tx : ℕ)
      (flags : UpdateFlags) (now : Timestamp) (def : AttrDef)
      → attr_lookup e id ≡ none
      → attr_def_lookup_id id defs ≡ some def
      → ((attr_update fl cfg defs e id rx tx flags now).e_attr_sorted
          ≡ insert_sorted e def e.e_attr_sorted)
        × ((attr_update fl cfg defs e id rx tx flags now).e_nattrs ≡ e.e_nattrs + 1)
        × (target fl cfg defs e id ≡ some (new_attr fl cfg e def))
  unfolding attr_update target
  update-new cfg defs e id rx tx flags now def h d =
      (rw (h, d, attr_update) refl, rw (h, d, attr_update) refl, rw (target, h, d) refl)

  lookup_of_target :
      (cfg : AttrCfg Float) (defs : AttrDefs) (e : ElementAttrs Float) (id rx tx : ℕ)
      (flags : UpdateFlags) (now : Timestamp) (b : Attr Float)
      → target fl cfg defs e id ≡ some b
      → (j : ℕ)
      → attr_lookup (attr_update fl cfg defs e id rx tx flags now) j
        ≡ (if j == id then some (set_counters rx tx flags now b) else attr_lookup e j)
  lookup_of_target cfg defs e id rx tx flags now b g j =
      attr_lookup-attr_update fl cfg defs e id rx tx flags now j
      ∙ ap
          (λ (o : Option (Attr Float)).
            if j == id then Option.map (set_counters rx tx flags now) o else attr_lookup e j)
          g

  agree-target :
      (cfg : AttrCfg Float) (defs : AttrDefs) (e : ElementAttrs Float) (id rx tx : ℕ)
      (flags : UpdateFlags) (now : Timestamp)
      → IsTracked e
      → (b : Attr Float) → target fl cfg defs e id ≡ some b
      → (j : ℕ)
      → Option.map def_of (attr_lookup (attr_update fl cfg defs e id rx tx flags now) j)
        ≡ (if j == id then some (def_of b) else find_id j e.e_attr_sorted)
  agree-target cfg defs e id rx tx flags now t b g j =
      ap (Option.map def_of) (lookup_of_target cfg defs e id rx tx flags now b g j)
      ∙ agree-if (j == id) (set_counters rx tx flags now b) (def_of b) (attr_lookup e j)
          (find_id j e.e_attr_sorted) (set_counters-a_def fl rx tx flags now b) (t.agree j)

  -- After an update the hash and the sorted list hold the same attributes again, and `e_nattrs` is
  -- their number, whether the attribute was there, is new, or is not registered.
  pub attr_update-IsTracked :
      (cfg : AttrCfg Float) (defs : AttrDefs) (e : ElementAttrs Float) (id rx tx : ℕ)
      (flags : UpdateFlags) (now : Timestamp)
      → IsTracked e
      → IsTracked (attr_update fl cfg defs e id rx tx flags now)
  unfolding find_id attr_def_lookup_id
  attr_update-IsTracked cfg defs e id rx tx flags now t =
      let found = agree-target cfg defs e id rx tx flags now t in
      elim (Option-cases (attr_lookup e id)) [
        | inl n ↦ elim (Option-cases (attr_def_lookup_id id defs)) [
          | inl n' ↦ rw (update-ignored cfg defs e id rx tx flags now n n') t
          | inr (def, d) ↦
              let (s, c, g) = update-new cfg defs e id rx tx flags now def n d in
              let i : def.ad_id ≡ id = find_id-has_id id defs.attr_def_list def d in
              let fresh : find_id def.ad_id e.e_attr_sorted ≡ none =
                ap (λ k. find_id k e.e_attr_sorted) i
                ∙ sym (t.agree id)
                ∙ ap (Option.map def_of) n in
              record {
                count =
                    c
                    ∙ ap (λ (k : ℕ). k + 1) t.count
                    ∙ sym (ap length s ∙ length-insert_sorted e def e.e_attr_sorted);
                agree = λ j.
                    found (new_attr fl cfg e def) g j
                    ∙ ap (λ (d' : AttrDef). if j == id then some d' else find_id j e.e_attr_sorted)
                        (new_attr-a_def fl cfg e def)
                    ∙ sym (
                        ap (find_id j) s
                        ∙ find_id-insert_sorted e def e.e_attr_sorted j fresh
                        ∙ ap (λ (k : ℕ). if j == k then some def else find_id j e.e_attr_sorted) i);
              }
        ]
        | inr (a, h) ↦
            let (s, c, g) = update-known cfg defs e id rx tx flags now a h in
            record {
              count = c ∙ t.count ∙ sym (ap length s);
              agree = λ j.
                  found a g j
                  ∙ find_id-if id j e.e_attr_sorted (def_of a)
                      (sym (t.agree id) ∙ ap (Option.map def_of) h)
                  ∙ sym (ap (find_id j) s);
            }
      ]
