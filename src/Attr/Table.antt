-- ===== src/Attr/Table.antt =====
-- The hash of an element's attributes: `attr_update` against `attr_lookup`.
use bmon.Prelude.{
  ℕ, ◌≡◌, refl, sym, ap, ◌∙◌, ◌≢◌, Option, none, some, List, [], ◌∷◌, ◌++◌, ◌==◌, arith,
  if◌then◌else◌, Option-cases, Bool-cases, inl, inr,
}
use mathlib.Core.Option
use bmon.Clock.{Timestamp}
use bmon.Floats.{Floats}
use bmon.AttrDef.{AttrDef, AttrDefs, find_id, attr_def_lookup_id}
use bmon.Attr.{
  Attr, ElementAttrs, AttrCfg, UpdateFlags, attr_hash, find_attr, attr_lookup, set_bucket,
  write_attr, set_counters, new_attr, attr_update, attr_start_collecting_history,
}

pub find_attr-has_id :
    {F : Type 0} (id : ℕ) (attrs : List (Attr F)) (a : Attr F)
    → find_attr id attrs ≡ some a
    → a.a_def.ad_id ≡ id
unfolding find_attr
find_attr-has_id id [] a h = cc
find_attr-has_id id (x ∷ attrs) a h = ground (arith, find_attr-has_id id attrs a)

pub find_id-has_id :
    (id : ℕ) (defs : List AttrDef) (d : AttrDef) → find_id id defs ≡ some d → d.ad_id ≡ id
unfolding find_id
find_id-has_id id [] d h = cc
find_id-has_id id (x ∷ defs) d h = ground (arith, find_id-has_id id defs d)

find_attr-append_other :
    {F : Type 0} (id : ℕ) (attrs : List (Attr F)) (b : Attr F)
    → b.a_def.ad_id ≢ id
    → find_attr id (attrs ++ b ∷ []) ≡ find_attr id attrs
unfolding find_attr
find_attr-append_other id [] b h = ground arith
find_attr-append_other id (x ∷ attrs) b h = ground (arith, find_attr-append_other id attrs b h)

find_attr-append_new :
    {F : Type 0} (id : ℕ) (attrs : List (Attr F)) (b : Attr F)
    → b.a_def.ad_id ≡ id
    → find_attr id attrs ≡ none
    → find_attr id (attrs ++ b ∷ []) ≡ some b
unfolding find_attr
find_attr-append_new id [] b h n = ground arith
find_attr-append_new id (x ∷ attrs) b h n = ground (arith, find_attr-append_new id attrs b h)

find_attr-write_attr :
    {F : Type 0} (id : ℕ) (attrs : List (Attr F)) (a b : Attr F)
    → find_attr id attrs ≡ some a
    → b.a_def.ad_id ≡ id
    → find_attr id (write_attr id b attrs) ≡ some b
unfolding find_attr write_attr
find_attr-write_attr id [] a b h e = cc
find_attr-write_attr id (x ∷ attrs) a b h e = ground (arith, find_attr-write_attr id attrs a b)

find_attr-write_other :
    {F : Type 0} (id j : ℕ) (attrs : List (Attr F)) (b : Attr F)
    → b.a_def.ad_id ≡ id
    → id ≢ j
    → find_attr j (write_attr id b attrs) ≡ find_attr j attrs
unfolding find_attr write_attr
find_attr-write_other id j [] b h n = refl
find_attr-write_other id j (x ∷ attrs) b h n =
    ground (arith, find_attr-write_other id j attrs b h n)

module _ (fl : Floats) where
  open fl use {Float}

  -- The attribute that an update is for: the one the element has, or a new one where the identifier is
  -- registered.
  unfoldable pub target : AttrCfg Float → AttrDefs → ElementAttrs Float → ℕ → Option (Attr Float)
  target cfg defs e id = elim (attr_lookup e id) [
    | some attr ↦ some attr
    | none ↦ elim (attr_def_lookup_id id defs) [
      | none ↦ none
      | some def ↦ some (new_attr fl cfg e def)
    ]
  ]

  pub set_counters-a_def :
      (rx tx : ℕ) (flags : UpdateFlags) (now : Timestamp) (a : Attr Float)
      → (set_counters rx tx flags now a).a_def ≡ a.a_def
  unfolding set_counters
  set_counters-a_def rx tx flags now a = ground arith

  pub new_attr-a_def :
      (cfg : AttrCfg Float) (e : ElementAttrs Float) (def : AttrDef)
      → (new_attr fl cfg e def).a_def ≡ def
  unfolding new_attr attr_start_collecting_history
  new_attr-a_def cfg e def = ground arith

  -- A bucket of `id` is changed, and the attribute `b` of that identifier is found in it; the others
  -- are found as before.
  lookup_of_bucket :
      (f : ℕ → List (Attr Float)) (id j : ℕ) (b : Attr Float) (bucket : List (Attr Float))
      → find_attr id bucket ≡ some b
      → (id ≢ j → find_attr j bucket ≡ find_attr j (f (attr_hash id)))
      → find_attr j (set_bucket f (attr_hash id) bucket (attr_hash j))
        ≡ (if j == id then some b else find_attr j (f (attr_hash j)))
  unfolding set_bucket
  lookup_of_bucket f id j b bucket h other = elim (Bool-cases (j == id)) [
    | inl e ↦ ground arith
    | inr e ↦ elim (Bool-cases (attr_hash j == attr_hash id)) [
      | inl e' ↦ let e'' : attr_hash j ≡ attr_hash id = ground arith in ground (arith, other)
      | inr e' ↦ ground arith
    ]
  ]

  -- An update of `id` is seen by a lookup of `id`, with what it set on the attribute that the element
  -- had or on a new one, and changes no other attribute, in whatever buckets they are. An identifier
  -- that is neither tracked nor registered is ignored.
  pub attr_lookup-attr_update :
      (cfg : AttrCfg Float) (defs : AttrDefs) (e : ElementAttrs Float) (id rx tx : ℕ)
      (flags : UpdateFlags) (now : Timestamp) (j : ℕ)
      → attr_lookup (attr_update fl cfg defs e id rx tx flags now) j ≡ (
          if j == id
          then Option.map (set_counters rx tx flags now) (target cfg defs e id)
          else attr_lookup e j)
  unfolding attr_update attr_lookup target find_id attr_def_lookup_id
  attr_lookup-attr_update cfg defs e id rx tx flags now j =
      let bucket = e.e_attrhash (attr_hash id) in
      let new : Attr Float → Attr Float = set_counters rx tx flags now in
      elim (Option-cases (attr_lookup e id)) [
        | inl n ↦ elim (Option-cases (attr_def_lookup_id id defs)) [
          | inl n' ↦
              let t : target cfg defs e id ≡ none = rw (target, n, n') refl in
              rw (n, n', t, attr_update)
                (elim (Bool-cases (j == id)) [
                  | inl e' ↦ let e'' : j ≡ id = ground arith in ground (arith, n)
                  | inr e' ↦ ground arith
                ])
          | inr (def, d) ↦
              let a = new (new_attr fl cfg e def) in
              let t : target cfg defs e id ≡ some (new_attr fl cfg e def) =
                rw (target, n, d) refl in
              let h : a.a_def ≡ def =
                set_counters-a_def rx tx flags now (new_attr fl cfg e def)
                ∙ new_attr-a_def cfg e def in
              let i : a.a_def.ad_id ≡ id =
                ap (λ (x : AttrDef). x.ad_id) h ∙ find_id-has_id id defs.attr_def_list def d in
              rw (n, d, t, attr_update)
                (lookup_of_bucket e.e_attrhash id j a (bucket ++ a ∷ [])
                  (find_attr-append_new id bucket a i n)
                  (λ ne. find_attr-append_other j bucket a (λ q. ne (sym i ∙ q))))
        ]
        | inr (a, h) ↦
            let t : target cfg defs e id ≡ some a = rw (target, h) refl in
            let i : (new a).a_def.ad_id ≡ id =
              ap (λ (x : AttrDef). x.ad_id) (set_counters-a_def rx tx flags now a)
              ∙ find_attr-has_id id bucket a h in
            rw (h, t, attr_update)
              (lookup_of_bucket e.e_attrhash id j (new a) (write_attr id (new a) bucket)
                (find_attr-write_attr id bucket a (new a) h i)
                (λ ne. find_attr-write_other id j bucket (new a) i ne))
      ]
