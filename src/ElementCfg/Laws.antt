-- ===== src/ElementCfg/Laws.antt =====
-- Reference counts and unique names of the list of configurations.
use bmon.Prelude.{
  ℕ, ◌+◌, ◌-◌, ◌<◌, ◌≡◌, refl, none, some, [], ◌∷◌, ◌++◌, arith, if◌then◌else◌, Option-cases, inl,
  inr,
}
use mathlib.Core.Option
use bmon.Prelude.Bytes.{Bytes, str_eq, str_eq_iff, str_eq_refl, str_eq_comm}
use bmon.ElementCfg.{
  ElementCfg, CfgList, element_cfg_lookup, update_cfg, new_cfg, incr_refcnt, element_cfg_alloc,
  list_del_cfg, element_cfg_free,
}

-- The count of the configuration of a name; 0 where there is none.
abbrev pub refcnt : Bytes → CfgList → ℕ
refcnt name cfg_list = elim (element_cfg_lookup name cfg_list) [ none ↦ 0 | some ec ↦ ec.ec_refcnt ]

-- Names are unique, and every configuration of the list is in use.
abbrev pub IsValid : CfgList → Type 0
IsValid [] = Unit
IsValid (ec ∷ cfg_list) =
    (0 < ec.ec_refcnt) × (element_cfg_lookup ec.ec_name cfg_list ≡ none) × IsValid cfg_list

-- What a lookup finds has the name that was looked for.
pub element_cfg_lookup-name :
    (name : Bytes) (cfg_list : CfgList) (ec : ElementCfg)
    → element_cfg_lookup name cfg_list ≡ some ec
    → ec.ec_name ≡ name
unfolding element_cfg_lookup
element_cfg_lookup-name name [] ec h = cc
element_cfg_lookup-name name (c ∷ cfg_list) ec h =
    ground (arith, str_eq_iff name c.ec_name, element_cfg_lookup-name name cfg_list ec)

lookup-append :
    (name : Bytes) (cs ds : CfgList)
    → element_cfg_lookup name (cs ++ ds)
      ≡ elim (element_cfg_lookup name cs) [ none ↦ element_cfg_lookup name ds | some ec ↦ some ec ]
unfolding element_cfg_lookup
lookup-append name [] ds = refl
lookup-append name (c ∷ cs) ds = ground (arith, lookup-append name cs ds)

lookup-update_cfg :
    (j name : Bytes) (f : ElementCfg → ElementCfg) (cs : CfgList)
    → ((ec : ElementCfg) → (f ec).ec_name ≡ ec.ec_name)
    → element_cfg_lookup j (update_cfg name f cs)
      ≡ (if str_eq j name then Option.map f (element_cfg_lookup j cs) else element_cfg_lookup j cs)
unfolding element_cfg_lookup update_cfg
lookup-update_cfg j name f [] k = ground arith
lookup-update_cfg j name f (c ∷ cs) k = ground (
  arith,
  k c,
  str_eq_iff j name,
  str_eq_iff name c.ec_name,
  str_eq_iff j c.ec_name,
  lookup-update_cfg j name f cs k,
)

update_cfg-IsValid :
    (name : Bytes) (f : ElementCfg → ElementCfg) (cs : CfgList)
    → ((ec : ElementCfg) → (f ec).ec_name ≡ ec.ec_name)
    → ((ec : ElementCfg) → element_cfg_lookup name cs ≡ some ec → 0 < (f ec).ec_refcnt)
    → IsValid cs
    → IsValid (update_cfg name f cs)
unfolding element_cfg_lookup update_cfg
update_cfg-IsValid name f [] k p v = tt
update_cfg-IsValid name f (c ∷ cs) k p v = ground (
  arith,
  k c,
  p c,
  str_eq_comm name c.ec_name,
  lookup-update_cfg c.ec_name name f cs k,
  update_cfg-IsValid name f cs k,
  p,
)

append-IsValid :
    (name : Bytes) (cs : CfgList)
    → element_cfg_lookup name cs ≡ none
    → IsValid cs
    → IsValid (cs ++ new_cfg name ∷ [])
unfolding element_cfg_lookup
append-IsValid name [] h v = (omega arith, refl, tt)
append-IsValid name (c ∷ cs) h v = ground (
  arith,
  append-IsValid name cs,
  lookup-append c.ec_name cs (new_cfg name ∷ []),
  str_eq_comm name c.ec_name,
)

undo_update :
    (name : Bytes) (cs : CfgList)
    → update_cfg name
        (λ ec. record ec { ec_refcnt = ec.ec_refcnt - 1 })
        (update_cfg name incr_refcnt cs)
      ≡ cs
unfolding update_cfg
undo_update name [] = refl
undo_update name (c ∷ cs) = ground (arith, undo_update name cs)

undo_append :
    (name : Bytes) (cs : CfgList)
    → element_cfg_lookup name cs ≡ none
    → list_del_cfg name (cs ++ new_cfg name ∷ []) ≡ cs
unfolding list_del_cfg element_cfg_lookup
undo_append name [] h = ground (arith, str_eq_refl name)
undo_append name (c ∷ cs) h = ground (arith, undo_append name cs)

count_pos :
    (name : Bytes) (cs : CfgList) (ec : ElementCfg)
    → IsValid cs
    → element_cfg_lookup name cs ≡ some ec
    → 0 < ec.ec_refcnt
unfolding element_cfg_lookup
count_pos name [] ec v h = cc
count_pos name (c ∷ cs) ec v h = ground (arith, count_pos name cs ec v.2)

alloc-refcnt :
    (j name : Bytes) (cs : CfgList)
    → refcnt j (element_cfg_alloc name cs).1
      ≡ (if str_eq j name then refcnt name cs + 1 else refcnt j cs)
unfolding element_cfg_alloc element_cfg_lookup
alloc-refcnt j name cs = ground (
  arith,
  str_eq_iff j name,
  lookup-append j cs (new_cfg name ∷ []),
  lookup-update_cfg j name incr_refcnt cs (λ ec. refl),
)

-- `element_cfg_alloc` keeps the names unique and the counts above 0, and raises the count of its own
-- name by one: to 1 where there was no configuration of that name. No other count changes.
pub element_cfg_alloc_lem :
    (name : Bytes) (cs : CfgList)
    → IsValid cs
    → IsValid (element_cfg_alloc name cs).1
      × ((j : Bytes)
          → refcnt j (element_cfg_alloc name cs).1
            ≡ (if str_eq j name then refcnt name cs + 1 else refcnt j cs))
unfolding element_cfg_alloc
element_cfg_alloc_lem name cs v = (valid, λ j. alloc-refcnt j name cs)
  where
    valid : IsValid (element_cfg_alloc name cs).1
    valid = ground (
      arith,
      append-IsValid name cs,
      update_cfg-IsValid name incr_refcnt cs (λ ec. refl) (λ ec _. omega arith) v,
    )

-- `element_cfg_free` takes back what `element_cfg_alloc` did: the list is what it was.
pub element_cfg_free-element_cfg_alloc :
    (name : Bytes) (cs : CfgList)
    → IsValid cs
    → element_cfg_free (some name) (element_cfg_alloc name cs).1 ≡ cs
unfolding element_cfg_alloc element_cfg_free element_cfg_lookup
element_cfg_free-element_cfg_alloc name cs v = elim (Option-cases (element_cfg_lookup name cs)) [
  | inl e ↦
      ground
        (arith, str_eq_refl name, undo_append name cs, lookup-append name cs (new_cfg name ∷ []))
  | inr (ec, e) ↦ ground (
    arith,
    str_eq_refl name,
    undo_update name cs,
    lookup-update_cfg name name incr_refcnt cs (λ ec. refl),
    count_pos name cs ec v e,
  )
]
