-- ===== src/Element/Tests.antt =====
-- Elements at concrete values.

use bmon.Prelude.{
  ℕ, ◌-◌, ◌≡◌, refl, true, none, some, ◌==◌, if◌then◌else◌, ltb, arith, Bool-cases, inl, inr,
}
use bmon.Prelude.Bytes.{codes, str_eq}
use bmon.Floats.{whole_floats}
use bmon.Element.{lookup_in, sweep, element_lookup}
use bmon.Element.Samples.{
  env, named, store, store-UniqueElements, store-IsCounted, history-Ends, at_second,
}
use bmon.Element.Facts.{IsCounted}
use bmon.Element.Life.{sweeps, with_lifecycles, lookup_in-sweeps, sweep-IsCounted}
use bmon.Element.Lookup.{AfterLookup, element_lookup-AfterLookup}
use bmon.Element.Ends.{AttrsEnd}
use bmon.Element.Notify.{IsNotified, element_notify_update-IsNotified}

lookup_in-sweeps_example :
    lookup_in (codes "eth0") 0 (sweeps 2 store.elements)
    ≡ (if ltb 2 3 then some (with_lifecycles (named "eth0" 3) (3 - 2)) else none)
unfolding lookup_in str_eq
lookup_in-sweeps_example =
    lookup_in-sweeps (codes "eth0") 0 2 2 store.elements (named "eth0" 3) store-UniqueElements refl
      refl (omega arith)

sweep-IsCounted_example : IsCounted (sweep store)
sweep-IsCounted_example = sweep-IsCounted store store-IsCounted

element_lookup-AfterLookup_example :
    AfterLookup whole_floats env
      (codes "eth1")
      0
      true
      store
      (element_lookup whole_floats env (codes "eth1") 0 true store)
element_lookup-AfterLookup_example =
    element_lookup-AfterLookup whole_floats env (codes "eth1") 0 true store store-IsCounted

eth0_ends :
    (h : ℕ) → AttrsEnd whole_floats 12 (at_second 34) ((named "eth0" 3).e_attrs.e_attrhash h)
eth0_ends h = elim (Bool-cases (h == 1)) [ inl s ↦ rw s ((history-Ends, tt), tt) | inr s ↦ rw s tt ]

element_notify_update-IsNotified_example :
    IsNotified whole_floats 12 env store.cfgs (named "eth0" 3) (at_second 34)
element_notify_update-IsNotified_example =
    element_notify_update-IsNotified whole_floats 12 env store.cfgs (named "eth0" 3) (at_second 34)
      eth0_ends
