-- ===== src/Netlink/Fuel.antt =====
-- src/in_netlink.c: the fuel of the traversal does not matter, where it is enough.
use mathlib.Core.Path.{fun_ext}
use bmon.Prelude.{
  ℕ, zero, suc, ◌+◌, ◌<◌, ◌≡◌, refl, ap, ◌∙◌, Bool, true, false, Option, none, some, List, [], ◌∷◌,
  ◌>>=◌, if◌then◌else◌, arith, ◌==◌, ==_iff,
}
use bmon.Prelude.Bytes.{codes}
use bmon.Netlink.Objects.{
  TcCaches, TcElements, cache_foreach, find_cls, find_qdiscs, find_classes, handle_with,
  handle_class, handle_qdisc, handle_root, handle_tc, htb_rate, below_class, root_classes,
  below_qdisc,
}
use bmon.Netlink.Visits.{AllBelow, IsHierarchy, RootBelow}

>>=-cong :
    {A B : Type 0} (o o' : Option A) (f g : A → Option B)
    → o ≡ o'
    → ((a : A) → f a ≡ g a)
    → (o >>= f) ≡ (o' >>= g)
>>=-cong o none f g e h = ap (λ p. p >>= f) e
>>=-cong o (some a) f g e h = ap (λ p. p >>= f) e ∙ h a

if-cong :
    {A : Type 0} (b : Bool) (x y z : A)
    → (b ≡ true → x ≡ y)
    → (if b then x else z) ≡ (if b then y else z)
if-cong true x y z h = h refl
if-cong false x y z h = refl

module _ {Tc S : Type 0} (nl : TcCaches Tc) (ops : TcElements Tc S)
    (class_rank qdisc_rank : Tc → ℕ) where
  -- Two callbacks that agree on the objects of a lower rank.
  abbrev AgreeBelow : (Tc → ℕ) → ℕ → (Tc → S → Option S) → (Tc → S → Option S) → Type 0
  AgreeBelow rank r cb cb' = (tc : Tc) (s : S) → rank tc < r → cb tc s ≡ cb' tc s

  foreach-cong :
      (cb cb' : Tc → S → Option S) (rank : Tc → ℕ) (r : ℕ) (tcs : List Tc) (s : S)
      → AllBelow rank r tcs
      → AgreeBelow rank r cb cb'
      → cache_foreach cb tcs s ≡ cache_foreach cb' tcs s
  unfolding cache_foreach
  foreach-cong cb cb' rank r [] s b h = refl
  foreach-cong cb cb' rank r (tc ∷ tcs) s (b, bs) h =
      >>=-cong (cb tc s) (cb' tc s) (cache_foreach cb tcs) (cache_foreach cb' tcs) (h tc s b)
        (λ s'. foreach-cong cb cb' rank r tcs s' bs h)

  module _ (cache : ℕ) (tree : IsHierarchy nl ops class_rank qdisc_rank cache) where
    below_class-cong :
        (hc hc' hq hq' : Tc → S → Option S) (tc : Tc) (s : S)
        → AgreeBelow class_rank (class_rank tc) hc hc'
        → AgreeBelow qdisc_rank (class_rank tc) hq hq'
        → below_class nl ops hc hq cache tc s ≡ below_class nl ops hc' hq' cache tc s
    unfolding find_classes find_qdiscs
    below_class-cong hc hc' hq hq' tc s c q =
        let handle = nl.rtnl_tc_get_handle tc in
        let ifindex = nl.rtnl_tc_get_ifindex tc in
        >>=-cong (find_classes nl ops hc cache handle s) (find_classes nl ops hc' cache handle s)
          (find_qdiscs nl ops hq ifindex handle) (find_qdiscs nl ops hq' ifindex handle)
          (foreach-cong hc hc' class_rank (class_rank tc) (nl.classes_of cache handle) s
            (tree.classes tc) c)
          (λ s'.
            foreach-cong hq hq' qdisc_rank (class_rank tc) (nl.qdiscs_of ifindex handle) s'
              (tree.qdiscs tc) q)

    root_classes-cong :
        (hc hc' : Tc → S → Option S) (level : ℕ) (tc : Tc) (s : S)
        → AgreeBelow class_rank (qdisc_rank tc) hc hc'
        → root_classes nl ops hc cache level tc s ≡ root_classes nl ops hc' cache level tc s
    unfolding find_classes
    root_classes-cong hc hc' level tc s c =
        let roots = nl.classes_of cache nl.tc_h_root in
        let cls = find_cls nl ops level (nl.rtnl_tc_get_ifindex tc) nl.tc_h_root s in
        if-cong (nl.rtnl_tc_get_parent tc == nl.tc_h_root)
          (cls >>= find_classes nl ops hc cache nl.tc_h_root)
          (cls >>= find_classes nl ops hc' cache nl.tc_h_root) (some s)
          (λ root.
            >>=-cong cls cls (find_classes nl ops hc cache nl.tc_h_root)
              (find_classes nl ops hc' cache nl.tc_h_root) refl
              (λ s'.
                foreach-cong hc hc' class_rank (qdisc_rank tc) roots s'
                  (tree.roots tc ((==_iff _ _).0 root)) c))

    below_qdisc-cong :
        (hc hc' : Tc → S → Option S) (level : ℕ) (tc : Tc) (s : S)
        → AgreeBelow class_rank (qdisc_rank tc) hc hc'
        → below_qdisc nl ops hc cache level tc s ≡ below_qdisc nl ops hc' cache level tc s
    unfolding find_classes
    below_qdisc-cong hc hc' level tc s c =
        let handle = nl.rtnl_tc_get_handle tc in
        let cls = find_cls nl ops level (nl.rtnl_tc_get_ifindex tc) handle s in
        >>=-cong cls cls
          (λ s1. root_classes nl ops hc cache level tc s1 >>= find_classes nl ops hc cache handle)
          (λ s1. root_classes nl ops hc' cache level tc s1 >>= find_classes nl ops hc' cache handle)
          refl
          (λ s1.
            >>=-cong (root_classes nl ops hc cache level tc s1)
              (root_classes nl ops hc' cache level tc s1) (find_classes nl ops hc cache handle)
              (find_classes nl ops hc' cache handle) (root_classes-cong hc hc' level tc s1 c)
              (λ s2.
                foreach-cong hc hc' class_rank (qdisc_rank tc) (nl.classes_of cache handle) s2
                  (tree.qdisc_classes tc) c))

    mutual
      unfolding handle_class handle_qdisc

      handle_class-fuel :
          (fuel fuel' level : ℕ) (tc : Tc) (s : S)
          → class_rank tc < fuel
          → class_rank tc < fuel'
          → handle_class nl ops fuel cache level tc s ≡ handle_class nl ops fuel' cache level tc s
      handle_class-fuel zero fuel' level tc s h h' = elim h [ ]
      handle_class-fuel (suc fuel) zero level tc s h h' = elim h' [ ]
      handle_class-fuel (suc fuel) (suc fuel') level tc s h h' =
          ap (λ f. handle_with nl ops (codes "class") level tc (htb_rate nl ops tc) f s)
            (fun_ext (λ s'.
              below_class-cong (handle_class nl ops fuel cache (level + 1))
                (handle_class nl ops fuel' cache (level + 1))
                (handle_qdisc nl ops fuel cache (level + 1))
                (handle_qdisc nl ops fuel' cache (level + 1)) tc s'
                (λ c t b. handle_class-fuel fuel fuel' (level + 1) c t (omega arith) (omega arith))
                (λ c t b.
                  handle_qdisc-fuel fuel fuel' (level + 1) c t (omega arith) (omega arith))))

      handle_qdisc-fuel :
          (fuel fuel' level : ℕ) (tc : Tc) (s : S)
          → qdisc_rank tc < fuel
          → qdisc_rank tc < fuel'
          → handle_qdisc nl ops fuel cache level tc s ≡ handle_qdisc nl ops fuel' cache level tc s
      handle_qdisc-fuel zero fuel' level tc s h h' = elim h [ ]
      handle_qdisc-fuel (suc fuel) zero level tc s h h' = elim h' [ ]
      handle_qdisc-fuel (suc fuel) (suc fuel') level tc s h h' =
          ap (λ f. handle_with nl ops (codes "qdisc") level tc (λ s'. some s') f s)
            (fun_ext (λ s'.
              below_qdisc-cong (handle_class nl ops fuel cache (level + 1))
                (handle_class nl ops fuel' cache (level + 1)) (level + 1) tc s'
                (λ c t b.
                  handle_class-fuel fuel fuel' (level + 1) c t (omega arith) (omega arith))))

    root-fuel :
        (fuel fuel' : ℕ) (root : Option Tc) (s : S)
        → RootBelow nl ops class_rank qdisc_rank fuel root
        → RootBelow nl ops class_rank qdisc_rank fuel' root
        → handle_root nl ops fuel cache root s ≡ handle_root nl ops fuel' cache root s
    root-fuel fuel fuel' none s h h' = refl
    root-fuel fuel fuel' (some qdisc) s h h' = handle_qdisc-fuel fuel fuel' 1 qdisc s h h'

    -- The three root qdiscs of the interface have a rank below the fuel.
    abbrev pub RootsBelow : ℕ → Type 0
    RootsBelow fuel =
        RootBelow nl ops class_rank qdisc_rank fuel (nl.qdisc_by_parent cache nl.tc_h_root)
        × RootBelow nl ops class_rank qdisc_rank fuel (nl.qdisc_by_parent cache 0)
        × RootBelow nl ops class_rank qdisc_rank fuel (nl.qdisc_by_parent cache nl.tc_h_ingress)

    handle_tc-fuel :
        (fuel fuel' : ℕ) (s : S)
        → RootsBelow fuel
        → RootsBelow fuel'
        → handle_tc nl ops fuel cache s ≡ handle_tc nl ops fuel' cache s
    unfolding handle_tc
    handle_tc-fuel fuel fuel' s (r0, z0, i0) (r1, z1, i1) =
        let run : ℕ → ℕ → S → Option S =
          λ parent fuel s. handle_root nl ops fuel cache (nl.qdisc_by_parent cache parent) s in
        if-cong (nl.class_cache cache)
          (run nl.tc_h_root fuel s >>= λ s1. run 0 fuel s1 >>= run nl.tc_h_ingress fuel)
          (run nl.tc_h_root fuel' s >>= λ s1. run 0 fuel' s1 >>= run nl.tc_h_ingress fuel') (some s)
          (λ read.
            >>=-cong (run nl.tc_h_root fuel s) (run nl.tc_h_root fuel' s)
              (λ s1. run 0 fuel s1 >>= run nl.tc_h_ingress fuel)
              (λ s1. run 0 fuel' s1 >>= run nl.tc_h_ingress fuel') (root-fuel fuel fuel' _ s r0 r1)
              (λ s1.
                >>=-cong (run 0 fuel s1) (run 0 fuel' s1) (run nl.tc_h_ingress fuel)
                  (run nl.tc_h_ingress fuel') (root-fuel fuel fuel' _ s1 z0 z1)
                  (λ s2. root-fuel fuel fuel' _ s2 i0 i1)))

    -- Where the classes and qdiscs below every object have a lower rank, a class, a qdisc and the root
    -- qdiscs of the interface with ranks below the fuel never run out of it: whatever is done with one
    -- object, `handle_class` and `handle_qdisc` do what the source does with an object, with themselves
    -- and the same fuel for the objects below, and `handle_tc` is the same for two such numbers of fuel.
    pub handle_tc_unrolls :
        (fuel fuel' level : ℕ) (cls qdisc : Tc) (s : S)
        → class_rank cls < fuel
        → qdisc_rank qdisc < fuel
        → RootsBelow fuel
        → RootsBelow fuel'
        → let on_class = handle_class nl ops fuel cache in
          let on_qdisc = handle_qdisc nl ops fuel cache in
          (on_class level cls s
            ≡ handle_with nl ops
                (codes "class")
                level
                cls
                (htb_rate nl ops cls)
                (below_class nl ops (on_class (level + 1)) (on_qdisc (level + 1)) cache cls)
                s)
          × (on_qdisc level qdisc s
              ≡ handle_with nl ops
                  (codes "qdisc")
                  level
                  qdisc
                  (λ s'. some s')
                  (below_qdisc nl ops (on_class (level + 1)) cache (level + 1) qdisc)
                  s)
          × (handle_tc nl ops fuel cache s ≡ handle_tc nl ops fuel' cache s)
    unfolding handle_class handle_qdisc
    handle_tc_unrolls fuel fuel' level cls qdisc s c q r r' = (
      handle_class-fuel fuel (suc fuel) level cls s c (omega arith),
      handle_qdisc-fuel fuel (suc fuel) level qdisc s q (omega arith),
      handle_tc-fuel fuel fuel' s r r',
    )
