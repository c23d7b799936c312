-- ===== src/Netlink/Visits.antt =====
-- src/in_netlink.c: the traversal of the traffic control objects ends, where the work on each of them
-- does.
use bmon.Prelude.{
  ℕ, zero, suc, ◌+◌, ◌<◌, ◌≡◌, refl, Bool, true, false, Option, none, some, List, [], ◌∷◌, ◌>>=◌,
  if◌then◌else◌, arith, ◌==◌, ==_iff,
}
use bmon.Prelude.Bytes.{Bytes, codes, str_eq}
use bmon.Netlink.Objects.{
  TcCaches, TcElements, cache_foreach, handle_cls, find_cls, find_qdiscs, find_classes, handle_with,
  handle_class, handle_qdisc, handle_root, handle_tc,
}

-- A result is there.
abbrev pub Runs : {A : Type 0} → Option A → Type 0
Runs {A = A} o = (a : A) × (o ≡ some a)

Runs->>= :
    {A B : Type 0} (o : Option A) (f : A → Option B)
    → Runs o
    → ((a : A) → Runs (f a))
    → Runs (o >>= f)
Runs->>= (some a) f r h = h a
Runs->>= none f (a, e) h = cc

abbrev pub AllBelow : {Tc : Type 0} → (Tc → ℕ) → ℕ → List Tc → Type 0
AllBelow rank r [] = Unit
AllBelow rank r (tc ∷ tcs) = (rank tc < r) × AllBelow rank r tcs

module _ {Tc S : Type 0} (nl : TcCaches Tc) (ops : TcElements Tc S)
    (class_rank qdisc_rank : Tc → ℕ) where
  -- A class has a rank as a class, and a qdisc one as a qdisc. The classes and qdiscs below a class, and
  -- the classes below a qdisc, those at the root included where it is at the root itself, have a lower
  -- rank: there is no cycle among them.
  pub record IsHierarchy (cache : ℕ) : Type 0 where
    pub classes :
        (tc : Tc)
        → AllBelow class_rank (class_rank tc) (nl.classes_of cache (nl.rtnl_tc_get_handle tc))
    pub qdiscs :
        (tc : Tc)
        → AllBelow qdisc_rank
            (class_rank tc)
            (nl.qdiscs_of (nl.rtnl_tc_get_ifindex tc) (nl.rtnl_tc_get_handle tc))
    pub qdisc_classes :
        (tc : Tc)
        → AllBelow class_rank (qdisc_rank tc) (nl.classes_of cache (nl.rtnl_tc_get_handle tc))
    pub roots :
        (tc : Tc)
        → nl.rtnl_tc_get_parent tc ≡ nl.tc_h_root
        → AllBelow class_rank (qdisc_rank tc) (nl.classes_of cache nl.tc_h_root)

  -- What is done with one object ends.
  pub record IsTotal : Type 0 where
    pub obj :
        (prefix : Bytes) (level : ℕ) (tc : Tc) (s : S) → Runs (ops.handle_tc_obj prefix level tc s)
    pub txmax : (tc : Tc) (s : S) → Runs (ops.set_txmax tc s)
    pub children :
        (prefix : Bytes) (tc : Tc) (f : S → Option S) (s : S)
        → ((s' : S) → Runs (f s'))
        → Runs (ops.in_children prefix tc f s)

  foreach-Runs :
      (cb : Tc → S → Option S) (rank : Tc → ℕ) (r : ℕ) (tcs : List Tc) (s : S)
      → AllBelow rank r tcs
      → ((tc : Tc) (s' : S) → rank tc < r → Runs (cb tc s'))
      → Runs (cache_foreach cb tcs s)
  unfolding cache_foreach
  foreach-Runs cb rank r [] s b h = (s, refl)
  foreach-Runs cb rank r (tc ∷ tcs) s (b, bs) h =
      Runs->>= (cb tc s) (cache_foreach cb tcs) (h tc s b)
        (λ s'. foreach-Runs cb rank r tcs s' bs h)

  cls-Runs :
      IsTotal
      → (level : ℕ) (tcs : List Tc) (s : S) → Runs (cache_foreach (handle_cls nl ops level) tcs s)
  unfolding cache_foreach handle_cls
  cls-Runs total level [] s = (s, refl)
  cls-Runs total level (tc ∷ tcs) s =
      Runs->>= (handle_cls nl ops level tc s) (cache_foreach (handle_cls nl ops level) tcs)
        (Runs->>= (ops.handle_tc_obj (codes "cls") level tc s) _ (total.obj _ level tc s)
          (λ r. (r.1, refl)))
        (cls-Runs total level tcs)

  if-Runs :
      (b : Bool) (o o' : Option S) → (b ≡ true → Runs o) → Runs o' → Runs (if b then o else o')
  if-Runs true o o' h h' = h refl
  if-Runs false o o' h h' = h'

  with-Runs :
      (prefix : Bytes) (level : ℕ) (tc : Tc) (set below : S → Option S) (s : S)
      → IsTotal
      → ((s' : S) → Runs (set s'))
      → ((s' : S) → Runs (below s'))
      → Runs (handle_with nl ops prefix level tc set below s)
  with-Runs prefix level tc set below s total h k =
      Runs->>= (ops.handle_tc_obj prefix level tc s) _ (total.obj prefix level tc s) (λ r.
        if-Runs r.0 _ (some r.1)
          (λ _. Runs->>= (set r.1) _ (h r.1) (λ s''. total.children prefix tc below s'' k))
          (r.1, refl))

  mutual
    unfolding handle_class handle_qdisc find_classes find_qdiscs find_cls

    handle_class-Runs :
        (fuel cache level : ℕ) (tc : Tc) (s : S)
        → IsTotal
        → IsHierarchy cache
        → class_rank tc < fuel
        → Runs (handle_class nl ops fuel cache level tc s)
    handle_class-Runs zero cache level tc s total tree h = elim h [ ]
    handle_class-Runs (suc fuel) cache level tc s total tree h =
        with-Runs (codes "class") level tc _ _ s total
          (λ s'.
            if-Runs (str_eq (nl.rtnl_tc_get_kind tc) (codes "htb")) _ _ (λ _. total.txmax tc s')
              (s', refl))
          (λ s'.
            Runs->>= _ _
              (foreach-Runs _ class_rank (class_rank tc) _ s' (tree.classes tc)
                (λ c t b. handle_class-Runs fuel cache (level + 1) c t total tree (omega arith)))
              (λ s''.
                foreach-Runs _ qdisc_rank (class_rank tc) _ s'' (tree.qdiscs tc)
                  (λ c t b. handle_qdisc-Runs fuel cache (level + 1) c t total tree (omega arith))))

    handle_qdisc-Runs :
        (fuel cache level : ℕ) (tc : Tc) (s : S)
        → IsTotal
        → IsHierarchy cache
        → qdisc_rank tc < fuel
        → Runs (handle_qdisc nl ops fuel cache level tc s)
    handle_qdisc-Runs zero cache level tc s total tree h = elim h [ ]
    handle_qdisc-Runs (suc fuel) cache level tc s total tree h =
        with-Runs (codes "qdisc") level tc _ _ s total (λ s'. (s', refl))
          (λ s'. Runs->>= _ _ (cls-Runs total (level + 1) _ s') (λ s1.
            Runs->>= _ _
              (if-Runs (nl.rtnl_tc_get_parent tc == nl.tc_h_root) _ _
                (λ root. Runs->>= _ _ (cls-Runs total (level + 1) _ s1) (λ s3.
                  foreach-Runs _ class_rank (qdisc_rank tc) _ s3
                    (tree.roots tc ((==_iff _ _).0 root))
                    (λ c t b.
                      handle_class-Runs fuel cache (level + 1) c t total tree (omega arith))))
                (s1, refl))
              (λ s2.
                foreach-Runs _ class_rank (qdisc_rank tc) _ s2 (tree.qdisc_classes tc) (λ c t b.
                  handle_class-Runs fuel cache (level + 1) c t total tree (omega arith)))))

  -- Every root of the interface has a rank below the fuel.
  abbrev pub RootBelow : ℕ → Option Tc → Type 0
  RootBelow fuel none = Unit
  RootBelow fuel (some qdisc) = qdisc_rank qdisc < fuel

  root-Runs :
      (fuel ifindex : ℕ) (root : Option Tc) (s : S)
      → IsTotal
      → IsHierarchy ifindex
      → RootBelow fuel root
      → Runs (handle_root nl ops fuel ifindex root s)
  root-Runs fuel ifindex none s total tree h = (s, refl)
  root-Runs fuel ifindex (some qdisc) s total tree h =
      handle_qdisc-Runs fuel ifindex 1 qdisc s total tree h

  -- The traversal of the objects of an interface.
  pub handle_tc-Runs :
      (fuel ifindex : ℕ) (s : S)
      → IsTotal
      → IsHierarchy ifindex
      → RootBelow fuel (nl.qdisc_by_parent ifindex nl.tc_h_root)
      → RootBelow fuel (nl.qdisc_by_parent ifindex 0)
      → RootBelow fuel (nl.qdisc_by_parent ifindex nl.tc_h_ingress)
      → Runs (handle_tc nl ops fuel ifindex s)
  unfolding handle_tc
  handle_tc-Runs fuel ifindex s total tree r r0 ri =
      if-Runs (nl.class_cache ifindex) _ (some s)
        (λ _. Runs->>= _ _ (root-Runs fuel ifindex _ s total tree r) (λ s1.
          Runs->>= _ _ (root-Runs fuel ifindex _ s1 total tree r0)
            (λ s2. root-Runs fuel ifindex _ s2 total tree ri)))
        (s, refl)
