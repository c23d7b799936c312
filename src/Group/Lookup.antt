-- ===== src/Group/Lookup.antt =====
-- `group_lookup` and the titles of groups.
use mathlib.Core.List.{append-nil}
use bmon.Prelude.{
  ℕ, suc, sym, ◌+◌, ◌≡◌, refl, Bool, false, if◌then◌else◌, Option, none, some, List, [], ◌∷◌, ◌++◌,
  arith, Bool-cases, Option-cases, inl, inr, length, get_elem?, length-append, ◌∙◌, ap,
}
use bmon.Prelude.Bytes.{Bytes, str_eq, str_eq_iff, str_eq_comm, eq_of_str_eq}
use bmon.Tree.{empty}
use bmon.Group.{GroupHdr, ElementGroup, Groups, group_lookup_hdr, find_group, group_lookup}

pub group_lookup_hdr-has_name :
    (name : Bytes) (hdrs : List GroupHdr) (hdr : GroupHdr)
    → group_lookup_hdr name hdrs ≡ some hdr
    → hdr.gh_name ≡ name
unfolding group_lookup_hdr
group_lookup_hdr-has_name name [] hdr h = cc
group_lookup_hdr-has_name name (x ∷ hdrs) hdr h =
    ground (arith, str_eq_iff x.gh_name name, group_lookup_hdr-has_name name hdrs hdr)

module _ {A : Type 0} where
  -- The name of the group at an index.
  abbrev pub name_at : ℕ → List (ElementGroup A) → Option Bytes
  name_at i gs = elim (get_elem? gs i) [ none ↦ none | some g ↦ some g.g_name ]

  -- No two groups have the same name.
  abbrev pub UniqueNames : List (ElementGroup A) → Type 0
  UniqueNames [] = Unit
  UniqueNames (g ∷ gs) = (find_group g.g_name gs ≡ none) × UniqueNames gs

  pub record IsValid (gs : Groups A) : Type 0 where
    pub counted : gs.ngroups ≡ length gs.group_list
    pub unique : UniqueNames gs.group_list

  -- The index, if there is one, is that of a group of the name.
  abbrev pub Found : Bytes → List (ElementGroup A) → Option ℕ → Type 0
  Found name gs none = Unit
  Found name gs (some i) = name_at i gs ≡ some name

  Found-behind :
      (name : Bytes) (g : ElementGroup A) (gs : List (ElementGroup A)) (o : Option ℕ)
      → Found name gs o
      → Found name (g ∷ gs) (elim o [ none ↦ none | some i ↦ some (i + 1) ])
  Found-behind name g gs none h = tt
  Found-behind name g gs (some i) h =
      let e : i + 1 ≡ suc i = omega arith in ap (λ k. name_at k (g ∷ gs)) e ∙ h

  find_group-Found :
      (name : Bytes) (gs : List (ElementGroup A)) → Found name gs (find_group name gs)
  unfolding find_group
  find_group-Found name [] = tt
  find_group-Found name (g ∷ gs) = elim (Bool-cases (str_eq name g.g_name)) [
    | inl e ↦ rw e (ap some (sym (eq_of_str_eq name g.g_name e)))
    | inr e ↦ rw e (Found-behind name g gs (find_group name gs) (find_group-Found name gs))
  ]

  name_at-append_new :
      (gs : List (ElementGroup A)) (g : ElementGroup A)
      → name_at (length gs) (gs ++ g ∷ []) ≡ some g.g_name
  name_at-append_new [] g = refl
  name_at-append_new (x ∷ gs) g = name_at-append_new gs g

  find_group-append_none :
      (name : Bytes) (gs : List (ElementGroup A)) (g : ElementGroup A)
      → find_group name gs ≡ none
      → str_eq name g.g_name ≡ false
      → find_group name (gs ++ g ∷ []) ≡ none
  unfolding find_group
  find_group-append_none name [] g h n = ground arith
  find_group-append_none name (x ∷ gs) g h n = ground (arith, find_group-append_none name gs g)

  UniqueNames-append :
      (gs : List (ElementGroup A)) (g : ElementGroup A)
      → UniqueNames gs
      → find_group g.g_name gs ≡ none
      → UniqueNames (gs ++ g ∷ [])
  unfolding find_group
  UniqueNames-append [] g u h = (refl, tt)
  UniqueNames-append (x ∷ gs) g u h = ground (
    arith,
    str_eq_comm g.g_name x.g_name,
    find_group-append_none x.g_name gs g,
    UniqueNames-append gs g u.1,
  )

  -- The empty group of a title.
  abbrev pub new_group : GroupHdr → ElementGroup A
  new_group hdr = record {
    g_name = hdr.gh_name;
    g_hdr = hdr;
    g_elements = empty;
    g_nelements = 0;
    g_current = none;
  }

  -- What a lookup leaves: a sound state; the index of a group of the name, and the one that a search of
  -- the groups that are left finds; the groups of before, followed by the empty group of the title of the
  -- name where no group has the name, one may be made, and there is a title; and the state as it was
  -- where nothing new is returned.
  pub record AfterLookup (name : Bytes) (create : Bool) (gs : Groups A) (r : Option ℕ × Groups A)
      : Type 0 where
    pub valid : IsValid r.1
    pub found : Found name r.1.group_list r.0
    pub later : find_group name r.1.group_list ≡ r.0
    pub made :
        r.1.group_list
        ≡ gs.group_list ++ elim (find_group name gs.group_list) [
          | some i ↦ []
          | none ↦ elim (group_lookup_hdr name gs.titles_list) [
            | none ↦ []
            | some hdr ↦ if create then new_group hdr ∷ [] else []
          ]
        ]
    pub unchanged : r.0 ≡ find_group name gs.group_list → r.1 ≡ gs

  not_made :
      (create : Bool) (hdr : Option GroupHdr) (o : Option ℕ) (gs : List (ElementGroup A))
      → o ≡ none
      → create ≡ false
      → gs
        ≡ gs ++ elim o [
          | some i ↦ []
          | none ↦ elim hdr [ none ↦ [] | some h ↦ if create then new_group h ∷ [] else [] ]
        ]
  not_made create none o gs n c = rw (n, append-nil) refl
  not_made create (some h) o gs n c = rw (n, c, append-nil) refl

  find_group-append_new :
      (name : Bytes) (gs : List (ElementGroup A)) (g : ElementGroup A)
      → find_group name gs ≡ none
      → g.g_name ≡ name
      → find_group name (gs ++ g ∷ []) ≡ some (length gs)
  unfolding find_group
  find_group-append_new name [] g h n = ground (arith, str_eq_iff name g.g_name)
  find_group-append_new name (x ∷ gs) g h n = ground (arith, find_group-append_new name gs g)

  -- Where names are unique and `ngroups` is their number, `group_lookup` keeps this, and returns an index
  -- exactly where a group of the name is there, or where GROUP_CREATE is given and the name has a title:
  -- that of the group of the name, which later lookups find too. A group that is there stays as it is and
  -- in its place; a new one is empty, has the title of the name and is the last.
  pub group_lookup-AfterLookup :
      (name : Bytes) (create : Bool) (gs : Groups A)
      → IsValid gs
      → AfterLookup name create gs (group_lookup name create gs)
  unfolding group_lookup
  group_lookup-AfterLookup name create gs v =
      let f = find_group-Found name gs.group_list in
      elim (Option-cases (find_group name gs.group_list)) [
        | inr (i, e) ↦
            rw (e, group_lookup)
              (record {
                valid = v;
                found = rw e at f;
                later = e;
                made = rw (e, append-nil) refl;
                unchanged = λ q. refl;
              })
        | inl e ↦ elim (Bool-cases create) [
          | inr c ↦
              rw (e, c, group_lookup)
                (record {
                  valid = v;
                  found = tt;
                  later = e;
                  made =
                      not_made false (group_lookup_hdr name gs.titles_list)
                        (find_group name gs.group_list) gs.group_list e refl;
                  unchanged = λ q. refl;
                })
          | inl c ↦ elim (Option-cases (group_lookup_hdr name gs.titles_list)) [
            | inl n ↦
                rw (e, c, n, group_lookup)
                  (record {
                    valid = v;
                    found = tt;
                    later = e;
                    made = rw (e, n, append-nil) refl;
                    unchanged = λ q. refl;
                  })
            | inr (hdr, h) ↦
                let k : hdr.gh_name ≡ name = group_lookup_hdr-has_name name gs.titles_list hdr h in
                let old = gs.group_list in
                rw (e, c, h, group_lookup)
                  (record {
                    valid = record {
                      counted =
                          ap (λ (n : ℕ). n + 1) v.counted
                          ∙ sym (length-append old (new_group hdr ∷ []));
                      unique =
                          UniqueNames-append old (new_group hdr) v.unique
                            (ap (λ n. find_group n old) k ∙ e);
                    };
                    found = name_at-append_new old (new_group hdr) ∙ ap some k;
                    later = find_group-append_new name old (new_group hdr) e k;
                    made = rw (e, h) refl;
                    unchanged = λ q. cc;
                  })
          ]
        ]
      ]
