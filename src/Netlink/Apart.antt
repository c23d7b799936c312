-- ===== src/Netlink/Apart.antt =====
-- src/in_netlink.c: the work on the children of an element leaves the element's list alone.
use bmon.Prelude.{
  ℕ, ◌≡◌, refl, sym, ap, ◌∙◌, Bool, true, false, not, ◌&&◌, Option, none, some, if◌then◌else◌,
  Bool-cases, inl, inr, ◌>>=◌, >>=-eq-some,
}
use bmon.Prelude.Bytes.{Bytes}
use bmon.Floats.{Floats}
use bmon.Tree.{Elements, empty, entry}
use bmon.Element.{Element, ElementStore, is_named, lookup_in}
use bmon.Netlink.Objects.{TcCaches}
use bmon.Netlink.Links.{
  LinkFunctions, NetEnv, children_of, put_children, with_parent, master_of, link_element, do_link,
}

module _ {F : Type 0} where
  lookup_in-put_children :
      (name j : Bytes) (id k : ℕ) (childs es : Elements (Element F))
      → lookup_in j k (put_children name id childs es) ≡ lookup_in j k es
  unfolding lookup_in put_children
  lookup_in-put_children name j id k childs empty = refl
  lookup_in-put_children name j id k childs (entry e cs next) =
      elim (Bool-cases (is_named name id e)) [
        | inl n ↦ rw (n, put_children) refl
        | inr n ↦
            rw (n, put_children)
              (ap (λ o. if is_named j k e then some e else o)
                (lookup_in-put_children name j id k childs next))
      ]

  parent-apart :
      (name j : Bytes) (id k : ℕ) (f : ElementStore F → Option (ElementStore F))
      (st st' : ElementStore F) (o : Option (Elements (Element F)))
      → (elim o [
        | none ↦ some st
        | some childs ↦ f (record st { elements = childs }) >>= λ st1.
            some (record st1 { elements = put_children name id st1.elements st.elements })
      ])
        ≡ some st'
      → lookup_in j k st'.elements ≡ lookup_in j k st.elements
  parent-apart name j id k f st st' none h =
      let same : st ≡ st' = cc in ap (λ s. lookup_in j k s.elements) (sym same)
  parent-apart name j id k f st st' (some childs) h =
      let (st1, _, e) = >>=-eq-some (f (record st { elements = childs })) _ h in
      let s1 : ElementStore F = record st1 {
        elements = put_children name id st1.elements st.elements;
      } in
      let same : s1 ≡ st' = cc in
      ap (λ s. lookup_in j k s.elements) (sym same)
      ∙ lookup_in-put_children name j id k st1.elements st.elements

  -- No element of the list is another one afterwards.
  with_parent-apart :
      (name j : Bytes) (id k : ℕ) (f : ElementStore F → Option (ElementStore F))
      (st st' : ElementStore F)
      → with_parent name id f st ≡ some st'
      → lookup_in j k st'.elements ≡ lookup_in j k st.elements
  unfolding with_parent
  with_parent-apart name j id k f st st' h =
      parent-apart name j id k f st st' (children_of name id st.elements) h

  slave-apart :
      (hidden : Bool) (j : Bytes) (k : ℕ) (o : Option (Element F)) (top : Option (ElementStore F))
      (f : Element F → ElementStore F → Option (ElementStore F)) (st st' : ElementStore F)
      (master : Element F)
      → o ≡ some master
      → (if hidden then some st else elim o [
        | none ↦ top
        | some parent ↦ with_parent parent.e_name parent.e_id (f parent) st
      ])
        ≡ some st'
      → lookup_in j k st'.elements ≡ lookup_in j k st.elements
  slave-apart true j k o top f st st' master m h =
      let same : st ≡ st' = cc in ap (λ s. lookup_in j k s.elements) (sym same)
  slave-apart false j k none top f st st' master m h = cc
  slave-apart false j k (some parent) top f st st' master m h =
      with_parent-apart parent.e_name j parent.e_id k (f parent) st st' h

module _ (fl : Floats) {Link Tc : Type 0} (ne : NetEnv fl.Float) (nl : TcCaches Tc)
    (lf : LinkFunctions Link Tc) where
  open fl use {Float}

  -- A link whose master has an element.
  pub do_link-slave :
      (link : Link) (st st' : ElementStore Float) (master : Element Float) (j : Bytes) (k : ℕ)
      → master_of fl ne nl lf link st ≡ some master
      → do_link fl ne nl lf link st ≡ some st'
      → lookup_in j k st'.elements ≡ lookup_in j k st.elements
  unfolding do_link
  do_link-slave link st st' master j k m h =
      slave-apart (not ne.cfg_show_all && not (lf.rtnl_link_is_up link)) j k
        (master_of fl ne nl lf link st) (link_element fl ne nl lf none link st)
        (λ parent. link_element fl ne nl lf (some parent.e_level) link) st st' master m h
