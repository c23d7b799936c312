-- ===== src/Group/Tests.antt =====
-- Two groups at concrete values.
use bmon.Prelude.{ℕ, ◌≡◌, refl, true, none, some, [], ◌∷◌}
use bmon.Prelude.Bytes.{Bytes, codes, str_eq}
use bmon.Tree.{empty, entry, Place, first_in, next_place}
use bmon.Group.{GroupHdr, ElementGroup, Groups, group_lookup, find_group, element_select_next}
use bmon.Group.Lookup.{IsValid, AfterLookup, group_lookup-AfterLookup}
use bmon.Group.Moves.{current_place, element_select_next-next_group}

abbrev hdr : Bytes → GroupHdr
hdr name = record { gh_name = name; gh_title = codes "Interfaces"; gh_column = [] }

abbrev at_lo : Place ℕ
at_lo = record { e_data = 1; e_childs = empty; e_prev = []; e_next = empty; e_parents = [] }

abbrev intf_group : ElementGroup ℕ
intf_group = record {
  g_name = codes "intf";
  g_hdr = hdr (codes "intf");
  g_elements = entry 1 empty empty;
  g_nelements = 1;
  g_current = some at_lo;
}

abbrev cpu_group : ElementGroup ℕ
cpu_group = record {
  g_name = codes "cpu";
  g_hdr = hdr (codes "cpu");
  g_elements = entry 7 empty (entry 8 empty empty);
  g_nelements = 2;
  g_current = none;
}

abbrev two_groups : Groups ℕ
two_groups = record {
  titles_list = hdr (codes "intf") ∷ hdr (codes "cpu") ∷ hdr (codes "disk") ∷ [];
  group_list = intf_group ∷ cpu_group ∷ [];
  ngroups = 2;
  current_group = none;
}

two_groups-IsValid : IsValid two_groups
unfolding find_group str_eq
two_groups-IsValid = record { counted = refl; unique = (refl, (refl, tt)) }

group_lookup-AfterLookup_example :
    AfterLookup (codes "disk") true two_groups (group_lookup (codes "disk") true two_groups)
group_lookup-AfterLookup_example =
    group_lookup-AfterLookup (codes "disk") true two_groups two_groups-IsValid

element_select_next-next_group_example :
    ((element_select_next (record two_groups { current_group = some 0 })).current_group ≡ some 1)
    × (current_place (element_select_next (record two_groups { current_group = some 0 }))
        ≡ first_in (entry 7 empty (entry 8 empty empty)) [])
unfolding next_place
element_select_next-next_group_example =
    element_select_next-next_group two_groups 0 intf_group cpu_group at_lo refl refl refl refl
