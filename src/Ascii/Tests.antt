-- ===== src/Ascii/Tests.antt =====
-- The output of src/out_ascii.c at concrete values.
use bmon.Prelude.{ℕ, ◌≡◌, refl, none, some, [], ◌∷◌, take, arith}
use bmon.Prelude.Int.{pos, negsuc}
use bmon.Prelude.Bytes.{codes, str_case_eq, tolower}
use bmon.Tree.{empty, entry}
use bmon.Group.{ElementGroup}
use bmon.Ascii.{
  AsciiCfg, d_list, d_graph, titles, list_line, set_to, quits, ascii_parse_opt, diagram_of,
  ascii_draw, ascii_draw_group, ascii_draw_element, element_pad, strncat_pad, ascii_spaces,
}
use bmon.Curses.{group_foreach, group_foreach_element, foreach_element}
use bmon.Ascii.Order.{all_printed}
use bmon.Ascii.Label.{full_text, element_pad-full_text}

abbrev settings : AsciiCfg
settings = record {
  c_diagram_type = d_list;
  c_hist = codes "second";
  c_quit_after = negsuc 0;
  gc_foreground = 42;
  gc_background = 32;
  gc_noise = 46;
  gc_height = pos 6;
}

-- The elements 1 with the child 2, and 3.
abbrev group : ElementGroup ℕ
group = record {
  g_name = codes "intf";
  g_hdr = record { gh_name = codes "intf"; gh_title = codes "Interfaces"; gh_column = [] };
  g_elements = entry 1 (entry 2 empty empty) (entry 3 empty empty);
  g_nelements = 3;
  g_current = none;
}

listed :
    all_printed d_list (group ∷ []) ≡ titles group ∷ list_line 1 ∷ list_line 2 ∷ list_line 3 ∷ []
listed = refl

printed : (ascii_draw settings (group ∷ [])).0 ≡ all_printed d_list (group ∷ [])
unfolding ascii_draw ascii_draw_group ascii_draw_element group_foreach group_foreach_element
    foreach_element
printed = refl

-- The options `Diagram=Graph` and `diagram=x`.
graph_option :
    ascii_parse_opt (λ s. pos 0) settings (codes "Diagram") (some (codes "Graph"))
    ≡ set_to (record settings { c_diagram_type = d_graph })
unfolding ascii_parse_opt diagram_of str_case_eq tolower
graph_option = refl

unknown_diagram : ascii_parse_opt (λ s. pos 0) settings (codes "diagram") (some (codes "x")) ≡ quits
unfolding ascii_parse_opt diagram_of str_case_eq tolower
unknown_diagram = refl

-- Ten bytes hold one space and eight bytes of the text.
cut_label :
    element_pad 10 (ascii_spaces 1) (codes "eth0") (some (codes "uplink")) ≡ codes " eth0 (up"
unfolding element_pad strncat_pad ascii_spaces
cut_label = refl

element_pad_example :
    element_pad 48 15 (codes "eth0") (some (codes "uplink"))
    ≡ take 47 (full_text 15 (codes "eth0") (some (codes "uplink")))
element_pad_example =
    element_pad-full_text 48 15 (codes "eth0") (some (codes "uplink")) (omega arith)
