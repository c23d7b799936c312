-- ===== src/Ascii/Order.antt =====
-- src/out_ascii.c: the order of what is printed.
use mathlib.Core.List.{append_assoc, append-nil, map-append}
use bmon.Prelude.{◌≡◌, sym, ap, ◌∙◌, List, [], ◌∷◌, ◌++◌, map}
use bmon.Tree.{Elements, empty, entry}
use bmon.Tree.Order.{preorder}
use bmon.Group.{ElementGroup}
use bmon.Curses.{foreach_element, group_foreach_element, group_foreach}
use bmon.Ascii.{
  DiagramType, AsciiCfg, Printed, printed_element, printed_title, ascii_draw_element,
  ascii_draw_group, ascii_draw,
}

module _ {A : Type 0} where
  -- Each title with the elements of its group behind it, parents in front of their children.
  abbrev pub all_printed : DiagramType → List (ElementGroup A) → List (Printed A)
  all_printed d [] = []
  all_printed d (g ∷ gs) =
      printed_title d g ∷ map (printed_element d) (preorder g.g_elements) ++ all_printed d gs

  elements-printed :
      (d : DiagramType) (es : Elements A) (out : List (Printed A))
      → foreach_element (ascii_draw_element d) es out ≡ out ++ map (printed_element d) (preorder es)
  unfolding foreach_element ascii_draw_element
  elements-printed d empty out = sym (append-nil out)
  elements-printed d (entry e childs next) out =
      let one = out ++ printed_element d e ∷ [] in
      let below = map (printed_element d) (preorder childs) in
      let rest = map (printed_element d) (preorder next) in
      ap (foreach_element (ascii_draw_element d) next) (elements-printed d childs one)
      ∙ elements-printed d next (one ++ below)
      ∙ append_assoc one below rest
      ∙ append_assoc out (printed_element d e ∷ []) (below ++ rest)
      ∙ ap (λ xs. out ++ printed_element d e ∷ xs)
          (sym (map-append (printed_element d) (preorder childs) (preorder next)))

  groups-printed :
      (d : DiagramType) (gs : List (ElementGroup A)) (out : List (Printed A))
      → group_foreach (ascii_draw_group d) gs out ≡ out ++ all_printed d gs
  unfolding group_foreach ascii_draw_group group_foreach_element
  groups-printed d [] out = sym (append-nil out)
  groups-printed d (g ∷ gs) out =
      let one = out ++ printed_title d g ∷ [] in
      let below = map (printed_element d) (preorder g.g_elements) in
      ap (group_foreach (ascii_draw_group d) gs) (elements-printed d g.g_elements one)
      ∙ groups-printed d gs (one ++ below)
      ∙ append_assoc one below (all_printed d gs)
      ∙ append_assoc out (printed_title d g ∷ []) (below ++ all_printed d gs)

  -- What a drawing prints.
  pub ascii_draw-all_printed :
      (cfg : AsciiCfg) (gs : List (ElementGroup A))
      → (ascii_draw cfg gs).0 ≡ all_printed cfg.c_diagram_type gs
  unfolding ascii_draw
  ascii_draw-all_printed cfg gs = groups-printed cfg.c_diagram_type gs []
