-- ===== src/Curses/Fits.antt =====
-- src/out_curses.c: the parts of the screen fit it, however `draw_content` divides it.
use bmon.Prelude.{◌≡◌, ◌&&◌, Bool, true, false, if◌then◌else◌, arith, Bool-cases, inl, inr}
use bmon.Prelude.Int.{ℤ, pos, ◌+ℤ◌, ◌≤ℤ◌, ◌<ℤ◌, int_laws}
use bmon.Curses.{CursesCfg}
use bmon.Curses.Layout.{
  Required, Division, total_req, divide, leb_ℤ, at_most, list_shorter, without_info,
  without_details, without_all,
}

-- The lines that are drawn of each part: a list that is not shown, and what is disabled, have one.
abbrev pub list_lines : CursesCfg → Required → Division → ℤ
list_lines cfg r d = if cfg.c_show_list then at_most r.list_req d.list_length else pos 1

abbrev pub part_lines : Bool → ℤ → ℤ
part_lines disabled req = if disabled then pos 1 else req

abbrev pub drawn_lines : CursesCfg → Required → Division → ℤ
drawn_lines cfg r d =
    list_lines cfg r d
    +ℤ part_lines d.disable_graph r.graph_req
    +ℤ part_lines d.disable_details r.details_req
    +ℤ part_lines d.disable_info r.info_req

-- Either the content is drawn, on lines that are there and with a list that has a line, or not even
-- the shortest list has a place next to the three rulers.
abbrev pub IsDivided : CursesCfg → Required → Division → Type 0
IsDivided cfg r d =
    if d.too_small
    then r.lines_available <ℤ cfg.c_list_min +ℤ pos 3
    else (drawn_lines cfg r d ≤ℤ r.lines_available) × (pos 1 ≤ℤ d.list_length)

list-small :
    (shown : Bool) (req l : ℤ)
    → pos 1 ≤ℤ req
    → pos 1 ≤ℤ l
    → ((if shown then at_most req l else pos 1) ≤ℤ req)
      × ((if shown then at_most req l else pos 1) ≤ℤ l)
list-small shown req l h k = ground arith

leb_ℤ→≤ℤ : (x y : ℤ) → leb_ℤ x y ≡ true → x ≤ℤ y
leb_ℤ→≤ℤ x y h = ground arith

leb_ℤ-false : (x y : ℤ) → leb_ℤ x y ≡ false → y <ℤ x
leb_ℤ-false x y h = ground arith

at_least : (m l : ℤ) → pos 1 ≤ℤ m → leb_ℤ m l ≡ true → pos 1 ≤ℤ l
at_least m l h k = ground arith

&&-right : (a b : Bool) → (a && b) ≡ true → b ≡ true
&&-right true b h = h
&&-right false b h = ground arith

-- With a shortest list of at least one line and a list that asks for one, draw_content draws its
-- parts on lines that are there and gives the list a line, or refuses a screen on which, next to
-- the header and the status bar, there are fewer lines than the shortest list and the three
-- rulers.
pub divide-IsDivided :
    (cfg : CursesCfg) (r : Required)
    → pos 1 ≤ℤ cfg.c_list_min
    → pos 1 ≤ℤ r.list_req
    → IsDivided cfg r (divide cfg r)
unfolding divide
divide-IsDivided cfg r m l = elim (Bool-cases (leb_ℤ (total_req r) r.lines_available)) [
  | inl e ↦
      let small = list-small cfg.c_show_list r.list_req r.list_req l l in
      let fits = leb_ℤ→≤ℤ (total_req r) r.lines_available e in
      rw e (omega (int_laws, small.0, fits), l)
  | inr e ↦ rw e (elim (Bool-cases (cfg.c_show_list && leb_ℤ cfg.c_list_min (list_shorter r))) [
    | inl e ↦
        let enough : pos 1 ≤ℤ list_shorter r =
          at_least cfg.c_list_min _ m (&&-right cfg.c_show_list _ e) in
        rw e (omega (int_laws, (list-small cfg.c_show_list r.list_req _ l enough).1), enough)
    | inr e ↦ rw e (elim (Bool-cases (cfg.c_show_info && leb_ℤ cfg.c_list_min (without_info r))) [
      | inl e ↦
          let enough : pos 1 ≤ℤ without_info r =
            at_least cfg.c_list_min _ m (&&-right cfg.c_show_info _ e) in
          rw e (omega (int_laws, (list-small cfg.c_show_list r.list_req _ l enough).1), enough)
      | inr e ↦
          rw e (elim (Bool-cases (cfg.c_show_details && leb_ℤ cfg.c_list_min (without_details r))) [
            | inl e ↦
                let enough : pos 1 ≤ℤ without_details r =
                  at_least cfg.c_list_min _ m (&&-right cfg.c_show_details _ e) in
                rw e
                  (omega (int_laws, (list-small cfg.c_show_list r.list_req _ l enough).1), enough)
            | inr e ↦ rw e (elim (Bool-cases (leb_ℤ cfg.c_list_min (without_all r))) [
              | inl e ↦
                  let enough : pos 1 ≤ℤ without_all r = at_least cfg.c_list_min _ m e in
                  rw e
                    (omega (int_laws, (list-small cfg.c_show_list r.list_req _ l enough).1), enough)
              | inr e ↦ rw e (omega (int_laws, leb_ℤ-false cfg.c_list_min (without_all r) e))
            ])
          ])
    ])
  ])
]

needs :
    (cfg : CursesCfg) (r : Required)
    → leb_ℤ cfg.c_list_min (without_info r) ≡ true
    → r.list_req +ℤ cfg.c_list_min +ℤ r.graph_req +ℤ r.details_req +ℤ pos 1 ≤ℤ r.lines_available
needs cfg r e = let h = leb_ℤ→≤ℤ cfg.c_list_min (without_info r) e in omega (int_laws, h)

-- Where only the information is disabled, there are lines for the whole list, and for the shortest
-- list once more.
pub divide-info :
    (cfg : CursesCfg) (r : Required)
    → (divide cfg r).disable_info ≡ true
    → (divide cfg r).disable_graph ≡ false
    → r.list_req +ℤ cfg.c_list_min +ℤ r.graph_req +ℤ r.details_req +ℤ pos 1 ≤ℤ r.lines_available
unfolding divide
divide-info cfg r info graph = elim (Bool-cases (leb_ℤ cfg.c_list_min (without_info r))) [
  | inl e ↦ needs cfg r e
  | inr e ↦ ground arith
]
