-- ===== src/Curses/Keys.antt =====
-- src/out_curses.c: `handle_input` and the loop of `curses_pre` over the keys that wait. What a key
-- does outside this file (the moves of the selection, a redraw) acts on a state `W` of the program.
use bmon.Prelude.{
  ℕ, zero, suc, ◌-◌, Bool, true, false, not, ◌&&◌, ◌||◌, Option, none, some, List, [], ◌∷◌,
  if◌then◌else◌, ◌==◌,
}
use bmon.Prelude.Int.{ℤ, pos, negsuc, ◌+ℤ◌, ◌-ℤ◌, ltb_ℤ}
use bmon.Curses.{CursesCfg}

-- The codes of the keys that curses names.
pub record CursesKeys : Type 0 where
  pub key_clear : ℕ
  pub key_ppage : ℕ
  pub key_npage : ℕ
  pub key_down : ℕ
  pub key_up : ℕ
  pub key_left : ℕ
  pub key_right : ℕ

-- The functions of the other parts that a key calls; `current_attr` is `none` where there is none,
-- and `start_history` is attr_start_collecting_history of the current attribute.
pub record Moves (W : Type 0) : Type 0 where
  pub element_select_prev : W → W
  pub element_select_next : W → W
  pub attr_select_prev : W → W
  pub attr_select_next : W → W
  pub group_select_prev : W → W
  pub group_select_next : W → W
  pub history_select_next : W → W
  pub reset_counters : W → W
  pub has_attr : W → Bool
  pub start_history : W → W
  -- `clear`, `redrawwin` and `curses_draw`; a draw also says whether it sets `list_length`, and to what.
  pub clear : W → W
  pub redrawwin : W → W
  pub curses_draw : CursesCfg → W → Option ℤ × W

pub record Screen (W : Type 0) : Type 0 where
  pub print_help : Bool
  pub quit_mode : Bool
  pub cfg : CursesCfg
  pub list_length : ℤ
  pub world : W

-- `exit(0)`, or the result of `handle_input`: whether to draw again.
pub data KeyResult (W : Type 0) : Type 0 where
  exits : KeyResult W
  handled : Bool → Screen W → KeyResult W

-- `for (i = 1; i < list_length; i++)`
abbrev pub page : ℤ → ℕ
page (pos n) = n - 1
page (negsuc n) = 0

abbrev pub times : {W : Type 0} → ℕ → (W → W) → W → W
times zero f w = w
times (suc n) f w = times n f (f w)

abbrev pub fewer : ℤ → ℤ
fewer n = if ltb_ℤ (pos 1) (n -ℤ pos 1) then n -ℤ pos 1 else pos 1

abbrev pub more : ℤ → ℤ
more n = if ltb_ℤ (pos 32) (n +ℤ pos 1) then pos 32 else n +ℤ pos 1

abbrev pub is_zero : ℤ → Bool
is_zero (pos n) = n == 0
is_zero (negsuc n) = false

-- A draw divides the screen with the settings of now, and the next page key reads its `list_length`;
-- `list_length` stays as it was where the draw ends before it divides the screen.
abbrev pub redraw : {W : Type 0} → Moves W → Screen W → Screen W
redraw moves s =
    let (divided, w) = moves.curses_draw s.cfg s.world in
    record s { list_length = elim divided [ none ↦ s.list_length | some l ↦ l ]; world = w }

module _ {W : Type 0} (keys : CursesKeys) (moves : Moves W) where
  -- The keys that change the settings, by the codes of their characters: g, d, l, i, < and >.
  abbrev pub toggle_graph : CursesCfg → CursesCfg
  toggle_graph cfg =
      let shown = not cfg.c_show_graph in
      record cfg {
        c_show_graph = shown;
        c_ngraph = if shown && is_zero cfg.c_ngraph then pos 1 else cfg.c_ngraph;
      }

  abbrev pub moved : Screen W → (W → W) → KeyResult W
  moved s f = handled true (record s { world = f s.world })

  abbrev pub configured : Screen W → CursesCfg → KeyResult W
  configured s cfg = handled true (record s { cfg = cfg })

  unfoldable pub handle_input : ℕ → Screen W → KeyResult W
  handle_input ch s =
      if ch == 113
      then if s.print_help
        then handled true (record s { print_help = false })
        else handled true (record s { quit_mode = not s.quit_mode })
      else if ch == 27
      then handled true (record s { quit_mode = false; print_help = false })
      else if ch == 121
      then if s.quit_mode then exits else handled false s
      else if ch == 110
      then handled true (record s { quit_mode = false })
      else if ch == 12 || (ch == keys.key_clear)
      then moved s (λ w. moves.clear (moves.redrawwin w))
      else if ch == 63
      then handled true (record s { print_help = not s.print_help; world = moves.clear s.world })
      else if ch == 103
      then configured s (toggle_graph s.cfg)
      else if ch == 100
      then configured s (record s.cfg { c_show_details = not s.cfg.c_show_details })
      else if ch == 108
      then configured s (record s.cfg { c_show_list = not s.cfg.c_show_list })
      else if ch == 105
      then configured s (record s.cfg { c_show_info = not s.cfg.c_show_info })
      else if ch == 104
      then if moves.has_attr s.world then moved s moves.start_history else handled false s
      else if ch == keys.key_ppage
      then moved s (times (page s.list_length) moves.element_select_prev)
      else if ch == keys.key_npage
      then moved s (times (page s.list_length) moves.element_select_next)
      else if (ch == keys.key_down) || (ch == 14)
      then moved s moves.element_select_next
      else if (ch == keys.key_up) || (ch == 16)
      then moved s moves.element_select_prev
      else if ch == keys.key_left
      then moved s moves.attr_select_prev
      else if ch == keys.key_right
      then moved s moves.attr_select_next
      else if ch == 93
      then moved s moves.group_select_next
      else if ch == 91
      then moved s moves.group_select_prev
      else if ch == 60
      then configured s (record s.cfg { c_ngraph = fewer s.cfg.c_ngraph })
      else if ch == 62
      then configured s (record s.cfg { c_ngraph = more s.cfg.c_ngraph })
      else if ch == 9
      then moved s moves.history_select_next
      else if ch == 114
      then moved s moves.reset_counters
      else handled false s

  -- The keys that wait; the loop ends where `getch` returns -1, at the end of the list.
  unfoldable pub curses_pre : List ℕ → Screen W → KeyResult W
  unfolding handle_input
  curses_pre [] s = handled false s
  curses_pre (ch ∷ chs) s = elim (handle_input ch s) [
    | exits ↦ exits
    | handled draw s' ↦ curses_pre chs (if draw then redraw moves s' else s')
  ]
