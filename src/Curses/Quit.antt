-- ===== src/Curses/Quit.antt =====
-- src/out_curses.c: what the keys can do to the settings, and when they end the program.
use bmon.Prelude.{
  ℕ, ◌≡◌, refl, ap, Bool, true, false, ◌⊎◌, inl, inr, List, [], ◌∷◌, ◌++◌, if◌then◌else◌, arith,
}
use bmon.Prelude.Int.{pos, ◌+ℤ◌, ◌-ℤ◌, ◌≤ℤ◌}
use bmon.Curses.{CursesCfg}
use bmon.Curses.Keys.{
  CursesKeys, Moves, Screen, KeyResult, exits, handled, handle_input, curses_pre, redraw,
}

-- The number of graphs is between 1 and 32.
abbrev pub HasGraphs : CursesCfg → Type 0
HasGraphs cfg = (pos 1 ≤ℤ cfg.c_ngraph) × (cfg.c_ngraph ≤ℤ pos 32)

module _ {W : Type 0} where
  -- Only `y` (121) in the quit mode ends the program, and only `q` (113) enters the quit mode.
  abbrev pub AfterKey : ℕ → Screen W → KeyResult W → Type 0
  AfterKey ch s exits = (ch ≡ 121) × (s.quit_mode ≡ true)
  AfterKey ch s (handled draw s') =
      ((s'.quit_mode ≡ false) ⊎ (s.quit_mode ≡ true) ⊎ (ch ≡ 113)) × HasGraphs s'.cfg

  pub handle_input-AfterKey :
      (keys : CursesKeys) (moves : Moves W) (ch : ℕ) (s : Screen W)
      → HasGraphs s.cfg
      → AfterKey ch s (handle_input keys moves ch s)
  unfolding handle_input ◌+ℤ◌ ◌-ℤ◌
  handle_input-AfterKey keys moves ch s h = ground arith

-- A `y` is among the keys; a `q` is, with a `y` somewhere behind it.
abbrev pub HasYes : List ℕ → Type 0
HasYes chs = (ys : List ℕ) × (zs : List ℕ) × (chs ≡ ys ++ 121 ∷ zs)

abbrev pub HasQuitYes : List ℕ → Type 0
HasQuitYes chs = (xs : List ℕ) × (ys : List ℕ) × (chs ≡ xs ++ 113 ∷ ys) × HasYes ys

module _ {W : Type 0} where
  -- The program ends on `q` and `y` only, or on a `y` in the quit mode; otherwise the number of
  -- graphs stays in its bounds.
  abbrev pub AfterKeys : List ℕ → Screen W → KeyResult W → Type 0
  AfterKeys chs s exits = ((s.quit_mode ≡ true) × HasYes chs) ⊎ HasQuitYes chs
  AfterKeys chs s (handled draw s') = HasGraphs s'.cfg

  earlier :
      (ch : ℕ) (chs : List ℕ) (s s' : Screen W)
      → (s'.quit_mode ≡ false) ⊎ (s.quit_mode ≡ true) ⊎ (ch ≡ 113)
      → ((s'.quit_mode ≡ true) × HasYes chs) ⊎ HasQuitYes chs
      → ((s.quit_mode ≡ true) × HasYes (ch ∷ chs)) ⊎ HasQuitYes (ch ∷ chs)
  earlier ch chs s s' mode (inr (xs, ys, e, confirmed)) =
      inr (ch ∷ xs, ys, ap (λ cs. ch ∷ cs) e, confirmed)
  earlier ch chs s s' mode (inl (on, confirmed)) = elim mode [
    | inl off ↦ cc
    | inr m ↦ elim m [
      | inl was_on ↦ inl (was_on, (ch ∷ confirmed.0, confirmed.1, ap (λ cs. ch ∷ cs) confirmed.2))
      | inr q ↦ inr ([], chs, rw q refl, confirmed)
    ]
  ]

  pass :
      (ch : ℕ) (chs : List ℕ) (s s' : Screen W)
      → (s'.quit_mode ≡ false) ⊎ (s.quit_mode ≡ true) ⊎ (ch ≡ 113)
      → (r : KeyResult W) → AfterKeys chs s' r
      → AfterKeys (ch ∷ chs) s r
  pass ch chs s s' mode exits h = earlier ch chs s s' mode h
  pass ch chs s s' mode (handled draw t) h = h

  -- `s'` and the screen that is drawn differ in `list_length` and in what is drawn only.
  same_keys :
      (moves : Moves W) (chs : List ℕ) (draw : Bool) (s' : Screen W) (r : KeyResult W)
      → AfterKeys chs (if draw then redraw moves s' else s') r
      → AfterKeys chs s' r
  same_keys moves chs true s' exits h = h
  same_keys moves chs false s' exits h = h
  same_keys moves chs draw s' (handled d s) h = h

  drawn-HasGraphs :
      (moves : Moves W) (draw : Bool) (s' : Screen W)
      → HasGraphs s'.cfg
      → HasGraphs (if draw then redraw moves s' else s').cfg
  drawn-HasGraphs moves true s' h = h
  drawn-HasGraphs moves false s' h = h

  -- The result of the first key, and that of the others.
  after_first :
      (keys : CursesKeys) (moves : Moves W) (ch : ℕ) (chs : List ℕ) (s : Screen W)
      → ((t : Screen W) → HasGraphs t.cfg → AfterKeys chs t (curses_pre keys moves chs t))
      → (r : KeyResult W) → AfterKey ch s r
      → AfterKeys (ch ∷ chs) s (elim r [
        | exits ↦ exits
        | handled draw s' ↦ curses_pre keys moves chs (if draw then redraw moves s' else s')
      ])
  after_first keys moves ch chs s rest exits (y, on) = inl (on, ([], chs, rw y refl))
  after_first keys moves ch chs s rest (handled draw s') (mode, h) =
      let t = if draw then redraw moves s' else s' in
      pass ch chs s s' mode (curses_pre keys moves chs t) (
        same_keys moves chs draw s' (curses_pre keys moves chs t)
          (rest t (drawn-HasGraphs moves draw s' h)))

  -- Whatever keys wait, with 1 to 32 graphs before, curses_pre ends the program only where a y
  -- follows a q, or a y comes in the quit mode, and keeps the number of graphs between 1 and 32
  -- otherwise.
  pub curses_pre-AfterKeys :
      (keys : CursesKeys) (moves : Moves W) (chs : List ℕ) (s : Screen W)
      → HasGraphs s.cfg
      → AfterKeys chs s (curses_pre keys moves chs s)
  unfolding curses_pre
  curses_pre-AfterKeys keys moves [] s h = h
  curses_pre-AfterKeys keys moves (ch ∷ chs) s h =
      after_first keys moves ch chs s (curses_pre-AfterKeys keys moves chs)
        (handle_input keys moves ch s) (handle_input-AfterKey keys moves ch s h)
