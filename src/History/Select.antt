-- ===== src/History/Select.antt =====
-- src/history.c: the list `def_list` of history definitions, and which of them is current. The
-- pointer `current_history` is the index in the list, which only grows at its end.
use bmon.Prelude.{ℕ, ◌≡◌, refl, Option, none, some, List, [], ◌∷◌, arith, if◌then◌else◌, length}
use bmon.Cursor
use bmon.Prelude.Bytes.{Bytes, str_eq, str_eq_iff}
use bmon.History.{HistoryDef, HistoryType}

pub record HistoryDefs (F : Type 0) : Type 0 where
  pub def_list : List (HistoryDef F)
  pub current_history : Option ℕ

module _ {F : Type 0} where
  unfoldable pub history_def_lookup : Bytes → List (HistoryDef F) → Option (HistoryDef F)
  history_def_lookup name [] = none
  history_def_lookup name (def ∷ def_list) =
      if str_eq def.hd_name name then some def else history_def_lookup name def_list

  -- `history_def_alloc` and the three assignments that `configfile_read_history` makes behind it.
  unfoldable pub define_history :
      Bytes → F → ℕ → HistoryType → List (HistoryDef F) → List (HistoryDef F)
  define_history name interval size type [] =
      record { hd_name = name; hd_size = size; hd_type = type; hd_interval = interval } ∷ []
  define_history name interval size type (def ∷ def_list) =
      if str_eq def.hd_name name
      then record def { hd_size = size; hd_type = type; hd_interval = interval } ∷ def_list
      else def ∷ define_history name interval size type def_list

  abbrev pub count_defs : HistoryDefs F → ℕ
  count_defs ds = length ds.def_list

  unfoldable pub history_select_first : HistoryDefs F → HistoryDefs F
  history_select_first ds = record ds { current_history = Cursor.select_first (count_defs ds) }

  unfoldable pub history_select_last : HistoryDefs F → HistoryDefs F
  history_select_last ds = record ds { current_history = Cursor.select_last (count_defs ds) }

  unfoldable pub history_select_next : HistoryDefs F → HistoryDefs F
  history_select_next ds = record ds {
    current_history = Cursor.select_next (count_defs ds) ds.current_history;
  }

  unfoldable pub history_select_prev : HistoryDefs F → HistoryDefs F
  history_select_prev ds = record ds {
    current_history = Cursor.select_prev (count_defs ds) ds.current_history;
  }

  unfoldable pub history_current : HistoryDefs F → HistoryDefs F
  history_current ds = record ds {
    current_history = Cursor.current (count_defs ds) ds.current_history;
  }

  -- A definition of the configuration is found under its name with the values given last; the other
  -- names are found as before.
  pub define_history_lem :
      (j name : Bytes) (interval : F) (size : ℕ) (type : HistoryType) (defs : List (HistoryDef F))
      → history_def_lookup j (define_history name interval size type defs) ≡ (
          if str_eq name j
          then some
              (record { hd_name = name; hd_size = size; hd_type = type; hd_interval = interval })
          else history_def_lookup j defs)
  unfolding history_def_lookup define_history
  define_history_lem j name interval size type [] = refl
  define_history_lem j name interval size type (def ∷ defs) = ground (
    arith,
    str_eq_iff def.hd_name name,
    str_eq_iff def.hd_name j,
    str_eq_iff name j,
    define_history_lem j name interval size type defs,
  )
