-- ===== src/Cursor/Tests.antt =====
-- A list of three entries.
use bmon.Prelude.{some, arith}
use bmon.Cursor.{select_first, select_last, select_next, select_prev}
use bmon.Cursor.Laws.{InList, select-InList}

select-InList_example :
    InList 3 (select_first 3)
    × InList 3 (select_last 3)
    × InList 3 (select_next 3 (some 2))
    × InList 3 (select_prev 3 (some 2))
select-InList_example = select-InList 3 (some 2) (omega arith)
