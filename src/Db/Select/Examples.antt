-- ===== src/Db/Select/Examples.antt =====
-- A table of two rows that is selected.
use tunm.Prelude.{
  ℕ, ◌+◌, refl, ap, ◌∙◌, true, false, Option, some, none, List, [], ◌∷◌, bytes_of, length, take,
  drop, arith, inr,
}
use tunm.Prelude.Int.{pos}
use tunm.Prelude.Maps as Maps
use tunm.Prelude.Maps.{text_eq, HashMap}
use tunm.Net.Sample.{sample, sample_laws}
use tunm.Net.Msg.Laws.{take-append}
use tunm.Lua.Engine.{Text, Foreign, LuaMachine, LuaEngine}
use tunm.Db.Sqlite.{DbSqlite, new_sqlite}
use tunm.Db.Select.{DbValue, int, uint, Encoder}
use tunm.Db.Select.Sqlite.{ValueRef, integer, Library, sqlite_queries, fill_row}
use tunm.Db.Select.Columns.{AreRows, row_maps}
use tunm.Db.Mysql.{Driver, DbMysql, new_mysql, mysql, check_connect}
use tunm.Db.Select.Mysql.{RowSet, Queries, signed, date, mysql_queries}
use tunm.Db.Select.Cells.{
  AreMysqlRows, maps_of, one_row, given_as, left_out, for_signed, for_null, for_date, no_cells,
  no_rows,
}
use tunm.Db.Select.Mysql as My
use tunm.Db.Select.MysqlRows.{mysql_select-Handed}
use tunm.Db.Select.Message.{EncoderLaws, Handed}
use tunm.Db.Select.Rows.{trait, thread_db_select-execute_db_result}

-- Values are numbers of which the first tells how many follow; a row is its number under "id".
abbrev values_in : List ℕ → Option (List ℕ)
values_in [] = none
values_in (n ∷ rest) = some (take n rest)

abbrev foreign : Foreign sample
foreign = record { Value = ℕ; Redis = ℕ; decode_proto = λ b. (b, values_in (drop b.rpos b.val)) }

abbrev id_of : Option (DbValue ℕ) → ℕ
id_of (some (int (pos n))) = n
id_of _ = 0

abbrev encoder : Encoder sample foreign
encoder = record {
  Float = ℕ;
  row_value = λ row. id_of (Maps.get (bytes_of "id") row);
  encode_proto = λ name values b. (sample.write (length values ∷ values) b, none);
}

abbrev encoder_laws : EncoderLaws sample sample_laws foreign encoder
encoder_laws = record {
  can_encode = λ name values. true;
  value_bytes = λ name values. length values ∷ values;
  encode_proto_write = λ name values b can. refl;
  decode_proto_read =
      λ name values b rest can e. ap values_in e ∙ ap some (take-append values rest);
}

-- Rows with the numbers 7 and 8, and an error behind them.
abbrev row : ℕ → ℕ → ValueRef ℕ
row n i = integer (pos n)

abbrev two_rows : Library ℕ ℕ
two_rows = record {
  prepare = λ sql_cmd conn. (conn, inr (bytes_of "id" ∷ []));
  query = λ sql_cmd conn. (conn + 1, inr (some (row 7) ∷ some (row 8) ∷ none ∷ []));
  exec = λ sql_cmd conn. (conn, none);
  last_insert_rowid = λ conn. 0;
}

abbrev silent : LuaMachine sample foreign
silent = record { Lua = ℕ; exec_func = λ call n. (n + 1, [], pos 0) }

abbrev idle : LuaEngine sample foreign silent
idle = record { exec_list = []; lua = 0 }

abbrev db_after : DbSqlite ℕ
db_after = record (new_sqlite 0 5) { conn = 1; error = none }

thread_db_select-execute_db_result_example :
    AreRows
      (bytes_of "id" ∷ [])
      (row 7 ∷ row 8 ∷ [])
      (row_maps (bytes_of "id" ∷ []) (row 7 ∷ row 8 ∷ []))
    × Handed sample sample_laws foreign encoder encoder_laws
        (trait sample sample_laws foreign encoder encoder_laws two_rows)
        (sqlite_queries sample foreign encoder two_rows)
        silent
        idle
        "select"
        3
        (new_sqlite 0 5)
        db_after
        (7 ∷ 8 ∷ [])
unfolding fill_row Maps.get Maps.insert
thread_db_select-execute_db_result_example =
    thread_db_select-execute_db_result sample sample_laws foreign encoder encoder_laws two_rows
      silent idle "select" 3 (new_sqlite 0 5) 0 1 (bytes_of "id" ∷ []) (row 7 ∷ row 8 ∷ [])
      (none ∷ []) (omega arith) refl refl (inr ([], refl)) refl

-- A connection of MySQL that has been lost is opened again, and gives one result set.
abbrev lost_once : Driver ℕ
lost_once = record {
  ping = λ conn. (conn, false);
  reset = λ conn. (conn + 10, true);
  query_iter = λ sql_cmd conn. (conn, inr none);
}

abbrev reset_db : DbMysql ℕ
reset_db = record (new_mysql 0 5) { conn = 10 }

-- One row: a number, a null value, and a date that the calendar has.
abbrev one_set : RowSet ℕ
one_set = record {
  told = record { insert_id = some 4; rows = 1 };
  rows =
      some (
        (bytes_of "id", signed (pos 7))
        ∷ (bytes_of "gone", My.null)
        ∷ (bytes_of "day", date 30 5 6 7 8 9)
        ∷ [])
      ∷ [];
}

abbrev one_query : Queries ℕ ℕ
one_query = record {
  query_sets = λ sql_cmd conn. (conn + 1, inr (one_set ∷ []));
  query_done = λ sql_cmd conn. (conn, inr (one_set.told));
  timestamp = λ year month day hour minutes secs. some year;
}

abbrev one_given : List (List (Text × DbValue ℕ))
one_given = ((bytes_of "id", int (pos 7)) ∷ (bytes_of "day", uint 2000) ∷ []) ∷ []

mysql_select-Handed_example :
    AreMysqlRows one_given (maps_of one_given)
    × Handed sample sample_laws foreign encoder encoder_laws
        (mysql lost_once)
        (mysql_queries sample foreign encoder lost_once one_query)
        silent
        idle
        "select"
        3
        (new_mysql 0 5)
        (record reset_db { conn = 11; last_insert_id = 4; affected_rows = 1; error = none })
        (7 ∷ [])
unfolding Maps.get Maps.insert check_connect
mysql_select-Handed_example =
    mysql_select-Handed sample sample_laws foreign encoder encoder_laws lost_once one_query silent
      idle "select" 3 (new_mysql 0 5) reset_db 11 one_set one_given (omega arith) refl refl
      (one_row (given_as for_signed (left_out for_null (given_as (for_date refl) no_cells)))
        no_rows)
      refl
