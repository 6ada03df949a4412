-- ===== src/Db/Select/Mysql.antt =====
-- `select` and `insert` of `DbMysql`, src/db/db_mysql.rs. What the driver gives for a query is a
-- parameter, and so is the calendar.
use tunm.Prelude.{
  ℕ, ◌+◌, ◌%◌, ◌^◌, String, Option, none, some, List, [], ◌∷◌, Outcome, ok, panic, ◌>>=◌, ◌⊎◌, inl,
  inr, if◌then◌else◌,
}
use tunm.Prelude.Int.{ℤ, pos, negsuc}
use tunm.Prelude.Maps as Maps
use tunm.Prelude.Maps.{HashMap, text_eq}
use tunm.Net.Buffer.{ProtoBuffer}
use tunm.Net.Msg.{NetMsg, set_write_data}
use tunm.Lua.Engine.{Text, Foreign}
use tunm.Db.Trait.{done, failed}
use tunm.Db.Mysql.{
  MysqlError, my_sql_error, other_error, ResultSet, DbMysql, Driver, error_text, id_or_zero,
  check_connect,
}
use tunm.Db.Select.{
  DbValue, int, uint, float, str, raw, Encoder, Selected, DbSelect, encode_rows, sys_last_insert_id,
}

-- `mysql::Value`. Bytes come with the text that they are, if they are one.
pub data MysqlValue (R : Type 0) : Type 0 where
  null : MysqlValue R
  bytes : List ℕ → Option Text → MysqlValue R
  signed : ℤ → MysqlValue R
  unsigned : ℕ → MysqlValue R
  float_or_double : R → MysqlValue R
  date : ℕ → ℕ → ℕ → ℕ → ℕ → ℕ → MysqlValue R
  time : MysqlValue R

-- A result set: what it tells, and its rows, unless the driver gives an error for a row. A row is the name
-- of each column with the value that the driver finds in the row for that name.
pub record RowSet (R : Type 0) : Type 0 where
  pub told : ResultSet
  pub rows : List (Option (List (Text × MysqlValue R)))

-- A query that gives result sets, one that gives none, and the seconds of a date since 1970, as an unsigned
-- number, if there is such a date.
pub record Queries (C R : Type 0) : Type 0 where
  pub query_sets : String → C → C × (MysqlError ⊎ List (RowSet R))
  pub query_done : String → C → C × (MysqlError ⊎ ResultSet)
  pub timestamp : ℕ → ℕ → ℕ → ℕ → ℕ → ℕ → Option ℕ

-- A byte string that is a text is given as one.
abbrev pub text_or_raw : {R : Type 0} → List ℕ → Option Text → DbValue R
text_or_raw b none = raw b
text_or_raw b (some s) = str s

module _ (B : ProtoBuffer) (F : Foreign B) (E : Encoder B F) {C : Type 0} (driver : Driver C)
    (queries : Queries C (E.Float)) where
  open queries use {query_sets, query_done, timestamp}

  abbrev pub Db : Type 0
  Db = DbMysql C

  abbrev pub Row : Type 0
  Row = HashMap Text (DbValue E.Float)

  -- `and_hms` panics where there is no such date.
  abbrev pub seconds : Option ℕ → Outcome (Option (DbValue E.Float))
  seconds none = panic
  seconds (some t) = ok (some (uint (t % 2 ^ 32)))

  -- What a value becomes; null values and times are left out.
  abbrev pub mysql_value : MysqlValue E.Float → Outcome (Option (DbValue E.Float))
  mysql_value null = ok none
  mysql_value (bytes b text_) = ok (some (text_or_raw b text_))
  mysql_value (signed n) = ok (some (int n))
  mysql_value (unsigned n) = ok (some (uint n))
  mysql_value (float_or_double x) = ok (some (float x))
  mysql_value (date year month day hour minutes secs) =
      seconds (timestamp (year + 1970) month day hour minutes secs)
  mysql_value time = ok none

  abbrev pub put_cell : Text → Option (DbValue E.Float) → Row → Row
  put_cell name none hash = hash
  put_cell name (some v) hash = Maps.insert name v hash

  unfoldable pub fill_mysql_row : List (Text × MysqlValue E.Float) → Row → Outcome Row
  fill_mysql_row [] hash = ok hash
  fill_mysql_row ((name, value) ∷ more) hash =
      mysql_value value >>= λ v. fill_mysql_row more (put_cell name v hash)

  -- `row.unwrap()` panics at an error.
  unfoldable pub read_mysql_rows :
      List (Option (List (Text × MysqlValue E.Float))) → Outcome (List F.Value)
  unfolding fill_mysql_row
  read_mysql_rows [] = ok []
  read_mysql_rows (none ∷ more) = panic
  read_mysql_rows (some cells ∷ more) = do
    row ← fill_mysql_row cells []
    rest ← read_mysql_rows more
    ok (E.row_value row ∷ rest)

  abbrev pub note : ResultSet → Db → Db
  note r db = record db { last_insert_id = id_or_zero r.insert_id; affected_rows = r.rows }

  -- Each result set is written in the place of the one before.
  unfoldable pub read_sets : List (RowSet E.Float) → NetMsg B → Db → Selected B F Db
  unfolding read_mysql_rows set_write_data
  read_sets [] m db = ok (db, m, done (pos 0))
  read_sets (set ∷ sets) m db = do
    let noted = note set.told db
    values ← read_mysql_rows set.rows
    encode_rows B F E values (λ m'. read_sets sets m' (record noted { error = none }))
        (λ m' text_. ok (noted, m', failed text_)) (set_write_data B m)

  abbrev pub queried_sets :
      NetMsg B → Db → C × (MysqlError ⊎ List (RowSet E.Float)) → Selected B F Db
  queried_sets m db (conn, inl err) = ok (record db { conn = conn }, m, failed (error_text err))
  queried_sets m db (conn, inr sets) = read_sets sets m (record db { conn = conn })

  unfoldable pub mysql_select : String → NetMsg B → Db → Selected B F Db
  unfolding check_connect read_sets
  mysql_select sql_cmd m db =
      let (db', connected) = check_connect driver db in
      let queried = queried_sets m db' (query_sets sql_cmd db'.conn) in
      if connected then queried else ok (db', m, failed "reconnect db error")

  abbrev pub mysql_code : MysqlError → ℤ
  mysql_code (my_sql_error code message) = code
  mysql_code (other_error text_) = negsuc 0

  abbrev pub mysql_inserted : NetMsg B → Db → C × (MysqlError ⊎ ResultSet) → Selected B F Db
  mysql_inserted m db (conn, inl err) =
      ok (record db { conn = conn; error = some err }, m, done (mysql_code err))
  mysql_inserted m db (conn, inr told) =
      let noted : Db = note told (record db { conn = conn }) in
      let id : DbValue E.Float = uint (noted.last_insert_id % 2 ^ 32) in
      encode_rows B F E (E.row_value (Maps.insert sys_last_insert_id id []) ∷ [])
        (λ m'. ok (record noted { error = none }, m', done (pos 0)))
        (λ m' text_. ok (noted, m', failed text_)) m

  unfoldable pub mysql_insert : String → NetMsg B → Db → Selected B F Db
  unfolding check_connect
  mysql_insert sql_cmd m db =
      let (db', connected) = check_connect driver db in
      let queried = mysql_inserted m db' (query_done sql_cmd db'.conn) in
      if connected then queried else ok (db', m, failed "reconnect db error")

  abbrev pub mysql_queries : DbSelect B F Db
  mysql_queries = record {
    select = mysql_select;
    insert = mysql_insert;
    get_last_insert_id = λ db. db.last_insert_id;
  }
