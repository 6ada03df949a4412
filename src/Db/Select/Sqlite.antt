-- ===== src/Db/Select/Sqlite.antt =====
-- `select` and `insert` of `DbSqlite`, src/db/db_sqlite.rs. What the library rusqlite does with a
-- statement is a parameter.
use tunm.Prelude.{ℕ, suc, ◌%◌, ◌^◌, String, Option, none, some, List, [], ◌∷◌, ok, ◌⊎◌, inl, inr}
use tunm.Prelude.Int.{ℤ, pos}
use tunm.Prelude.Maps as Maps
use tunm.Prelude.Maps.{HashMap, text_eq}
use tunm.Net.Buffer.{ProtoBuffer}
use tunm.Net.Msg.{NetMsg}
use tunm.Lua.Engine.{Text, Foreign}
use tunm.Db.Trait.{done, failed}
use tunm.Db.Sqlite.{SqliteError, sqlite_failure, other_error, code_of, DbSqlite}
use tunm.Db.Select.{
  DbValue, nil, int, uint, float, str, raw, Encoder, Selected, DbSelect, encode_rows, row_list,
  sys_last_insert_id,
}

-- `ValueRef`; the bytes of a text are given as the text that `from_utf8_lossy` makes of them.
pub data ValueRef (R : Type 0) : Type 0 where
  null : ValueRef R
  integer : ℤ → ValueRef R
  real : R → ValueRef R
  text : Text → ValueRef R
  blob : List ℕ → ValueRef R

abbrev pub cell_value : {R : Type 0} → ValueRef R → DbValue R
cell_value null = nil
cell_value (integer n) = int n
cell_value (real x) = float x
cell_value (text s) = str s
cell_value (blob b) = raw b

-- The outcomes of `rows.next()` up to the end of the rows: a row with a value for each column, or an
-- error.
abbrev pub Rows : Type 0 → Type 0
Rows R = List (Option (ℕ → ValueRef R))

-- A statement is prepared, which gives the names of its columns, and queried; `exec` executes one, and
-- `last_insert_rowid` is read as an unsigned number.
pub record Library (C R : Type 0) : Type 0 where
  pub prepare : String → C → C × (SqliteError ⊎ List Text)
  pub query : String → C → C × (SqliteError ⊎ Rows R)
  pub exec : String → C → C × Option SqliteError
  pub last_insert_rowid : C → ℕ

module _ {R : Type 0} where
  -- The columns from the i-th on; a later column of the same name replaces an earlier one.
  unfoldable pub fill_row :
      List Text → ℕ → (ℕ → ValueRef R) → HashMap Text (DbValue R) → HashMap Text (DbValue R)
  fill_row [] i row hash = hash
  fill_row (name ∷ names) i row hash =
      fill_row names (suc i) row (Maps.insert name (cell_value (row i)) hash)

  -- The loop over the rows, which an error ends like their end.
  unfoldable pub read_rows : List Text → Rows R → List (HashMap Text (DbValue R))
  unfolding fill_row
  read_rows names [] = []
  read_rows names (none ∷ more) = []
  read_rows names (some row ∷ more) = fill_row names 0 row [] ∷ read_rows names more

module _ (B : ProtoBuffer) (F : Foreign B) (E : Encoder B F) {C : Type 0}
    (library : Library C (E.Float)) where
  open library use {prepare, query, exec, last_insert_rowid}

  abbrev pub Db : Type 0
  Db = DbSqlite C

  -- An error is kept, and its code is the result.
  abbrev pub fail_with : ℤ → SqliteError → NetMsg B → Db → Selected B F Db
  fail_with code err m db = ok (record db { error = some err }, m, done code)

  -- Only a failure of the library has a code where a statement is prepared.
  abbrev pub prepare_code : SqliteError → ℤ
  prepare_code (sqlite_failure extended_code) = extended_code
  prepare_code other_error = pos 0

  abbrev pub queried_rows :
      List Text → NetMsg B → Db → C × (SqliteError ⊎ Rows E.Float) → Selected B F Db
  queried_rows names m db (conn, inl err) =
      fail_with (code_of err) err m (record db { conn = conn })
  queried_rows names m db (conn, inr rows) =
      let db' : Db = record db { conn = conn; error = none } in
      encode_rows B F E (row_list B F E (read_rows names rows)) (λ m'. ok (db', m', done (pos 0)))
        (λ m' text_. ok (db', m', failed text_)) m

  abbrev pub prepared : String → NetMsg B → Db → C × (SqliteError ⊎ List Text) → Selected B F Db
  prepared sql_cmd m db (conn, inl err) =
      fail_with (prepare_code err) err m (record db { conn = conn })
  prepared sql_cmd m db (conn, inr names) =
      queried_rows names m (record db { conn = conn }) (query sql_cmd conn)

  unfoldable pub sqlite_select : String → NetMsg B → Db → Selected B F Db
  unfolding read_rows
  sqlite_select sql_cmd m db = prepared sql_cmd m db (prepare sql_cmd db.conn)

  -- The row that tells the id of what was inserted, as 32 bits.
  abbrev pub id_row : ℕ → HashMap Text (DbValue E.Float)
  id_row id = Maps.insert sys_last_insert_id (uint (id % 2 ^ 32)) []

  abbrev pub inserted : NetMsg B → Db → C × Option SqliteError → Selected B F Db
  inserted m db (conn, some err) = fail_with (code_of err) err m (record db { conn = conn })
  inserted m db (conn, none) =
      let id : ℕ = last_insert_rowid conn in
      let db' : Db = record db { conn = conn; last_insert_id = id } in
      encode_rows B F E (E.row_value (id_row id) ∷ [])
        (λ m'. ok (record db' { error = none }, m', done (pos 0)))
        (λ m' text_. ok (db', m', failed text_)) m

  unfoldable pub sqlite_insert : String → NetMsg B → Db → Selected B F Db
  sqlite_insert sql_cmd m db = inserted m db (exec sql_cmd db.conn)

  abbrev pub sqlite_queries : DbSelect B F Db
  sqlite_queries = record {
    select = sqlite_select;
    insert = sqlite_insert;
    get_last_insert_id = λ db. db.last_insert_id;
  }
