-- ===== src/Db/Sqlite.antt =====
-- `DbSqlite` of src/db/db_sqlite.rs. What `rusqlite::Connection::execute` does is a parameter: it
-- changes the connection, and may fail.
use tunm.Prelude.{ℕ, String, Bool, true, Option, none, some}
use tunm.Prelude.Int.{ℤ, pos, negsuc}
use tunm.Db.Trait.{NetResult, done, DbTrait}

-- `rusqlite::Error`: a failure of the library with its extended code, or any other.
pub data SqliteError : Type 0 where
  sqlite_failure : ℤ → SqliteError
  other_error : SqliteError

pub record DbSqlite (C : Type 0) : Type 0 where
  pub conn : C
  pub last_insert_id : ℕ
  pub affected_rows : ℕ
  pub error : Option SqliteError
  pub is_connect : Bool
  pub last_use_time : ℕ

-- `DbSqlite::new`, at the time `now`.
abbrev pub new_sqlite : {C : Type 0} → C → ℕ → DbSqlite C
new_sqlite conn now = record {
  conn = conn;
  last_insert_id = 0;
  affected_rows = 0;
  error = none;
  is_connect = true;
  last_use_time = now;
}

abbrev pub code_of : SqliteError → ℤ
code_of (sqlite_failure extended_code) = extended_code
code_of other_error = negsuc 0

module _ {C : Type 0} (exec : String → C → C × Option SqliteError) where
  -- `execute`: a failure is a result as well, with the library's code.
  unfoldable pub sqlite_execute : String → DbSqlite C → DbSqlite C × NetResult
  sqlite_execute sql_cmd db =
      let (conn', error) = exec sql_cmd db.conn in
      elim error [
        | none ↦ (record db { conn = conn'; error = none }, done (pos 0))
        | some err ↦ (record db { conn = conn'; error = some err }, done (code_of err))
      ]

  -- The `DbTrait` of `DbSqlite`, which knows neither the code nor the text of an error.
  abbrev pub sqlite : DbTrait (DbSqlite C)
  sqlite = record {
    execute = sqlite_execute;
    begin_transaction = sqlite_execute "START TRANSACTION";
    commit_transaction = sqlite_execute "COMMIT";
    rollback_transaction = sqlite_execute "ROLLBACK";
    get_error_code = λ _. pos 0;
    get_error_str = λ _. none;
  }
