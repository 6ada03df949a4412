-- ===== src/Db/Mysql.antt =====
-- `DbMysql` of src/db/db_mysql.rs. The driver's operations on its connection are parameters.
use tunm.Prelude.{ℕ, String, Bool, true, Option, none, some, ◌⊎◌, inl, inr, if◌then◌else◌}
use tunm.Prelude.Int.{ℤ, pos, negsuc}
use tunm.Db.Trait.{NetResult, done, failed, DbTrait}

-- `mysql::Error`: one of the server's with its code and message, or any other with its text.
pub data MysqlError : Type 0 where
  my_sql_error : ℤ → String → MysqlError
  other_error : String → MysqlError

-- What a result set tells: the last insert id, if any, and the rows affected.
pub record ResultSet : Type 0 where
  pub insert_id : Option ℕ
  pub rows : ℕ

-- `ping` and `reset` tell whether they succeeded; `query_iter` fails with an error, or gives the first
-- result set, if there is one.
pub record Driver (C : Type 0) : Type 0 where
  pub ping : C → C × Bool
  pub reset : C → C × Bool
  pub query_iter : String → C → C × (MysqlError ⊎ Option ResultSet)

pub record DbMysql (C : Type 0) : Type 0 where
  pub conn : C
  pub last_insert_id : ℕ
  pub affected_rows : ℕ
  pub error : Option MysqlError
  pub is_connect : Bool
  pub last_use_time : ℕ

-- `DbMysql::new`, at the time `now`.
abbrev pub new_mysql : {C : Type 0} → C → ℕ → DbMysql C
new_mysql conn now = record {
  conn = conn;
  last_insert_id = 0;
  affected_rows = 0;
  error = none;
  is_connect = true;
  last_use_time = now;
}

abbrev pub error_text : MysqlError → String
error_text (my_sql_error code message) = message
error_text (other_error text) = text

-- `get_error_code` and `get_error_str`.
unfoldable pub mysql_error_code : {C : Type 0} → DbMysql C → ℤ
mysql_error_code db = elim db.error [
  | none ↦ pos 0
  | some err ↦ elim err [ my_sql_error code message ↦ code | other_error text ↦ negsuc 0 ]
]

unfoldable pub mysql_error_str : {C : Type 0} → DbMysql C → Option String
mysql_error_str db = elim db.error [ none ↦ none | some err ↦ some (error_text err) ]

abbrev pub id_or_zero : Option ℕ → ℕ
id_or_zero none = 0
id_or_zero (some id) = id

module _ {C : Type 0} (driver : Driver C) where
  -- `check_connect`: a connection that does not answer is reset, once.
  unfoldable pub check_connect : DbMysql C → DbMysql C × Bool
  check_connect db =
      let (conn', alive) = driver.ping db.conn in
      let (conn'', again) = driver.reset conn' in
      if alive
      then (record db { conn = conn' }, true)
      else (record db { conn = conn''; is_connect = again }, again)

  -- What `execute` keeps of a result set.
  unfoldable pub note_result : Option ResultSet → DbMysql C → DbMysql C
  note_result none db = db
  note_result (some r) db = record db {
    last_insert_id = id_or_zero r.insert_id;
    affected_rows = r.rows;
    error = none;
  }

  -- `execute`: a failure is an error, and is not kept in the connection.
  unfoldable pub mysql_execute : String → DbMysql C → DbMysql C × NetResult
  unfolding check_connect note_result
  mysql_execute sql_cmd db =
      let (db', connected) = check_connect db in
      let (conn', result) = driver.query_iter sql_cmd db'.conn in
      let db'' = record db' { conn = conn' } in
      let queried : DbMysql C × NetResult = elim result [
        | inl err ↦ (db'', failed (error_text err))
        | inr set ↦ (note_result set db'', done (pos 0))
      ] in
      if connected then queried else (db', failed "reconnect db error")

  abbrev pub mysql : DbTrait (DbMysql C)
  mysql = record {
    execute = mysql_execute;
    begin_transaction = mysql_execute "START TRANSACTION";
    commit_transaction = mysql_execute "COMMIT";
    rollback_transaction = mysql_execute "ROLLBACK";
    get_error_code = mysql_error_code;
    get_error_str = mysql_error_str;
  }
