-- ===== src/Db/Handler.antt =====
-- The threads of src/lua_custom/lua_db.rs with the pool of src/db/db_pool.rs: a connection is taken,
-- used, and given back. A thread that finds no connection does nothing.
use tunm.Prelude.{ℕ, String, Bool, false, Option, none, some, List, [], Outcome, ok, ◌>>=◌}
use tunm.Db.Trait.{NetResult, DbTrait}
use tunm.Db.Sqlite.{SqliteError, DbSqlite, sqlite}
use tunm.Db.Mysql.{Driver, DbMysql, mysql}
use tunm.Db.Thread.{
  DbResult, Report, thread_db_execute, thread_db_transaction, thread_db_batch_execute,
}
use tunm.Db.Pool.{DbPool, DbStruct, my_sql, sqlite_db, release_db_trait, get_db_trait}

-- What the threads do with the outside: the driver and the library of the two databases, and how
-- connections are opened.
pub record Outside (M S : Type 0) : Type 0 where
  pub driver : Driver M
  pub exec : String → S → S × Option SqliteError
  pub from_url : String → Option String
  pub connect : String → String → Option M
  pub open_file : String → Option S

module _ {M S : Type 0} (o : Outside M S) where
  -- A match on the kind of connection, and the call of its method.
  unfoldable pub delegate :
      (DbMysql M → DbMysql M × NetResult)
      → (DbSqlite S → DbSqlite S × NetResult)
      → DbStruct M S
      → DbStruct M S × NetResult
  delegate f g (my_sql db) = let (db', r) = f db in (my_sql db', r)
  delegate f g (sqlite_db db) = let (db', r) = g db in (sqlite_db db', r)

  -- `impl DbTrait for DbStruct`.
  unfoldable pub struct_execute : String → DbStruct M S → DbStruct M S × NetResult
  unfolding delegate
  struct_execute sql_cmd =
      delegate ((mysql o.driver).execute sql_cmd) ((sqlite o.exec).execute sql_cmd)

  unfoldable pub db_struct : DbTrait (DbStruct M S)
  unfolding delegate struct_execute
  db_struct =
      let my = mysql o.driver in
      let file = sqlite o.exec in
      record {
        execute = struct_execute;
        begin_transaction = delegate my.begin_transaction file.begin_transaction;
        commit_transaction = delegate my.commit_transaction file.commit_transaction;
        rollback_transaction = delegate my.rollback_transaction file.rollback_transaction;
        get_error_code = λ db. elim db [
          | my_sql db ↦ my.get_error_code db
          | sqlite_db db ↦ file.get_error_code db
        ];
        get_error_str = λ db. elim db [
          | my_sql db ↦ my.get_error_str db
          | sqlite_db db ↦ file.get_error_str db
        ];
      }

  -- The pool after the work, the results handed to the Lua engine, and whether it is logged.
  abbrev pub Served : Type 0
  Served = DbPool M S × List DbResult × Bool

  -- A thread with its connection: taken at the time `now`, and given back at the time `later`.
  unfoldable pub with_connection :
      (DbStruct M S → Report (DbStruct M S)) → ℕ → ℕ → ℕ → String → DbPool M S → Outcome Served
  unfolding get_db_trait release_db_trait
  with_connection work now later db_type db_name pool = do
    (taken, db) ← get_db_trait o.from_url o.connect o.open_file now db_type db_name pool
    elim db as (λ _. Outcome Served) [
      | none ↦ ok (taken, [], false)
      | some db ↦
          let r = work db in ok (release_db_trait later db_name r.db taken, r.applied, r.logged)
    ]

  unfoldable pub serve_execute : String → ℕ → ℕ → ℕ → ℕ → String → DbPool M S → Outcome Served
  unfolding with_connection thread_db_execute db_struct
  serve_execute sql_cmd cookie =
      with_connection (λ db. thread_db_execute db_struct sql_cmd cookie db)

  unfoldable pub serve_transaction :
      List String → ℕ → ℕ → ℕ → ℕ → String → DbPool M S → Outcome Served
  unfolding with_connection thread_db_transaction db_struct
  serve_transaction sql_cmd_list cookie =
      with_connection (λ db. thread_db_transaction db_struct sql_cmd_list cookie db)

  unfoldable pub serve_batch : List String → ℕ → ℕ → ℕ → ℕ → String → DbPool M S → Outcome Served
  unfolding with_connection thread_db_batch_execute db_struct
  serve_batch sql_cmd_list cookie =
      with_connection (λ db. thread_db_batch_execute db_struct sql_cmd_list cookie db)
