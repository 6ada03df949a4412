-- ===== src/Db/Failures.antt =====
-- What a failed statement does to the transactions of src/lua_custom/lua_db.rs on the two databases.
use tunm.Prelude.{
  ℕ, ◌≡◌, refl, ap, ◌∙◌, Bool, true, false, Option, none, some, String, List, [], ◌∷◌, arith, ◌==◌,
  if◌then◌else◌, Bool-cases, Option-cases, ◌⊎◌, inl, inr, ◌||◌,
}
use tunm.Prelude.Int.{ℤ, pos, negsuc, ltb_ℤ}
use Prim.Native.String.{◌++◌ as ◌+++◌}
use tunm.Db.Trait.{NetResult, done, failed, DbTrait}
use tunm.Db.Sqlite.{SqliteError, DbSqlite, sqlite_execute, sqlite, code_of}
use tunm.Db.Mysql.{Driver, DbMysql, check_connect, mysql_execute, mysql_error_str, mysql}
use tunm.Db.Thread.{
  text_or_empty, finish, ok_or_minus, transaction_loop, batch_loop, thread_db_transaction,
  thread_db_batch_execute,
}
use tunm.Db.Runs.{is_error_or_negative}

-- The results that `DbMysql::execute` gives: 0, or an error.
data IsZero : NetResult → Type 0 where
  zero_done : IsZero (done (pos 0))
  any_failed : {e : String} → IsZero (failed e)

IsZero-cases : {r : NetResult} → IsZero r → (r ≡ done (pos 0)) ⊎ ((e : String) × (r ≡ failed e))
IsZero-cases zero_done = inl refl
IsZero-cases (any_failed {e}) = inr (e, refl)

Sum-cases {ℓ κ} :
    {A : Type ℓ} {B : Type κ} (s : A ⊎ B) → ((a : A) × (s ≡ inl a)) ⊎ ((b : B) × (s ≡ inr b))
Sum-cases (inl a) = inl (a, refl)
Sum-cases (inr b) = inr (b, refl)

module _ {C : Type 0} (driver : Driver C) where
  mysql_execute-IsZero :
      (sql_cmd : String) (db : DbMysql C) → IsZero (mysql_execute driver sql_cmd db).1
  unfolding mysql_execute
  mysql_execute-IsZero sql_cmd db =
      let (db', connected) = check_connect driver db in
      elim (Bool-cases connected) [
        | inr e ↦ rw (e, mysql_execute) any_failed
        | inl e ↦ elim (Sum-cases (driver.query_iter sql_cmd db'.conn).1) [
          | inl (err, q) ↦ rw (e, q, mysql_execute) any_failed
          | inr (set, q) ↦ rw (e, q, mysql_execute) zero_done
        ]
      ]

  transaction_loop-mysql :
      (cmds : List String) (db : DbMysql C)
      → (transaction_loop (mysql driver) cmds (pos 0) db).1 ≡ pos 0
  unfolding transaction_loop
  transaction_loop-mysql [] db = refl
  transaction_loop-mysql (sql_cmd ∷ cmds) db =
      let next = transaction_loop-mysql cmds (mysql_execute driver sql_cmd db).0 in
      elim (IsZero-cases (mysql_execute-IsZero sql_cmd db)) [
        | inl e ↦ rw (e, transaction_loop) next
        | inr (err, e) ↦ rw (e, transaction_loop) refl
      ]

  -- On MySQL the result of a transaction is 0, whether its statements failed or not: what is handed to
  -- the Lua engine, if a result is asked for, says success, and nothing is logged.
  pub thread_db_transaction-mysql :
      (cmds : List String) (cookie : ℕ) (db : DbMysql C)
      → (m : Option String) × ((thread_db_transaction (mysql driver) cmds cookie db).applied
          ≡ (if cookie == 0 then [] else record { cookie = cookie; ret = pos 0; err_msg = m } ∷ []))
        × ((thread_db_transaction (mysql driver) cmds cookie db).logged ≡ false)
  unfolding thread_db_transaction
  thread_db_transaction-mysql cmds cookie db =
      let begun = (mysql_execute driver "START TRANSACTION" db).0 in
      let r = transaction_loop (mysql driver) cmds (pos 0) begun in
      let zero_ret = transaction_loop-mysql cmds begun in
      (mysql_error_str (finish (mysql driver) r.2 r.0), rw zero_ret refl, rw zero_ret refl)

-- What a statement on SQLite results in.
abbrev pub result_code : Option SqliteError → ℤ
result_code none = pos 0
result_code (some err) = code_of err

module _ {C : Type 0} (exec : String → C → C × Option SqliteError) where
  -- The statements one after the other, failures or not.
  abbrev pub run_all : List String → C → C
  run_all [] conn = conn
  run_all (sql_cmd ∷ cmds) conn = run_all cmds (exec sql_cmd conn).0

  sqlite_execute_result :
      (sql_cmd : String) (db : DbSqlite C)
      → ((sqlite_execute exec sql_cmd db).1 ≡ done (result_code (exec sql_cmd db.conn).1))
        × ((sqlite_execute exec sql_cmd db).0.conn ≡ (exec sql_cmd db.conn).0)
  unfolding sqlite_execute
  sqlite_execute_result sql_cmd db = elim (Option-cases (exec sql_cmd db.conn).1) [
    | inl e ↦ (rw (e, sqlite_execute) refl, rw (e, sqlite_execute) refl)
    | inr (err, e) ↦ (rw (e, sqlite_execute) refl, rw (e, sqlite_execute) refl)
  ]

  module _
      (codes : (sql_cmd : String) (conn : C)
        → ltb_ℤ (result_code (exec sql_cmd conn).1) (pos 0) ≡ false) where
    transaction_loop-sqlite :
        (cmds : List String) (ret : ℤ) (db : DbSqlite C)
        → ((transaction_loop (sqlite exec) cmds ret db).2 ≡ false)
          × ((transaction_loop (sqlite exec) cmds ret db).0.conn ≡ run_all cmds db.conn)
    unfolding transaction_loop
    transaction_loop-sqlite [] ret db = (refl, refl)
    transaction_loop-sqlite (sql_cmd ∷ cmds) ret db =
        let code = result_code (exec sql_cmd db.conn).1 in
        let (e, same) = sqlite_execute_result sql_cmd db in
        let (all_passed, conn) =
          transaction_loop-sqlite cmds code (sqlite_execute exec sql_cmd db).0 in
        (
          rw (e, codes sql_cmd db.conn, transaction_loop) all_passed,
          rw (e, codes sql_cmd db.conn, transaction_loop) (conn ∙ ap (run_all cmds) same),
        )

    -- On SQLite, if no error's code is negative, a transaction runs every statement, also those behind
    -- one that failed, and then is committed.
    pub thread_db_transaction-sqlite :
        (cmds : List String) (cookie : ℕ) (db : DbSqlite C)
        → (thread_db_transaction (sqlite exec) cmds cookie db).db.conn
          ≡ (exec "COMMIT" (run_all cmds (exec "START TRANSACTION" db.conn).0)).0
    unfolding thread_db_transaction
    thread_db_transaction-sqlite cmds cookie db =
        let begun = (sqlite_execute exec "START TRANSACTION" db).0 in
        let r = transaction_loop (sqlite exec) cmds (pos 0) begun in
        let (passed, conn) = transaction_loop-sqlite cmds (pos 0) begun in
        let start = (sqlite_execute_result "START TRANSACTION" db).1 in
        let ended = (sqlite_execute_result "COMMIT" r.0).1 in
        rw passed (ended ∙ ap (λ (c : C). (exec "COMMIT" c).0) (conn ∙ ap (run_all cmds) start))

failure_test : (r : NetResult) → ltb_ℤ (ok_or_minus r) (pos 0) ≡ is_error_or_negative r
failure_test (done r) = refl
failure_test (failed e) = refl

or_assoc : (a b c : Bool) → ((a || b) || c) ≡ (a || (b || c))
or_assoc true b c = refl
or_assoc false b c = refl

module _ {D : Type 0} (t : DbTrait D) where
  abbrev pub execute_all : List String → D → D
  execute_all [] db = db
  execute_all (sql_cmd ∷ cmds) db = execute_all cmds (t.execute sql_cmd db).0

  -- Whether the result of a statement is an error or a negative number, when all are run.
  abbrev pub any_error_or_negative : List String → D → Bool
  any_error_or_negative [] db = false
  any_error_or_negative (sql_cmd ∷ cmds) db =
      is_error_or_negative (t.execute sql_cmd db).1
      || any_error_or_negative cmds (t.execute sql_cmd db).0

  batch_loop-all :
      (cmds : List String) (msg : String) (f : Bool) (db : D)
      → ((batch_loop t cmds msg f db).0 ≡ execute_all cmds db)
        × ((batch_loop t cmds msg f db).2 ≡ (f || any_error_or_negative cmds db))
  unfolding batch_loop
  batch_loop-all [] msg f db = (refl, ground arith)
  batch_loop-all (sql_cmd ∷ cmds) msg f db =
      let (db', result) = t.execute sql_cmd db in
      let bad = ltb_ℤ (ok_or_minus result) (pos 0) in
      let msg' = if bad then (msg +++ "|") +++ text_or_empty (t.get_error_str db') else msg in
      let (ran, f') = batch_loop-all cmds msg' (f || bad) db' in
      let later = any_error_or_negative cmds db' in
      (ran, f' ∙ or_assoc f bad later ∙ ap (λ (b : Bool). f || (b || later)) (failure_test result))

  -- A batch begins, runs every statement, whatever the results of those before it, and is committed. The
  -- result handed to the Lua engine, if one is asked for, is -1 if the result of a statement was an error
  -- or a negative number; if none was, also if some were positive, it is that of the commit, or -1 if the
  -- commit is an error.
  pub thread_db_batch_execute-all :
      (cmds : List String) (cookie : ℕ) (db : D)
      → let begun = (t.begin_transaction db).0 in
        let (ended, committed) = t.commit_transaction (execute_all cmds begun) in
        let ret = if any_error_or_negative cmds begun then negsuc 0 else ok_or_minus committed in
        ((thread_db_batch_execute t cmds cookie db).db ≡ ended)
        × (m : Option String) × ((thread_db_batch_execute t cmds cookie db).applied
            ≡ (if cookie == 0 then [] else record { cookie = cookie; ret = ret; err_msg = m } ∷ []))
  unfolding thread_db_batch_execute
  thread_db_batch_execute-all cmds cookie db =
      let begun = (t.begin_transaction db).0 in
      let r = batch_loop t cmds "" false begun in
      let (ran, f) = batch_loop-all cmds "" false begun in
      (ap (λ (d : D). (t.commit_transaction d).0) ran, some r.1, rw (ran, f) refl)
