-- ===== src/Db/Examples.antt =====
-- The properties of the databases at concrete connections, which keep the statements that they are sent.
use tunm.Prelude.{
  ◌≡◌, ◌≢◌, refl, Bool, true, false, Option, none, some, String, List, [], ◌∷◌, ◌++◌, arith,
  if◌then◌else◌, ◌==◌, inl, inr, ok,
}
use tunm.Prelude.Int.{pos, negsuc, ltb_ℤ}
use tunm.Prelude.Maps.{string_eq}
use tunm.Db.Sqlite.{SqliteError, sqlite_failure, DbSqlite, new_sqlite, sqlite, sqlite_execute}
use tunm.Db.Mysql.{my_sql_error, Driver, DbMysql, new_mysql, mysql_execute, mysql}
use tunm.Db.Thread.{ok_or_minus, thread_db_transaction, thread_db_batch_execute}
use tunm.Db.Pool.{DbPool, new_pool, idle_of, get_mysql, release_mysql, check_connect_timeout}
use tunm.Db.Runs.{Runs, thread_db_transaction-Runs}
use tunm.Db.Failures.{
  result_code, run_all, execute_all, any_error_or_negative, thread_db_transaction-mysql,
  thread_db_transaction-sqlite, thread_db_batch_execute-all,
}
use tunm.Db.PoolLaws.{get-release_mysql, recent, check_connect_timeout-recent}

abbrev Sent : Type 0
Sent = List String

-- SQLite's constraint violation, for one statement.
abbrev exec : String → Sent → Sent × Option SqliteError
exec sql sent =
    (sent ++ sql ∷ [], if string_eq.beq sql "bad" then some (sqlite_failure (pos 19)) else none)

abbrev db_file : DbSqlite Sent
db_file = new_sqlite [] 0

abbrev cmds : List String
cmds = "one" ∷ "bad" ∷ "two" ∷ []

abbrev driver : Driver Sent
driver = record {
  ping = λ sent. (sent, true);
  reset = λ sent. (sent, true);
  query_iter = λ sql sent. (
    sent ++ sql ∷ [],
    if string_eq.beq sql "bad" then inl (my_sql_error (pos 1062) "dup") else inr none,
  );
}

abbrev db_server : DbMysql Sent
db_server = new_mysql [] 0

abbrev begun : DbMysql Sent
begun = ((mysql driver).begin_transaction db_server).0

thread_db_transaction-Runs_example :
    (db' : DbMysql Sent) × (failed_ : Bool) × Runs (mysql driver) begun cmds db' failed_
    × ((thread_db_transaction (mysql driver) cmds 7 db_server).db ≡ (
        if failed_
        then ((mysql driver).rollback_transaction db').0
        else ((mysql driver).commit_transaction db').0))
thread_db_transaction-Runs_example = thread_db_transaction-Runs (mysql driver) cmds 7 db_server

-- The server sees the statements up to the failing one, and then the rollback.
transaction_sent :
    (thread_db_transaction (mysql driver) cmds 7 db_server).db.conn
    ≡ "START TRANSACTION" ∷ "one" ∷ "bad" ∷ "ROLLBACK" ∷ []
unfolding thread_db_transaction mysql_execute
transaction_sent = refl

thread_db_transaction-mysql_example :
    (m : Option String) × ((thread_db_transaction (mysql driver) cmds 7 db_server).applied
      ≡ (if 7 == 0 then [] else record { cookie = 7; ret = pos 0; err_msg = m } ∷ []))
    × ((thread_db_transaction (mysql driver) cmds 7 db_server).logged ≡ false)
thread_db_transaction-mysql_example = thread_db_transaction-mysql driver cmds 7 db_server

exec-codes : (sql : String) (sent : Sent) → ltb_ℤ (result_code (exec sql sent).1) (pos 0) ≡ false
exec-codes sql sent = ground arith

thread_db_transaction-sqlite_example :
    (thread_db_transaction (sqlite exec) cmds 7 db_file).db.conn
    ≡ (exec "COMMIT" (run_all exec cmds (exec "START TRANSACTION" []).0)).0
thread_db_transaction-sqlite_example = thread_db_transaction-sqlite exec exec-codes cmds 7 db_file

-- MySQL, with a statement that fails.
thread_db_batch_execute-all_example :
    let (ended, committed) =
      (mysql driver).commit_transaction (execute_all (mysql driver) cmds begun) in
    let ret =
      if any_error_or_negative (mysql driver) cmds begun then negsuc 0 else ok_or_minus committed in
    ((thread_db_batch_execute (mysql driver) cmds 7 db_server).db ≡ ended)
    × (m : Option String) × ((thread_db_batch_execute (mysql driver) cmds 7 db_server).applied
        ≡ (if 7 == 0 then [] else record { cookie = 7; ret = ret; err_msg = m } ∷ []))
thread_db_batch_execute-all_example = thread_db_batch_execute-all (mysql driver) cmds 7 db_server

-- The statement counts on MySQL, and does not on SQLite, where its code is positive.
counted_on_mysql : any_error_or_negative (mysql driver) cmds begun ≡ true
unfolding mysql_execute
counted_on_mysql = refl

abbrev file_begun : DbSqlite Sent
file_begun = ((sqlite exec).begin_transaction db_file).0

not_counted_on_sqlite : any_error_or_negative (sqlite exec) cmds file_begun ≡ false
unfolding sqlite_execute
not_counted_on_sqlite = refl

abbrev no_connect : String → String → Option Sent
no_connect url name = none

abbrev no_file : String → Option Sent
no_file path = none

abbrev pool : DbPool Sent Sent
pool = new_pool

ne : ◌≢◌ {A = String} "game" "log"
ne e = let h : string_eq.beq "game" "log" ≡ true = (string_eq.beq_iff "game" "log").1 e in cc

get-release_mysql_example :
    (after : DbPool Sent Sent) × (get_mysql some no_connect no_file 9 "game"
        (release_mysql 5 "game" db_server pool)
      ≡ ok (after, some (record db_server { last_use_time = 5 })))
    × (idle_of "game" after.db_mysql ≡ idle_of "game" pool.db_mysql)
    × (idle_of "log" after.db_mysql ≡ idle_of "log" pool.db_mysql)
get-release_mysql_example =
    get-release_mysql some no_connect no_file 5 9 "game" "log" db_server pool refl ne

-- One connection, last used at the time 0.
abbrev full_pool : DbPool Sent Sent
full_pool = record pool { db_mysql = ("game", db_server ∷ []) ∷ [] }

check_connect_timeout-recent_example :
    (after : DbPool Sent Sent) × (check_connect_timeout 5000 full_pool ≡ ok after)
    × ((name : String)
        → idle_of name after.db_mysql ≡ recent 5000 (idle_of name full_pool.db_mysql))
    × (after.db_sqlite ≡ full_pool.db_sqlite)
check_connect_timeout-recent_example =
    check_connect_timeout-recent 5000 full_pool ((omega arith, tt), tt)
