-- ===== src/Db/Thread.antt =====
-- `thread_db_execute`, `thread_db_transaction` and `thread_db_batch_execute` of
-- src/lua_custom/lua_db.rs, once the connection is there. What they hand to the Lua engine and to the
-- log comes back with the connection; that `get_db_trait` may find none is in the pool's module.
use tunm.Prelude.{
  ℕ, String, Bool, true, false, not, ◌||◌, Option, none, some, List, [], ◌∷◌, ◌==◌, if◌then◌else◌,
}
use tunm.Prelude.Int.{ℤ, pos, negsuc, ltb_ℤ, eq_ℤ}
use Prim.Native.String.{◌++◌ as ◌+++◌}
use tunm.Db.Trait.{NetResult, done, failed, DbTrait}

-- `LuaElem::DbResult`.
pub record DbResult : Type 0 where
  pub cookie : ℕ
  pub ret : ℤ
  pub err_msg : Option String

-- The connection after the work, the result for the Lua engine if one is asked for, and whether the
-- statements are logged as failed.
pub record Report (D : Type 0) : Type 0 where
  pub db : D
  pub applied : List DbResult
  pub logged : Bool

-- `if cookie != 0 { apply_db_result(...) }` and `if ret != 0 { append(...) }`.
abbrev pub report : {D : Type 0} → ℕ → ℤ → Option String → D → Report D
report cookie ret err_msg db = record {
  db = db;
  applied =
      if cookie == 0 then [] else record { cookie = cookie; ret = ret; err_msg = err_msg } ∷ [];
  logged = not (eq_ℤ ret (pos 0));
}

abbrev pub text_or_empty : Option String → String
text_or_empty none = ""
text_or_empty (some s) = s

-- `.ok()` or -1.
abbrev pub ok_or_minus : NetResult → ℤ
ok_or_minus (done r) = r
ok_or_minus (failed e) = negsuc 0

module _ {D : Type 0} (t : DbTrait D) where
  unfoldable pub thread_db_execute : String → ℕ → D → Report D
  thread_db_execute sql_cmd cookie db =
      let (db', result) = t.execute sql_cmd db in
      let ret : ℤ = elim result [ done r ↦ r | failed e ↦ t.get_error_code db' ] in
      report cookie ret (t.get_error_str db') db'

  -- The statements of a transaction, with the result of the last one so far: the connection, that
  -- result, and whether one failed, which ends them.
  unfoldable pub transaction_loop : List String → ℤ → D → D × ℤ × Bool
  transaction_loop [] ret db = (db, ret, false)
  transaction_loop (sql_cmd ∷ cmds) ret db =
      let (db', result) = t.execute sql_cmd db in
      elim result [
        | done r ↦
            let rest = transaction_loop cmds r db' in
            if ltb_ℤ r (pos 0) then (db', r, true) else rest
        | failed e ↦ (db', ret, true)
      ]

  -- A failed transaction is rolled back, any other is committed; the results of both are not read.
  abbrev pub finish : Bool → D → D
  finish failed_ db = if failed_ then (t.rollback_transaction db).0 else (t.commit_transaction db).0

  unfoldable pub thread_db_transaction : List String → ℕ → D → Report D
  unfolding transaction_loop
  thread_db_transaction sql_cmd_list cookie db =
      let begun = (t.begin_transaction db).0 in
      let (db', ret, failed_) = transaction_loop sql_cmd_list (pos 0) begun in
      let ended = finish failed_ db' in report cookie ret (t.get_error_str ended) ended

  -- The statements of a batch: all are run, and the texts of the errors are collected.
  unfoldable pub batch_loop : List String → String → Bool → D → D × String × Bool
  batch_loop [] err_msg failed_ db = (db, err_msg, failed_)
  batch_loop (sql_cmd ∷ cmds) err_msg failed_ db =
      let (db', result) = t.execute sql_cmd db in
      let bad = ltb_ℤ (ok_or_minus result) (pos 0) in
      let err_msg' =
        if bad then (err_msg +++ "|") +++ text_or_empty (t.get_error_str db') else err_msg in
      batch_loop cmds err_msg' (failed_ || bad) db'

  unfoldable pub thread_db_batch_execute : List String → ℕ → D → Report D
  unfolding batch_loop
  thread_db_batch_execute sql_cmd_list cookie db =
      let begun = (t.begin_transaction db).0 in
      let (db', err_msg, failed_) = batch_loop sql_cmd_list "" false begun in
      let (ended, result) = t.commit_transaction db' in
      let ret = if failed_ then negsuc 0 else ok_or_minus result in
      report cookie ret (some err_msg) ended
