-- ===== src/Db/Runs.antt =====
-- What the transactions of src/lua_custom/lua_db.rs do, as a relation, and for the two databases.
use tunm.Prelude.{
  ℕ, ◌≡◌, refl, ◌⊎◌, Bool, true, false, String, List, [], ◌∷◌, if◌then◌else◌, Bool-cases, inl, inr,
}
use tunm.Prelude.Int.{ℤ, pos, ltb_ℤ}
use tunm.Db.Trait.{NetResult, done, failed, DbTrait}
use tunm.Db.Thread.{transaction_loop, thread_db_transaction}

-- What ends a transaction: an error, or a negative number. A positive number, which a failure on SQLite
-- gives, does not.
abbrev pub is_error_or_negative : NetResult → Bool
is_error_or_negative (done r) = ltb_ℤ r (pos 0)
is_error_or_negative (failed e) = true

NetResult-cases : (r : NetResult) → ((n : ℤ) × (r ≡ done n)) ⊎ ((e : String) × (r ≡ failed e))
NetResult-cases (done n) = inl (n, refl)
NetResult-cases (failed e) = inr (e, refl)

module _ {D : Type 0} (t : DbTrait D) where
  -- The statements run one by one, up to the end or to the first whose result is an error or a negative
  -- number.
  pub data Runs : D → List String → D → Bool → Type 0 where
    all_done : {db : D} → Runs db [] db false
    stopped :
        {db : D} {sql_cmd : String} {cmds : List String}
        → is_error_or_negative (t.execute sql_cmd db).1 ≡ true
        → Runs db (sql_cmd ∷ cmds) (t.execute sql_cmd db).0 true
    passed :
        {db db' : D} {sql_cmd : String} {cmds : List String} {f : Bool}
        → is_error_or_negative (t.execute sql_cmd db).1 ≡ false
        → Runs (t.execute sql_cmd db).0 cmds db' f
        → Runs db (sql_cmd ∷ cmds) db' f

  transaction_loop-Runs :
      (cmds : List String) (ret : ℤ) (db : D)
      → Runs db cmds (transaction_loop t cmds ret db).0 (transaction_loop t cmds ret db).2
  unfolding transaction_loop
  transaction_loop-Runs [] ret db = all_done
  transaction_loop-Runs (sql_cmd ∷ cmds) ret db =
      let db' = (t.execute sql_cmd db).0 in
      elim (NetResult-cases (t.execute sql_cmd db).1) [
        | inr (e, h) ↦ rw (h, transaction_loop) (stopped (rw h refl))
        | inl (r, h) ↦ elim (Bool-cases (ltb_ℤ r (pos 0))) [
          | inl bad ↦ rw (h, bad, transaction_loop) (stopped (rw (h, bad) refl))
          | inr good ↦
              rw (h, good, transaction_loop)
                (passed (rw (h, good) refl) (transaction_loop-Runs cmds r db'))
        ]
      ]

  -- A transaction begins, runs its statements up to the first whose result is an error or a negative
  -- number, and is rolled back if there was such a result and committed if there was none; a positive
  -- result, be it a failure or not, does not stop it.
  pub thread_db_transaction-Runs :
      (cmds : List String) (cookie : ℕ) (db : D)
      → (db' : D) × (failed_ : Bool) × Runs (t.begin_transaction db).0 cmds db' failed_
        × ((thread_db_transaction t cmds cookie db).db
            ≡ (if failed_ then (t.rollback_transaction db').0 else (t.commit_transaction db').0))
  unfolding thread_db_transaction
  thread_db_transaction-Runs cmds cookie db =
      let begun = (t.begin_transaction db).0 in
      let r = transaction_loop t cmds (pos 0) begun in
      (r.0, r.2, transaction_loop-Runs cmds (pos 0) begun, refl)
