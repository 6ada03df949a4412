-- ===== src/Db/Select/Handler.antt =====
-- The threads that select and insert, and the scripts that wait, with the pool of src/db/db_pool.rs:
-- `thread_db_select`, `thread_db_insert`, `db_select_sync` and `db_insert_sync` of
-- src/lua_custom/lua_db.rs as a whole. Without a connection nothing is handed over.
use tunm.Prelude.{ℕ, String, Bool, false, none, some, List, [], Outcome, ok, ◌>>=◌}
use tunm.Net.Buffer.{ProtoBuffer}
use tunm.Lua.Engine.{Foreign, LuaElem, LuaArg}
use tunm.Db.Pool.{DbPool, DbStruct, get_db_trait, release_db_trait}
use tunm.Db.Handler.{Outside, db_struct}
use tunm.Db.Select.{DbSelect}
use tunm.Db.Select.Threads.{
  Answer, SyncAnswer, thread_db_select, thread_db_insert, db_select_sync, db_insert_sync,
}

module _ (B : ProtoBuffer) (F : Foreign B) {M S : Type 0} (o : Outside M S)
    (q : DbSelect B F (DbStruct M S)) where
  -- The pool afterwards, what is handed to the engine or pushed for the script, and whether it is logged.
  abbrev pub After : Type 0 → Type 0
  After A = DbPool M S × List A × Bool

  module _ {A R : Type 0} (finish : ℕ → String → DbPool M S → R → After A) where
    -- A connection is taken at the time `now`, and given back at the time `later`.
    unfoldable pub borrow :
        (DbStruct M S → Outcome R) → ℕ → ℕ → ℕ → String → DbPool M S → Outcome (After A)
    unfolding get_db_trait
    borrow work now later db_type db_name pool = do
      (taken, db) ← get_db_trait o.from_url o.connect o.open_file now db_type db_name pool
      elim db as (λ _. Outcome (After A)) [
        | none ↦ ok (taken, [], false)
        | some db ↦ work db >>= λ r. ok (finish later db_name taken r)
      ]

  abbrev pub handed_over : ℕ → String → DbPool M S → Answer B F (DbStruct M S) → After (LuaElem B F)
  handed_over later db_name taken a =
      (release_db_trait later db_name a.db taken, a.applied, a.logged)

  abbrev pub pushed_back :
      ℕ → String → DbPool M S → SyncAnswer B F (DbStruct M S) → After (LuaArg B F)
  pushed_back later db_name taken a =
      (release_db_trait later db_name a.db taken, a.pushed, a.logged)

  unfoldable pub serve_select :
      String → ℕ → ℕ → ℕ → ℕ → String → DbPool M S → Outcome (After (LuaElem B F))
  unfolding borrow thread_db_select db_struct
  serve_select sql_cmd cookie =
      borrow handed_over (λ db. thread_db_select B F (db_struct o) q sql_cmd cookie db)

  unfoldable pub serve_insert :
      String → ℕ → ℕ → ℕ → ℕ → String → DbPool M S → Outcome (After (LuaElem B F))
  unfolding borrow thread_db_insert db_struct
  serve_insert sql_cmd cookie =
      borrow handed_over (λ db. thread_db_insert B F (db_struct o) q sql_cmd cookie db)

  unfoldable pub serve_select_sync :
      String → ℕ → ℕ → ℕ → String → DbPool M S → Outcome (After (LuaArg B F))
  unfolding borrow db_select_sync db_struct
  serve_select_sync sql_cmd =
      borrow pushed_back (λ db. db_select_sync B F (db_struct o) q sql_cmd db)

  unfoldable pub serve_insert_sync :
      String → ℕ → ℕ → ℕ → String → DbPool M S → Outcome (After (LuaArg B F))
  unfolding borrow db_insert_sync db_struct
  serve_insert_sync sql_cmd =
      borrow pushed_back (λ db. db_insert_sync B F (db_struct o) q sql_cmd db)
