-- ===== src/Db/Select/Threads.antt =====
-- `thread_db_select`, `thread_db_insert`, `db_select_sync` and `db_insert_sync` of
-- src/lua_custom/lua_db.rs, once the connection is there. What they hand to the Lua engine, push on its
-- stack or write to the log comes back with the connection.
use tunm.Prelude.{
  ℕ, ◌%◌, ◌^◌, ◌==◌, String, Bool, not, Option, none, some, List, [], ◌∷◌, bytes_of, Outcome, ok,
  ◌>>=◌, if◌then◌else◌,
}
use tunm.Prelude.Int.{ℤ, pos, eq_ℤ}
use tunm.Net.Buffer.{ProtoBuffer}
use tunm.Net.Msg.{NetMsg, new_msg, end_msg, set_read_data}
use tunm.Lua.Engine.{Text, Foreign, LuaElem, db_result, LuaArg, number, text, table}
use tunm.Db.Trait.{NetResult, done, failed, DbTrait}
use tunm.Db.Select.{DbSelect}

module _ (B : ProtoBuffer) (F : Foreign B) where
  pub record Answer (D : Type 0) : Type 0 where
    pub db : D
    pub applied : List (LuaElem B F)
    pub logged : Bool

  -- The values pushed for a script that waits.
  pub record SyncAnswer (D : Type 0) : Type 0 where
    pub db : D
    pub pushed : List (LuaArg B F)
    pub logged : Bool

  abbrev pub text_bytes : Option String → Option Text
  text_bytes none = none
  text_bytes (some s) = some (bytes_of s)

  -- `if cookie != 0 { apply_db_result(...) }` and `if ret != 0 { append(...) }`.
  abbrev pub hand_over : {D : Type 0} → ℕ → ℤ → Option String → NetMsg B → D → Answer D
  hand_over cookie ret err_msg m db = record {
    db = db;
    applied = if cookie == 0 then [] else db_result cookie ret (text_bytes err_msg) (some m) ∷ [];
    logged = not (eq_ℤ ret (pos 0));
  }

  module _ {D : Type 0} (t : DbTrait D) (q : DbSelect B F D) where
    -- An error gives 1 with its text.
    abbrev pub selected : ℕ → D × NetMsg B × NetResult → Outcome (Answer D)
    selected cookie (db, m, done ret) = ok (hand_over cookie ret none (end_msg B m) db)
    selected cookie (db, m, failed err) = ok (hand_over cookie (pos 1) (some err) (end_msg B m) db)

    unfoldable pub thread_db_select : String → ℕ → D → Outcome (Answer D)
    thread_db_select sql_cmd cookie db = q.select sql_cmd (new_msg B) db >>= selected cookie

    -- `unwrap_or!(result.ok(), db.get_error_code())`.
    abbrev pub ret_of : D → NetResult → ℤ
    ret_of db (done ret) = ret
    ret_of db (failed err) = t.get_error_code db

    abbrev pub insert_done : ℕ → D × NetMsg B × NetResult → Outcome (Answer D)
    insert_done cookie (db, m, result) =
        ok (hand_over cookie (ret_of db result) (t.get_error_str db) (end_msg B m) db)

    unfoldable pub thread_db_insert : String → ℕ → D → Outcome (Answer D)
    thread_db_insert sql_cmd cookie db = q.insert sql_cmd (new_msg B) db >>= insert_done cookie

    abbrev pub error_or_unknown : D → LuaArg B F
    error_or_unknown db = elim (t.get_error_str db) [
      | none ↦ text (bytes_of "unknown error")
      | some s ↦ text (bytes_of s)
    ]

    abbrev pub rows_or_error : D → Option (List F.Value) → LuaArg B F
    rows_or_error db none = error_or_unknown db
    rows_or_error db (some values) = table values

    -- The message is read as it is written, with no head.
    abbrev pub selected_sync : D × NetMsg B × NetResult → Outcome (SyncAnswer D)
    selected_sync (db, m, result) =
        let decoded = (F.decode_proto (set_read_data B m).buffer).1 in
        ok (record {
          db = db;
          pushed = number (ret_of db result) ∷ rows_or_error db decoded ∷ [];
          logged = not (eq_ℤ (ret_of db result) (pos 0));
        })

    unfoldable pub db_select_sync : String → D → Outcome (SyncAnswer D)
    unfolding set_read_data
    db_select_sync sql_cmd db = q.select sql_cmd (new_msg B) db >>= selected_sync

    abbrev pub inserted_sync : D × NetMsg B × NetResult → Outcome (SyncAnswer D)
    inserted_sync (db, m, result) =
        let ret = ret_of db result in
        ok (record {
          db = db;
          pushed =
              number ret
              ∷ (if eq_ℤ ret (pos 0)
                  then number (pos (q.get_last_insert_id db % 2 ^ 32))
                  else error_or_unknown db)
              ∷ [];
          logged = not (eq_ℤ ret (pos 0));
        })

    unfoldable pub db_insert_sync : String → D → Outcome (SyncAnswer D)
    db_insert_sync sql_cmd db = q.insert sql_cmd (new_msg B) db >>= inserted_sync
