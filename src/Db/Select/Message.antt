-- ===== src/Db/Select/Message.antt =====
-- Values written into a message of src/net/net_msg.rs by a `select`, and how they reach the scripts through
-- src/lua_custom/lua_db.rs and `execute_db_result` of src/lua_engine.rs.
use tunm.Prelude.{
  ℕ, ◌≤◌, ◌≡◌, ◌≢◌, sym, ap, ap₂, ◌∙◌, ne_test, true, false, Bool, String, none, some, List, [],
  ◌∷◌, ◌++◌, length, drop, length-append, append-nil, arith, bytes_of, ok, ◌>>=◌, if◌then◌else◌,
}
use tunm.Prelude.Int.{pos}
use tunm.Net.Buffer.{ProtoBuffer, BufferLaws}
use tunm.Net.Msg.{NetMsg, new_msg, end_msg, set_read_data, set_write_data, head_fill_up}
use tunm.Net.Msg.Laws.{drop-append, drop-head}
use tunm.Net.Msg.RoundTrip.{end_msg-Ended}
use tunm.Net.Msg.Detail.{Filled, write-Filled}
use tunm.Lua.Engine.{
  Text, Foreign, LuaMachine, LuaEngine, LuaArg, number, table, db_result, db_args, decoded_result,
  execute_db_result, exec,
}
use tunm.Db.Trait.{done, DbTrait}
use tunm.Db.Select.{Encoder, db_result_proto, DbSelect}
use tunm.Db.Select.Threads.{
  thread_db_select, db_select_sync, selected, selected_sync, rows_or_error,
}

module _ (B : ProtoBuffer) (laws : BufferLaws B) (F : Foreign B) (E : Encoder B F) where
  open B use {Buffer, new, val, get_rpos, get_wpos, set_rpos, set_wpos, write}
  open E use {encode_proto}

  -- The documented behaviour of `encode_proto` and `decode_proto`: values that can be encoded are written
  -- as some bytes, and read back from them.
  pub record EncoderLaws : Type 0 where
    pub can_encode : Text → List F.Value → Bool
    pub value_bytes : Text → List F.Value → List ℕ
    pub encode_proto_write :
        (name : Text) (values : List F.Value) (b : Buffer)
        → can_encode name values ≡ true
        → encode_proto name values b ≡ (write (value_bytes name values) b, none)
    pub decode_proto_read :
        (name : Text) (values : List F.Value) (b : Buffer) (rest : List ℕ)
        → can_encode name values ≡ true
        → drop (get_rpos b) (val b) ≡ value_bytes name values ++ rest
        → (F.decode_proto b).1 ≡ some values

  module _ (codec : EncoderLaws) where
    open codec use {can_encode, value_bytes}

    -- A message that holds nothing but the room for its head, or the values behind it.
    abbrev pub Starts : NetMsg B → Type 0
    Starts m = Filled B laws m.buffer head_fill_up

    abbrev pub Holds : List F.Value → NetMsg B → Type 0
    Holds values m = Filled B laws m.buffer (head_fill_up ++ value_bytes db_result_proto values)

    abbrev pub with_values : List F.Value → NetMsg B → NetMsg B
    with_values values m = record m { buffer = write (value_bytes db_result_proto values) m.buffer }

    pub new_msg-Starts : Starts (new_msg B)
    unfolding new_msg
    new_msg-Starts =
        let start : Filled B laws new [] = record { bytes = laws.val_new; wpos = laws.wpos_new } in
        write-Filled B laws head_fill_up start

    pub set_write_data-Starts : (m : NetMsg B) → Starts m → Starts (set_write_data B m)
    unfolding set_write_data
    set_write_data-Starts m f =
        let fits : 26 ≤ length (val m.buffer) = omega (arith, ap length f.bytes) in
        record {
          bytes = laws.val_set_wpos 26 m.buffer fits ∙ f.bytes;
          wpos = laws.wpos_set_wpos 26 m.buffer fits;
        }

    pub with_values-Holds :
        (values : List F.Value) (m : NetMsg B) → Starts m → Holds values (with_values values m)
    with_values-Holds values m f = write-Filled B laws (value_bytes db_result_proto values) f

    behind_head :
        (values : List F.Value) (m : NetMsg B)
        → Holds values m
        → drop 26 (val m.buffer) ≡ value_bytes db_result_proto values
    behind_head values m f =
        ap (drop 26) f.bytes ∙ drop-append head_fill_up (value_bytes db_result_proto values)

    -- Whatever the head is by then, the values are read from behind it.
    decoded :
        (values : List F.Value) (m : NetMsg B)
        → can_encode db_result_proto values ≡ true
        → drop 26 (val m.buffer) ≡ value_bytes db_result_proto values
        → (F.decode_proto (set_read_data B m).buffer).1 ≡ some values
    unfolding set_read_data
    decoded values m can e =
        codec.decode_proto_read db_result_proto values (set_rpos 26 m.buffer) [] can (
          ap₂ drop (laws.rpos_set_rpos 26 m.buffer) (laws.val_set_rpos 26 m.buffer)
          ∙ e
          ∙ sym (append-nil (value_bytes db_result_proto values)))

    ended :
        (values : List F.Value) (m : NetMsg B)
        → Holds values m
        → drop 26 (val (end_msg B m).buffer) ≡ value_bytes db_result_proto values
    ended values m f =
        let long : 26 ≤ length (val m.buffer) = omega (
          arith,
          ap length f.bytes,
          length-append head_fill_up (value_bytes db_result_proto values),
        ) in
        let e = end_msg-Ended B laws m (f.wpos ∙ ap length (sym f.bytes)) long in
        ap (drop 26) e.bytes ∙ drop-head B laws _ _ ∙ behind_head values m f

    -- What a script is given for the rows.
    abbrev pub handed : ℕ → List F.Value → List (LuaArg B F)
    handed cookie values = number (pos cookie) ∷ number (pos 0) ∷ table values ∷ []

    -- A script gets the values, whether it is called back with a cookie, through a message and the engine's
    -- list, or waits for them.
    pub record Handed {D : Type 0} (t : DbTrait D) (q : DbSelect B F D) (M : LuaMachine B F)
        (e : LuaEngine B F M) (sql_cmd : String) (cookie : ℕ) (db db' : D) (values : List F.Value)
        : Type 0 where
      pub message : NetMsg B
      pub applied :
          thread_db_select B F t q sql_cmd cookie db
          ≡ ok (record {
            db = db';
            applied = db_result cookie (pos 0) none (some message) ∷ [];
            logged = false;
          })
      pub called :
          execute_db_result B F M cookie (pos 0) none (some message) e
          ≡ exec B F M (bytes_of "msg_db_result") (handed cookie values) e
      pub waited :
          db_select_sync B F t q sql_cmd db
          ≡ ok (record { db = db'; pushed = number (pos 0) ∷ table values ∷ []; logged = false })

    pub select-Handed :
        {D : Type 0} (t : DbTrait D) (q : DbSelect B F D) (M : LuaMachine B F) (e : LuaEngine B F M)
        (sql_cmd : String) (cookie : ℕ) (db db' : D) (values : List F.Value) (m : NetMsg B)
        → cookie ≢ 0
        → can_encode db_result_proto values ≡ true
        → Holds values m
        → q.select sql_cmd (new_msg B) db ≡ ok (db', m, done (pos 0))
        → Handed t q M e sql_cmd cookie db db' values
    unfolding thread_db_select db_select_sync execute_db_result db_args
    select-Handed t q M e sql_cmd cookie db db' values m some_ can holds found = record {
      message = end_msg B m;
      applied =
          ap (λ o. o >>= selected B F t q cookie) found
          ∙ ap
              (λ b. ok (record {
                db = db';
                applied = if b then [] else db_result cookie (pos 0) none (some (end_msg B m)) ∷ [];
                logged = false;
              }))
              (ne_test cookie 0 some_);
      called =
          ap (λ o. exec B F M (bytes_of "msg_db_result") (decoded_result B F cookie (pos 0) o) e)
            (decoded values (end_msg B m) can (ended values m holds));
      waited =
          ap (λ o. o >>= selected_sync B F t q) found
          ∙ ap
              (λ o. ok (record {
                db = db';
                pushed = number (pos 0) ∷ rows_or_error B F t q db' o ∷ [];
                logged = false;
              }))
              (decoded values m can (behind_head values m holds));
    }
