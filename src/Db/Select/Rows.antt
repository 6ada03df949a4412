-- ===== src/Db/Select/Rows.antt =====
-- The rows of a `select` of src/db/db_sqlite.rs reach the scripts.
use tunm.Prelude.{
  ℕ, ◌≡◌, refl, map, ◌≢◌, ap, ◌∙◌, ◌⊎◌, inl, inr, true, String, none, some, List, [], ◌∷◌, ◌++◌, ok,
}
use tunm.Prelude.Int.{pos}
use tunm.Net.Buffer.{ProtoBuffer, BufferLaws}
use tunm.Net.Msg.{new_msg}
use tunm.Lua.Engine.{Text, Foreign, LuaMachine, LuaEngine}
use tunm.Db.Trait.{done, failed, DbTrait}
use tunm.Db.Sqlite.{DbSqlite, sqlite}
use tunm.Prelude.Maps.{HashMap}
use tunm.Db.Select.{
  DbValue, row_list, Encoder, encode_rows, db_result_proto, Selected, after_encoding,
}
use tunm.Db.Select.Sqlite.{
  ValueRef, Rows, Library, fill_row, read_rows, sqlite_select, sqlite_queries, prepared,
  queried_rows,
}
use tunm.Db.Select.Columns.{AreRows, row_maps, row_maps-AreRows}
use tunm.Db.Select.Message.{
  EncoderLaws, with_values, with_values-Holds, new_msg-Starts, Handed, select-Handed,
}

-- Rows without an error.
abbrev pub goods : {R : Type 0} → List (ℕ → ValueRef R) → Rows R
goods [] = []
goods (row ∷ rows) = some row ∷ goods rows

-- The end of the rows: no more, or an error.
abbrev pub EndsHere : {R : Type 0} → Rows R → Type 0
EndsHere {R} more = (more ≡ []) ⊎ ((later : Rows R) × (more ≡ none ∷ later))

read_rows-goods :
    {R : Type 0} (names : List Text) (rows : List (ℕ → ValueRef R)) (more : Rows R)
    → EndsHere more
    → read_rows names (goods rows ++ more) ≡ row_maps names rows
unfolding read_rows
read_rows-goods names [] more (inl e) = ap (read_rows names) e
read_rows-goods names [] more (inr (later, e)) = ap (read_rows names) e
read_rows-goods names (row ∷ rows) more h =
    ap (λ l. fill_row names 0 row [] ∷ l) (read_rows-goods names rows more h)

module _ (B : ProtoBuffer) (laws : BufferLaws B) (F : Foreign B) (E : Encoder B F)
    (codec : EncoderLaws B laws F E) {C : Type 0} (library : Library C (E.Float)) where
  open codec use {can_encode}

  abbrev pub row_values : List Text → List (ℕ → ValueRef E.Float) → List F.Value
  row_values names rows = map E.row_value (row_maps names rows)

  row_list-map :
      (maps : List (HashMap Text (DbValue E.Float))) → row_list B F E maps ≡ map E.row_value maps
  row_list-map [] = refl
  row_list-map (row ∷ maps) = ap (λ l. E.row_value row ∷ l) (row_list-map maps)

  abbrev pub Db : Type 0
  Db = DbSqlite C

  select_lem :
      (sql_cmd : String) (db : Db) (c1 c2 : C) (names : List Text)
      (rows : List (ℕ → ValueRef E.Float)) (more : Rows E.Float)
      → library.prepare sql_cmd db.conn ≡ (c1, inr names)
      → library.query sql_cmd c1 ≡ (c2, inr (goods rows ++ more))
      → EndsHere more
      → can_encode db_result_proto (row_values names rows) ≡ true
      → sqlite_select B F E library sql_cmd (new_msg B) db
        ≡ ok (
          record db { conn = c2; error = none },
          with_values B laws F E codec (row_values names rows) (new_msg B),
          done (pos 0),
        )
  unfolding sqlite_select
  select_lem sql_cmd db c1 c2 names rows more prep queried ends can =
      let db' : Db = record db { conn = c2; error = none } in
      let then_ : List F.Value → Selected B F Db = λ vs.
        encode_rows B F E vs (λ m'. ok (db', m', done (pos 0)))
          (λ m' text_. ok (db', m', failed text_)) (new_msg B) in
      ap (prepared B F E library sql_cmd (new_msg B) db) prep
      ∙ ap (queried_rows B F E library names (new_msg B) (record db { conn = c1 })) queried
      ∙ ap (λ maps. then_ (row_list B F E maps)) (read_rows-goods names rows more ends)
      ∙ ap then_ (row_list-map (row_maps names rows))
      ∙ ap
          (after_encoding B F E (λ m'. ok (db', m', done (pos 0)))
            (λ m' text_. ok (db', m', failed text_)) (new_msg B))
          (codec.encode_proto_write db_result_proto (row_values names rows) (new_msg B).buffer can)

  abbrev pub trait : DbTrait Db
  trait = sqlite library.exec

  -- A statement that SQLite prepares and queries, and whose rows tunm_proto can encode, gives the scripts
  -- its rows, whether the script is called back with a cookie other than 0, through the message and the
  -- engine's list, or waits for them; a row has under the name of each column what stands in the last
  -- column of that name, and no other names. An error in the middle of the rows is no other than their
  -- end.
  pub thread_db_select-execute_db_result :
      (M : LuaMachine B F) (e : LuaEngine B F M) (sql_cmd : String) (cookie : ℕ) (db : Db)
      (c1 c2 : C) (names : List Text) (rows : List (ℕ → ValueRef E.Float)) (more : Rows E.Float)
      → cookie ≢ 0
      → library.prepare sql_cmd db.conn ≡ (c1, inr names)
      → library.query sql_cmd c1 ≡ (c2, inr (goods rows ++ more))
      → EndsHere more
      → can_encode db_result_proto (row_values names rows) ≡ true
      → AreRows names rows (row_maps names rows)
        × Handed B laws F E codec trait
            (sqlite_queries B F E library)
            M
            e
            sql_cmd
            cookie
            db
            (record db { conn = c2; error = none })
            (row_values names rows)
  thread_db_select-execute_db_result M e sql_cmd cookie db c1 c2 names rows more some_ prep queried
        ends can =
      (
        row_maps-AreRows names rows,
        select-Handed B laws F E codec trait (sqlite_queries B F E library) M e sql_cmd cookie db
            (record db { conn = c2; error = none }) (row_values names rows) _ some_ can
            (with_values-Holds B laws F E codec (row_values names rows) (new_msg B)
              (new_msg-Starts B laws F E codec))
            (select_lem sql_cmd db c1 c2 names rows more prep queried ends can),
      )
