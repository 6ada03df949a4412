-- ===== src/Db/Select/MysqlRows.antt =====
-- The rows of a `select` of src/db/db_mysql.rs reach the scripts.
use tunm.Prelude.{
  map, ℕ, ◌≡◌, refl, ◌≢◌, ap, inr, true, String, Option, none, some, ◌∙◌, List, [], ◌∷◌, ok,
}
use tunm.Prelude.Int.{pos}
use tunm.Net.Buffer.{ProtoBuffer, BufferLaws}
use tunm.Net.Msg.{new_msg, set_write_data}
use tunm.Lua.Engine.{Text, Foreign, LuaMachine, LuaEngine}
use tunm.Db.Trait.{done, failed}
use tunm.Db.Mysql.{DbMysql, Driver, mysql, check_connect, id_or_zero}
use tunm.Db.Select.Cells.{
  RowsGiven, AreMysqlRows, maps_of, maps_of-AreMysqlRows, read_mysql_rows_lem,
}
use tunm.Db.Select.{DbValue, Encoder, db_result_proto, after_encoding}
use tunm.Db.Select.Mysql.{
  RowSet, Queries, note, read_mysql_rows, read_sets, mysql_select, mysql_queries,
}
use tunm.Db.Select.Message.{
  EncoderLaws, with_values, with_values-Holds, new_msg-Starts, set_write_data-Starts, Handed,
  select-Handed,
}

module _ (B : ProtoBuffer) (laws : BufferLaws B) (F : Foreign B) (E : Encoder B F)
    (codec : EncoderLaws B laws F E) {C : Type 0} (driver : Driver C)
    (queries : Queries C (E.Float)) where
  open codec use {can_encode}

  abbrev pub Db : Type 0
  Db = DbMysql C

  -- The last insert id, which is 0 where there is none.
  abbrev pub id_told : RowSet E.Float → ℕ
  id_told set = elim set.told.insert_id [ some id ↦ id | none ↦ 0 ]

  -- The connection as one result set is to leave it.
  abbrev pub after_set : RowSet E.Float → C → Db → Db
  after_set set conn db = record {
    conn = conn;
    last_insert_id = id_told set;
    affected_rows = set.told.rows;
    error = none;
    is_connect = db.is_connect;
    last_use_time = db.last_use_time;
  }

  id_told_lem : (told : Option ℕ) → id_or_zero told ≡ (elim told [ some id ↦ id | none ↦ 0 ])
  id_told_lem none = refl
  id_told_lem (some id) = refl

  abbrev pub given_values : List (List (Text × DbValue E.Float)) → List F.Value
  given_values givens = map E.row_value (maps_of givens)

  select_lem :
      (sql_cmd : String) (db db1 : Db) (c2 : C) (set : RowSet E.Float) (values : List F.Value)
      → check_connect driver db ≡ (db1, true)
      → queries.query_sets sql_cmd db1.conn ≡ (c2, inr (set ∷ []))
      → read_mysql_rows B F E driver queries set.rows ≡ ok values
      → can_encode db_result_proto values ≡ true
      → mysql_select B F E driver queries sql_cmd (new_msg B) db
        ≡ ok (
          after_set set c2 db1,
          with_values B laws F E codec values (set_write_data B (new_msg B)),
          done (pos 0),
        )
  unfolding mysql_select read_sets
  select_lem sql_cmd db db1 c2 set values connected queried read can =
      let noted : Db = note B F E driver queries set.told (record db1 { conn = c2 }) in
      rw (connected, queried, read)
        (ap
            (after_encoding B F E (λ m'. ok (record noted { error = none }, m', done (pos 0)))
              (λ m' text_. ok (noted, m', failed text_)) (set_write_data B (new_msg B)))
            (codec.encode_proto_write db_result_proto values (set_write_data B (new_msg B)).buffer
              can)
          ∙ ap
              (λ id. ok (
                record (after_set set c2 db1) { last_insert_id = id },
                with_values B laws F E codec values (set_write_data B (new_msg B)),
                done (pos 0),
              ))
              (id_told_lem set.told.insert_id))

  -- A statement for which MySQL, connected or connected again, gives one result set, without an error for a
  -- row and with dates that the calendar has, whose rows tunm_proto can encode, gives the scripts its rows,
  -- whether the script is called back with a cookie other than 0, through the message and the engine's list,
  -- or waits for them. A row has under a name the last value that is given under it, and no other names: null
  -- values and times are left out, byte strings that are texts are given as texts, and dates as the seconds
  -- of the day 1970 years later. The connection keeps the last insert id, or 0, and the number of affected
  -- rows that the result set tells, and no error.
  pub mysql_select-Handed :
      (M : LuaMachine B F) (e : LuaEngine B F M) (sql_cmd : String) (cookie : ℕ) (db db1 : Db)
      (c2 : C) (set : RowSet E.Float) (givens : List (List (Text × DbValue E.Float)))
      → cookie ≢ 0
      → check_connect driver db ≡ (db1, true)
      → queries.query_sets sql_cmd db1.conn ≡ (c2, inr (set ∷ []))
      → RowsGiven queries.timestamp set.rows givens
      → can_encode db_result_proto (given_values givens) ≡ true
      → AreMysqlRows givens (maps_of givens)
        × Handed B laws F E codec
            (mysql driver)
            (mysql_queries B F E driver queries)
            M
            e
            sql_cmd
            cookie
            db
            (after_set set c2 db1)
            (given_values givens)
  mysql_select-Handed M e sql_cmd cookie db db1 c2 set givens some_ connected queried given can = (
    maps_of-AreMysqlRows givens,
    select-Handed B laws F E codec (mysql driver) (mysql_queries B F E driver queries) M e sql_cmd
        cookie db (after_set set c2 db1) (given_values givens) _ some_ can
        (with_values-Holds B laws F E codec (given_values givens) (set_write_data B (new_msg B))
          (set_write_data-Starts B laws F E codec (new_msg B) (new_msg-Starts B laws F E codec)))
        (select_lem sql_cmd db db1 c2 set (given_values givens) connected queried
          (read_mysql_rows_lem B F E driver queries set.rows givens given) can),
  )
