-- ===== src/Db/Select/Pool.antt =====
-- `select`, `insert` and `get_last_insert_id` of `DbStruct`, src/db/db_pool.rs, which hand on to the
-- connection of either kind.
use tunm.Prelude.{ℕ, String, Outcome, ok, ◌>>=◌}
use tunm.Net.Buffer.{ProtoBuffer}
use tunm.Net.Msg.{NetMsg}
use tunm.Lua.Engine.{Foreign}
use tunm.Db.Trait.{NetResult}
use tunm.Db.Sqlite.{DbSqlite}
use tunm.Db.Mysql.{DbMysql}
use tunm.Db.Pool.{DbStruct, my_sql, sqlite_db}
use tunm.Db.Select.{DbSelect, Selected}

module _ (B : ProtoBuffer) (F : Foreign B) where
  abbrev pub wrapped :
      {D D' : Type 0} → (D → D') → D × NetMsg B × NetResult → Outcome (D' × NetMsg B × NetResult)
  wrapped wrap (db, m, r) = ok (wrap db, m, r)

  module _ {M S : Type 0} (my : DbSelect B F (DbMysql M)) (file : DbSelect B F (DbSqlite S)) where
    unfoldable pub struct_select : String → NetMsg B → DbStruct M S → Selected B F (DbStruct M S)
    struct_select sql_cmd m (my_sql db) = my.select sql_cmd m db >>= wrapped my_sql
    struct_select sql_cmd m (sqlite_db db) = file.select sql_cmd m db >>= wrapped sqlite_db

    unfoldable pub struct_insert : String → NetMsg B → DbStruct M S → Selected B F (DbStruct M S)
    struct_insert sql_cmd m (my_sql db) = my.insert sql_cmd m db >>= wrapped my_sql
    struct_insert sql_cmd m (sqlite_db db) = file.insert sql_cmd m db >>= wrapped sqlite_db

    unfoldable pub struct_last_insert_id : DbStruct M S → ℕ
    struct_last_insert_id (my_sql db) = my.get_last_insert_id db
    struct_last_insert_id (sqlite_db db) = file.get_last_insert_id db

    abbrev pub struct_queries : DbSelect B F (DbStruct M S)
    struct_queries = record {
      select = struct_select;
      insert = struct_insert;
      get_last_insert_id = struct_last_insert_id;
    }
