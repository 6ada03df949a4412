-- ===== src/Db/Pool.antt =====
-- `DbPool` of src/db/db_pool.rs: the connections that are not in use, by the name of their database.
-- The lock makes each operation one step. How a connection is opened is a parameter; `Opts::from_url`
-- may reject the url, which is an `unwrap` of nothing.
use tunm.Prelude.{
  ℕ, String, Option, none, some, List, [], ◌∷◌, ◌++◌, ltb, ◌==◌, if◌then◌else◌, pop, last?, Outcome,
  ok, panic, ◌>>=◌, checked_sub,
}
use tunm.Prelude.Maps as Maps
use tunm.Prelude.Maps.{HashMap, string_eq}
use tunm.Db.Sqlite.{DbSqlite, new_sqlite}
use tunm.Db.Mysql.{DbMysql, new_mysql}

abbrev pub max_keep_conn : ℕ
max_keep_conn = 3600

abbrev pub Idle : Type 0 → Type 0
Idle D = HashMap String (List D)

-- The list of a name, an empty one if there is none.
unfoldable pub idle_of : {D : Type 0} → String → Idle D → List D
idle_of db_name idle = elim (Maps.get db_name idle) [ none ↦ [] | some list ↦ list ]

-- The last of the list is taken.
unfoldable pub take_idle : {D : Type 0} → String → Idle D → Idle D × Option D
unfolding idle_of
take_idle db_name idle =
    let list = idle_of db_name idle in (Maps.insert db_name (pop list) idle, last? list)

unfoldable pub push_idle : {D : Type 0} → String → D → Idle D → Idle D
unfolding idle_of
push_idle db_name db idle = Maps.insert db_name (idle_of db_name idle ++ db ∷ []) idle

-- `list.push(v)` for those used less than `MAX_KEEP_CONN` ago.
unfoldable pub keep_used : {C : Type 0} → ℕ → List (DbMysql C) → Outcome (List (DbMysql C))
keep_used cur_time [] = ok []
keep_used cur_time (v ∷ list) = do
  age ← checked_sub cur_time v.last_use_time
  rest ← keep_used cur_time list
  ok (if ltb age max_keep_conn then v ∷ rest else rest)

unfoldable pub keep_all : {C : Type 0} → ℕ → Idle (DbMysql C) → Outcome (Idle (DbMysql C))
keep_all cur_time [] = ok []
keep_all cur_time ((name, list) ∷ rest) = do
  list' ← keep_used cur_time list
  rest' ← keep_all cur_time rest
  ok ((name, list') ∷ rest')

pub record DbPool (M S : Type 0) : Type 0 where
  pub db_mysql : Idle (DbMysql M)
  pub db_sqlite : Idle (DbSqlite S)
  pub db_info : HashMap String String

pub data DbStruct (M S : Type 0) : Type 0 where
  my_sql : DbMysql M → DbStruct M S
  sqlite_db : DbSqlite S → DbStruct M S

abbrev pub new_pool : {M S : Type 0} → DbPool M S
new_pool = record { db_mysql = []; db_sqlite = []; db_info = [] }

unfoldable pub set_db_info : {M S : Type 0} → HashMap String String → DbPool M S → DbPool M S
set_db_info db_info pool = record pool { db_info = db_info }

unfoldable pub check_connect_timeout : {M S : Type 0} → ℕ → DbPool M S → Outcome (DbPool M S)
check_connect_timeout cur_time pool = do
  kept ← keep_all cur_time pool.db_mysql
  ok (record pool { db_mysql = kept })

-- The url of a database, or that of its kind.
unfoldable pub info_of : String → String → HashMap String String → Option String
info_of db_name kind info = elim (Maps.get db_name info) [
  | some url ↦ some url
  | none ↦ Maps.get kind info
]

-- `release_db_trait`: a connection that is lost is dropped.
unfoldable pub release_mysql : {M S : Type 0} → ℕ → String → DbMysql M → DbPool M S → DbPool M S
unfolding push_idle
release_mysql now db_name db pool =
    let used = record db { last_use_time = now } in
    if db.is_connect then record pool { db_mysql = push_idle db_name used pool.db_mysql } else pool

unfoldable pub release_sqlite : {M S : Type 0} → ℕ → String → DbSqlite S → DbPool M S → DbPool M S
unfolding push_idle
release_sqlite now db_name db pool =
    let used = record db { last_use_time = now } in
    if db.is_connect
    then record pool { db_sqlite = push_idle db_name used pool.db_sqlite }
    else pool

unfoldable pub release_db_trait :
    {M S : Type 0} → ℕ → String → DbStruct M S → DbPool M S → DbPool M S
unfolding release_mysql release_sqlite
release_db_trait now db_name (my_sql db) pool = release_mysql now db_name db pool
release_db_trait now db_name (sqlite_db db) pool = release_sqlite now db_name db pool

module _ {M S : Type 0} (from_url : String → Option String) (connect : String → String → Option M)
    (open_file : String → Option S) (now : ℕ) where
  -- `init_db_trait`.
  unfoldable pub init_mysql : String → DbPool M S → Outcome (Option (DbMysql M))
  unfolding info_of
  init_mysql db_name pool = elim (info_of db_name "mysql" pool.db_info) [
    | none ↦ ok none
    | some url ↦ elim (from_url url) [
      | none ↦ panic
      | some opts ↦ elim (connect opts db_name) [
        | none ↦ ok none
        | some conn ↦ ok (some (new_mysql conn now))
      ]
    ]
  ]

  unfoldable pub init_sqlite : String → DbPool M S → Option (DbSqlite S)
  unfolding info_of
  init_sqlite db_name pool = elim (info_of db_name "sqlite" pool.db_info) [
    | none ↦ none
    | some path ↦ elim (open_file path) [ none ↦ none | some conn ↦ some (new_sqlite conn now) ]
  ]

  -- `get_db_trait`: an idle connection, or a new one.
  unfoldable pub get_mysql : String → DbPool M S → Outcome (DbPool M S × Option (DbMysql M))
  unfolding init_mysql
  get_mysql db_name pool =
      let (idle, db) = take_idle db_name pool.db_mysql in
      let pool' : DbPool M S = record pool { db_mysql = idle } in
      elim db [
        | some db ↦ ok (pool', some db)
        | none ↦ init_mysql db_name pool' >>= λ db. ok (pool', db)
      ]

  unfoldable pub get_sqlite : String → DbPool M S → DbPool M S × Option (DbSqlite S)
  unfolding init_sqlite
  get_sqlite db_name pool =
      let (idle, db) = take_idle db_name pool.db_sqlite in
      let pool' : DbPool M S = record pool { db_sqlite = idle } in
      elim db [ some db ↦ (pool', some db) | none ↦ (pool', init_sqlite db_name pool') ]

  abbrev wrap_mysql : Option (DbMysql M) → Option (DbStruct M S)
  wrap_mysql none = none
  wrap_mysql (some db) = some (my_sql db)

  abbrev wrap_sqlite : Option (DbSqlite S) → Option (DbStruct M S)
  wrap_sqlite none = none
  wrap_sqlite (some db) = some (sqlite_db db)

  -- `DbPool::get_db_trait`, by the number of the kind.
  unfoldable pub get_db_trait :
      ℕ → String → DbPool M S → Outcome (DbPool M S × Option (DbStruct M S))
  unfolding get_mysql get_sqlite
  get_db_trait db_type db_name pool =
      let (after, file) = get_sqlite db_name pool in
      if db_type == 1
      then (get_mysql db_name pool >>= λ (p, db). ok (p, wrap_mysql db))
      else if db_type == 0
      then ok (after, wrap_sqlite file)
      else ok (pool, none)
