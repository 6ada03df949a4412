-- ===== src/Db/PoolLaws.antt =====
-- What the pool of src/db/db_pool.rs promises.
use tunm.Prelude.{
  ℕ, ◌+◌, ◌-◌, ◌≤◌, ◌≡◌, ◌≢◌, refl, ap, true, false, ltb, if◌then◌else◌, arith, All, Bool-cases,
  inl, inr, Option, some, String, List, [], ◌∷◌, ◌++◌, pop-push, last?-push, ok,
}
use tunm.Prelude.Maps as Maps
use tunm.Prelude.Maps.{HashMap, string_eq, get-insert_self, get-insert_ne}
use tunm.Db.Mysql.{DbMysql}
use tunm.Db.Pool.{
  Idle, idle_of, take_idle, push_idle, DbPool, release_mysql, get_mysql, keep_used, keep_all,
  check_connect_timeout,
}

module _ {D : Type 0} where
  idle_of-insert :
      (name : String) (list : List D) (idle : Idle D)
      → idle_of name (Maps.insert name list idle) ≡ list
  unfolding idle_of
  idle_of-insert name list idle = rw (get-insert_self, idle_of) refl

  idle_of-insert_ne :
      (name other : String) (list : List D) (idle : Idle D)
      → name ≢ other
      → idle_of other (Maps.insert name list idle) ≡ idle_of other idle
  unfolding idle_of
  idle_of-insert_ne name other list idle h = rw (get-insert_ne name other list idle h, idle_of) refl

  take_idle-push_idle :
      (name : String) (db : D) (idle : Idle D)
      → take_idle name (push_idle name db idle)
        ≡ (Maps.insert name (idle_of name idle) (push_idle name db idle), some db)
  unfolding take_idle push_idle
  take_idle-push_idle name db idle =
      let list = idle_of name idle in
      rw (idle_of-insert name (list ++ db ∷ []) idle, pop-push list db, last?-push list db) refl

release_mysql_connected :
    {M S : Type 0} (now : ℕ) (name : String) (db : DbMysql M) (pool : DbPool M S)
    → db.is_connect ≡ true
    → release_mysql now name db pool
      ≡ record pool { db_mysql = push_idle name (record db { last_use_time = now }) pool.db_mysql }
unfolding release_mysql
release_mysql_connected now name db pool h = rw h refl

get_mysql_taken :
    {M S : Type 0} (from_url : String → Option String) (connect : String → String → Option M)
    (open_file : String → Option S) (now : ℕ) (name : String) (pool : DbPool M S)
    {idle : Idle (DbMysql M)} {db : DbMysql M}
    → take_idle name pool.db_mysql ≡ (idle, some db)
    → get_mysql from_url connect open_file now name pool
      ≡ ok (record pool { db_mysql = idle }, some db)
unfolding get_mysql
get_mysql_taken from_url connect open_file now name pool {db = db} e =
    let with_idle = λ (i : Idle (DbMysql _)). ok (record pool { db_mysql = i }, some db) in
    rw (e, get_mysql) (ap with_idle (ap (λ (p : Idle (DbMysql _) × Option (DbMysql _)). p.0) e))

-- A connection that is given back while it is connected is the one handed out next for its database,
-- with the time of its return; the idle connections of that database are then as before, and those of
-- any other database are untouched.
pub get-release_mysql :
    {M S : Type 0} (from_url : String → Option String) (connect : String → String → Option M)
    (open_file : String → Option S) (now later : ℕ) (name other : String) (db : DbMysql M)
    (pool : DbPool M S)
    → db.is_connect ≡ true
    → name ≢ other
    → (after : DbPool M S) × (get_mysql from_url connect open_file later name
          (release_mysql now name db pool)
        ≡ ok (after, some (record db { last_use_time = now })))
      × (idle_of name after.db_mysql ≡ idle_of name pool.db_mysql)
      × (idle_of other after.db_mysql ≡ idle_of other pool.db_mysql)
unfolding push_idle
get-release_mysql from_url connect open_file now later name other db pool h ne =
    let used = record db { last_use_time = now } in
    let idle = pool.db_mysql in
    let list = idle_of name idle in
    let pushed = push_idle name used idle in
    let after : DbPool _ _ = record pool { db_mysql = Maps.insert name list pushed } in
    (
      after,
      rw (release_mysql_connected now name db pool h) (
          get_mysql_taken from_url connect open_file later name (record pool { db_mysql = pushed })
            (take_idle-push_idle name used idle)),
      idle_of-insert name list pushed,
      rw (idle_of-insert_ne name other list pushed ne)
          (idle_of-insert_ne name other (list ++ used ∷ []) idle ne),
    )

-- The connections used within the last 3600 milliseconds.
abbrev pub recent : {C : Type 0} → ℕ → List (DbMysql C) → List (DbMysql C)
recent now [] = []
recent now (v ∷ list) =
    if ltb now (v.last_use_time + 3600) then v ∷ recent now list else recent now list

-- None of the connections was used after the time given.
abbrev pub AllBefore : {C : Type 0} → ℕ → List (DbMysql C) → Type 0
AllBefore now = All (λ v. v.last_use_time ≤ now)

keep_used-recent :
    {C : Type 0} (now : ℕ) (list : List (DbMysql C))
    → AllBefore now list
    → keep_used now list ≡ ok (recent now list)
unfolding keep_used
keep_used-recent now [] h = refl
keep_used-recent now (v ∷ list) h =
    let not_later : ltb now v.last_use_time ≡ false = ground (arith, h.0) in
    let same : ltb (now - v.last_use_time) 3600 ≡ ltb now (v.last_use_time + 3600) =
      ground (arith, h.0) in
    rw (not_later, keep_used-recent now list h.1, same) refl

idle_of-nothing :
    {C : Type 0} (now : ℕ) (name : String)
    → idle_of {D = DbMysql C} name [] ≡ recent now (idle_of name [])
unfolding idle_of Maps.get
idle_of-nothing now name = refl

module _ {D : Type 0} (n name : String) (list : List D) (idle : Idle D) where
  idle_of-same : string_eq.beq n name ≡ true → idle_of name ((n, list) ∷ idle) ≡ list
  unfolding idle_of Maps.get
  idle_of-same e = rw (e, idle_of) refl

  idle_of-other : string_eq.beq n name ≡ false → idle_of name ((n, list) ∷ idle) ≡ idle_of name idle
  unfolding idle_of Maps.get
  idle_of-other e = rw (e, idle_of) refl

record IsSwept {C : Type 0} (now : ℕ) (idle kept : Idle (DbMysql C)) : Type 0 where
  returned : keep_all now idle ≡ ok kept
  swept : (name : String) → idle_of name kept ≡ recent now (idle_of name idle)

sweep-IsSwept :
    {C : Type 0} (now : ℕ) (idle : Idle (DbMysql C))
    → All (λ e. AllBefore now e.1) idle
    → (kept : Idle (DbMysql C)) × IsSwept now idle kept
unfolding keep_all
sweep-IsSwept now [] h = ([], record { returned = refl; swept = λ name. idle_of-nothing now name })
sweep-IsSwept now ((n, list) ∷ idle) h =
    let (kept, s) = sweep-IsSwept now idle h.1 in
    (
      (n, recent now list) ∷ kept,
      record {
        returned = rw (keep_used-recent now list h.0, s.returned, keep_all) refl;
        swept = λ name. elim (Bool-cases (string_eq.beq n name)) [
          | inl same ↦
              rw
                (
                  idle_of-same n name list idle same,
                  idle_of-same n name (recent now list) kept same,
                )
                refl
          | inr other ↦
              rw
                (
                  idle_of-other n name list idle other,
                  idle_of-other n name (recent now list) kept other,
                )
                (s.swept name)
        ];
      },
    )

-- When no connection was used after the time of the sweep: the sweep returns, and for every database the
-- idle MySQL connections are then those used within the last 3600 milliseconds, in the same order; the
-- SQLite connections are untouched.
pub check_connect_timeout-recent :
    {M S : Type 0} (now : ℕ) (pool : DbPool M S)
    → All (λ e. AllBefore now e.1) pool.db_mysql
    → (after : DbPool M S) × (check_connect_timeout now pool ≡ ok after)
      × ((name : String) → idle_of name after.db_mysql ≡ recent now (idle_of name pool.db_mysql))
      × (after.db_sqlite ≡ pool.db_sqlite)
unfolding check_connect_timeout
check_connect_timeout-recent now pool h =
    let (kept, s) = sweep-IsSwept now pool.db_mysql h in
    (record pool { db_mysql = kept }, rw (s.returned, check_connect_timeout) refl, s.swept, refl)
