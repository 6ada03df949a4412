-- ===== src/Db/Redis/Commands.antt =====
-- The redis commands of src/lua_custom/lua_db.rs on the pool of src/db/redis_pool.rs. What they hand to
-- the Lua engine comes back as cookies with results.
use tunm.Prelude.{
  ℕ, ◌-◌, ◌==◌, leb, ◌&&◌, ◌||◌, Bool, Option, none, some, List, [], ◌∷◌, bytes_of, bytes_eq,
  if◌then◌else◌,
}
use tunm.Db.Redis.{
  Client, RedisPool, get_redis_connection, release_redis_connection, get_sub_connection,
  start_recv_sub_msg,
}

-- `to_uppercase` of an ASCII letter.
abbrev pub upper : ℕ → ℕ
upper c = if leb 97 c && leb c 122 then c - 32 else c

-- `to_uppercase`, as far as a comparison with the names of the subscriptions can tell: besides the ASCII
-- letters only the small letters ı (196, 177) and ſ (197, 191) have one ASCII letter as their capital, and
-- the ligatures, which have several, have none that stand together in a name.
abbrev pub to_uppercase : List ℕ → List ℕ
to_uppercase [] = []
to_uppercase (a ∷ []) = upper a ∷ []
to_uppercase (a ∷ b ∷ rest) =
    let after_one = to_uppercase (b ∷ rest) in
    let after_two = to_uppercase rest in
    if a == 196 && b == 177
    then 73 ∷ after_two
    else if a == 197 && b == 191
    then 83 ∷ after_two
    else upper a ∷ after_one

-- What a subscription asks of its connection.
pub data Subs : Type 0 where
  subscribes psubscribes unsubscribes punsubscribes : Subs

unfoldable pub subs_of : List ℕ → Option Subs
subs_of op =
    let name = to_uppercase op in
    if bytes_eq name (bytes_of "SUBSCRIBE")
    then some subscribes
    else if bytes_eq name (bytes_of "PSUBSCRIBE")
    then some psubscribes
    else if bytes_eq name (bytes_of "UNSUBSCRIBE")
    then some unsubscribes
    else if bytes_eq name (bytes_of "PUNSUBSCRIBE")
    then some punsubscribes
    else none

module _ (K : Client) where
  open K use {
    Cluster, PubSub, Cmd, RedisResult, query_cluster, is_ok, okay, no_connection_error,
    make_extension_error,
  }

  -- `if cookie != 0 { apply_redis_result(...) }`.
  abbrev pub answer : ℕ → RedisResult → List (ℕ × RedisResult)
  answer cookie r = if cookie == 0 then [] else (cookie, r) ∷ []

  abbrev pub Answered : Type 0
  Answered = RedisPool K × List (ℕ × RedisResult)

  -- A connection that gave an error is not used again.
  abbrev pub queried : ℕ → RedisPool K → Cluster × RedisResult → Answered
  queried cookie p (cluster, value) =
      ((if is_ok value then release_redis_connection K cluster p else p), answer cookie value)

  abbrev pub run_on : ℕ → Cmd → RedisPool K × Option Cluster → Answered
  run_on cookie cmd (p, none) = (p, answer cookie no_connection_error)
  run_on cookie cmd (p, some cluster) = queried cookie p (query_cluster cmd cluster)

  unfoldable pub thread_redis_run_command : ℕ → Cmd → RedisPool K → Answered
  thread_redis_run_command cookie cmd p = run_on cookie cmd (get_redis_connection K p)

  abbrev pub run_sync_on : Cmd → RedisPool K × Option Cluster → RedisPool K × RedisResult
  run_sync_on cmd (p, none) = (p, no_connection_error)
  run_sync_on cmd (p, some cluster) =
      let (cluster', value) = query_cluster cmd cluster in
      (release_redis_connection K cluster' p, value)

  -- `redis_run_command_sync`, with what it pushes.
  unfoldable pub redis_run_command_sync : Cmd → RedisPool K → RedisPool K × RedisResult
  redis_run_command_sync cmd p = run_sync_on cmd (get_redis_connection K p)

  -- What is handed on: an error as it is, and any other result as done.
  abbrev pub subs_result : RedisResult → RedisResult
  subs_result r = if is_ok r then okay else r

  abbrev pub subscribed :
      (Subs → List (List ℕ) → PubSub → PubSub × RedisResult)
      → List ℕ
      → List (List ℕ)
      → PubSub
      → PubSub × RedisResult
  subscribed ask op channels connect = elim (subs_of op) [
    | none ↦ (connect, make_extension_error (bytes_of "unknown sub command"))
    | some kind ↦ ask kind channels connect
  ]

  -- The thread starts where the operation is written in capitals.
  abbrev pub started_for : List ℕ → RedisPool K → RedisPool K
  started_for op p =
      if bytes_eq op (bytes_of "SUBSCRIBE") || bytes_eq op (bytes_of "PSUBSCRIBE")
      then start_recv_sub_msg K p
      else p

  abbrev pub subs_on :
      (Subs → List (List ℕ) → PubSub → PubSub × RedisResult)
      → ℕ
      → List ℕ
      → List (List ℕ)
      → RedisPool K
      → Option PubSub
      → Answered
  subs_on ask cookie op channels p none = (p, answer cookie no_connection_error)
  subs_on ask cookie op channels p (some connect) =
      let (connect', r) = subscribed ask op channels connect in
      (started_for op (record p { sub_connect = some connect' }), answer cookie (subs_result r))

  -- `thread_redis_subs_command`, with what `get_pubsub` and `is_work` give and what the server answers.
  unfoldable pub thread_redis_subs_command :
      (Subs → List (List ℕ) → PubSub → PubSub × RedisResult)
      → Option PubSub
      → Bool
      → ℕ
      → List ℕ
      → List (List ℕ)
      → RedisPool K
      → Answered
  thread_redis_subs_command ask given is_work cookie op channels p =
      let p' = get_sub_connection K given is_work p in
      subs_on ask cookie op channels p' p'.sub_connect
