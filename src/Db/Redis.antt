-- ===== src/Db/Redis.antt =====
-- `RedisPool` of src/db/redis_pool.rs: connections for commands, and one connection for subscriptions,
-- which a thread of its own reads. The clients `Cluster` and `PubSub` are packages: what they give is read
-- into arguments. A thread shares with the pool the flag that tells it to run, and a channel.
pub mod Reader
pub mod Threads
pub mod Commands
pub mod Scripts
pub mod Examples
use tunm.Prelude.{
  ℕ, ◌+◌, Bool, true, false, not, ◌||◌, Option, none, some, List, [], ◌∷◌, ◌++◌, last?, pop, foldl,
  if◌then◌else◌,
}
use tunm.Prelude.Int.{ℤ, pos, eq_ℤ}
use tunm.Prelude.Maps as Maps
use tunm.Prelude.Maps.{HashMap, nat_eq, is_some}

-- The clients, their messages, and the results of commands and subscriptions.
pub record Client : Type 1 where
  pub Cluster : Type 0
  pub PubSub : Type 0
  pub Msg : Type 0
  pub Cmd : Type 0
  pub RedisResult : Type 0
  pub new_cluster : Cluster
  pub add : List ℕ → Cluster → Cluster
  pub get_connection_fd : PubSub → ℤ
  pub query_cluster : Cmd → Cluster → Cluster × RedisResult
  pub is_ok : RedisResult → Bool
  pub okay : RedisResult
  pub no_connection_error : RedisResult
  pub make_extension_error : List ℕ → RedisResult

module _ (K : Client) where
  open K use {Cluster, PubSub, Msg, new_cluster, add, get_connection_fd}

  -- A thread that reads a subscription: it runs as long as its flag says so, and is alive until its loop
  -- ends.
  pub record Thread : Type 0 where
    pub connect : PubSub
    pub run : Bool
    pub alive : Bool

  -- `sub_thread_run` and `sub_receiver` name the thread at the other end; a channel holds what was not read
  -- yet. The threads that were started, and the descriptors closed by `drop_fd`, are kept besides.
  pub record RedisPool : Type 0 where
    pub db_redis : List Cluster
    pub url_list : List (List ℕ)
    pub sub_fd : ℤ
    pub sub_connect : Option PubSub
    pub sub_receiver : Option (ℕ × List Msg)
    pub sub_thread_run : Option ℕ
    pub threads : HashMap ℕ Thread
    pub started : ℕ
    pub dropped : List ℤ

  unfoldable pub new_redis_pool : RedisPool
  new_redis_pool = record {
    db_redis = [];
    url_list = [];
    sub_fd = pos 0;
    sub_connect = none;
    sub_receiver = none;
    sub_thread_run = none;
    threads = [];
    started = 0;
    dropped = [];
  }

  unfoldable pub init_connection : RedisPool → Cluster
  init_connection p = foldl (λ cluster url. add url cluster) new_cluster p.url_list

  unfoldable pub set_url_list : List (List ℕ) → RedisPool → RedisPool
  set_url_list url_list p = record p { url_list = url_list }

  abbrev pub taken_from : List Cluster → RedisPool → RedisPool × Option Cluster
  taken_from [] p = (p, some (init_connection p))
  taken_from (c ∷ cs) p = (record p { db_redis = pop (c ∷ cs) }, last? (c ∷ cs))

  -- A new connection, if none waits, else the one that was given back last.
  unfoldable pub get_redis_connection : RedisPool → RedisPool × Option Cluster
  get_redis_connection p = taken_from p.db_redis p

  unfoldable pub release_redis_connection : Cluster → RedisPool → RedisPool
  release_redis_connection cluster p = record p { db_redis = p.db_redis ++ cluster ∷ [] }

  abbrev pub runs : Option Thread → Bool
  runs none = false
  runs (some t) = t.run

  unfoldable pub is_sub_work : RedisPool → Bool
  is_sub_work p = elim p.sub_thread_run [ none ↦ false | some i ↦ runs (Maps.get i p.threads) ]

  -- The flag of a thread is cleared.
  abbrev pub halt_on : ℕ → Option Thread → HashMap ℕ Thread → HashMap ℕ Thread
  halt_on i none threads = threads
  halt_on i (some t) threads = Maps.insert i (record t { run = false }) threads

  abbrev pub halt : ℕ → HashMap ℕ Thread → HashMap ℕ Thread
  halt i threads = halt_on i (Maps.get i threads) threads

  abbrev pub stop_on : Option ℕ → RedisPool → RedisPool × Bool
  stop_on none p = (p, false)
  stop_on (some i) p = (
    record p {
      threads = halt i p.threads;
      sub_connect = none;
      sub_receiver = none;
      sub_thread_run = none;
    },
    true,
  )

  -- `stop_recv_sub_msg`: the thread is told to end, and what it reads from now on is lost.
  unfoldable pub stop_recv_sub_msg : RedisPool → RedisPool × Bool
  stop_recv_sub_msg p = stop_on p.sub_thread_run p

  -- The descriptor of the connection before is closed by its number.
  abbrev pub note_fd : ℤ → RedisPool → RedisPool
  note_fd new_fd p = if eq_ℤ new_fd (pos 0) then p else record p {
    dropped = if eq_ℤ p.sub_fd (pos 0) then p.dropped else p.dropped ++ p.sub_fd ∷ [];
    sub_fd = new_fd;
  }

  -- A connection that is not there or does not work is opened anew, if that succeeds.
  abbrev pub reconnect : Option PubSub → RedisPool → RedisPool
  reconnect none p = p
  reconnect (some pubsub) p =
      note_fd (get_connection_fd pubsub) (record p { sub_connect = some pubsub })

  -- `get_sub_connection`, with what `get_pubsub` gives and what `is_work` says of the connection before.
  unfoldable pub get_sub_connection : Option PubSub → Bool → RedisPool → RedisPool
  unfolding stop_recv_sub_msg
  get_sub_connection given is_work p =
      let stopped = (stop_recv_sub_msg p).0 in
      if not (is_some stopped.sub_connect) || not is_work then reconnect given stopped else stopped

  abbrev pub start_thread : PubSub → RedisPool → RedisPool
  start_thread connect p = record p {
    sub_connect = none;
    sub_receiver = some (p.started, []);
    sub_thread_run = some p.started;
    threads =
        Maps.insert p.started (record { connect = connect; run = true; alive = true }) p.threads;
    started = p.started + 1;
  }

  abbrev pub start_on : Option PubSub → RedisPool → RedisPool
  start_on none p = p
  start_on (some connect) p = start_thread connect p

  -- `start_recv_sub_msg`: the connection moves to a new thread, unless one runs.
  unfoldable pub start_recv_sub_msg : RedisPool → RedisPool
  unfolding is_sub_work
  start_recv_sub_msg p = if is_sub_work p then p else start_on p.sub_connect p

  unfoldable pub ensure_subconnectioin : Option PubSub → Bool → RedisPool → RedisPool
  unfolding is_sub_work stop_recv_sub_msg get_sub_connection start_recv_sub_msg
  ensure_subconnectioin given is_work p =
      if is_sub_work p
      then p
      else start_recv_sub_msg (get_sub_connection given is_work (stop_recv_sub_msg p).0)

  -- A message of a thread goes to its channel, if the pool still has the other end.
  abbrev pub delivered : ℕ → Msg → Option (ℕ × List Msg) → Option (ℕ × List Msg)
  delivered i msg none = none
  delivered i msg (some (j, waiting)) = elim (nat_eq.beq i j) [
    | true ↦ some (j, waiting ++ msg ∷ [])
    | false ↦ some (j, waiting)
  ]

  -- One turn of the loop of a thread: `get_message` fails, and the thread ends, or a message is sent, and
  -- the thread ends if its flag was cleared in the meantime.
  abbrev pub turn : ℕ → Thread → Option Msg → RedisPool → RedisPool
  turn i t none p = record p {
    threads = Maps.insert i (record t { run = false; alive = false }) p.threads;
  }
  turn i t (some msg) p = record p {
    sub_receiver = delivered i msg p.sub_receiver;
    threads = Maps.insert i (record t { alive = t.run }) p.threads;
  }

  abbrev pub receive_on : ℕ → Option Msg → RedisPool → Option Thread → RedisPool
  receive_on i result p none = p
  receive_on i result p (some t) = if t.alive then turn i t result p else p

  unfoldable pub receive : ℕ → Option Msg → RedisPool → RedisPool
  receive i result p = receive_on i result p (Maps.get i p.threads)

  -- `redis_subs_get_reply`: what waits in the channel.
  abbrev pub replies_of : Option (ℕ × List Msg) → RedisPool → RedisPool × Option (List Msg)
  replies_of none p = (p, none)
  replies_of (some (i, waiting)) p = (record p { sub_receiver = some (i, []) }, some waiting)

  unfoldable pub take_replies : RedisPool → RedisPool × Option (List Msg)
  take_replies p = replies_of p.sub_receiver p
