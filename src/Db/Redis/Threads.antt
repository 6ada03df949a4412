-- ===== src/Db/Redis/Threads.antt =====
-- Which threads read the subscriptions of src/db/redis_pool.rs, over any order of calls and of what the
-- threads do.
use tunm.Prelude.{
  bytes_eq, bytes_of, if◌then◌else◌, ℕ, ◌≡◌, refl, sym, ap, ◌∙◌, Bool, true, false, ◌||◌, inl, inr,
  Option, none, some, List, arith,
}
use mathlib.Core.Bool.{true≢false}
use tunm.Prelude.Maps as Maps
use tunm.Prelude.Maps.{nat_eq, get-insert, HashMap, is_some}
use tunm.Db.Redis.Commands.{Subs, thread_redis_subs_command, subs_on, started_for}
use tunm.Db.Redis.Reader.{
  HasOneReader, reader, new-HasOneReader, taken_from-HasOneReader, get-insert_cases,
  stop_on-HasOneReader, get_sub_connection-HasOneReader, get_sub_connection-none,
  start-HasOneReader, ensure-HasOneReader,
}
use tunm.Db.Redis.{
  Client, Thread, RedisPool, new_redis_pool, set_url_list, get_redis_connection,
  release_redis_connection, stop_recv_sub_msg, get_sub_connection, start_recv_sub_msg, receive,
  ensure_subconnectioin, take_replies, receive_on, replies_of, turn, delivered,
}

module _ (K : Client) where
  open K use {Cluster, PubSub, Msg, RedisResult}

  -- A call of the pool, or a turn of a thread, whatever the servers answer.
  pub data Step (p : RedisPool K) : RedisPool K → Type 0 where
    urls : (url_list : List (List ℕ)) → Step p (set_url_list K url_list p)
    taken : Step p (get_redis_connection K p).0
    released : (cluster : Cluster) → Step p (release_redis_connection K cluster p)
    stopped : Step p (stop_recv_sub_msg K p).0
    connected :
        (given : Option PubSub) (is_work : Bool) → Step p (get_sub_connection K given is_work p)
    begun : Step p (start_recv_sub_msg K p)
    ensured :
        (given : Option PubSub) (is_work : Bool) → Step p (ensure_subconnectioin K given is_work p)
    asked :
        (ask : Subs → List (List ℕ) → PubSub → PubSub × RedisResult) (given : Option PubSub)
        (is_work : Bool) (cookie : ℕ) (op : List ℕ) (channels : List (List ℕ))
        → Step p (thread_redis_subs_command K ask given is_work cookie op channels p).0
    received : (i : ℕ) (result : Option Msg) → Step p (receive K i result p)
    replied : Step p (take_replies K p).0

  pub data Reach : RedisPool K → Type 0 where
    new : Reach (new_redis_pool K)
    next : {p q : RedisPool K} → Reach p → Step p q → Reach q

  reader-delivered :
      (i : ℕ) (msg : Msg) (o : Option (ℕ × List Msg)) → reader K (delivered K i msg o) ≡ reader K o
  reader-delivered i msg none = refl
  reader-delivered i msg (some (j, waiting)) = ground arith

  -- A thread that is there takes a turn.
  turn-HasOneReader :
      (i : ℕ) (t : Thread K) (result : Option Msg) (p : RedisPool K)
      → Maps.get i p.threads ≡ some t
      → HasOneReader K p
      → HasOneReader K (turn K i t result p)
  turn-HasOneReader i t none p found h = record {
    channel = h.channel;
    moved = h.moved;
    only = λ j u after run. elim (get-insert_cases K i j _ u p.threads after) [
      | inl (_, e) ↦ absurd (true≢false (sym run ∙ sym (ap (λ x. x.run) e)))
      | inr (_, before) ↦ h.only j u before run
    ];
  }
  turn-HasOneReader i t (some msg) p found h = record {
    channel = reader-delivered i msg p.sub_receiver ∙ h.channel;
    moved = h.moved;
    only = λ j u after run. elim (get-insert_cases K i j _ u p.threads after) [
      | inl (same, e) ↦
          let ran : t.run ≡ true = ap (λ x. x.run) e ∙ run in
          ((h.only i t found ran).0 ∙ ap some same, sym (ap (λ x. x.alive) e) ∙ ran)
      | inr (_, before) ↦ h.only j u before run
    ];
  }

  if-HasOneReader :
      (b : Bool) (p q : RedisPool K)
      → HasOneReader K p
      → HasOneReader K q
      → HasOneReader K (if b then p else q)
  if-HasOneReader true p q hp hq = hp
  if-HasOneReader false p q hp hq = hq

  receive_on-HasOneReader :
      (i : ℕ) (result : Option Msg) (p : RedisPool K) (o : Option (Thread K))
      → Maps.get i p.threads ≡ o
      → HasOneReader K p
      → HasOneReader K (receive_on K i result p o)
  receive_on-HasOneReader i result p none found h = h
  receive_on-HasOneReader i result p (some t) found h =
      if-HasOneReader t.alive (turn K i t result p) p (turn-HasOneReader i t result p found h) h

  replies_of-HasOneReader :
      (o : Option (ℕ × List Msg)) (p : RedisPool K)
      → p.sub_receiver ≡ o
      → HasOneReader K p
      → HasOneReader K (replies_of K o p).0
  replies_of-HasOneReader none p e h = h
  replies_of-HasOneReader (some (i, waiting)) p e h = record {
    channel = ap (reader K) (sym e) ∙ h.channel;
    moved = h.moved;
    only = h.only;
  }

  started_for-HasOneReader :
      (op : List ℕ) (p : RedisPool K) → HasOneReader K p → HasOneReader K (started_for K op p)
  started_for-HasOneReader op p h =
      if-HasOneReader (bytes_eq op (bytes_of "SUBSCRIBE") || bytes_eq op (bytes_of "PSUBSCRIBE"))
        (start_recv_sub_msg K p) p (start-HasOneReader K p h) h

  subs_on-HasOneReader :
      (ask : Subs → List (List ℕ) → PubSub → PubSub × RedisResult) (cookie : ℕ) (op : List ℕ)
      (channels : List (List ℕ)) (p : RedisPool K) (o : Option PubSub)
      → p.sub_thread_run ≡ none
      → HasOneReader K p
      → HasOneReader K (subs_on K ask cookie op channels p o).0
  subs_on-HasOneReader ask cookie op channels p none e h = h
  subs_on-HasOneReader ask cookie op channels p (some connect) e h =
      started_for-HasOneReader op _
        (record { channel = h.channel; moved = λ i known. cc; only = h.only })

  Step-HasOneReader : {p q : RedisPool K} → Step p q → HasOneReader K p → HasOneReader K q
  unfolding set_url_list get_redis_connection release_redis_connection stop_recv_sub_msg receive
      take_replies thread_redis_subs_command get_sub_connection
  Step-HasOneReader {p} (urls url_list) h = record {
    channel = h.channel;
    moved = h.moved;
    only = h.only;
  }
  Step-HasOneReader {p} taken h = taken_from-HasOneReader K p.db_redis p h
  Step-HasOneReader {p} (released cluster) h = record {
    channel = h.channel;
    moved = h.moved;
    only = h.only;
  }
  Step-HasOneReader {p} stopped h = stop_on-HasOneReader K p.sub_thread_run p refl h
  Step-HasOneReader {p} (connected given is_work) h =
      get_sub_connection-HasOneReader K given is_work p h
  Step-HasOneReader {p} (asked ask given is_work cookie op channels) h =
      let q : RedisPool K = get_sub_connection K given is_work p in
      subs_on-HasOneReader ask cookie op channels q q.sub_connect
        (get_sub_connection-none K given is_work p)
        (get_sub_connection-HasOneReader K given is_work p h)
  Step-HasOneReader {p} begun h = start-HasOneReader K p h
  Step-HasOneReader {p} (ensured given is_work) h = ensure-HasOneReader K given is_work p h
  Step-HasOneReader {p} (received i result) h =
      receive_on-HasOneReader i result p (Maps.get i p.threads) refl h
  Step-HasOneReader {p} replied h = replies_of-HasOneReader p.sub_receiver p refl h

  -- Whatever order the calls of the pool and the turns of its threads come in, and whatever the servers
  -- answer, at most one thread is to run: the one that the pool knows, which is alive and whose channel the
  -- pool reads. While it knows one, the connection is not the pool's.
  pub Reach-HasOneReader : {p : RedisPool K} → Reach p → HasOneReader K p
  Reach-HasOneReader new = new-HasOneReader K
  Reach-HasOneReader (next r s) = Step-HasOneReader s (Reach-HasOneReader r)
