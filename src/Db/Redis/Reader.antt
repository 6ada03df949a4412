-- ===== src/Db/Redis/Reader.antt =====
-- At most one thread reads the subscriptions of src/db/redis_pool.rs, and the calls of the pool keep that.
use tunm.Prelude.{
  ℕ, ◌≡◌, ◌≢◌, refl, sym, ap, ◌∙◌, Bool, true, false, Bool-cases, ==_iff, not, ◌||◌, ◌⊎◌, inl, inr,
  Option, none, some, List, [], ◌∷◌, arith,
}
use mathlib.Core.Option.{some-injective}
use mathlib.Core.Bool.{true≢false}
use tunm.Prelude.Int.{ℤ, pos, eq_ℤ}
use tunm.Prelude.Maps as Maps
use tunm.Prelude.Maps.{nat_eq, get-insert, HashMap, is_some}
use tunm.Db.Redis.{
  Client, Thread, RedisPool, new_redis_pool, stop_recv_sub_msg, get_sub_connection,
  start_recv_sub_msg, ensure_subconnectioin, is_sub_work, halt_on, stop_on, taken_from, reconnect,
  note_fd, start_on,
}

module _ (K : Client) where
  open K use {Cluster, PubSub, Msg}

  -- The thread whose channel it is.
  abbrev pub reader : Option (ℕ × List Msg) → Option ℕ
  reader none = none
  reader (some (i, waiting)) = some i

  -- A thread that is to run is alive, and is the one that the pool knows and whose channel it reads; the
  -- connection has moved to it.
  pub record HasOneReader (p : RedisPool K) : Type 0 where
    pub channel : reader p.sub_receiver ≡ p.sub_thread_run
    pub moved : (i : ℕ) → p.sub_thread_run ≡ some i → p.sub_connect ≡ none
    pub only :
        (i : ℕ) (t : Thread K)
        → Maps.get i p.threads ≡ some t
        → t.run ≡ true
        → (p.sub_thread_run ≡ some i) × (t.alive ≡ true)

  pub new-HasOneReader : HasOneReader (new_redis_pool K)
  unfolding new_redis_pool Maps.get
  new-HasOneReader = record { channel = refl; moved = λ i e. refl; only = λ i t found run. cc }

  pub taken_from-HasOneReader :
      (cs : List Cluster) (p : RedisPool K) → HasOneReader p → HasOneReader (taken_from K cs p).0
  taken_from-HasOneReader [] p h = h
  taken_from-HasOneReader (c ∷ cs) p h = record {
    channel = h.channel;
    moved = h.moved;
    only = h.only;
  }

  -- What a look-up finds after a write: what was written, or what was there under another number.
  pub get-insert_cases :
      (i j : ℕ) (u t : Thread K) (threads : HashMap ℕ (Thread K))
      → Maps.get j (Maps.insert i u threads) ≡ some t
      → ((i ≡ j) × (u ≡ t)) ⊎ ((i ≢ j) × (Maps.get j threads ≡ some t))
  get-insert_cases i j u t threads found = elim (Bool-cases (nat_eq.beq i j)) [
    | inl same ↦ inl ((==_iff i j).0 same, some-injective u t (rw (get-insert, same) at found))
    | inr other ↦ inr (ground (arith, other), rw (get-insert, other) at found)
  ]

  -- A thread that is to run after one was halted is another, and was to run before.
  halt_on-run :
      (i j : ℕ) (o : Option (Thread K)) (threads : HashMap ℕ (Thread K)) (t : Thread K)
      → Maps.get i threads ≡ o
      → Maps.get j (halt_on K i o threads) ≡ some t
      → t.run ≡ true
      → (i ≢ j) × (Maps.get j threads ≡ some t)
  halt_on-run i j none threads t none_ found run =
      ((λ same. cc (ap (λ k. Maps.get k threads) same)), found)
  halt_on-run i j (some u) threads t old found run =
      elim (get-insert_cases i j (record u { run = false }) t threads found) [
        | inl (same, e) ↦ cc (ap (λ x. x.run) e)
        | inr differs ↦ differs
      ]

  pub stop_on-HasOneReader :
      (o : Option ℕ) (p : RedisPool K)
      → p.sub_thread_run ≡ o
      → HasOneReader p
      → HasOneReader (stop_on K o p).0
  stop_on-HasOneReader none p e h = h
  stop_on-HasOneReader (some i) p e h = record {
    channel = refl;
    moved = λ j running. refl;
    only = λ j t found run.
        let (differ, before) = halt_on-run i j _ p.threads t refl found run in
        absurd (differ (some-injective i j (sym e ∙ (h.only j t before run).0)));
  }

  note_fd-HasOneReader : (fd : ℤ) (p : RedisPool K) → HasOneReader p → HasOneReader (note_fd K fd p)
  note_fd-HasOneReader fd p h = elim (Bool-cases (eq_ℤ fd (pos 0))) [
    | inl zero_ ↦ rw zero_ h
    | inr other ↦ rw other (record { channel = h.channel; moved = h.moved; only = h.only })
  ]

  -- A new connection is kept where no thread is known.
  reconnect-HasOneReader :
      (given : Option PubSub) (p : RedisPool K)
      → p.sub_thread_run ≡ none
      → HasOneReader p
      → HasOneReader (reconnect K given p)
  reconnect-HasOneReader none p e h = h
  reconnect-HasOneReader (some c) p e h =
      let kept : HasOneReader (record p { sub_connect = some c }) = record {
        channel = h.channel;
        moved = λ i known. cc;
        only = h.only;
      } in
      note_fd-HasOneReader (K.get_connection_fd c) (record p { sub_connect = some c }) kept

  stop_on-none :
      (o : Option ℕ) (p : RedisPool K)
      → p.sub_thread_run ≡ o
      → (stop_on K o p).0.sub_thread_run ≡ none
  stop_on-none none p e = e
  stop_on-none (some i) p e = refl

  pub get_sub_connection-HasOneReader :
      (given : Option PubSub) (is_work : Bool) (p : RedisPool K)
      → HasOneReader p
      → HasOneReader (get_sub_connection K given is_work p)
  unfolding get_sub_connection stop_recv_sub_msg
  get_sub_connection-HasOneReader given is_work p h =
      let stopped : RedisPool K = (stop_on K p.sub_thread_run p).0 in
      let ok_ : HasOneReader stopped = stop_on-HasOneReader p.sub_thread_run p refl h in
      let again = reconnect-HasOneReader given stopped (stop_on-none p.sub_thread_run p refl) ok_ in
      elim (Bool-cases (not (is_some stopped.sub_connect) || not is_work)) [
        | inl new_ ↦ rw new_ again
        | inr works ↦ rw works ok_
      ]

  works_of :
      (p : RedisPool K) (i : ℕ) (t : Thread K)
      → p.sub_thread_run ≡ some i
      → Maps.get i p.threads ≡ some t
      → t.run ≡ true
      → is_sub_work K p ≡ true
  unfolding is_sub_work
  works_of p i t known found run = rw (known, found) run

  start_on-HasOneReader :
      (o : Option PubSub) (p : RedisPool K)
      → is_sub_work K p ≡ false
      → HasOneReader p
      → HasOneReader (start_on K o p)
  start_on-HasOneReader none p idle h = h
  start_on-HasOneReader (some c) p idle h = record {
    channel = refl;
    moved = λ i known. refl;
    only = λ i t found run. elim (get-insert_cases p.started i _ t p.threads found) [
      | inl (same, e) ↦ (ap some same, sym (ap (λ x. x.alive) e))
      | inr (_, before) ↦
          absurd (true≢false (sym (works_of p i t (h.only i t before run).0 before run) ∙ idle))
    ];
  }

  pub start-HasOneReader :
      (p : RedisPool K) → HasOneReader p → HasOneReader (start_recv_sub_msg K p)
  unfolding start_recv_sub_msg
  start-HasOneReader p h = elim (Bool-cases (is_sub_work K p)) [
    | inl works ↦ rw works h
    | inr idle ↦ rw idle (start_on-HasOneReader p.sub_connect p idle h)
  ]

  pub ensure-HasOneReader :
      (given : Option PubSub) (is_work : Bool) (p : RedisPool K)
      → HasOneReader p
      → HasOneReader (ensure_subconnectioin K given is_work p)
  unfolding ensure_subconnectioin stop_recv_sub_msg
  ensure-HasOneReader given is_work p h =
      let stopped = stop_on-HasOneReader p.sub_thread_run p refl h in
      let begun = start-HasOneReader _ (get_sub_connection-HasOneReader given is_work _ stopped) in
      elim (Bool-cases (is_sub_work K p)) [ inl works ↦ rw works h | inr idle ↦ rw idle begun ]

  reconnect-none :
      (given : Option PubSub) (p : RedisPool K)
      → p.sub_thread_run ≡ none
      → (reconnect K given p).sub_thread_run ≡ none
  reconnect-none none p e = e
  reconnect-none (some c) p e = ground arith

  -- After a connection was asked for, no thread is known.
  pub get_sub_connection-none :
      (given : Option PubSub) (is_work : Bool) (p : RedisPool K)
      → (get_sub_connection K given is_work p).sub_thread_run ≡ none
  unfolding get_sub_connection stop_recv_sub_msg
  get_sub_connection-none given is_work p =
      let stopped : RedisPool K = (stop_on K p.sub_thread_run p).0 in
      let none_ = stop_on-none p.sub_thread_run p refl in
      let again = reconnect-none given stopped none_ in
      elim (Bool-cases (not (is_some stopped.sub_connect) || not is_work)) [
        | inl new_ ↦ rw new_ again
        | inr works ↦ rw works none_
      ]
