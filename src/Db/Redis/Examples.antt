-- ===== src/Db/Redis/Examples.antt =====
-- Concrete clients of redis, and orders of calls.
use tunm.Prelude.{
  none, ℕ, ◌+◌, ◌*◌, length, ◌≡◌, refl, true, false, some, List, [], ◌∷◌, ◌++◌, bytes_of, ltb,
  if◌then◌else◌,
}
use tunm.Prelude.Int.{pos}
use tunm.Prelude.Maps as Maps
use tunm.Prelude.Maps.{nat_eq}
use tunm.Db.Redis.{
  Client, RedisPool, new_redis_pool, get_redis_connection, is_sub_work, get_sub_connection,
  stop_recv_sub_msg, start_recv_sub_msg, receive,
}
use tunm.Db.Redis.Commands.{subs_of, thread_redis_subs_command}
use tunm.Db.Redis.Scripts.{ScriptClient, redis_run_script, invoke_halves}
use tunm.Db.Redis.Reader.{HasOneReader}
use tunm.Db.Redis.Threads.{Reach, new, next, asked, received, Reach-HasOneReader}

-- Connections are their descriptors, a result below 100 is an error, and commands give themselves.
abbrev sample : Client
sample = record {
  Cluster = List (List ℕ);
  PubSub = ℕ;
  Msg = ℕ;
  Cmd = ℕ;
  RedisResult = ℕ;
  new_cluster = [];
  add = λ url cluster. cluster ++ url ∷ [];
  get_connection_fd = λ fd. pos fd;
  query_cluster = λ cmd cluster. (cluster, cmd);
  is_ok = λ r. if ltb r 100 then false else true;
  okay = 100;
  no_connection_error = 1;
  make_extension_error = λ text. 2;
}

abbrev subscribe : ℕ → RedisPool sample → RedisPool sample
subscribe fd p =
    (thread_redis_subs_command sample (λ kind channels fd. (fd, 100)) (some fd) true 1
      (bytes_of "SUBSCRIBE") [] p).0

-- A subscription, a message, a second subscription while the first thread waits, and its last message.
abbrev twice : RedisPool sample
twice =
    receive sample 0 (some 66)
      (subscribe 8 (receive sample 0 (some 65) (subscribe 7 (new_redis_pool sample))))

Reach-twice : Reach sample twice
Reach-twice =
    next (next (next (next new (asked _ _ _ _ _ _)) (received 0 (some 65))) (asked _ _ _ _ _ _))
      (received 0 (some 66))

Reach-HasOneReader_example : HasOneReader sample twice
Reach-HasOneReader_example = Reach-HasOneReader sample Reach-twice

-- The first thread has ended, its last message is lost, and the second runs.
first_ended :
    (Maps.get 0 twice.threads ≡ some (record { connect = 7; run = false; alive = false }))
    × (twice.sub_receiver ≡ some (1, []))
    × (is_sub_work sample twice ≡ true)
unfolding new_redis_pool is_sub_work get_sub_connection stop_recv_sub_msg start_recv_sub_msg receive
    Maps.get Maps.insert thread_redis_subs_command subs_of
first_ended = (refl, refl, refl)

-- A thread whose connection failed has closed it, and the next subscription closes the number again.
closed_again :
    (subscribe 8 (receive sample 0 none (subscribe 7 (new_redis_pool sample)))).dropped ≡ pos 7 ∷ []
unfolding new_redis_pool get_sub_connection stop_recv_sub_msg start_recv_sub_msg receive Maps.get
    Maps.insert thread_redis_subs_command subs_of
closed_again = refl

-- Results tell how many keys and arguments a script was given.
abbrev scripts : ScriptClient sample
scripts = record {
  Script = ℕ;
  new_path_hash = λ path hash. some 0;
  get_hash = λ script. [];
  get_connection_by_name = λ slot cluster. (cluster, true);
  invoke = λ script keys args slot cluster. (cluster, 100 + 10 * length keys + length args);
}

-- Three strings are a key and two arguments, and one string is nothing at all.
halves :
    ((redis_run_script sample scripts 3 [] [] [] ([] ∷ [] ∷ [] ∷ []) (new_redis_pool sample)).1
      ≡ (3, 112) ∷ [])
    × ((redis_run_script sample scripts 3 [] [] [] ([] ∷ []) (new_redis_pool sample)).1
        ≡ (3, 100) ∷ [])
unfolding redis_run_script invoke_halves get_redis_connection new_redis_pool
halves = (refl, refl)
