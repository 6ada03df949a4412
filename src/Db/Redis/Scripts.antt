-- ===== src/Db/Redis/Scripts.antt =====
-- `redis_run_script` and `load_redis_script` of src/lua_custom/lua_db.rs. Scripts belong to the client of redis,
-- a package.
use tunm.Prelude.{
  ℕ, ◌/◌, Bool, true, false, Option, none, some, List, [], length, take, drop, ltb, if◌then◌else◌,
}
use tunm.Db.Redis.{Client, RedisPool, get_redis_connection, release_redis_connection}
use tunm.Db.Redis.Commands.{Answered, answer}

-- A script of a file, if it can be read; whether a cluster has a connection for a name; and a script that is run
-- there with keys and arguments.
pub record ScriptClient (K : Client) : Type 1 where
  pub Script : Type 0
  pub new_path_hash : List ℕ → List ℕ → Option Script
  pub get_hash : Script → List ℕ
  pub get_connection_by_name : List ℕ → K.Cluster → K.Cluster × Bool
  pub invoke :
      Script → List (List ℕ) → List (List ℕ) → List ℕ → K.Cluster → K.Cluster × K.RedisResult

module _ (K : Client) (S : ScriptClient K) where
  open K use {Cluster, RedisResult, no_connection_error}
  open S use {Script, new_path_hash, get_hash, get_connection_by_name, invoke}

  abbrev hash_of : Option Script → List ℕ
  hash_of none = []
  hash_of (some script) = get_hash script

  unfoldable pub load_redis_script : List ℕ → List ℕ → List ℕ
  load_redis_script path hash = hash_of (new_path_hash path hash)

  -- The first half of the strings are keys, the rest arguments; a single string is not handed on.
  unfoldable pub invoke_halves : Script → List (List ℕ) → List ℕ → Cluster → Cluster × RedisResult
  invoke_halves script strings slot cluster =
      let half = length strings / 2 in
      if ltb 0 half
      then invoke script (take half strings) (drop half strings) slot cluster
      else invoke script [] [] slot cluster

  abbrev pub invoked : ℕ → RedisPool K → Cluster × RedisResult → Answered K
  invoked cookie p (cluster, value) = (release_redis_connection K cluster p, answer K cookie value)

  -- A cluster without a connection for the name is not given back.
  abbrev pub script_at :
      Script → List (List ℕ) → List ℕ → ℕ → RedisPool K → Cluster × Bool → Answered K
  script_at script strings slot cookie p (cluster, false) = (p, answer K cookie no_connection_error)
  script_at script strings slot cookie p (cluster, true) =
      invoked cookie p (invoke_halves script strings slot cluster)

  abbrev pub script_on :
      Script → List (List ℕ) → List ℕ → ℕ → RedisPool K × Option Cluster → Answered K
  script_on script strings slot cookie (p, none) = (p, answer K cookie no_connection_error)
  script_on script strings slot cookie (p, some cluster) =
      script_at script strings slot cookie p (get_connection_by_name slot cluster)

  abbrev pub script_with : List (List ℕ) → List ℕ → ℕ → RedisPool K → Option Script → Answered K
  script_with strings slot cookie p none = (p, [])
  script_with strings slot cookie p (some script) =
      script_on script strings slot cookie (get_redis_connection K p)

  unfoldable pub redis_run_script :
      ℕ → List ℕ → List ℕ → List ℕ → List (List ℕ) → RedisPool K → Answered K
  unfolding invoke_halves
  redis_run_script cookie path hash slot strings p =
      script_with strings slot cookie p (new_path_hash path hash)
