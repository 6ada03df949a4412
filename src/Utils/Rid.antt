-- ===== src/Utils/Rid.antt =====
-- Role ids: `get_rid` of src/lua_custom/lua_util.rs. The two static variables are a state, and the clock
-- is read into an argument. `x >> k` is `x / 2 ^ k`, and `& 0x1F` is `% 32`.
pub mod Decode
pub mod Unique
pub mod Runs
use Prim.Native.Nat.{bit_and}
use tunm.Prelude.{
  ℕ, ◌+◌, ◌/◌, ◌%◌, ◌^◌, ◌==◌, List, [], ◌∷◌, ltb, get_or, bytes_of, checked_sub, Outcome, ok,
  panic, ◌>>=◌, if◌then◌else◌,
}

pub record RidState : Type 0 where
  pub sequence : ℕ
  pub last_time : ℕ

-- As the server starts.
abbrev pub start : RidState
start = record { sequence = 0; last_time = 0 }

abbrev pub encode_map : List ℕ
encode_map = bytes_of "0123456789ACDEFGHJKLMNPQRSTUWXYZ"

-- One of the 32 signs.
unfoldable pub sign : ℕ → ℕ
sign n = get_or encode_map (n % 32) 0

-- 40 bits of time, 20 bits for the server, 15 for the flag and 15 for the sequence.
unfoldable pub encode : ℕ → ℕ → ℕ → ℕ → List ℕ
unfolding sign
encode ti server_id flag seq =
    sign (ti / 2 ^ 35)
    ∷ sign (ti / 2 ^ 30)
    ∷ sign (ti / 2 ^ 25)
    ∷ sign (ti / 2 ^ 20)
    ∷ sign (ti / 2 ^ 15)
    ∷ sign (ti / 2 ^ 10)
    ∷ sign (ti / 2 ^ 5)
    ∷ sign ti
    ∷ sign (server_id / 2 ^ 15)
    ∷ sign (server_id / 2 ^ 10)
    ∷ sign (server_id / 2 ^ 5)
    ∷ sign server_id
    ∷ sign (flag / 2 ^ 10)
    ∷ sign (flag / 2 ^ 5)
    ∷ sign flag
    ∷ sign (seq / 2 ^ 10)
    ∷ sign (seq / 2 ^ 5)
    ∷ sign seq
    ∷ []

-- The next number of the sequence.
unfoldable pub next_sequence : ℕ → ℕ
next_sequence sequence = bit_and (sequence + 1) 0x8fff

-- `LAST_RID_TIME += 1`, which overflows at 2^64.
abbrev pub carried : ℕ → ℕ → Outcome ℕ
carried sequence last_time =
    if sequence == 0
    then (if ltb (last_time + 1) (2 ^ 64) then ok (last_time + 1) else panic)
    else ok last_time

-- A new millisecond starts the sequence again.
abbrev pub at_time : ℕ → ℕ → ℕ → RidState
at_time now sequence last_time =
    if ltb last_time now
    then record { sequence = 0; last_time = now }
    else record { sequence = sequence; last_time = last_time }

abbrev pub rid_of : ℕ → ℕ → RidState → Outcome (RidState × List ℕ)
rid_of server_id flag s = do
  ti ← checked_sub s.last_time 1639497600
  ok (s, encode ti server_id flag s.sequence)

unfoldable pub get_rid : ℕ → ℕ → ℕ → RidState → Outcome (RidState × List ℕ)
unfolding next_sequence encode
get_rid now server_id flag s = do
  let sequence = next_sequence s.sequence
  last_time ← carried sequence s.last_time
  rid_of server_id flag (at_time now sequence last_time)
