-- ===== src/Utils/Examples.antt =====
-- Concrete uses of the utilities.
use tunm.Prelude.{ℕ, ◌≡◌, refl, ok, List, [], ◌∷◌, arith, bytes_of}
use tunm.Utils.Rid.{RidState, start, get_rid, next_sequence, sign, encode}
use tunm.Utils.Rid.Runs.{RidCall, get_rids, AreFor, AreDistinct, get_rids-AreDistinct}

-- Two calls in one millisecond of 2024, and one when the clock was put back.
abbrev calls : List RidCall
calls =
    record { now = 1710000000000; server_id = 7; flag = 40000 }
    ∷ record { now = 1710000000000; server_id = 7; flag = 40000 }
    ∷ record { now = 1709999999000; server_id = 7; flag = 40000 }
    ∷ []

get_rids-AreDistinct_example :
    (s' : RidState) × (rids : List (List ℕ)) × (get_rids calls start ≡ ok (s', rids))
    × AreFor calls rids
    × AreDistinct rids
get_rids-AreDistinct_example =
    get_rids-AreDistinct 1700000000000 1710000000000 calls start (omega arith) (omega arith)
      (omega arith) (omega arith) (omega arith) (omega arith)

first_id :
    get_rid 1710000000000 7 40000 start
    ≡ ok (record { sequence = 0; last_time = 1710000000000 }, bytes_of "JQ13J3400007720000")
unfolding get_rid next_sequence encode sign
first_id = refl
