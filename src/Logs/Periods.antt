-- ===== src/Logs/Periods.antt =====
-- When the log files of src/utils/log_utils.rs are rolled over, and the names that are found for them.
use tunm.Prelude.{
  ℕ, zero, suc, ◌+◌, ◌*◌, ◌/◌, ◌≤◌, ◌<◌, ◌≡◌, ◌≢◌, refl, Bool, true, false, List, ◌∷◌, ◌++◌, arith,
  ltb, ◌==◌, ok, ne_test, Ensures, Returns, Returns-if,
}
use tunm.Prelude.Decimal.{to_decimal}
use tunm.Logs.Names.{numbered, get_can_use_filename}
use tunm.Logs.Writer.{LogUtils, Readings, role_file, check_file_status}

-- With one of the numbers from `i` on free within the fuel, the name that is found is not in use.
numbered-free :
    (is_file_exists : List ℕ → Bool) (fuel i k : ℕ) (filename : List ℕ)
    → i ≤ k
    → k < i + fuel
    → is_file_exists (filename ++ (46 ∷ to_decimal k)) ≡ false
    → Returns (λ name. is_file_exists name ≡ false) (numbered is_file_exists fuel i filename)
unfolding numbered
numbered-free is_file_exists zero i k filename low high free = absurd (omega arith)
numbered-free is_file_exists (suc fuel) i k filename low high free =
    let name = filename ++ (46 ∷ to_decimal i) in
    Returns-if (is_file_exists name) (numbered is_file_exists fuel (i + 1) filename) (ok name)
      (λ taken.
        let ne : i ≢ k = λ e. cc in
        numbered-free is_file_exists fuel (i + 1) k filename (omega arith) (omega arith) free)
      (λ found. record { ensures = found })

-- If one of the numbered names within the fuel is free, a name for a log file is found, and it is not in
-- use.
pub get_can_use_filename-free :
    (is_file_exists : List ℕ → Bool) (fuel k : ℕ) (filename : List ℕ)
    → 1 ≤ k
    → k ≤ fuel
    → is_file_exists (filename ++ (46 ∷ to_decimal k)) ≡ false
    → Ensures
        (λ name. is_file_exists name ≡ false)
        (get_can_use_filename is_file_exists fuel filename)
unfolding get_can_use_filename
get_can_use_filename-free is_file_exists fuel k filename low high free =
    let found : Returns (λ name. is_file_exists name ≡ false)
        (get_can_use_filename is_file_exists fuel filename) =
      Returns-if (is_file_exists filename) (numbered is_file_exists fuel 1 filename) (ok filename)
        (λ _. numbered-free is_file_exists fuel 1 k filename low (omega arith) free)
        (λ f. record { ensures = f }) in
    found.ensures

other_period : (t later : ℕ) → 86400 ≤ t → 1000 * t ≤ later → later / 86400 ≢ t / 86400
other_period t later day h = omega arith

-- The check of a file that is not too large, when more lines than `check_every_n` are counted, rolls the
-- file over, whatever the day: the period of the file was taken from the time t of its opening in
-- seconds, and is compared with one taken from milliseconds, which is larger if the clock has not gone
-- back.
pub check_file_status-rolls :
    (r : Readings) (s : LogUtils) (t : ℕ)
    → s.start_of_period ≡ t / 86400
    → 86400 ≤ t
    → 1000 * t ≤ r.later
    → s.cur_file_size ≤ s.roll_size
    → s.check_every_n ≤ s.cur_count
    → s.last_flush ≤ r.later
    → check_file_status r s ≡ role_file r (record s { cur_count = s.cur_count + 1 })
unfolding check_file_status
check_file_status-rolls r s t period day time size count last =
    let small : ltb s.roll_size s.cur_file_size ≡ false = ground arith in
    let due : ltb s.check_every_n (s.cur_count + 1) ≡ true = ground arith in
    let other : (r.later / 86400 == s.start_of_period) ≡ false =
      ne_test (r.later / 86400) s.start_of_period (rw period (other_period t r.later day time)) in
    rw (small, due, other) refl
