-- ===== src/Logs/Names.antt =====
-- The names of the log files and the dates in them, src/utils/log_utils.rs. Names are bytes.
use tunm.Prelude.{
  ℕ, zero, suc, ◌+◌, ◌-◌, Bool, List, ◌∷◌, ◌++◌, if◌then◌else◌, length, replicate, Outcome, ok,
  panic,
}
use tunm.Prelude.Decimal.{to_decimal}

-- What `chrono::Local::now()` tells.
pub record LocalTime : Type 0 where
  pub year : ℕ
  pub month : ℕ
  pub day : ℕ
  pub hour : ℕ
  pub minute : ℕ
  pub second : ℕ

-- A number, filled up on the left: `{:4}` with blanks and `{:02}` with zeros.
unfoldable pub padded : ℕ → ℕ → ℕ → List ℕ
unfolding to_decimal
padded fill width n = let d = to_decimal n in replicate (width - length d) fill ++ d

-- The date and the time, with what the program adds to the year and the month.
unfoldable pub format_time : ℕ → LocalTime → List ℕ
unfolding padded
format_time between tm =
    let two = padded 48 2 in
    padded 32 4 (tm.year + 1900)
    ++ (45 ∷ two (tm.month + 1))
    ++ (45 ∷ two tm.day)
    ++ (between ∷ two tm.hour)
    ++ (58 ∷ two tm.minute)
    ++ (58 ∷ two tm.second)

-- What the file system says of a name.
module _ (is_file_exists : List ℕ → Bool) where
  -- `for i in i ..`, for `fuel` rounds; `panic` would mean that the fuel ran out.
  unfoldable pub numbered : ℕ → ℕ → List ℕ → Outcome (List ℕ)
  numbered zero i filename = panic
  numbered (suc fuel) i filename =
      let name = filename ++ (46 ∷ to_decimal i) in
      let rest = numbered fuel (i + 1) filename in if is_file_exists name then rest else ok name

  unfoldable pub get_can_use_filename : ℕ → List ℕ → Outcome (List ℕ)
  get_can_use_filename fuel filename =
      let rest = numbered fuel 1 filename in if is_file_exists filename then rest else ok filename
