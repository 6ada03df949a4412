-- ===== src/Logs/Examples.antt =====
-- The properties of the log files at a concrete log, and runs of its functions.
use tunm.Prelude.{
  ℕ, ◌+◌, ◌≡◌, refl, Bool, true, false, some, List, [], ◌++◌, ◌∷◌, arith, Ensures, bytes_of,
}
use tunm.Logs.Names.{LocalTime, format_time, get_can_use_filename}
use tunm.Logs.Writer.{LogUtils, Readings, new_log, role_file, check_file_status}
use tunm.Logs.Rolling.{HasNames, line_of}
use tunm.Logs.Periods.{get_can_use_filename-free, check_file_status-rolls}

abbrev noon : LocalTime
noon = record { year = 2024; month = 5; day = 7; hour = 12; minute = 0; second = 0 }

-- The year and the month come out too large.
noon_text : format_time 32 noon ≡ bytes_of "3924-06-07 12:00:00"
unfolding format_time
noon_text = refl

abbrev unused : List ℕ → Bool
unused name = false

abbrev r : Readings
r = record {
  now = 90000000;
  later = 90000000;
  secs = 90000;
  local = noon;
  is_file_exists = unused;
  can_create = λ _. true;
  tries = 1;
  date_taken = 22;
  kind_taken = 8;
  text_taken = 2;
  end_taken = 2;
}

r-HasNames : HasNames r
unfolding get_can_use_filename
r-HasNames filename = (filename, refl)

abbrev log : LogUtils
log = record new_log {
  file = some (bytes_of "x");
  start_of_period = 1;
  cur_count = 1024;
  cur_file_size = 1;
}

-- Of the text, only two of the three bytes are taken.
hot_line :
    line_of r r-HasNames 2 (bytes_of "hot") log
    ≡ bytes_of "[3924-06-07 12:00:00] [warn!] ho" ++ 13 ∷ 10 ∷ []
unfolding format_time
hot_line = refl

get_can_use_filename-free_example :
    Ensures (λ name. unused name ≡ false) (get_can_use_filename unused 1 (bytes_of "a.log"))
get_can_use_filename-free_example =
    get_can_use_filename-free unused 1 1 (bytes_of "a.log") (omega arith) (omega arith) refl

check_file_status-rolls_example :
    check_file_status r log ≡ role_file r (record log { cur_count = 1024 + 1 })
check_file_status-rolls_example =
    check_file_status-rolls r log 90000 refl (omega arith) (omega arith) (omega arith) (omega arith)
      (omega arith)
