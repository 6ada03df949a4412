-- ===== src/Logs/Writer.antt =====
-- `LogUtils` of src/utils/log_utils.rs. A file is the bytes that it took; `closed` are the files that were
-- rolled over, oldest first. The locks make `append` one step.
use tunm.Prelude.{
  ℕ, ◌+◌, ◌/◌, Bool, not, Option, none, some, List, [], ◌∷◌, ◌++◌, take, ltb, ◌==◌, if◌then◌else◌,
  length, bytes_of, Outcome, ok, panic, ◌>>=◌, checked_sub,
}
use tunm.Logs.Names.{LocalTime, format_time, get_can_use_filename}

abbrev pub keep_role_second : ℕ
keep_role_second = 86400

pub record LogUtils : Type 0 where
  pub file : Option (List ℕ)
  pub closed : List (List ℕ)
  pub log_path : List ℕ
  pub basename : List ℕ
  pub server_id : List ℕ
  pub roll_size : ℕ
  pub flush_interval : ℕ
  pub check_every_n : ℕ
  pub force_flush_interval : ℕ
  pub cur_file_size : ℕ
  pub cur_count : ℕ
  pub last_append : ℕ
  pub last_flush : ℕ
  pub start_of_period : ℕ
  pub cache_time : ℕ
  pub date_cache : List ℕ

-- `LogUtils::new`.
abbrev pub new_log : LogUtils
new_log = record {
  file = none;
  closed = [];
  log_path = [];
  basename = bytes_of "tunm";
  server_id = bytes_of "0";
  roll_size = 52428800;
  flush_interval = 3;
  check_every_n = 1024;
  force_flush_interval = 180;
  cur_file_size = 0;
  cur_count = 0;
  last_append = 0;
  last_flush = 0;
  start_of_period = 0;
  cache_time = 0;
  date_cache = [];
}

-- What the program reads while it appends a line: the time in milliseconds, again when it checks the
-- file, in seconds when it opens one, the local time, the names in use, and whether a file can be created.
-- `write` of a file tells how many bytes it took, none if it failed: of the date, the kind, the text and the
-- end of the line.
pub record Readings : Type 0 where
  pub now : ℕ
  pub later : ℕ
  pub secs : ℕ
  pub local : LocalTime
  pub is_file_exists : List ℕ → Bool
  pub can_create : List ℕ → Bool
  pub tries : ℕ
  pub date_taken : ℕ
  pub kind_taken : ℕ
  pub text_taken : ℕ
  pub end_taken : ℕ

unfoldable pub get_log_filename : Readings → LogUtils → Outcome (List ℕ)
unfolding format_time
get_log_filename r s =
    let name = format_time 95 r.local in
    get_can_use_filename r.is_file_exists r.tries (
      s.log_path
      ++ s.basename
      ++ bytes_of "_"
      ++ s.server_id
      ++ bytes_of "_"
      ++ name
      ++ bytes_of ".log")

-- The file that was open until now.
abbrev pub closed_with : Option (List ℕ) → List (List ℕ) → List (List ℕ)
closed_with none closed = closed
closed_with (some bytes) closed = closed ++ bytes ∷ []

-- `self.file = self.role_file()`: a file that cannot be created leaves none.
unfoldable pub role_file : Readings → LogUtils → Outcome LogUtils
role_file r s = do
  filename ← get_log_filename r s
  let closed = closed_with s.file s.closed
  let opened : LogUtils = record s {
    file = some [];
    closed = closed;
    cur_file_size = 0;
    start_of_period = r.secs / keep_role_second;
    last_flush = r.secs;
    last_append = r.secs;
    cur_count = 0;
  }
  let failed : LogUtils = record s { file = none; closed = closed }
  ok (if r.can_create filename then opened else failed)

unfoldable pub set_log_path : List ℕ → Readings → LogUtils → Outcome LogUtils
set_log_path path r s =
    let s' : LogUtils = record s { log_path = path } in
    elim s'.file [ none ↦ role_file r s' | some bytes ↦ ok s' ]

unfoldable pub set_server_id : List ℕ → LogUtils → LogUtils
set_server_id server_id s = record s { server_id = server_id }

-- `write_bytes`: one `write`, which takes so many of the bytes; what it tells is ignored, and the size
-- counts what was handed over.
unfoldable pub write_bytes : ℕ → List ℕ → LogUtils → LogUtils
write_bytes taken bytes s = elim s.file [
  | none ↦ s
  | some old ↦ record s {
    file = some (old ++ take taken bytes);
    cur_file_size = s.cur_file_size + length bytes;
  }
]

unfoldable pub write_date : ℕ → LogUtils → LogUtils
unfolding write_bytes
write_date taken s = write_bytes taken s.date_cache s

abbrev pub method_text : ℕ → List ℕ
method_text method =
    if method == 1
    then bytes_of "[error] "
    else if method == 2
    then bytes_of "[warn!] "
    else if method == 3
    then bytes_of "[info!] "
    else if method == 4
    then bytes_of "[debug] "
    else bytes_of "[trace] "

-- `write_log_method`, which the caller reaches with a file only.
unfoldable pub write_log_method : ℕ → ℕ → LogUtils → Outcome LogUtils
unfolding write_bytes
write_log_method taken method s = elim s.file [
  | none ↦ panic
  | some old ↦ ok (write_bytes taken (method_text method) s)
]

-- `self.file.as_ref().unwrap().flush()`.
unfoldable pub flush : LogUtils → Outcome LogUtils
flush s = elim s.file [ none ↦ panic | some old ↦ ok s ]

unfoldable pub check_file_status : Readings → LogUtils → Outcome LogUtils
check_file_status r s =
    let counted : LogUtils = record s { cur_count = s.cur_count + 1 } in
    let rolled = role_file r s in
    let rolled_late = role_file r counted in
    let flushed = flush (record counted { last_flush = r.later }) in
    let forced = flush (record counted { cur_count = 0; last_flush = r.later }) in
    let idle = checked_sub r.later s.last_flush in
    let sometimes : Outcome LogUtils =
      idle >>= λ age. if ltb counted.flush_interval age then flushed else ok counted in
    let seldom : Outcome LogUtils =
      idle >>= λ age. if ltb counted.force_flush_interval age then forced else ok counted in
    if ltb s.roll_size s.cur_file_size
    then rolled
    else if ltb counted.check_every_n counted.cur_count
    then (if not (r.later / keep_role_second == s.start_of_period) then rolled_late else sometimes)
    else seldom

-- The date is made anew when the millisecond changes.
unfoldable pub update_date : Readings → LogUtils → LogUtils
unfolding format_time
update_date r s = if r.now == s.cache_time then s else record s {
  cache_time = r.now;
  date_cache = bytes_of "[" ++ format_time 32 r.local ++ bytes_of "] ";
}

-- `append` and `append_unlock`.
unfoldable pub append : ℕ → List ℕ → Readings → LogUtils → Outcome LogUtils
append method log r s =
    let dated = write_date r.date_taken (update_date r s) in
    let written : Outcome LogUtils = do
      t ← write_log_method r.kind_taken method dated
      check_file_status r (write_bytes r.end_taken (13 ∷ 10 ∷ []) (write_bytes r.text_taken log t))
    in elim s.file [ none ↦ ok s | some old ↦ written ]
