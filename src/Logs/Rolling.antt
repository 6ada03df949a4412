-- ===== src/Logs/Rolling.antt =====
-- Where the lines of the log of src/utils/log_utils.rs end up.
use tunm.Prelude.{
  ℕ, ◌≡◌, get_or, take, bytes_of, if◌then◌else◌, ◌⊎◌, none, some, List, [], ◌∷◌, ◌++◌, ◌==◌, ok,
}
use tunm.Logs.Names.{format_time, get_can_use_filename}
use tunm.Logs.Writer.{LogUtils, Readings, write_bytes, method_text, update_date}

-- A name that is not in use is found for every log file.
abbrev pub HasNames : Readings → Type 0
HasNames r =
    (filename : List ℕ)
    → (name : List ℕ) × (get_can_use_filename r.is_file_exists r.tries filename ≡ ok name)

-- The bytes stand in the open file, behind the files closed so far, or in the file that was just closed.
abbrev pub Lands : List ℕ → List (List ℕ) → LogUtils → Type 0
Lands bytes closed t =
    ((t.file ≡ some bytes) × (t.closed ≡ closed))
    ⊎ ((t.closed ≡ closed ++ bytes ∷ []) × ((t.file ≡ some []) ⊎ (t.file ≡ none)))

-- The kinds of lines by their numbers from 1 on; any other number is a trace.
abbrev pub kind_of : ℕ → List ℕ
kind_of method =
    get_or
      (bytes_of "[trace] "
        ∷ bytes_of "[error] "
        ∷ bytes_of "[warn!] "
        ∷ bytes_of "[info!] "
        ∷ bytes_of "[debug] "
        ∷ [])
      method (bytes_of "[trace] ")

module _ (r : Readings) (names : HasNames r) where
  -- The date of a line: the one before within a millisecond, else the local time.
  abbrev pub date_of : LogUtils → List ℕ
  date_of s =
      if r.now == s.cache_time
      then s.date_cache
      else bytes_of "[" ++ (format_time 32 r.local ++ bytes_of "] ")

  -- What the file takes of the line: of the date, the kind, the text, and the end of the line.
  abbrev pub line_of : ℕ → List ℕ → LogUtils → List ℕ
  line_of method log s =
      take r.date_taken (date_of s)
      ++ (take r.kind_taken (kind_of method)
          ++ (take r.text_taken log ++ take r.end_taken (13 ∷ 10 ∷ [])))

  -- What a step of writing keeps.
  record Holds (bytes : List ℕ) (s t : LogUtils) : Type 0 where
    open_file : t.file ≡ some bytes
    same_closed : t.closed ≡ s.closed
    same_flush : t.last_flush ≡ s.last_flush

  -- The log before the file is checked.
  abbrev written : ℕ → List ℕ → LogUtils → LogUtils
  written method log s =
      let dated = write_bytes r.date_taken (update_date r s).date_cache (update_date r s) in
      write_bytes r.end_taken (13 ∷ 10 ∷ [])
        (write_bytes r.text_taken log (write_bytes r.kind_taken (method_text method) dated))
