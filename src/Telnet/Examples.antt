-- ===== src/Telnet/Examples.antt =====
-- The properties of the telnet console at concrete clients, and runs of its handlers.
use tunm.Prelude.{
  ℕ, ◌≡◌, ◌≢◌, ◌↔◌, ◌<◌, refl, true, false, List, [], ◌∷◌, ◌++◌, arith, take, ◌==◌, if◌then◌else◌,
  ok, panic, Ensures, All, bytes_of,
}
use tunm.Prelude.Int.{negsuc}
use tunm.Prelude.Maps as Maps
use tunm.Prelude.Maps.{string_eq, Every, Every-insert}
use tunm.Lua.Convert.{convert_excute_string}
use tunm.Telnet.Client.{ClientInfo, new_client, sent, Term, login_name, backspace}
use tunm.Telnet.Login.{login}
use tunm.Telnet.Editor.{update_loop, update_client}
use tunm.Telnet.Server.{TelnetUtils, new_telnet, update_data}
use tunm.Telnet.Invariant.{IsEditing, IsValid, Leaves, erased, backspace-Leaves}
use tunm.Telnet.Safety.{update_loop-IsEditing}
use tunm.Telnet.LoginSafety.{login-IsValid}
use tunm.Telnet.Auth.{IsPlain, IsAsked, login_iff}
use tunm.Telnet.Registry.{IsWellFormed, update_data-IsWellFormed}
use tunm.Telnet.Line.{IsTyped, executed, update_loop-line, update_loop-delete}
use tunm.Telnet.History.{push_all, push_all-take}

abbrev same : List ℕ → List ℕ
same s = s

abbrev prompt : List ℕ
prompt = bytes_of ">"

-- A client that is logged in, with a line typed and one remembered.
abbrev console : ClientInfo
console = record {
  unique = "a";
  text = bytes_of "ab";
  ipos = 2;
  records = bytes_of "x" ∷ [];
  blogin = true;
  benterpwd = false;
  binsert = false;
  ircdnum = negsuc 0;
}

abbrev at_console : Term
at_console = record { client = console; effects = [] }

console-IsEditing : IsEditing console
console-IsEditing = record { cursor = omega arith; kept = omega arith; browsing = tt }

console-IsValid : IsValid console
console-IsValid = record { cursor = omega arith; kept = omega arith; browsing = λ _. tt }

-- The backspace, a letter and the enter key.
abbrev keys : List ℕ
keys = 8 ∷ 99 ∷ 13 ∷ []

keys_no_delete : All (λ b. b ≢ 127) keys
keys_no_delete = (omega arith, (omega arith, (omega arith, tt)))

update_loop-IsEditing_example :
    Ensures (λ s. IsEditing s.client) (update_loop same prompt keys 0 keys at_console)
update_loop-IsEditing_example =
    update_loop-IsEditing same prompt keys keys 0 at_console console-IsEditing keys_no_delete

abbrev newcomer : Term
newcomer = record { client = new_client "b"; effects = [] }

newcomer-IsAsked : IsAsked newcomer.client
newcomer-IsAsked = record {
  no_text = refl;
  at_start = refl;
  no_records = refl;
  asks_name = refl;
  stranger = refl;
}

newcomer-IsValid : IsValid newcomer.client
newcomer-IsValid = record { cursor = omega arith; kept = omega arith; browsing = λ e. cc }

login-IsValid_example :
    Ensures (λ s. IsValid s.client) (login prompt (116 ∷ 8 ∷ 13 ∷ 27 ∷ []) newcomer)
login-IsValid_example = login-IsValid prompt (116 ∷ 8 ∷ 13 ∷ 27 ∷ []) newcomer newcomer-IsValid

letter : (b : ℕ) → 13 < b → b < 255 → IsPlain b
letter b above below = record {
  not_stop = omega arith;
  not_nul = omega arith;
  not_enter = omega arith;
  not_backspace = omega arith;
  not_newline = omega arith;
  not_tab = omega arith;
}

login_name-IsPlain : All IsPlain login_name
login_name-IsPlain =
    let plain = λ (b : ℕ) (above : 13 < b) (below : b < 255). letter b above below in
    (
      plain 116 (omega arith) (omega arith),
      (
        plain 117 (omega arith) (omega arith),
        (plain 110 (omega arith) (omega arith), (plain 109 (omega arith) (omega arith), tt)),
      ),
    )

login_iff_example :
    (t' : Term) × (login prompt (login_name ++ 13 ∷ (login_name ++ 13 ∷ [])) newcomer ≡ ok t')
    × ((t'.client.blogin ≡ true) ↔ ((login_name ≡ login_name) × (login_name ≡ login_name)))
login_iff_example =
    login_iff prompt login_name login_name newcomer newcomer-IsAsked login_name-IsPlain
      login_name-IsPlain

console_letter : (b : ℕ) → 27 < b → b < 127 → IsTyped b
console_letter b above below = record {
  not_stop = omega arith;
  not_enter = omega arith;
  not_backspace = omega arith;
  not_tab = omega arith;
  not_delete = omega arith;
  not_escape = omega arith;
}

abbrev line : List ℕ
line = 99 ∷ 100 ∷ []

line-IsTyped : All IsTyped line
line-IsTyped = (
  console_letter 99 (omega arith) (omega arith),
  (console_letter 100 (omega arith) (omega arith), tt),
)

update_loop-line_example :
    (t' : Term) × (update_loop same prompt [] 0 (line ++ 13 ∷ line) at_console ≡ ok t')
    × (executed t'.effects ≡ [] ++ convert_excute_string (bytes_of "ab" ++ line) ∷ [])
    × (t'.client.text ≡ [])
    × (t'.client.ipos ≡ 0)
update_loop-line_example =
    update_loop-line same prompt [] line line 0 at_console line-IsTyped
      (record { cursor = refl; inserts = refl })

update_loop-delete_example : update_loop same prompt [] 0 (127 ∷ line) newcomer ≡ (
    if newcomer.client.ipos == 0 then panic else update_loop same prompt [] 0 (8 ∷ line) newcomer)
update_loop-delete_example = update_loop-delete same prompt [] line 0 newcomer

abbrev ten : List (List ℕ)
ten = [] ∷ [] ∷ [] ∷ [] ∷ [] ∷ [] ∷ [] ∷ [] ∷ [] ∷ [] ∷ []

push_all-take_example : push_all (line ∷ prompt ∷ []) ten ≡ take 10 (ten ++ line ∷ prompt ∷ [])
push_all-take_example = push_all-take (line ∷ prompt ∷ []) ten (omega arith)

backspace-Leaves_example : Leaves (erased console) (backspace at_console)
backspace-Leaves_example = backspace-Leaves at_console (omega arith)

-- Two clients in the table.
abbrev table : TelnetUtils
table = record new_telnet {
  clients = Maps.insert "a" console (Maps.insert "b" (new_client "b") []);
}

nothing-IsWellFormed : IsWellFormed new_telnet
unfolding Maps.get
nothing-IsWellFormed = record { at = λ k v e. cc }

table-IsWellFormed : IsWellFormed table
table-IsWellFormed =
    Every-insert IsValid "a" console _ console-IsValid
      (Every-insert IsValid "b" (new_client "b") [] newcomer-IsValid nothing-IsWellFormed)

update_data-IsWellFormed_example : Ensures (λ r. IsWellFormed r.0) (update_data same "a" keys table)
update_data-IsWellFormed_example =
    update_data-IsWellFormed same "a" keys table table-IsWellFormed keys_no_delete

-- A letter on one socket: it is typed at the end of that client's line.
abbrev after_letter : TelnetUtils
after_letter = record table {
  clients = Maps.insert "a" (record console { text = bytes_of "abc"; ipos = 3 }) table.clients;
}

update_data_letter :
    update_data same "a" (99 ∷ []) table ≡ ok (after_letter, sent "a" (99 ∷ []) ∷ [])
unfolding update_data Maps.get Maps.insert update_client
update_data_letter = refl
