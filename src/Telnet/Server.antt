-- ===== src/Telnet/Server.antt =====
-- `TelnetUtils` of src/utils/telnet_utils.rs: the console's clients, and the callbacks of its sockets.
-- A client in the table is found by its socket. What is done to the outside comes back as effects.
use tunm.Prelude.{
  ℕ, ◌+◌, String, Option, none, some, List, [], ◌∷◌, ◌++◌, length, replicate, ◌==◌, if◌then◌else◌,
  Outcome, ok, panic, ◌>>=◌, bytes_of,
}
use tunm.Prelude.Maps as Maps
use tunm.Prelude.Maps.{HashMap, string_eq}
use tunm.Telnet.Client.{ClientInfo, new_client, Effect, sent, Term, bs}
use tunm.Telnet.Login.{crlf}
use tunm.Telnet.Keys.{is_empty, clear_line}
use tunm.Telnet.Editor.{update_client}

pub record TelnetUtils : Type 0 where
  pub clients : HashMap String ClientInfo
  pub listen_fd : ℕ
  pub prompt : List ℕ

-- `TelnetUtils::new`.
abbrev pub new_telnet : TelnetUtils
new_telnet = record { clients = []; listen_fd = 0; prompt = bytes_of "telnet>" }

-- What `new_message` writes to one client: the prompt is erased, and drawn again below the message.
unfoldable pub message_to : List ℕ → List ℕ → ClientInfo → List Effect
message_to prompt msg c =
    let over = sent c.unique (replicate (length prompt + 1) bs) in
    let clear = sent c.unique (13 ∷ clear_line) in
    if c.blogin
    then over ∷ clear ∷ sent c.unique msg ∷ sent c.unique crlf ∷ sent c.unique prompt ∷ []
    else []

-- `new_message`: every client that is logged in sees the message.
unfoldable pub new_message : List ℕ → List ℕ → HashMap String ClientInfo → List Effect
unfolding message_to
new_message prompt msg [] = []
new_message prompt msg ((k, c) ∷ rest) = message_to prompt msg c ++ new_message prompt msg rest

unfoldable pub remove_client : String → TelnetUtils → TelnetUtils
remove_client unique s = record s { clients = Maps.remove unique s.clients }

unfoldable pub send : String → List ℕ → TelnetUtils → List Effect
send unique text s = elim (Maps.get unique s.clients) [
  | none ↦ []
  | some c ↦ if is_empty text then [] else sent c.unique text ∷ []
]

-- The client is changed in place, in the table.
abbrev pub put_back : String → TelnetUtils → Term → TelnetUtils × List Effect
put_back unique s t = (record s { clients = Maps.insert unique t.client s.clients }, t.effects)

module _ (lossy : List ℕ → List ℕ) where
  -- `update_data`; bytes for a socket that is not in the table are dropped.
  unfoldable pub update_data : String → List ℕ → TelnetUtils → Outcome (TelnetUtils × List Effect)
  update_data unique bytes s = elim (Maps.get unique s.clients) [
    | none ↦ ok (s, [])
    | some c ↦ update_client lossy s.prompt bytes (record { client = c; effects = [] }) >>= λ t.
        ok (put_back unique s t)
  ]

-- `accept_callback`: the banner, the first question, and the two telnet options of single bytes and
-- echo; then the client is in the table.
unfoldable pub accept_callback : List ℕ → String → TelnetUtils → TelnetUtils × List Effect
accept_callback banner unique s = (
  record s { clients = Maps.insert unique (new_client unique) s.clients },
  sent unique banner
      ∷ sent unique (bytes_of "login:")
      ∷ sent unique (255 ∷ 251 ∷ 3 ∷ [])
      ∷ sent unique (255 ∷ 251 ∷ 1 ∷ [])
      ∷ [],
)

-- `listen`, where `bound` is what `MioEventMgr::listen_server` returned.
unfoldable pub listen : Option ℕ → TelnetUtils → Outcome TelnetUtils
listen bound s =
    if s.listen_fd == 0
    then elim bound [ none ↦ ok s | some fd ↦ ok (record s { listen_fd = fd }) ]
    else panic
