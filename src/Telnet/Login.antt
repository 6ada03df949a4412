-- ===== src/Telnet/Login.antt =====
-- `TelnetUtils::login` of src/utils/telnet_utils.rs: the dialogue of a client that is not logged in.
use tunm.Prelude.{
  ℕ, ◌+◌, Bool, true, false, List, [], ◌∷◌, ◌++◌, ltb, ◌==◌, ◌&&◌, if◌then◌else◌, length, Outcome,
  ok, ◌>>=◌, slice_from, index, checked_sub, bytes_of,
}
use tunm.Prelude.Int.{negsuc}
use tunm.Telnet.Client.{
  ClientInfo, Term, send_client_msg, send_backspaces, push_record, backspace, check,
}

abbrev pub crlf : List ℕ
crlf = 13 ∷ 10 ∷ []

-- The password was entered: the client is logged in or has to start again.
unfoldable pub login_verdict : List ℕ → ClientInfo → Term → Term
unfolding send_client_msg check
login_verdict prompt c t =
    let passed = record c { benterpwd = false; blogin = true; records = [] } in
    let failed = record c { benterpwd = false; records = [] } in
    if check c
    then send_client_msg prompt
        (send_client_msg (bytes_of "login succeed!" ++ crlf) (record t { client = passed }))
    else send_client_msg (bytes_of "login failed!" ++ crlf ++ bytes_of "login:")
        (record t { client = failed })

-- The enter key: a name is followed by a password, and a password by the verdict.
unfoldable pub login_enter : List ℕ → Term → Term
unfolding push_record login_verdict
login_enter prompt t0 =
    let t = send_client_msg crlf t0 in
    let c = record t.client {
      records = push_record t.client.text t.client.records;
      text = [];
      ircdnum = negsuc 0;
      ipos = 0;
    } in
    let asked = record c { benterpwd = true } in
    if c.benterpwd
    then login_verdict prompt c (record t { client = c })
    else send_client_msg (bytes_of "password:") (record t { client = asked })

-- `b == &27 && (i + 1 > bytes.len() && bytes[i + 1] == 91)`.
unfoldable pub login_escape : List ℕ → ℕ → ℕ → Outcome Bool
login_escape bytes i b =
    if b == 27 && ltb (length bytes) (i + 1)
    then (do next ← index bytes (i + 1); ok (next == 91))
    else ok false

-- Any other byte joins the line, and is shown unless it belongs to a password.
unfoldable pub login_char : ℕ → Term → Outcome Term
unfolding send_backspaces
login_char b t =
    let c = record t.client { text = t.client.text ++ b ∷ [] } in
    let t' = record t { client = c } in
    if c.benterpwd then ok (record t' { client = record c { ipos = c.ipos + 1 } }) else do
      tail ← slice_from c.text c.ipos
      back ← checked_sub (length tail) 1
      let shown = send_backspaces back (send_client_msg tail t')
      ok (record shown { client = record c { ipos = c.ipos + 1 } })

-- One byte that is neither 255 nor 0.
unfoldable pub login_byte : List ℕ → List ℕ → ℕ → ℕ → Term → Outcome Term
unfolding login_enter backspace login_escape login_char
login_byte prompt bytes i b t =
    let typed : Outcome Term = do
      escape ← login_escape bytes i b
      if escape then ok t else login_char b t
    in if b == 13
      then ok (login_enter prompt t)
      else if b == 8
      then backspace t
      else if b == 10
      then ok t
      else if b == 9
      then ok t
      else typed

-- The loop over the bytes received: `i` is the position of the first of `rest` in `bytes`.
unfoldable pub login_loop : List ℕ → List ℕ → ℕ → List ℕ → Term → Outcome Term
unfolding login_byte
login_loop prompt bytes i [] t = ok t
login_loop prompt bytes i (b ∷ rest) t =
    let skip = login_loop prompt bytes (i + 1) rest t in
    let step = login_byte prompt bytes i b t >>= login_loop prompt bytes (i + 1) rest in
    if b == 255 then ok t else if b == 0 then skip else step

unfoldable pub login : List ℕ → List ℕ → Term → Outcome Term
unfolding login_loop
login prompt bytes t = login_loop prompt bytes 0 bytes t
