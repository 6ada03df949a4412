-- ===== src/Telnet/Editor.antt =====
-- `TelnetUtils::update_data` of src/utils/telnet_utils.rs for a client that is logged in.
-- `String::from_utf8_lossy` is the parameter `lossy`.
use tunm.Prelude.{
  ℕ, ◌+◌, List, [], ◌∷◌, ◌++◌, ltb, ◌==◌, ◌&&◌, if◌then◌else◌, length, Outcome, ok, ◌>>=◌,
}
use tunm.Prelude.Int.{negsuc}
use tunm.Telnet.Client.{Term, exec_string, send_client_msg, push_record, backspace}
use tunm.Telnet.Login.{crlf, login}
use tunm.Telnet.Keys.{is_empty, byte_is, key_escape, key_delete, key_char}
use tunm.Lua.Convert.{convert_excute_string}

module _ (lossy : List ℕ → List ℕ) where
  -- The enter key: a line that is not empty is remembered, and the line is executed.
  unfoldable pub key_enter : List ℕ → Term → Term
  unfolding send_client_msg push_record convert_excute_string
  key_enter prompt t0 =
      let t = send_client_msg crlf t0 in
      let c = t.client in
      let records = if is_empty c.text then c.records else push_record c.text c.records in
      let run = exec_string (convert_excute_string (lossy c.text)) in
      let c' = record c { records = records; text = []; ircdnum = negsuc 0; ipos = 0 } in
      send_client_msg prompt (record { client = c'; effects = t.effects ++ run ∷ [] })

  -- The loop over the bytes received. The enter key and an escape sequence end it.
  unfoldable pub update_loop : List ℕ → List ℕ → ℕ → List ℕ → Term → Outcome Term
  unfolding key_enter backspace key_delete byte_is key_escape key_char
  update_loop prompt bytes i [] t = ok t
  update_loop prompt bytes i (b ∷ rest) t =
      let continue = update_loop prompt bytes (i + 1) rest in
      let skip = continue t in
      let erased = backspace t >>= continue in
      let deleted = key_delete t >>= continue in
      let typed = key_char b t >>= continue in
      if b == 255
      then ok t
      else if b == 13
      then ok (key_enter prompt t)
      else if b == 8
      then erased
      else if b == 9
      then skip
      else if b == 127
      then deleted
      else if b == 27 && byte_is bytes (i + 1) 91 && ltb (i + 2) (length bytes)
      then key_escape bytes i t
      else typed

  -- What the received bytes do to a client.
  unfoldable pub update_client : List ℕ → List ℕ → Term → Outcome Term
  unfolding login update_loop
  update_client prompt bytes t =
      if t.client.blogin then update_loop prompt bytes 0 bytes t else login prompt bytes t
