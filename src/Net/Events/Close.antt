-- ===== src/Net/Events/Close.antt =====
-- Sending to a socket and closing it, in src/mgr/mio_event_mgr.rs and src/mgr/websocket_mgr.rs.
use tunm.Prelude.{
  ℕ, Bool, true, false, ◌==◌, Option, none, some, List, [], ◌∷◌, ◌++◌, if◌then◌else◌, ◌%◌, ◌^◌,
  Outcome, ok, ◌>>=◌, slice_from,
}
use tunm.Prelude.Maps as Maps
use tunm.Prelude.Maps.{text_eq}
use tunm.Net.Buffer.{ProtoBuffer}
use tunm.Net.Msg.{NetMsg, read_head, len_of}
use tunm.Net.Socket.{SocketEvent, is_client, write_data, new_event}
use tunm.Lua.Engine.{Text, Foreign}
use tunm.Net.Events.{World, send_binary, apply_lost_connect, ws_close_fd, new_socket_event_lua}

module _ (B : ProtoBuffer) (F : Foreign B) where
  -- The poll lets go of a descriptor.
  without : ℕ → List ℕ → List ℕ
  without fd [] = []
  without fd (t ∷ ts) = let rest = without fd ts in if t == fd then rest else t ∷ rest

  unfoldable pub deregister : SocketEvent B → List ℕ → List ℕ
  unfolding without
  deregister ev registered = elim ev.server [
    | some fd ↦ without fd registered
    | none ↦ elim ev.client [ some fd ↦ without fd registered | none ↦ registered ]
  ]

  abbrev pub close_by : Text → Text → World B F → Bool → World B F × Bool
  close_by unique reason w true = ws_close_fd B F unique w
  close_by unique reason w false = (apply_lost_connect B F unique reason w, true)

  abbrev pub removed : SocketEvent B → World B F → World B F
  removed ev w = record w {
    connect_ids = Maps.remove ev.unique w.connect_ids;
    registered = deregister ev w.registered;
  }

  abbrev pub close_on : Text → World B F → Option (SocketEvent B) → World B F × Bool
  close_on reason w none = (w, false)
  close_on reason w (some ev) = close_by ev.unique reason (removed ev w) ev.websocket

  -- `MioEventMgr::close_fd`.
  unfoldable pub close_fd : Text → Text → World B F → World B F × Bool
  close_fd unique reason w = close_on reason w (Maps.get unique w.connect_ids)

  -- `write_to_socket`, with what the connection takes of the bytes.
  unfoldable pub write_to_socket : Option ℕ → Text → List ℕ → World B F → World B F × Option Bool
  write_to_socket taken unique bytes w = elim (Maps.get unique w.connect_ids) [
    | none ↦ (w, some false)
    | some ev ↦
        let filled = record ev { out_buffer = B.write bytes ev.out_buffer } in
        let (ev', all) = write_data B taken filled in
        if is_client B ev
        then (record w { connect_ids = Maps.insert unique ev' w.connect_ids }, all)
        else (w, some false)
  ]

  -- `WebSocketMgr::send_message`: a connection that the server opened is sent the whole message, any
  -- other what stands behind the head.
  unfoldable pub send_message : Text → NetMsg B → Bool → World B F → Outcome (World B F × Bool)
  send_message unique m is_local w = elim (Maps.get unique w.senders) [
    | none ↦ ok (w, false)
    | some sender ↦ do
      let bytes = B.get_write_data (B.set_rpos 0 m.buffer)
      content ← if is_local then ok bytes else slice_from bytes 26
      ok (record w { called = w.called ++ send_binary sender content ∷ [] }, true)
  ]

  abbrev taken_or_false : World B F × Option Bool → World B F × Bool
  taken_or_false (w, none) = (w, false)
  taken_or_false (w, some all) = (w, all)

  -- `send_netmsg` to a socket that is there.
  unfoldable pub send_to :
      Option ℕ → Text → SocketEvent B → NetMsg B → World B F → Outcome (World B F × Bool)
  send_to taken unique ev m w =
      let bytes = B.get_write_data (B.set_rpos 0 m.buffer) in
      if ev.websocket
      then send_message unique m ev.local w
      else ok (taken_or_false (write_to_socket taken unique bytes w))

  -- `send_netmsg`: the message's own head must count its bytes. What the caller's message keeps of it, the
  -- head as it is read and the position to read at, is not given back.
  unfoldable pub send_netmsg : Option ℕ → Text → NetMsg B → World B F → Outcome (World B F × Bool)
  send_netmsg taken unique m w =
      let m' = (read_head B m).0 in
      let counted = m'.head.len == len_of B m' % 2 ^ 32 in
      if counted
      then elim (Maps.get unique w.connect_ids) [
        | none ↦ ok (w, false)
        | some ev ↦ send_to taken unique ev m' w
      ]
      else ok (w, false)

  -- `on_open` of a websocket that a client opened, and of one that the server opened.
  unfoldable pub on_open : Text → Text → ℕ → ℕ → World B F → World B F
  on_open unique addr port sender w =
      let ev = record (new_event B unique addr port) { websocket = true; mio = true } in
      let w' = new_socket_event_lua B F ev w in
      record w' { senders = Maps.insert unique sender w'.senders }

  unfoldable pub on_open_client : Text → Text → ℕ → ℕ → ℕ → World B F → World B F
  on_open_client unique addr port cookie sender w =
      let ev = record (new_event B unique addr port) {
        cookie = cookie;
        websocket = true;
        local = true;
        mio = true;
      } in
      let w' = new_socket_event_lua B F ev w in
      record w' { senders = Maps.insert unique sender w'.senders }
