-- ===== src/Net/Scripts.antt =====
-- What scripts do with the network, src/lua_custom/lua_network.rs and src/lua_custom/lua_timer.rs, on the state
-- of the event manager. What the functions return to the script comes back with that state.
pub mod Relay
pub mod Examples
use tunm.Prelude.{
  ℕ, Bool, true, false, ◌==◌, Option, none, some, ltb, bytes_of, if◌then◌else◌, ◌%◌, ◌^◌, Outcome,
  ok, ◌>>=◌, List, [],
}
use tunm.Prelude.Int.{ℤ, pos, negsuc}
use tunm.Net.Values.{NetResult, success, failure}
use tunm.Net.Buffer.{ProtoBuffer}
use tunm.Net.Msg.{NetMsg, read_head, new_by_data, len_of, min_len}
use tunm.Net.Socket.{SocketEvent, new_event, new_client}
use tunm.Net.Socket.Setters.{set_cookie, set_client_ip, set_local}
use tunm.Lua.Engine.{Text, Foreign}
use tunm.Net.Events.{World, new_socket_event_lua, new_socket_local}
use tunm.Net.Events.Close.{close_fd, send_netmsg}
use tunm.Net.Events.Poll.{add_timer_step}

module _ (B : ProtoBuffer) (F : Foreign B) where
  unfoldable pub script_close_fd : Text → World B F → World B F
  script_close_fd unique w = (close_fd B F unique (bytes_of "Script Close") w).0

  -- 0 for a success, else -1.
  abbrev pub code : World B F × Bool → World B F × ℤ
  code (w, true) = (w, pos 0)
  code (w, false) = (w, negsuc 0)

  unfoldable pub send_msg_to_port : Option ℕ → Text → NetMsg B → World B F → Outcome (World B F × ℤ)
  send_msg_to_port taken unique m w = send_netmsg B F taken unique m w >>= λ sent. ok (code sent)

  -- `forward_to_port`, without what the script's message keeps of it.
  unfoldable pub forward_to_port : Option ℕ → Text → NetMsg B → World B F → Outcome (World B F × ℤ)
  unfolding send_msg_to_port
  forward_to_port taken unique m w =
      let m' = (read_head B m).0 in
      let counted = m'.head.len == len_of B m' % 2 ^ 32 in
      if ltb (len_of B m) min_len
      then ok (w, negsuc 0)
      else if counted
      then send_msg_to_port taken unique m' w
      else ok (w, negsuc 0)

  -- A message of bytes, with its name.
  abbrev pub name_and_message : NetResult (NetMsg B) → Option (Text × NetMsg B)
  name_and_message (failure err) = none
  name_and_message (success m) = some (m.pack_name, m)

  abbrev pub raw_message : Option (List ℕ) → Option (Text × NetMsg B)
  raw_message none = none
  raw_message (some val) = name_and_message (new_by_data B val)

  unfoldable pub pack_raw_message : Bool → Option (List ℕ) → Option (Text × NetMsg B)
  pack_raw_message is_string val = if is_string then raw_message val else none

  -- A thread connects: the descriptor, the address of the peer, and the address as it is asked for again, if
  -- it can be told.
  abbrev pub ip_or_unknown : Option Text → Text
  ip_or_unknown none = bytes_of "unkown_ip"
  ip_or_unknown (some ip) = ip

  unfoldable pub new_connect : Option (ℕ × Text × Option Text) → ℕ → World B F → World B F
  unfolding set_cookie set_client_ip set_local
  new_connect none cookie w =
      new_socket_event_lua B F (set_cookie B cookie (new_event B (bytes_of "FAIL") [] 0)) w
  new_connect (some (fd, peer, peer_ip)) cookie w =
      let ev = set_cookie B cookie (new_client B fd peer 0) in
      let ev = set_client_ip B (ip_or_unknown peer_ip) ev in
      new_socket_local B F (set_local B true ev) w

  unfoldable pub timer_event_set : ℕ → Bool → Bool → World B F → World B F
  timer_event_set time is_repeat at_once w =
      add_timer_step B F (bytes_of "lua_set") time is_repeat at_once w
