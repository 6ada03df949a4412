-- ===== src/Net/Scripts/Examples.antt =====
-- Messages that a script hands on.
use tunm.Prelude.{◌≡◌, refl, true, false, some, none, [], ◌∷◌, drop, bytes_of}
use tunm.Prelude.Int.{pos, negsuc}
use tunm.Prelude.Maps as Maps
use tunm.Prelude.Maps.{text_eq}
use tunm.Prelude.{ok}
use tunm.Net.Sample.{sample, sample_laws}
use tunm.Net.Values.{◌>>=◌}
use tunm.Net.Msg.{NetMsg, end_msg, new_msg, read_head, read_fields}
use tunm.Net.Msg.RoundTrip.{end_msg-Packet}
use tunm.Net.Socket.{new_event}
use tunm.Lua.Engine.{new_connection}
use tunm.Net.Events.{send_binary, new_socket_event_lua}
use tunm.Net.Examples.{hi, hi_msg, hi_msg-IsMessage, hi_bytes}
use tunm.Net.Examples.Sockets.{foreign, name, web, half, with_socket}
use tunm.Net.Scripts.{pack_raw_message, forward_to_port, new_connect}
use tunm.Net.Scripts.Relay.{forward_to_port-pack_raw_message}

forward_to_port-pack_raw_message_example :
    (m : NetMsg sample) × (pack_raw_message sample foreign true (some hi_bytes) ≡ some (hi, m))
    × (forward_to_port sample foreign none name m (with_socket web)
        ≡ ok (record (with_socket web) { called = send_binary 3 (drop 26 hi_bytes) ∷ [] }, pos 0))
unfolding Maps.get end_msg new_event
forward_to_port-pack_raw_message_example =
    forward_to_port-pack_raw_message sample sample_laws foreign (end_msg sample hi_msg).head hi
      hi_bytes (end_msg-Packet sample sample_laws hi hi_msg hi_msg-IsMessage) none name web 3
      (with_socket web) refl refl refl

-- A connection that fails is told to the scripts under the name FAIL, with the cookie of the one that asked.
connect_fails :
    (new_connect sample foreign none 5 (with_socket half)).exec_list
    ≡ new_connection 5 (bytes_of "FAIL") [] 0 false ∷ []
unfolding new_connect new_event new_socket_event_lua
connect_fails = refl

-- A message that was not ended is not sent.
not_ended :
    forward_to_port sample foreign none name (new_msg sample) (with_socket web)
    ≡ ok (with_socket web, negsuc 0)
unfolding forward_to_port new_msg read_head read_fields ◌>>=◌
not_ended = refl
