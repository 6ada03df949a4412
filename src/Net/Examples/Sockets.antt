-- ===== src/Net/Examples/Sockets.antt =====
-- Concrete sockets: messages that arrive in pieces, and connections that end.
pub mod Peers
use tunm.Prelude.{
  ℕ, ◌+◌, ◌≤◌, ◌≡◌, ◌≢◌, refl, true, false, some, none, List, [], ◌∷◌, ◌++◌, bytes_of, length, drop,
  arith, ok, if◌then◌else◌,
}
use tunm.Prelude.Int.{pos}
use tunm.Prelude.Maps as Maps
use tunm.Prelude.Decimal.{parse_usize, parse_digits, push_digit, to_decimal, digits}
use tunm.Prelude.Maps.{text_eq}
use tunm.Net.Sample.{sample, sample_laws}
use tunm.Net.Values.{success}
use tunm.Net.Msg.{NetMsg, plain_head, end_msg, encode_head, detail, new_by_proto_data}
use tunm.Net.Msg.Proto.{end_msg-new_by_proto_data}
use tunm.Net.Events.Peers.{Delivered, send_message-Delivered}
use tunm.Net.Msg.RoundTrip.{end_msg-Packet}
use tunm.Net.Socket.{
  SocketEvent, new_event, token_to_unique, mio_callback, ready, read_data, read_rounds,
}
use tunm.Net.Socket.Names.{unique_to_token, unique_to_token-token_to_unique}
use tunm.Net.Socket.Reading.{WasRead, read_data-WasRead}
use tunm.Net.Events.{World, add_kick_event, on_close}
use tunm.Net.Events.Close.{close_fd}
use tunm.Net.Events.Lost.{told, add_kick_event-told, close_fd-told, close_fd-on_close}
use tunm.Net.Events.Dispatch.Framing.{Frame}
use tunm.Net.Events.Poll.{Event, Telnet, handle_event}
use tunm.Net.Events.Poll.Ends.{handle_event-ends}
use tunm.Lua.Engine.{
  Text, Foreign, LuaMachine, LuaEngine, args_func, exec_string, execute_lua, execute_list,
  execute_elem, execute_args_func, exec,
}
use tunm.Lua.Order.{all_calls, queued_by, after_calls, execute_lua_lem}
use tunm.Net.Examples.{hi, hi_msg, hi_msg-IsMessage, hi_bytes}

abbrev pub foreign : Foreign sample
foreign = record { Value = ℕ; Redis = ℕ; decode_proto = λ b. (b, none) }

-- A Lua machine that counts its calls, and queues a text with the first.
abbrev counting : LuaMachine sample foreign
counting = record { Lua = ℕ; exec_func = λ call n. (n + 1, exec_string hi ∷ [], pos 0) }

abbrev waiting : LuaEngine sample foreign counting
waiting = record {
  exec_list =
      args_func hi (hi ∷ []) ∷ args_func hi (hi ∷ hi ∷ hi ∷ hi ∷ hi ∷ hi ∷ hi ∷ hi ∷ []) ∷ [];
  lua = 0;
}

execute_lua_lem_example : execute_lua sample foreign counting waiting ≡ record {
  exec_list =
      queued_by sample foreign counting (all_calls sample foreign waiting.exec_list) waiting.lua;
  lua =
      after_calls sample foreign counting (all_calls sample foreign waiting.exec_list) waiting.lua;
}
execute_lua_lem_example = execute_lua_lem sample foreign counting waiting

-- Eight arguments are one too many, so one call is made.
one_call : (execute_lua sample foreign counting waiting).lua ≡ 1
unfolding execute_lua execute_list execute_elem execute_args_func exec
one_call = refl

abbrev pub name : Text
name = bytes_of "NM:9"

-- A connection under its name, of which five bytes of a message have arrived.
abbrev pub half : SocketEvent sample
half = record (new_event sample name (bytes_of "peer") 8080) {
  token = 9;
  client = some 9;
  read = some mio_callback;
  end = some mio_callback;
  in_buffer = record { val = 34 ∷ 0 ∷ 0 ∷ 0 ∷ 0 ∷ []; rpos = 0; wpos = 5 };
}

abbrev pub with_socket : SocketEvent sample → World sample foreign
with_socket ev = record {
  connect_ids = (name, ev) ∷ [];
  senders = (name, 3) ∷ [];
  exec_list = [];
  timers = [];
  logs = [];
  registered = 9 ∷ [];
  called = [];
  exit = false;
}

unfoldable hi_frame : Frame sample sample_laws
unfolding end_msg encode_head detail
hi_frame = record {
  head = (end_msg sample hi_msg).head;
  name = hi;
  bytes = hi_bytes;
  packet = end_msg-Packet sample sample_laws hi hi_msg hi_msg-IsMessage;
  small = hi_small;
}
  where
    hi_small : length hi_bytes ≤ 65536
    hi_small = omega arith

-- The rest of that message arrives, with the first two bytes of another.
abbrev rest_of_hi : List ℕ
rest_of_hi = drop 5 hi_bytes ++ 34 ∷ 0 ∷ []

add_kick_event-told_example :
    let w' = add_kick_event sample foreign name hi (with_socket half) in
    (Maps.get name w'.connect_ids ≡ none)
    × (name ≢ hi → Maps.get hi w'.connect_ids ≡ Maps.get hi (with_socket half).connect_ids)
    × (told sample foreign name w'
        ≡ told sample foreign name (with_socket half)
          + (if Maps.contains_key name (with_socket half).connect_ids then 1 else 0))
add_kick_event-told_example = add_kick_event-told sample foreign name hi hi (with_socket half)

abbrev pub web : SocketEvent sample
web = record half { client = none; websocket = true; mio = true }

close_fd-told_example :
    let w' = (close_fd sample foreign name hi (with_socket half)).0 in
    (Maps.get name w'.connect_ids ≡ none)
    × (told sample foreign name w' ≡ told sample foreign name (with_socket half) + 1)
unfolding Maps.get new_event
close_fd-told_example = close_fd-told sample foreign name hi half (with_socket half) refl refl

close_fd-on_close_example :
    let w' =
      on_close sample foreign name 3 hi (close_fd sample foreign name hi (with_socket web)).0 in
    (Maps.get name w'.connect_ids ≡ none)
    × (told sample foreign name w' ≡ told sample foreign name (with_socket web))
unfolding Maps.get new_event
close_fd-on_close_example =
    close_fd-on_close sample foreign name hi hi 3 web (with_socket web) refl refl refl

abbrev no_telnet : Telnet sample foreign
no_telnet = record { on_accept = λ ev w. w; on_read = λ u w. w; on_end = λ ev w. w }

abbrev end_of_nine : Event sample
end_of_nine = record {
  token = 9;
  is_readable = true;
  accepts = [];
  pending = 1 ∷ [];
  reads = ready 1 ∷ ready 0 ∷ [];
  deregistered = false;
}

handle_event-ends_example :
    (w' : World sample foreign) × (handle_event sample foreign no_telnet end_of_nine
        (with_socket half)
      ≡ ok (w', false))
    × (Maps.get (token_to_unique 9) w'.connect_ids ≡ none)
    × (told sample foreign (token_to_unique 9) w'
        ≡ told sample foreign (token_to_unique 9) (with_socket half) + 1)
    × (w'.registered ≡ 9 ∷ [])
unfolding Maps.get new_event token_to_unique to_decimal digits read_data read_rounds
handle_event-ends_example =
    handle_event-ends sample foreign no_telnet end_of_nine half (with_socket half) 9 refl refl refl
      refl refl refl refl

read_data-WasRead_example :
    WasRead sample sample_laws 0 (34 ∷ 0 ∷ 0 ∷ 0 ∷ 0 ∷ []) end_of_nine.pending end_of_nine.reads (
      (read_data sample end_of_nine.pending end_of_nine.reads half).0.in_buffer,
      (read_data sample end_of_nine.pending end_of_nine.reads half).1,
    )
unfolding new_event
read_data-WasRead_example =
    read_data-WasRead sample sample_laws end_of_nine.pending end_of_nine.reads
      (34 ∷ 0 ∷ 0 ∷ 0 ∷ 0 ∷ []) half (record { fits = omega arith; bytes = refl; wpos = refl })
