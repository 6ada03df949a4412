-- ===== src/Net/Events/Dispatch.antt =====
-- How bytes that arrive become messages for the Lua engine: `get_next_message`, `try_dispatch_message` and
-- `data_recieved` of src/mgr/mio_event_mgr.rs, and `on_message` of src/mgr/websocket_mgr.rs.
pub mod Framing
pub mod Stream
pub mod Progress
pub mod Pieces
use tunm.Prelude.{
  ℕ, zero, suc, ◌+◌, min, Bool, true, false, Option, none, some, List, [], ◌∷◌, ◌++◌, bytes_of, ltb,
  if◌then◌else◌, Outcome, ok, panic, ◌>>=◌, checked_sub,
}
use tunm.Prelude.Maps as Maps
use tunm.Prelude.Maps.{text_eq}
use tunm.Net.Values.{NetResult, success, failure}
use tunm.Net.Buffer.{type_u32, ProtoBuffer}
use tunm.Net.Msg.{NetMsg, min_len, new_by_data, new_by_proto_data}
use tunm.Net.Socket.{SocketEvent}
use tunm.Lua.Engine.{Text, Foreign, LuaElem, message}
use tunm.Net.Events.{World, enqueue, apply_lost_connect, add_kick_event, on_close}

-- The length of `READ_DATA`.
abbrev pub read_data_len : ℕ
read_data_len = 65536

-- "The text format is not supported" and "the binary protocol could not be parsed".
abbrev pub bad_text : Text
bad_text =
    230 ∷ 156 ∷ 170 ∷ 229 ∷ 143 ∷ 151 ∷ 230 ∷ 148 ∷ 175 ∷ 230 ∷ 140 ∷ 129 ∷ 231 ∷ 154 ∷ 132 ∷ 84
    ∷ 69 ∷ 88 ∷ 84 ∷ 230 ∷ 160 ∷ 188 ∷ 229 ∷ 188 ∷ 143 ∷ []

abbrev pub bad_binary : Text
bad_binary =
    232 ∷ 167 ∷ 163 ∷ 230 ∷ 158 ∷ 144 ∷ 228 ∷ 186 ∷ 140 ∷ 232 ∷ 191 ∷ 155 ∷ 229 ∷ 136 ∷ 182 ∷ 229
    ∷ 141 ∷ 143 ∷ 232 ∷ 174 ∷ 174 ∷ 229 ∷ 164 ∷ 177 ∷ 232 ∷ 180 ∷ 165 ∷ []

-- What a websocket receives.
pub data WsMessage : Type 0 where
  text binary : List ℕ → WsMessage

module _ (B : ProtoBuffer) where
  open B use {Buffer, get_rpos, set_rpos, len, decode_number, drain_collect}

  abbrev pub drained : Buffer × List ℕ → Buffer × Option (List ℕ)
  drained (b, bytes) = (b, some bytes)

  -- The bytes of the length that the head names, if that many are left.
  abbrev pub if_left : ℕ → Buffer → ℕ → Outcome (Buffer × Option (List ℕ))
  if_left length b left =
      ok (if ltb left length then (b, none) else drained (drain_collect length b))

  abbrev pub framed : ℕ → Buffer × Option ℕ → Outcome (Buffer × Option (List ℕ))
  framed rpos (b, none) = ok (b, none)
  framed rpos (b, some n) =
      checked_sub (len (set_rpos rpos b)) rpos >>= if_left (min n read_data_len) (set_rpos rpos b)

  unfoldable pub get_next_message : Buffer → Outcome (Buffer × Option (List ℕ))
  get_next_message b =
      let rest = framed (get_rpos b) (decode_number type_u32 b) in
      if ltb (len b) min_len then ok (b, none) else rest

module _ (B : ProtoBuffer) (F : Foreign B) where
  open B use {Buffer, len}

  abbrev pub End : Type 0
  End = Buffer × List (LuaElem B F) × Bool

  -- What follows a parsed message in the loop: it goes to the scripts, or the loop breaks.
  abbrev pub dispatch_parsed :
      (Buffer → List (LuaElem B F) → Outcome End)
      → Text
      → List (LuaElem B F)
      → Buffer
      → NetResult (NetMsg B)
      → Outcome End
  dispatch_parsed again unique queue b (failure _) = ok (b, queue, true)
  dispatch_parsed again unique queue b (success m) = again b (queue ++ message unique m ∷ [])

  abbrev pub dispatch_next :
      (Buffer → List (LuaElem B F) → Outcome End)
      → Text
      → List (LuaElem B F)
      → Buffer × Option (List ℕ)
      → Outcome End
  dispatch_next again unique queue (b, none) = ok (b, queue, false)
  dispatch_next again unique queue (b, some bytes) =
      dispatch_parsed again unique queue b (new_by_data B bytes)

  -- The loop of `try_dispatch_message` on the buffer of the socket, with what waits for the scripts; in
  -- the end, whether a message was not one. The fuel is more than the bytes of the buffer, of which every
  -- round takes some.
  unfoldable pub dispatch_loop : ℕ → Text → Buffer → List (LuaElem B F) → Outcome End
  dispatch_loop zero unique b queue = panic
  dispatch_loop (suc fuel) unique b queue =
      get_next_message B b >>= dispatch_next (λ b' q. dispatch_loop fuel unique b' q) unique queue

  -- The socket after the loop: kicked if a message was not one.
  abbrev pub dispatched :
      Text → SocketEvent B → World B F → Buffer × List (LuaElem B F) × Bool → World B F
  dispatched unique ev w (b, queue, bad) =
      let w' : World B F = record w {
        connect_ids = Maps.insert unique (record ev { in_buffer = b }) w.connect_ids;
        exec_list = queue;
      } in
      if bad then add_kick_event B F unique (bytes_of "Message Dispatch Error") w' else w'

  -- With the socket of the name, if there is one.
  abbrev pub dispatch_on : Text → World B F → Option (SocketEvent B) → Outcome (World B F)
  dispatch_on unique w none = ok w
  dispatch_on unique w (some ev) = do
    end ← dispatch_loop (len ev.in_buffer + 1) unique ev.in_buffer w.exec_list
    ok (dispatched unique ev w end)

  unfoldable pub try_dispatch_message : Text → World B F → Outcome (World B F)
  try_dispatch_message unique w = dispatch_on unique w (Maps.get unique w.connect_ids)

  abbrev pub recieved_on : Text → List ℕ → World B F → Option (SocketEvent B) → Outcome (World B F)
  recieved_on unique content w none = ok w
  recieved_on unique content w (some ev) =
      let ev' = record ev { in_buffer = B.write content ev.in_buffer } in
      try_dispatch_message unique (record w { connect_ids = Maps.insert unique ev' w.connect_ids })

  unfoldable pub data_recieved : Text → List ℕ → World B F → Outcome (World B F)
  data_recieved unique content w = recieved_on unique content w (Maps.get unique w.connect_ids)

  abbrev received :
      Text → (Text → World B F → World B F) → NetResult (NetMsg B) → World B F → World B F
  received unique refuse (failure _) w = refuse bad_binary w
  received unique refuse (success m) w = enqueue B F (message unique m) w

  -- `on_message` of a websocket that a client opened: what is refused is only reported as lost.
  unfoldable pub on_message : Text → WsMessage → World B F → World B F
  on_message unique (text _) w = apply_lost_connect B F unique bad_text w
  on_message unique (binary bytes) w =
      received unique (apply_lost_connect B F unique) (new_by_data B bytes) w

  -- `on_message` of a websocket that the server opened: what is refused closes it.
  unfoldable pub on_message_client : Text → ℕ → WsMessage → World B F → World B F
  on_message_client unique sender (text _) w = on_close B F unique sender bad_text w
  on_message_client unique sender (binary bytes) w =
      received unique (on_close B F unique sender) (new_by_proto_data B bytes) w
