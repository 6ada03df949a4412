-- ===== src/Net/Events.antt =====
-- `MioEventMgr` of src/mgr/mio_event_mgr.rs and `WebSocketMgr` of src/mgr/websocket_mgr.rs: the sockets by
-- their names, and what happens to them. Both call each other, the Lua engine, the log and the timer, so
-- they share one state; locks make each operation one step.
pub mod Dispatch
pub mod Close
pub mod Lost
pub mod Poll
pub mod Peers
use tunm.Prelude.{
  ℕ, Bool, true, false, not, ◌&&◌, ◌||◌, ◌==◌, Option, none, some, List, [], ◌∷◌, ◌++◌, bytes_of,
  length, drop, if◌then◌else◌, ◌%◌, ◌^◌, leb, Outcome, ok, panic,
}
use tunm.Prelude.Maps as Maps
use tunm.Prelude.Maps.{HashMap, text_eq, is_some}
use tunm.Net.Values.{NetResult, success, failure}
use tunm.Net.Buffer.{ProtoBuffer}
use tunm.Net.Msg.{NetMsg, new_by_data, new_by_proto_data, read_head, len_of, at_rpos}
use tunm.Net.Socket.{Callback, SocketEvent, is_server, is_client, write_data, new_event}
use tunm.Lua.Engine.{Text, Foreign, LuaElem, message, new_connection, lost_connection}

-- `TimeHandle`.
pub record TimeHandle : Type 0 where
  pub timer_name : Text
  pub unique : Text

-- A timer as it was added: what it triggers, its step in milliseconds, and its two flags.
pub record TimerStep : Type 0 where
  pub handle : TimeHandle
  pub step_ms : ℕ
  pub is_repeat : Bool
  pub at_once : Bool

-- What a websocket is asked to do, by its sender.
pub data SenderCall : Type 0 where
  send_binary : ℕ → List ℕ → SenderCall
  close_normal : ℕ → SenderCall
  close_with_reason : ℕ → Text → SenderCall

-- "The timer closed it", "the server closed it" and "the client closed it", in the source's words.
abbrev pub timed_close : Text
timed_close = 229 ∷ 174 ∷ 154 ∷ 230 ∷ 151 ∷ 182 ∷ 229 ∷ 133 ∷ 179 ∷ 233 ∷ 151 ∷ 173 ∷ []

abbrev pub server_close : Text
server_close =
    230 ∷ 156 ∷ 141 ∷ 229 ∷ 138 ∷ 161 ∷ 231 ∷ 171 ∷ 175 ∷ 229 ∷ 133 ∷ 179 ∷ 233 ∷ 151 ∷ 173 ∷ []

abbrev pub client_close : Text
client_close =
    229 ∷ 174 ∷ 162 ∷ 230 ∷ 136 ∷ 183 ∷ 231 ∷ 171 ∷ 175 ∷ 229 ∷ 133 ∷ 179 ∷ 233 ∷ 151 ∷ 173 ∷ []

module _ (B : ProtoBuffer) (F : Foreign B) where
  pub record World : Type 0 where
    pub connect_ids : HashMap Text (SocketEvent B)
    pub senders : HashMap Text ℕ
    pub exec_list : List (LuaElem B F)
    pub timers : List TimerStep
    pub logs : List Text
    pub registered : List ℕ
    pub called : List SenderCall
    pub exit : Bool

  abbrev pub enqueue : LuaElem B F → World → World
  enqueue elem w = record w { exec_list = w.exec_list ++ elem ∷ [] }

  unfoldable pub apply_lost_connect : Text → Text → World → World
  apply_lost_connect unique reason w = enqueue (lost_connection unique reason) w

  abbrev pub store : SocketEvent B → World → World
  store ev w = record w { connect_ids = Maps.insert ev.unique ev w.connect_ids }

  abbrev pub log : Text → World → World
  log info w = record w { logs = w.logs ++ info ∷ [] }

  abbrev pub announce : SocketEvent B → World → World
  announce ev w =
      enqueue (new_connection ev.cookie ev.unique ev.client_ip ev.server_port ev.websocket) w

  unfoldable pub new_socket_event_lua : SocketEvent B → World → World
  new_socket_event_lua ev w = store ev (announce ev w)

  unfoldable pub new_socket_server : SocketEvent B → World → World
  new_socket_server ev w = store ev w

  unfoldable pub new_socket_client : SocketEvent B → World → World
  new_socket_client ev w = store ev w

  abbrev or_mio : Option Callback → Option Callback
  or_mio none = some Callback.mio_callback
  or_mio (some callback) = some callback

  abbrev register : SocketEvent B → World → World
  register ev w =
      if is_client B ev then record w { registered = w.registered ++ ev.token ∷ [] } else w

  unfoldable pub new_socket_local : SocketEvent B → World → World
  new_socket_local ev w =
      let ev' = record ev { read = or_mio ev.read; end = or_mio ev.end } in
      store ev' (announce ev' (register ev w))

  unfoldable pub exist_socket_event : Text → World → Bool
  exist_socket_event unique w = Maps.contains_key unique w.connect_ids

  unfoldable pub all_socket_size : World → ℕ
  all_socket_size w = length w.connect_ids

  unfoldable pub remove_connection : Text → World → World
  remove_connection unique w = record w { connect_ids = Maps.remove unique w.connect_ids }

  unfoldable pub shutdown_event : World → World
  shutdown_event w = record w { exit = true }

  -- The line that is logged for a kick.
  abbrev pub kick_text : Text → Text → Text
  kick_text unique reason = bytes_of "Close Fd " ++ unique ++ bytes_of " by Reason " ++ reason

  abbrev pub kick_timer : Text → TimerStep
  kick_timer unique = record {
    handle = record { timer_name = bytes_of "KICK_SOCKET"; unique = unique };
    step_ms = 20;
    is_repeat = false;
    at_once = false;
  }

  -- Either a timer that tells the scripts later, or the scripts are told at once.
  abbrev pub kicked_by : Text → World → Bool → World
  kicked_by unique w true = record w { timers = w.timers ++ kick_timer unique ∷ [] }
  kicked_by unique w false = enqueue (lost_connection unique server_close) w

  unfoldable pub kicked : Text → SocketEvent B → World → World
  kicked unique ev w = kicked_by unique w (not ev.websocket || not ev.mio)

  -- With the socket of the name, if there is one.
  abbrev pub kick_on : Text → World → Option (SocketEvent B) → World
  kick_on unique w none = w
  kick_on unique w (some ev) =
      kicked unique ev (record w { connect_ids = Maps.remove unique w.connect_ids })

  unfoldable pub add_kick_event : Text → Text → World → World
  add_kick_event unique reason w =
      kick_on unique (log (kick_text unique reason) w) (Maps.get unique w.connect_ids)

  -- The timer of a kick goes off.
  unfoldable pub on_kick_trigger : Text → World → World
  on_kick_trigger unique w = apply_lost_connect unique timed_close w

  abbrev pub closed_on : Text → ℕ → Text → World → Option ℕ → World
  closed_on unique sender reason w none = record w {
    called = w.called ++ close_with_reason sender reason ∷ [];
  }
  closed_on unique sender reason w (some _) =
      add_kick_event unique reason (record w { senders = Maps.remove unique w.senders })

  -- `WebSocketMgr::on_close`.
  unfoldable pub on_close : Text → ℕ → Text → World → World
  on_close unique sender reason w = closed_on unique sender reason w (Maps.get unique w.senders)

  abbrev pub ws_close_on : Text → World → Option ℕ → World × Bool
  ws_close_on unique w none = (w, false)
  ws_close_on unique w (some sender) = (
    record (log (bytes_of "Server active Websocket ready close unique " ++ 34 ∷ unique ++ 34 ∷ [])
        w) { called = w.called ++ close_normal sender ∷ [] },
    true,
  )

  -- `WebSocketMgr::close_fd`.
  unfoldable pub ws_close_fd : Text → World → World × Bool
  ws_close_fd unique w = ws_close_on unique w (Maps.get unique w.senders)
