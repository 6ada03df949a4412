-- ===== src/Net/Events/Poll.antt =====
-- One turn of the event loop and what starts it, in src/mgr/mio_event_mgr.rs. What the operating system
-- reports is a parameter, and so are the callbacks of the telnet console.
pub mod Ends
use tunm.Prelude.{
  ℕ, zero, suc, Bool, true, false, not, ◌||◌, Option, none, some, List, [], ◌∷◌, ◌++◌, bytes_of,
  ◌==◌, if◌then◌else◌, Outcome, ok, panic, ◌>>=◌, bytes_eq,
}
use tunm.Prelude.Decimal.{to_decimal}
use tunm.Prelude.Maps as Maps
use tunm.Prelude.Maps.{text_eq, is_some}
use tunm.Net.Buffer.{ProtoBuffer}
use tunm.Net.Socket.{
  Callback, mio_callback, telnet_callback, SocketEvent, ReadResult, token_to_unique, new_client,
  new_server, is_server, is_client, read_data,
}
use tunm.Lua.Engine.{Text, Foreign, LuaElem, args_func}
use tunm.Net.Events.{
  TimeHandle, TimerStep, World, enqueue, apply_lost_connect, store, new_socket_event_lua,
  new_socket_client, new_socket_server, timed_close, client_close,
}
use tunm.Net.Events.Close.{deregister}
use tunm.Net.Events.Dispatch.{try_dispatch_message}

-- What a listening socket gives when it is asked for a connection: its descriptor, its peer, and
-- whether the poll registers it.
pub data AcceptResult : Type 0 where
  connection : ℕ → Text → Bool → AcceptResult
  would_block interrupted other_error : AcceptResult

-- How listening at an address goes: it is none, it cannot be bound, or there is a socket that listens,
-- with its descriptor and whether the poll registers it.
pub data BindResult : Type 0 where
  bad_address not_bound : BindResult
  bound : ℕ → Bool → BindResult

-- A report of the poll: the descriptor, whether it can be read, what it gives then, the bytes it has to
-- give and how the reads of them go, and whether the poll lets go of the descriptor when it is asked to.
pub record Event (B : ProtoBuffer) : Type 0 where
  pub token : ℕ
  pub is_readable : Bool
  pub accepts : List AcceptResult
  pub pending : List ℕ
  pub reads : List (ReadResult B)
  pub deregistered : Bool

module _ (B : ProtoBuffer) (F : Foreign B) where
  -- The telnet console's callbacks.
  pub record Telnet : Type 0 where
    pub on_accept : SocketEvent B → World B F → World B F
    pub on_read : Text → World B F → World B F
    pub on_end : SocketEvent B → World B F → World B F

  -- The timers that trigger other parts of the program.
  pub record Triggers : Type 0 where
    pub run_one_server : World B F → World B F
    pub run_lua : World B F → World B F
    pub check_db : World B F → World B F

  unfoldable pub on_trigger : Triggers → TimeHandle → ℕ → World B F → World B F
  on_trigger t handle id w =
      let name = handle.timer_name in
      if bytes_eq name (bytes_of "MIO")
      then t.run_one_server w
      else if bytes_eq name (bytes_of "lua_set")
      then enqueue B F (args_func (bytes_of "timer_event_dispatch") (to_decimal id ∷ [])) w
      else if bytes_eq name (bytes_of "LUA_EXEC")
      then t.run_lua w
      else if bytes_eq name (bytes_of "CHECK_DB")
      then t.check_db w
      else if bytes_eq name (bytes_of "KICK_SOCKET")
      then apply_lost_connect B F handle.unique timed_close w
      else w

  -- `add_timer_step`, and the timers that the program starts with.
  unfoldable pub add_timer_step : Text → ℕ → Bool → Bool → World B F → World B F
  add_timer_step timer_name tick_step is_repeat at_once w = record w {
    timers =
        w.timers
        ++ record {
          handle = record { timer_name = timer_name; unique = [] };
          step_ms = tick_step;
          is_repeat = is_repeat;
          at_once = at_once;
        }
          ∷ [];
  }

  unfoldable pub add_lua_excute : World B F → World B F
  unfolding add_timer_step
  add_lua_excute = add_timer_step (bytes_of "LUA_EXEC") 1 true false

  unfoldable pub add_check_db_timer : World B F → World B F
  unfolding add_timer_step
  add_check_db_timer = add_timer_step (bytes_of "CHECK_DB") 300000 true false

  abbrev or_own : Option Callback → Option Callback
  or_own none = some mio_callback
  or_own (some callback) = some callback

  -- `listen_server`, which returns the descriptor, 0 for a wrong address, or an error if the poll does
  -- not register the socket.
  unfoldable pub listen_server :
      BindResult
      → ℕ
      → Option Callback
      → Option Callback
      → Option Callback
      → World B F
      → Outcome (World B F × Option ℕ)
  listen_server bad_address bind_port accept read end w = ok (w, some 0)
  listen_server not_bound bind_port accept read end w = panic
  listen_server (bound fd false) bind_port accept read end w = ok (w, none)
  listen_server (bound fd true) bind_port accept read end w =
      let ev = record (new_server B fd bind_port) {
        accept = or_own accept;
        read = or_own read;
        end = or_own end;
      } in
      ok (new_socket_server B F ev (record w { registered = w.registered ++ fd ∷ [] }), some fd)

  module _ (t : Telnet) where
    -- `if is_some { ev.set(...) }`.
    abbrev over : Option Callback → Option Callback → Option Callback
    over none old = old
    over (some callback) old = some callback

    -- A connection that was accepted, by the callback of the listening socket.
    abbrev accepted : Option Callback → SocketEvent B → World B F → World B F
    accepted (some telnet_callback) ev w = new_socket_client B F ev (t.on_accept ev w)
    accepted _ ev w = new_socket_event_lua B F ev w

    -- A connection that the poll has registered.
    abbrev pub accept_one : SocketEvent B → ℕ → Text → World B F → World B F
    accept_one server fd peer w =
        let ev = new_client B fd peer server.server_port in
        let ev' = record ev { read = over server.read ev.read; end = over server.end ev.end } in
        accepted server.accept ev' (record w { registered = w.registered ++ fd ∷ [] })

    -- The connections that wait. False is for an error, with which the turn ends: a connection that the
    -- poll does not register is dropped. A listening socket that has given all these would block.
    unfoldable pub accept_all : SocketEvent B → List AcceptResult → World B F → World B F × Bool
    accept_all server [] w = (w, true)
    accept_all server (connection fd peer true ∷ more) w =
        accept_all server more (accept_one server fd peer w)
    accept_all server (connection fd peer false ∷ more) w = (w, false)
    accept_all server (would_block ∷ more) w = (w, true)
    accept_all server (interrupted ∷ more) w = accept_all server more w
    accept_all server (other_error ∷ more) w = (w, false)

    abbrev pub call_read : Option Callback → Text → World B F → Outcome (World B F)
    call_read none unique w = ok w
    call_read (some mio_callback) unique w = try_dispatch_message B F unique w
    call_read (some telnet_callback) unique w = ok (t.on_read unique w)

    abbrev pub call_end : SocketEvent B → Option Callback → World B F → World B F
    call_end ev none w = w
    call_end ev (some mio_callback) w = apply_lost_connect B F ev.unique client_close w
    call_end ev (some telnet_callback) w = t.on_end ev w

    -- The socket, a server's or a client's, is deregistered; false if the poll refuses, with which the
    -- turn ends. A socket that is neither is left alone.
    abbrev pub let_go : SocketEvent B → Bool → World B F → World B F × Bool
    let_go ev deregistered w =
        if is_server B ev || is_client B ev
        then if deregistered
          then (record w { registered = deregister B F ev w.registered }, true)
          else (w, false)
        else (w, true)

    -- The connection has ended: it is taken from the table, `call_end`, and the poll is to let go of it.
    abbrev pub end_connection : Text → SocketEvent B → Bool → World B F → World B F × Bool
    end_connection unique ev deregistered w =
        let_go ev deregistered
          (call_end ev ev.end (record w { connect_ids = Maps.remove unique w.connect_ids }))

    abbrev pub fine : Outcome (World B F) → Outcome (World B F × Bool)
    fine o = o >>= λ w. ok (w, true)

    -- What was read of a connection.
    abbrev pub after_read :
        Bool → Text → World B F → SocketEvent B × Bool → Outcome (World B F × Bool)
    after_read deregistered unique w (ev, closed) =
        let stored : World B F = record w { connect_ids = Maps.insert unique ev w.connect_ids } in
        if closed
        then ok (end_connection unique ev deregistered stored)
        else fine (call_read ev.read unique stored)

    abbrev pub readable : Event B → Text → SocketEvent B → World B F → Outcome (World B F × Bool)
    readable e unique ev w =
        if e.is_readable
        then after_read e.deregistered unique w (read_data B e.pending e.reads ev)
        else ok (w, true)

    -- One report, for the socket of its descriptor: one that listens, one that is connected, or none.
    abbrev pub handle_as :
        Event B → Text → SocketEvent B → World B F → Bool → Bool → Outcome (World B F × Bool)
    handle_as e unique ev w true _ = ok (accept_all ev e.accepts w)
    handle_as e unique ev w false true = readable e unique ev w
    handle_as e unique ev w false false = ok (w, true)

    abbrev pub handle_on :
        Event B → Text → World B F → Option (SocketEvent B) → Outcome (World B F × Bool)
    handle_on e unique w none = ok (w, true)
    handle_on e unique w (some ev) = handle_as e unique ev w (is_server B ev) (is_client B ev)

    unfoldable pub handle_event : Event B → World B F → Outcome (World B F × Bool)
    handle_event e w =
        let unique = token_to_unique e.token in handle_on e unique w (Maps.get unique w.connect_ids)

    -- `run_one_server`, with what the poll reports.
    unfoldable pub run_one_server : List (Event B) → World B F → Outcome (World B F × Bool)
    run_one_server [] w = ok (w, true)
    run_one_server (e ∷ events) w = handle_event e w >>= λ (w', going).
        if going then run_one_server events w' else ok (w', false)

    -- `run_server`: the turns until the program is told to end, or one fails.
    unfoldable pub run_server : List (List (Event B)) → World B F → Outcome (World B F × Bool)
    run_server [] w = ok (w, true)
    run_server (events ∷ turns) w =
        if w.exit
        then ok (w, true)
        else run_one_server events w >>= λ (w', fine).
            if fine then run_server turns w' else ok (w', false)
