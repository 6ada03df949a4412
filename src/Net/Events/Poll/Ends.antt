-- ===== src/Net/Events/Poll/Ends.antt =====
-- What the event loop of src/mgr/mio_event_mgr.rs does with a connection that has ended.
use tunm.Prelude.{ℕ, ◌+◌, ◌≡◌, refl, ap, ap₂, ◌∙◌, Bool, true, false, some, none, ok, if◌then◌else◌}
use tunm.Net.Events.Close.{deregister}
use tunm.Prelude.Maps as Maps
use tunm.Prelude.Maps.{text_eq, is_some}
use tunm.Net.Buffer.{ProtoBuffer}
use tunm.Net.Socket.{mio_callback, SocketEvent, token_to_unique, read_data}
use tunm.Lua.Engine.{Text, Foreign}
use tunm.Net.Events.{World, apply_lost_connect, client_close}
use tunm.Net.Events.Lost.{told, apply_lost_connect-told}
use tunm.Net.Events.Poll.{
  Event, Telnet, handle_on, handle_as, handle_event, after_read, let_go, call_end,
}

module _ (B : ProtoBuffer) (F : Foreign B) (t : Telnet B F) where
  let_go_connected :
      (ev : SocketEvent B) (fd : ℕ) (deregistered : Bool) (w : World B F)
      → ev.server ≡ none
      → ev.client ≡ some fd
      → let_go B F t ev deregistered w ≡ (
        record w {
          registered = if deregistered then deregister B F ev w.registered else w.registered;
        },
        deregistered,
      )
  let_go_connected ev fd true w no_server connected = rw (no_server, connected)
  let_go_connected ev fd false w no_server connected = rw (no_server, connected)

  -- When a plain connection, stored under its own name and with the event manager's callback for its end,
  -- can be read, and reading finds its end, an error or too much data: its socket is removed and the scripts
  -- are told once more that it is lost, whether or not the poll lets go of the descriptor. If it does, the
  -- turn goes on, and the poll watches what `deregister` leaves; if not, the turn ends with an error, and the
  -- poll watches what it did.
  pub handle_event-ends :
      (e : Event B) (ev : SocketEvent B) (w : World B F) (fd : ℕ)
      → Maps.get (token_to_unique e.token) w.connect_ids ≡ some ev
      → ev.unique ≡ token_to_unique e.token
      → ev.server ≡ none
      → ev.client ≡ some fd
      → ev.end ≡ some mio_callback
      → e.is_readable ≡ true
      → (read_data B e.pending e.reads ev).1 ≡ true
      → (w' : World B F) × (handle_event B F t e w ≡ ok (w', e.deregistered))
        × (Maps.get (token_to_unique e.token) w'.connect_ids ≡ none)
        × (told B F (token_to_unique e.token) w' ≡ told B F (token_to_unique e.token) w + 1)
        × (w'.registered
            ≡ (if e.deregistered then deregister B F ev w.registered else w.registered))
  unfolding handle_event read_data apply_lost_connect deregister
  handle_event-ends e ev w fd found own no_server connected own_end ready closed = (
    w',
    ap (handle_on B F t e unique w) found
        ∙ ap₂ (λ s c. handle_as B F t e unique ev w (is_some s) (is_some c)) no_server connected
        ∙ ap
            (λ r.
              if r
              then after_read B F t e.deregistered unique w (read_data B e.pending e.reads ev)
              else ok (w, true))
            ready
        ∙ ap (λ c. after_read B F t e.deregistered unique w (read, c)) closed
        ∙ ap (λ c. ok (let_go B F t read e.deregistered (call_end B F t read c gone))) own_end
        ∙ ap ok (let_go_connected read fd e.deregistered lost no_server connected),
    Maps.get-remove_self unique stored.connect_ids,
    ap (λ u. told B F unique (apply_lost_connect B F u client_close gone)) own
        ∙ apply_lost_connect-told B F unique client_close gone,
    refl,
  )
    where
      unique : Text
      unique = token_to_unique e.token

      read : SocketEvent B
      read = (read_data B e.pending e.reads ev).0

      stored : World B F
      stored = record w { connect_ids = Maps.insert unique read w.connect_ids }

      gone : World B F
      gone = record stored { connect_ids = Maps.remove unique stored.connect_ids }

      lost : World B F
      lost = apply_lost_connect B F read.unique client_close gone

      w' : World B F
      w' = record lost {
        registered =
            if e.deregistered then deregister B F read lost.registered else lost.registered;
      }
