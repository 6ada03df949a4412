-- ===== src/Net/Socket/Setters.antt =====
-- The methods of `SocketEvent`, src/net/socket_event.rs, that set one field, and what src/mgr/mio_event_mgr.rs
-- writes to a socket that a callback is given.
use tunm.Prelude.{ℕ, Bool, false, Option, some, List, if◌then◌else◌}
use tunm.Net.Buffer.{ProtoBuffer}
use tunm.Net.Socket.{Callback, SocketEvent, is_client, write_data}

module _ (B : ProtoBuffer) where
  unfoldable pub set_client_ip : List ℕ → SocketEvent B → SocketEvent B
  set_client_ip client_ip ev = record ev { client_ip = client_ip }

  unfoldable pub set_cookie : ℕ → SocketEvent B → SocketEvent B
  set_cookie cookie ev = record ev { cookie = cookie }

  unfoldable pub set_online : Bool → SocketEvent B → SocketEvent B
  set_online online ev = record ev { online = online }

  unfoldable pub set_websocket : Bool → SocketEvent B → SocketEvent B
  set_websocket websocket ev = record ev { websocket = websocket }

  unfoldable pub set_local : Bool → SocketEvent B → SocketEvent B
  set_local local ev = record ev { local = local }

  unfoldable pub set_mio : Bool → SocketEvent B → SocketEvent B
  set_mio mio ev = record ev { mio = mio }

  unfoldable pub set_server : ℕ → SocketEvent B → SocketEvent B
  set_server server ev = record ev { server = some server }

  unfoldable pub set_client : ℕ → SocketEvent B → SocketEvent B
  set_client client ev = record ev { client = some client }

  unfoldable pub set_accept : Option Callback → SocketEvent B → SocketEvent B
  set_accept accept ev = record ev { accept = accept }

  unfoldable pub set_read : Option Callback → SocketEvent B → SocketEvent B
  set_read read ev = record ev { read = read }

  unfoldable pub set_write : Option Callback → SocketEvent B → SocketEvent B
  set_write write ev = record ev { write = write }

  unfoldable pub set_end : Option Callback → SocketEvent B → SocketEvent B
  set_end end ev = record ev { end = end }

  -- `write_by_socket_event`, with what the connection takes of the bytes.
  unfoldable pub write_by_socket_event :
      Option ℕ → List ℕ → SocketEvent B → SocketEvent B × Option Bool
  unfolding write_data
  write_by_socket_event taken bytes ev =
      if is_client B ev
      then write_data B taken (record ev { out_buffer = B.write bytes ev.out_buffer })
      else (ev, some false)
