-- ===== src/Net/Socket.antt =====
-- `SocketEvent` of src/net/socket_event.rs: a listening or connected socket with its buffers. A socket of
-- the operating system is its descriptor, and what it gives when it is read is a parameter.
pub mod Names
pub mod Reading
pub mod Setters
use tunm.Prelude.{
  ℕ, ◌+◌, Bool, true, false, Option, none, some, List, [], ◌∷◌, ◌++◌, bytes_of, length, take, drop,
  min, ◌==◌, ltb, if◌then◌else◌,
}
use tunm.Prelude.Decimal.{to_decimal}
use tunm.Prelude.Maps.{is_some}
use tunm.Net.Buffer.{ProtoBuffer}

-- The callbacks of the event manager, and those of the telnet console.
pub data Callback : Type 0 where
  mio_callback telnet_callback : Callback

pub record SocketEvent (B : ProtoBuffer) : Type 0 where
  pub unique : List ℕ
  pub cookie : ℕ
  pub client_ip : List ℕ
  pub token : ℕ
  pub server_port : ℕ
  pub in_buffer : B.Buffer
  pub out_buffer : B.Buffer
  pub online : Bool
  pub websocket : Bool
  pub local : Bool
  pub mio : Bool
  pub server : Option ℕ
  pub client : Option ℕ
  pub accept : Option Callback
  pub read : Option Callback
  pub write : Option Callback
  pub end : Option Callback

unfoldable pub token_to_unique : ℕ → List ℕ
token_to_unique token = bytes_of "NM:" ++ to_decimal token

module _ (B : ProtoBuffer) where
  unfoldable pub new_event : List ℕ → List ℕ → ℕ → SocketEvent B
  new_event unique client_ip server_port = record {
    unique = unique;
    cookie = 0;
    client_ip = client_ip;
    token = 0;
    server_port = server_port;
    in_buffer = B.new;
    out_buffer = B.new;
    online = true;
    websocket = false;
    local = false;
    mio = false;
    server = none;
    client = none;
    accept = none;
    read = none;
    write = none;
    end = none;
  }

  -- The descriptor of the connection, and the address of its peer.
  unfoldable pub new_client : ℕ → List ℕ → ℕ → SocketEvent B
  unfolding new_event token_to_unique
  new_client fd peer server_port = record (new_event (token_to_unique fd) peer server_port) {
    token = fd;
    client = some fd;
  }

  unfoldable pub new_server : ℕ → ℕ → SocketEvent B
  unfolding new_event token_to_unique
  new_server fd server_port = record (new_event (token_to_unique fd) [] server_port) {
    token = fd;
    server = some fd;
  }

  abbrev pub is_server : SocketEvent B → Bool
  is_server ev = is_some ev.server

  abbrev pub is_client : SocketEvent B → Bool
  is_client ev = is_some ev.client

  -- How a read of the connection goes: so many of its next bytes are ready (none at its end), or an error.
  pub data ReadResult : Type 0 where
    ready : ℕ → ReadResult
    would_block interrupted other_error : ReadResult

  -- The length of the array that is lent to each read.
  abbrev pub read_array_len : ℕ
  read_array_len = 2048

  -- The rounds of `read_data`, with the number of bytes read so far and the bytes that the connection has
  -- still to give. A read fills the array as far as bytes are ready. A connection that has given all these
  -- results would block. True is for the end of the connection, an error or too much data.
  unfoldable pub read_rounds : ℕ → List ℕ → List ReadResult → B.Buffer → B.Buffer × Bool
  read_rounds bytes_read pending [] b = ((B.get_read_array read_array_len b).0, false)
  read_rounds bytes_read pending (ready k ∷ more) b =
      let (lent, room) = B.get_read_array read_array_len b in
      let n = min k room in
      let got = take n pending in
      let total = bytes_read + length got in
      let moved = B.write_offset (length got) (B.fill_read_array got lent) in
      let rest = read_rounds total (drop n pending) more moved in
      if length got == 0 then (lent, true) else if ltb 655360 total then (moved, true) else rest
  read_rounds bytes_read pending (would_block ∷ more) b =
      ((B.get_read_array read_array_len b).0, false)
  read_rounds bytes_read pending (interrupted ∷ more) b =
      read_rounds bytes_read pending more (B.get_read_array read_array_len b).0
  read_rounds bytes_read pending (other_error ∷ more) b =
      ((B.get_read_array read_array_len b).0, true)

  unfoldable pub read_data : List ℕ → List ReadResult → SocketEvent B → SocketEvent B × Bool
  read_data pending results ev =
      let (b, closed) = read_rounds 0 pending results ev.in_buffer in
      (record ev { in_buffer = b }, closed)

  -- `write_data`: what the connection takes of the waiting bytes, if it takes any.
  unfoldable pub write_data : Option ℕ → SocketEvent B → SocketEvent B × Option Bool
  write_data none ev = (ev, none)
  write_data (some size) ev =
      let (b, all) = B.read_offset size ev.out_buffer in (record ev { out_buffer = b }, some all)
