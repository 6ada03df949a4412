-- ===== src/Net/Scripts/Relay.antt =====
-- A gate that hands a message on: `pack_raw_message` and `forward_to_port` of src/lua_custom/lua_network.rs.
use tunm.Prelude.{
  ℕ, ◌%◌, ◌^◌, ◌≡◌, sym, ap, ◌∙◌, Bool, true, false, ltb, ◌==◌, Option, some, List, [], ◌∷◌, ◌++◌,
  length, drop, arith, ok, ◌>>=◌, slice_from, if◌then◌else◌,
}
use tunm.Prelude.Int.{pos}
use tunm.Prelude.Maps as Maps
use tunm.Prelude.Maps.{text_eq}
use tunm.Net.Values.{success}
use tunm.Net.Buffer.{ProtoBuffer, BufferLaws}
use tunm.Net.Msg.{Head, NetMsg, read_head}
use tunm.Net.Msg.RoundTrip.{length-head_bytes, Packet, new_by_data-Packet, val-write-new}
use tunm.Net.Msg.Fields.{read_head_lem}
use tunm.Net.Socket.{SocketEvent}
use tunm.Lua.Engine.{Text, Foreign}
use tunm.Net.Events.{World, send_binary}
use tunm.Net.Events.Close.{send_netmsg, send_to}
use tunm.Net.Events.Peers.{sent_to, behind_head}
use tunm.Net.Scripts.{forward_to_port, send_msg_to_port, pack_raw_message, name_and_message, code}

module _ (B : ProtoBuffer) (laws : BufferLaws B) (F : Foreign B) where
  open B use {val, set_rpos, write, new, get_wpos, get_write_data}

  -- A message that was parsed of the bytes of a packet.
  module _ (h : Head) (name v : List ℕ) (p : Packet B laws h name v) where
    abbrev parsed : NetMsg B
    parsed = record { buffer = set_rpos 26 (write v new); head = h; pack_name = name }

    held : val parsed.buffer ≡ v
    held = laws.val_set_rpos 26 (write v new) ∙ val-write-new B laws v

    filled : get_wpos parsed.buffer ≡ length v
    filled =
        laws.wpos_set_rpos 26 (write v new) ∙ laws.wpos_write v new ∙ omega (arith, laws.wpos_new)

    -- Its head tells nothing new.
    read_again : read_head B parsed ≡ (parsed, success tt)
    read_again = read_head_lem B laws h name p.rest parsed p.range p.short (held ∙ p.bytes)

    small : length v % 2 ^ 32 ≡ length v
    small = omega (arith, p.range.len, p.counted)

    enough : ltb (length v) 26 ≡ false
    enough = rw (p.bytes, length-head_bytes) ground arith

    counts : (h.len == get_wpos parsed.buffer % 2 ^ 32) ≡ true
    counts = rw (filled, p.counted, small) (ground arith)

    long : ltb (get_wpos parsed.buffer) 26 ≡ false
    long = rw filled enough

    bytes_sent : get_write_data (set_rpos 0 parsed.buffer) ≡ v
    bytes_sent = laws.get_write_data_from_start parsed.buffer (filled ∙ ap length (sym held)) ∙ held

    content_of :
        (is_local : Bool)
        → (let bytes = get_write_data (set_rpos 0 parsed.buffer) in
            if is_local then ok bytes else slice_from bytes 26)
          ≡ ok (if is_local then v else drop 26 v)
    content_of true = ap ok bytes_sent
    content_of false =
        ap (λ bytes. slice_from bytes 26) bytes_sent
        ∙ behind_head B laws F v (
            omega (
              arith,
              ap length p.bytes,
              length-head_bytes B laws h (laws.string_bytes name ++ p.rest),
            ))

    send_netmsg_lem :
        (taken : Option ℕ) (unique : Text) (ev : SocketEvent B) (s : ℕ) (w : World B F)
        → Maps.get unique w.connect_ids ≡ some ev
        → ev.websocket ≡ true
        → Maps.get unique w.senders ≡ some s
        → send_netmsg B F taken unique parsed w
          ≡ ok (
            record w {
              called = w.called ++ send_binary s (if ev.local then v else drop 26 v) ∷ [];
            },
            true,
          )
    unfolding send_netmsg send_to
    send_netmsg_lem taken unique ev s w there web sender =
        rw (read_again, counts, there, web, read_again)
          (sent_to B laws F unique parsed ev.local s w sender (content_of ev.local))

    -- Bytes that are a message, which a script is given as a message with its name and hands on to a
    -- websocket that has a sender, leave as the same bytes if this server opened the websocket, and else as
    -- those behind the head; the script is told 0, and nothing else happens.
    pub forward_to_port-pack_raw_message :
        (taken : Option ℕ) (unique : Text) (ev : SocketEvent B) (s : ℕ) (w : World B F)
        → Maps.get unique w.connect_ids ≡ some ev
        → ev.websocket ≡ true
        → Maps.get unique w.senders ≡ some s
        → (m : NetMsg B) × (pack_raw_message B F true (some v) ≡ some (name, m))
          × (forward_to_port B F taken unique m w
              ≡ ok (
                record w {
                  called = w.called ++ send_binary s (if ev.local then v else drop 26 v) ∷ [];
                },
                pos 0,
              ))
    unfolding pack_raw_message forward_to_port send_msg_to_port
    forward_to_port-pack_raw_message taken unique ev s w there web sender = (
      parsed,
      ap (name_and_message B F) (new_by_data-Packet B laws h name v p),
      rw (long, read_again, counts)
          (ap (λ o. o >>= λ sent. ok (code B F sent))
            (send_netmsg_lem taken unique ev s w there web sender)),
    )
