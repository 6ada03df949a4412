-- ===== src/Net/Events/Peers.antt =====
-- Two servers that talk over a websocket: `WebSocketMgr::send_message` of src/mgr/websocket_mgr.rs at one
-- end, `on_message` at the other.
use tunm.Prelude.{
  if◌then◌else◌, ℕ, ◌≤◌, ◌≡◌, refl, sym, subst, ap, ◌∙◌, Bool, true, false, some, List, [], ◌∷◌,
  ◌++◌, length, drop, arith, ok, slice_from,
}
use tunm.Prelude.Maps as Maps
use tunm.Prelude.Maps.{text_eq}
use tunm.Net.Buffer.{ProtoBuffer, BufferLaws}
use tunm.Net.Msg.{NetMsg, end_msg}
use tunm.Net.Msg.Laws.{drop-head}
use tunm.Net.Msg.RoundTrip.{
  IsMessage, end_msg-new_by_data, end_msg-Ended, length-end_msg, val-write-new,
}
use tunm.Net.Msg.Proto.{end_msg-new_by_proto_data}
use tunm.Net.Events.{World, send_binary, enqueue}
use tunm.Net.Events.Close.{send_message}
use tunm.Net.Events.Dispatch.{WsMessage, binary, on_message, on_message_client}
use tunm.Lua.Engine.{Text, Foreign, message}

module _ (B : ProtoBuffer) (laws : BufferLaws B) (F : Foreign B) where
  open B use {val, set_rpos, get_write_data}

  -- What handles a message at the other end: the server that was connected to hears from the one that
  -- opened the connection, which is local there.
  abbrev pub at_peer : Bool → Text → ℕ → WsMessage → World B F → World B F
  at_peer true unique sender m w = on_message B F unique m w
  at_peer false unique sender m w = on_message_client B F unique sender m w

  -- A message is sent as those bytes, and these are that message to the peer.
  pub record Delivered (name : List ℕ) (m : NetMsg B) (is_local : Bool) (unique : Text) (s : ℕ)
      (w : World B F) (peer : Text) (sender : ℕ) (w' : World B F) : Type 0 where
    pub bytes : List ℕ
    pub sent :
        send_message B F unique (end_msg B m) is_local w
        ≡ ok (record w { called = w.called ++ send_binary s bytes ∷ [] }, true)
    pub parsed : NetMsg B
    pub handled :
        at_peer is_local peer sender (binary bytes) w' ≡ enqueue B F (message peer parsed) w'
    pub named : parsed.pack_name ≡ name
    pub counted : parsed.head.len ≡ length (val m.buffer)
    pub same : drop 26 (val parsed.buffer) ≡ drop 26 (val m.buffer)

  written :
      (name : List ℕ) (m : NetMsg B)
      → IsMessage B laws name m
      → get_write_data (set_rpos 0 (end_msg B m).buffer) ≡ val (end_msg B m).buffer
  written name m i = laws.get_write_data_from_start (end_msg B m).buffer (
      (end_msg-Ended B laws m i.at_end i.room).wpos
      ∙ i.at_end
      ∙ sym (length-end_msg B laws m i.at_end i.room))

  pub sent_to :
      (unique : Text) (m : NetMsg B) (is_local : Bool) (s : ℕ) (w : World B F) {content : List ℕ}
      → Maps.get unique w.senders ≡ some s
      → (let bytes = get_write_data (set_rpos 0 m.buffer) in
          if is_local then ok bytes else slice_from bytes 26)
        ≡ ok content
      → send_message B F unique m is_local w
        ≡ ok (record w { called = w.called ++ send_binary s content ∷ [] }, true)
  unfolding send_message
  sent_to unique m is_local s w found cut = rw (send_message, found, cut) refl

  pub behind_head : (v : List ℕ) → 26 ≤ length v → slice_from v 26 ≡ ok (drop 26 v)
  behind_head v h = ground arith

  long_enough :
      (name : List ℕ) (m : NetMsg B)
      → IsMessage B laws name m
      → 26 ≤ length (val (end_msg B m).buffer)
  long_enough name m i = subst (λ n. 26 ≤ n) (sym (length-end_msg B laws m i.at_end i.room)) i.room

  -- A message that was ended, with a name and bytes behind it, and that is sent to a websocket that has a
  -- sender, whichever of the two ends opened the connection, reaches the scripts of the other end as one
  -- message with the same name, the same length and the same bytes behind the head; nothing else happens
  -- at either end.
  pub send_message-Delivered :
      (name : List ℕ) (m : NetMsg B) (is_local : Bool) (unique : Text) (s : ℕ) (w : World B F)
      (peer : Text) (sender : ℕ) (w' : World B F)
      → IsMessage B laws name m
      → Maps.get unique w.senders ≡ some s
      → Delivered name m is_local unique s w peer sender w'
  unfolding on_message on_message_client
  send_message-Delivered name m true unique s w peer sender w' i found =
      let e = end_msg-Ended B laws m i.at_end i.room in
      let read = end_msg-new_by_data B laws name m i in
      record {
        bytes = val (end_msg B m).buffer;
        sent = sent_to unique (end_msg B m) true s w found (ap ok (written name m i));
        parsed = record {
          buffer = set_rpos 26 (B.write (val (end_msg B m).buffer) B.new);
          head = record m.head { len = length (val m.buffer) };
          pack_name = name;
        };
        handled = rw read refl;
        named = refl;
        counted = refl;
        same =
            rw (laws.val_set_rpos, val-write-new B laws (val (end_msg B m).buffer), e.bytes)
              (drop-head B laws _ _);
      }
  send_message-Delivered name m false unique s w peer sender w' i found =
      let (p, read, head, named, same) = end_msg-new_by_proto_data B laws name m i in
      record {
        bytes = drop 26 (val (end_msg B m).buffer);
        sent =
            sent_to unique (end_msg B m) false s w found
              (ap (λ v. slice_from v 26) (written name m i) ∙ behind_head _ (long_enough name m i));
        parsed = p;
        handled = rw read refl;
        named = named;
        counted = ap (λ h. h.len) head;
        same = same;
      }
