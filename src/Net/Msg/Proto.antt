-- ===== src/Net/Msg/Proto.antt =====
-- `NetMsg::new_by_proto_data` of src/net/net_msg.rs: messages that arrive without their head.
use tunm.Prelude.{
  ℕ, ◌+◌, ◌%◌, ◌^◌, ◌<◌, ◌≡◌, refl, sym, ap, ◌∙◌, List, [], ◌++◌, length, drop, length-append,
  length-drop, arith,
}
use tunm.Net.Values.{success, ◌>>=◌}
use tunm.Net.Buffer.{ProtoBuffer, BufferLaws}
use tunm.Net.Msg.{plain_head, head_fill_up, NetMsg, end_msg, new_by_proto_data, parse_proto}
use tunm.Net.Msg.Laws.{drop-append, drop-head}
use tunm.Net.Msg.RoundTrip.{IsMessage, end_msg-head, Ended, end_msg-Ended}
use tunm.Net.Msg.Detail.{Filled, write-Filled, plain-InRange}

module _ (B : ProtoBuffer) (laws : BufferLaws B) where
  open B use {Buffer, new, val, get_rpos, get_wpos, set_rpos, write}
  open laws use {string_bytes}

  -- Room for a head and the bytes behind it, before the message is ended.
  abbrev received : List ℕ → Buffer
  received content = set_rpos 26 (write content (write head_fill_up new))

  abbrev unended : List ℕ → List ℕ → NetMsg B
  unended name content = record {
    buffer = received content;
    head = plain_head (B.len (received content) % 2 ^ 32) 0;
    pack_name = name;
  }

  received-Filled : (content : List ℕ) → Filled B laws (received content) (head_fill_up ++ content)
  received-Filled content =
      let start : Filled B laws new [] = record { bytes = laws.val_new; wpos = laws.wpos_new } in
      let f = write-Filled B laws content (write-Filled B laws head_fill_up start) in
      record { bytes = laws.val_set_rpos 26 _ ∙ f.bytes; wpos = laws.wpos_set_rpos 26 _ ∙ f.wpos }

  length-received : (content : List ℕ) → length (val (received content)) ≡ 26 + length content
  length-received content =
      ap length (received-Filled content).bytes ∙ length-append head_fill_up content

  behind_head : (content : List ℕ) → drop 26 (val (received content)) ≡ content
  behind_head content =
      ap (drop 26) (received-Filled content).bytes ∙ drop-append head_fill_up content

  unended-IsMessage :
      (name rest : List ℕ)
      → length name < 2 ^ 16
      → 26 + length (string_bytes name ++ rest) < 2 ^ 32
      → IsMessage B laws name (unended name (string_bytes name ++ rest))
  unended-IsMessage name rest short fits =
      let content : List ℕ = string_bytes name ++ rest in
      let f = received-Filled content in
      record {
        at_end = f.wpos ∙ ap length (sym f.bytes);
        room = omega (arith, length-received content);
        fits = omega (arith, length-received content, fits);
        short = short;
        range = plain-InRange 0 (omega arith);
        rest = rest;
        body = behind_head content;
      }

  new_by_proto_data-string :
      (name rest : List ℕ)
      → length name < 2 ^ 16
      → new_by_proto_data B (string_bytes name ++ rest)
        ≡ success (end_msg B (unended name (string_bytes name ++ rest)))
  unfolding new_by_proto_data parse_proto ◌>>=◌
  new_by_proto_data-string name rest short =
      let content : List ℕ = string_bytes name ++ rest in
      let read =
        laws.decode_str_raw_read name (received content) rest short
          (rw laws.rpos_set_rpos (behind_head content)) in
      rw (read, laws.set_rpos_twice, laws.set_rpos_twice) refl

  -- A message that was ended and loses its 26 bytes of head on the way, as it does to a websocket, is
  -- made by `new_by_proto_data` to a message with the same name and the same bytes behind a head, which
  -- holds the length, and is zero otherwise.
  pub end_msg-new_by_proto_data :
      (name : List ℕ) (m : NetMsg B)
      → IsMessage B laws name m
      → (p : NetMsg B) × (new_by_proto_data B (drop 26 (val (end_msg B m).buffer)) ≡ success p)
        × (p.head ≡ plain_head (length (val m.buffer)) 0)
        × (p.pack_name ≡ name)
        × (drop 26 (val p.buffer) ≡ drop 26 (val m.buffer))
  unfolding end_msg
  end_msg-new_by_proto_data name m i = (
    end_msg B u,
    ap (new_by_proto_data B) sent ∙ new_by_proto_data-string name i.rest i.short,
    end_msg-head B laws name u iu ∙ ap (λ n. plain_head n 0) (length-received content ∙ sym size),
    refl,
    ap (drop 26) (end_msg-Ended B laws u iu.at_end iu.room).bytes
        ∙ drop-head B laws (end_msg B u).head _
        ∙ behind_head content
        ∙ sym i.body,
  )
    where
      content : List ℕ
      content = string_bytes name ++ i.rest

      ended : Ended B laws m (end_msg B m)
      ended = end_msg-Ended B laws m i.at_end i.room

      sent : drop 26 (val (end_msg B m).buffer) ≡ content
      sent = ap (drop 26) ended.bytes ∙ drop-head B laws (end_msg B m).head _ ∙ i.body

      size : length (val m.buffer) ≡ 26 + length content
      size = omega (arith, length-drop 26 (val m.buffer), ap length i.body, i.room)

      u : NetMsg B
      u = unended name content

      iu : IsMessage B laws name u
      iu = unended-IsMessage name i.rest i.short (omega (arith, size, i.fits))
