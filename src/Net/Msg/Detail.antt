-- ===== src/Net/Msg/Detail.antt =====
-- `NetMsg::new_by_detail` of src/net/net_msg.rs, and what its bytes are parsed to.
use tunm.Prelude.{
  ℕ, ◌+◌, ◌%◌, ◌^◌, ◌≤◌, ◌<◌, ◌≡◌, refl, sym, subst, ap, ◌∙◌, List, [], ◌++◌, length, drop,
  length-append, append-nil, append_assoc, arith,
}
use tunm.Net.Values.{success}
use tunm.Net.Buffer.{type_u16, ProtoBuffer, BufferLaws}
use tunm.Net.Msg.{plain_head, head_fill_up, NetMsg, end_msg, detail, new_by_detail, new_by_data}
use tunm.Net.Msg.Laws.{
  InRange, drop_nil, drop-add, drop-append, drop-head, drop-length, take-length,
}
use tunm.Net.Msg.RoundTrip.{
  IsMessage, end_msg-new_by_data, Ended, end_msg-Ended, length-end_msg, val-write-new,
}

pub plain-InRange : (msg_type : ℕ) → msg_type < 2 ^ 8 → InRange (plain_head 0 msg_type)
plain-InRange msg_type h = record {
  len = omega arith;
  cookie = omega arith;
  msg_type = h;
  msg_flag = omega arith;
  from_svr_type = omega arith;
  from_svr_id = omega arith;
  to_svr_type = omega arith;
  to_svr_id = omega arith;
  real_fd = omega arith;
}

module _ (B : ProtoBuffer) (laws : BufferLaws B) where
  open B use {Buffer, new, val, get_rpos, get_wpos, set_rpos, set_wpos, write}
  open laws use {number_bytes, string_bytes}

  -- Writing at the end of a buffer adds to it.
  pub record Filled (b : Buffer) (v : List ℕ) : Type 0 where
    pub bytes : val b ≡ v
    pub wpos : get_wpos b ≡ length v

  pub write-Filled :
      (d : List ℕ) {b : Buffer} {v : List ℕ} → Filled b v → Filled (write d b) (v ++ d)
  write-Filled d {b} {v} f = record {
    bytes =
        rw (laws.val_write d b fits, f.bytes, f.wpos, drop-add, drop-length, drop_nil, take-length)
          (append-nil (v ++ d));
    wpos = rw (laws.wpos_write, f.wpos, length-append) refl;
  }
    where
      fits : get_wpos b ≤ length (val b)
      fits = rw (f.bytes, f.wpos) omega arith

  -- What `new_by_detail` writes behind the room for the head.
  abbrev pub body : List ℕ → List ℕ → List ℕ
  body name content =
      string_bytes name ++ (number_bytes type_u16 (length content % 2 ^ 16) ++ content)

  detail-Filled :
      (msg_type : ℕ) (name content : List ℕ)
      → Filled (detail B msg_type name content).buffer (head_fill_up ++ body name content)
  unfolding detail
  detail-Filled msg_type name content =
      let start : Filled new [] = record { bytes = laws.val_new; wpos = laws.wpos_new } in
      let b = write head_fill_up new in
      let n = length content % 2 ^ 16 in
      rw
        (
          laws.encode_str_raw_write name b,
          laws.encode_number_write type_u16 n (write (string_bytes name) b),
        )
        (subst (Filled _) (simp append_assoc) (
          write-Filled content (
            write-Filled (number_bytes type_u16 n)
              (write-Filled (string_bytes name) (write-Filled head_fill_up start)))))

  length-body :
      (name content : List ℕ)
      → length (head_fill_up ++ body name content)
        ≡ 28 + length (string_bytes name) + length content
  length-body name content =
      rw
        (
          length-append head_fill_up (body name content),
          length-append (string_bytes name)
              (number_bytes type_u16 (length content % 2 ^ 16) ++ content),
          length-append (number_bytes type_u16 (length content % 2 ^ 16)) content,
          laws.length_number type_u16 (length content % 2 ^ 16),
        )
        (omega arith)

  pub detail-IsMessage :
      (msg_type : ℕ) (name content : List ℕ)
      → msg_type < 2 ^ 8
      → length name < 2 ^ 16
      → 28 + length (string_bytes name) + length content < 2 ^ 32
      → IsMessage B laws name (detail B msg_type name content)
  unfolding detail
  detail-IsMessage msg_type name content ht hn hc =
      let f = detail-Filled msg_type name content in
      record {
        at_end = f.wpos ∙ ap length (sym f.bytes);
        room = rw (f.bytes, length-body) (omega arith);
        fits = rw (f.bytes, length-body) hc;
        short = hn;
        range = plain-InRange msg_type ht;
        rest = number_bytes type_u16 (length content % 2 ^ 16) ++ content;
        body = rw f.bytes (drop-append head_fill_up (body name content));
      }

  -- A message that `new_by_detail` makes of a type, a short name and any content that leaves its length
  -- below 2^32 is parsed from its written bytes by `new_by_data`: the head holds that length and type
  -- and is zero otherwise, the name is the same, and behind the head stand name, count and content.
  pub new_by_detail-new_by_data :
      (msg_type : ℕ) (name content : List ℕ)
      → msg_type < 2 ^ 8
      → length name < 2 ^ 16
      → 28 + length (string_bytes name) + length content < 2 ^ 32
      → let sent = B.get_write_data (set_rpos 0 (new_by_detail B msg_type name content).buffer) in
        (m : NetMsg B) × (new_by_data B sent ≡ success m)
        × (m.head ≡ plain_head (28 + length (string_bytes name) + length content) msg_type)
        × (m.pack_name ≡ name)
        × (get_rpos m.buffer ≡ 26)
        × (drop 26 (val m.buffer) ≡ body name content)
  unfolding new_by_detail detail
  new_by_detail-new_by_data msg_type name content ht hn hc = (
    parsed,
    rw sent (end_msg-new_by_data B laws name m i),
    ap (λ n. plain_head n msg_type) (ap length filled.bytes ∙ length-body name content),
    refl,
    laws.rpos_set_rpos 26 _,
    rw (laws.val_set_rpos, val-write-new B laws bytes, ended.bytes, drop-head B laws, filled.bytes)
        (drop-append head_fill_up (body name content)),
  )
    where
      m : NetMsg B
      m = detail B msg_type name content

      i : IsMessage B laws name m
      i = detail-IsMessage msg_type name content ht hn hc

      filled : Filled m.buffer (head_fill_up ++ body name content)
      filled = detail-Filled msg_type name content

      ended : Ended B laws m (end_msg B m)
      ended = end_msg-Ended B laws m i.at_end i.room

      bytes : List ℕ
      bytes = val (end_msg B m).buffer

      parsed : NetMsg B
      parsed = record {
        buffer = set_rpos 26 (write bytes new);
        head = record m.head { len = length (val m.buffer) };
        pack_name = name;
      }

      sent : B.get_write_data (set_rpos 0 (end_msg B m).buffer) ≡ bytes
      sent =
          laws.get_write_data_from_start (end_msg B m).buffer
            (ended.wpos ∙ i.at_end ∙ sym (length-end_msg B laws m i.at_end i.room))
