-- ===== src/Net/Msg/RoundTrip.antt =====
-- Messages of src/net/net_msg.rs that are ended, sent and parsed again.
use tunm.Prelude.{
  ℕ, ◌+◌, ◌%◌, ◌^◌, ◌≤◌, ◌<◌, ◌≡◌, refl, subst, ap, ◌∙◌, some, List, ◌++◌, length, drop,
  length-append, length-drop, append-nil, arith, true, false, ltb, ◌==◌,
}
use tunm.Net.Values.{success, ◌>>=◌, >>=-success}
use tunm.Net.Buffer.{NumType, width, ProtoBuffer, BufferLaws}
use tunm.Net.Msg.{Head, NetMsg, end_msg, encode_head, decode_head, checked, new_by_data, result}
use tunm.Net.Msg.Laws.{
  head_bytes, put, encode_head-Wrote, decode_head_lem, InRange, drop_nil, drop-head,
}

module _ (B : ProtoBuffer) (laws : BufferLaws B) where
  open B use {Buffer, new, val, get_rpos, get_wpos, set_rpos, set_wpos, write}
  open laws use {number_bytes, string_bytes}

  length-put :
      (t : NumType) (n : ℕ) (rest : List ℕ) → length (put B laws t n rest) ≡ width t + length rest
  length-put t n rest = rw (length-append, laws.length_number t n) refl

  pub length-head_bytes :
      (h : Head) (rest : List ℕ) → length (head_bytes B laws h rest) ≡ 26 + length rest
  length-head_bytes h rest =
      rw
        (
          length-put, length-put, length-put, length-put, length-put, length-put, length-put,
          length-put, length-put,
        )
        omega arith

  -- Ending a message writes its head over the first 26 bytes, and leaves the positions.
  pub record Ended (m e : NetMsg B) : Type 0 where
    pub bytes : val e.buffer ≡ head_bytes B laws e.head (drop 26 (val m.buffer))
    pub wpos : get_wpos e.buffer ≡ get_wpos m.buffer

  pub end_msg-Ended :
      (m : NetMsg B)
      → get_wpos m.buffer ≡ length (val m.buffer)
      → 26 ≤ length (val m.buffer)
      → Ended m (end_msg B m)
  unfolding end_msg
  end_msg-Ended m at_end long = record {
    bytes = laws.val_set_wpos _ _ fits ∙ written;
    wpos = laws.wpos_set_wpos _ _ fits;
  }
    where
      h : Head
      h = record m.head { len = get_wpos m.buffer % 2 ^ 32 }

      b : Buffer
      b = encode_head B h (set_wpos 0 m.buffer)

      written : val b ≡ head_bytes B laws h (drop 26 (val m.buffer))
      written = encode_head-Wrote B laws h (record {
        wpos = laws.wpos_set_wpos 0 m.buffer (omega arith);
        bytes = laws.val_set_wpos 0 m.buffer (omega arith);
        filled = refl;
      })

      fits : get_wpos m.buffer ≤ length (val b)
      fits = rw (written, length-head_bytes, length-drop) omega arith

  pub length-end_msg :
      (m : NetMsg B)
      → get_wpos m.buffer ≡ length (val m.buffer)
      → 26 ≤ length (val m.buffer)
      → length (val (end_msg B m).buffer) ≡ length (val m.buffer)
  length-end_msg m at_end long =
      rw ((end_msg-Ended m at_end long).bytes, length-head_bytes, length-drop) (omega arith)

  -- The bytes of a message: a head that counts them, a name and what follows it.
  pub record Packet (h : Head) (name : List ℕ) (v : List ℕ) : Type 0 where
    pub range : InRange h
    pub counted : h.len ≡ length v
    pub short : length name < 2 ^ 16
    pub rest : List ℕ
    pub bytes : v ≡ head_bytes B laws h (string_bytes name ++ rest)

  -- What is written into a new buffer is what it holds.
  pub val-write-new : (v : List ℕ) → val (write v new) ≡ v
  val-write-new v =
      rw (laws.val_write v new fits, laws.wpos_new, laws.val_new, drop_nil) (append-nil v)
    where
      fits : get_wpos new ≤ length (val new)
      fits = rw (laws.wpos_new, laws.val_new) omega arith

  pub new-at_start : (v : List ℕ) → set_rpos 0 (write v new) ≡ write v new
  new-at_start v =
      subst (λ r. set_rpos r (write v new) ≡ write v new) (laws.rpos_write v new ∙ laws.rpos_new)
        (laws.set_rpos_same (write v new))

  pub name_at :
      (h : Head) (name rest : List ℕ) (b : Buffer)
      → length name < 2 ^ 16
      → val b ≡ head_bytes B laws h (string_bytes name ++ rest)
      → B.decode_str_raw (set_rpos 26 b) ≡ (set_rpos (26 + length (string_bytes name)) b, some name)
  name_at h name rest b short e =
      let read =
        laws.decode_str_raw_read name (set_rpos 26 b) rest short
          (rw (laws.rpos_set_rpos, laws.val_set_rpos, e) (drop-head B laws h _)) in
      rw (laws.rpos_set_rpos, laws.set_rpos_twice) at read

  checked_lem :
      (v : List ℕ) (h : Head) (name : List ℕ) (b : Buffer) {q : ℕ}
      → h.len ≡ length v
      → B.decode_str_raw (set_rpos 26 b) ≡ (set_rpos q b, some name)
      → checked B v h (set_rpos 26 b)
        ≡ (set_rpos 26 b, success (record { buffer = set_rpos 26 b; head = h; pack_name = name }))
  unfolding checked ◌>>=◌
  checked_lem v h name b counted read =
      rw (same, laws.set_rpos_twice, read, laws.set_rpos_twice) refl
    where
      same : (length v == h.len) ≡ true
      same = rw counted ground arith

  -- Bytes that are a message are parsed to the head and the name that they hold.
  pub new_by_data-Packet :
      (h : Head) (name v : List ℕ)
      → Packet h name v
      → new_by_data B v
        ≡ success (record { buffer = set_rpos 26 (write v new); head = h; pack_name = name })
  unfolding new_by_data
  new_by_data-Packet h name v p = rw enough (ap (result B) parsed)
    where
      b : Buffer
      b = write v new

      held : val b ≡ head_bytes B laws h (string_bytes name ++ p.rest)
      held = val-write-new v ∙ p.bytes

      enough : ltb (length v) 26 ≡ false
      enough = rw (p.bytes, length-head_bytes) ground arith

      head : decode_head B b ≡ (set_rpos 26 b, success h)
      head =
          subst (λ x. decode_head B x ≡ (set_rpos 26 b, success h)) (new-at_start v)
            (decode_head_lem B laws h b _ p.range held)

      parsed :
          (decode_head B >>= checked B v) b
          ≡ (set_rpos 26 b, success (record { buffer = set_rpos 26 b; head = h; pack_name = name }))
      parsed =
          >>=-success (decode_head B) (checked B v) head
          ∙ checked_lem v h name b p.counted (name_at h name p.rest b p.short held)

  -- A message whose buffer ends where it is written, with room for the head and the name behind it.
  pub record IsMessage (name : List ℕ) (m : NetMsg B) : Type 0 where
    pub at_end : get_wpos m.buffer ≡ length (val m.buffer)
    pub room : 26 ≤ length (val m.buffer)
    pub fits : length (val m.buffer) < 2 ^ 32
    pub short : length name < 2 ^ 16
    pub range : InRange (record m.head { len = 0 })
    pub rest : List ℕ
    pub body : drop 26 (val m.buffer) ≡ string_bytes name ++ rest

  pub end_msg-Packet :
      (name : List ℕ) (m : NetMsg B)
      → IsMessage name m
      → Packet (end_msg B m).head name (val (end_msg B m).buffer)
  unfolding end_msg
  end_msg-Packet name m i = record {
    range = range_with (get_wpos m.buffer % 2 ^ 32) (omega arith);
    counted = counts ∙ omega (arith, i.at_end, i.fits, i.room, size);
    short = i.short;
    rest = i.rest;
    bytes = ended.bytes ∙ ap (head_bytes B laws (end_msg B m).head) i.body;
  }
    where
      ended : Ended m (end_msg B m)
      ended = end_msg-Ended m i.at_end i.room

      range_with : (n : ℕ) → n < 2 ^ 32 → InRange (record m.head { len = n })
      range_with n h = record {
        len = h;
        cookie = i.range.cookie;
        msg_type = i.range.msg_type;
        msg_flag = i.range.msg_flag;
        from_svr_type = i.range.from_svr_type;
        from_svr_id = i.range.from_svr_id;
        to_svr_type = i.range.to_svr_type;
        to_svr_id = i.range.to_svr_id;
        real_fd = i.range.real_fd;
      }

      counts : (end_msg B m).head.len ≡ get_wpos m.buffer % 2 ^ 32
      counts = refl

      size : length (val (end_msg B m).buffer) ≡ length (val m.buffer)
      size = length-end_msg m i.at_end i.room

  pub end_msg-head :
      (name : List ℕ) (m : NetMsg B)
      → IsMessage name m
      → (end_msg B m).head ≡ record m.head { len = length (val m.buffer) }
  unfolding end_msg
  end_msg-head name m i =
      let filled : get_wpos m.buffer % 2 ^ 32 ≡ length (val m.buffer) =
        omega (arith, i.at_end, i.fits) in
      ap (λ n. record m.head { len = n }) filled

  -- What `end_msg` leaves in the buffer of a message, sent as bytes and parsed by `new_by_data`, is
  -- that message: the head as it was with the length filled in, and the name.
  pub end_msg-new_by_data :
      (name : List ℕ) (m : NetMsg B)
      → IsMessage name m
      → let e = end_msg B m in
        new_by_data B (val e.buffer)
        ≡ success (record {
          buffer = set_rpos 26 (write (val e.buffer) new);
          head = record m.head { len = length (val m.buffer) };
          pack_name = name;
        })
  end_msg-new_by_data name m i =
      new_by_data-Packet _ name _ (end_msg-Packet name m i)
      ∙ ap
          (λ h. success (record {
            buffer = set_rpos 26 (write (val (end_msg B m).buffer) new);
            head = h;
            pack_name = name;
          }))
          (end_msg-head name m i)
