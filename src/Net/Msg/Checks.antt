-- ===== src/Net/Msg/Checks.antt =====
-- A message of src/net/net_msg.rs whose cookie is changed after it was ended, and what
-- `NetMsg::new_by_data` insists on.
use tunm.Prelude.{
  ℕ, ◌+◌, ◌^◌, ◌≤◌, ◌<◌, ◌≡◌, refl, sym, ap, ◌∙◌, List, ◌++◌, drop, length, length-append,
  append_assoc, arith, ltb, ◌==◌, Bool-cases, inl, inr, ==_iff, Option, some, none,
}
use tunm.Net.Values.{
  success, failure, Step, ◌>>=◌, ◌>>◌, modify, >>=-eq-success, after, success-injective,
}
use tunm.Net.Buffer.{type_u32, ProtoBuffer, BufferLaws}
use tunm.Net.Msg.{Head, NetMsg, end_msg, set_cookie, decoded, checked, new_by_data, decode_head}
use tunm.Net.Msg.Laws.{put, head_bytes, InRange, Wrote, number-Wrote, drop-number}
use tunm.Net.Msg.RoundTrip.{
  IsMessage, Packet, end_msg-Packet, new_by_data-Packet, end_msg-Ended, length-end_msg,
  end_msg-head, length-head_bytes,
}

cookie-InRange :
    (h : Head) (cookie : ℕ) → InRange h → cookie < 2 ^ 32 → InRange (record h { cookie = cookie })
cookie-InRange h cookie r hc = record {
  len = r.len;
  cookie = hc;
  msg_type = r.msg_type;
  msg_flag = r.msg_flag;
  from_svr_type = r.from_svr_type;
  from_svr_id = r.from_svr_id;
  to_svr_type = r.to_svr_type;
  to_svr_id = r.to_svr_id;
  real_fd = r.real_fd;
}

module _ (B : ProtoBuffer) (laws : BufferLaws B) where
  open B use {Buffer, new, val, get_rpos, get_wpos, set_rpos, set_wpos, write}
  open laws use {number_bytes, string_bytes}

  -- The second of two numbers is replaced where it stands.
  overwrite :
      (first second third : ℕ) (tail : List ℕ) (b : Buffer)
      → val b ≡ put B laws type_u32 first (put B laws type_u32 second tail)
      → val (B.encode_number type_u32 third (set_wpos 4 b))
        ≡ put B laws type_u32 first (put B laws type_u32 third tail)
  overwrite first second third tail b e =
      (number-Wrote B laws type_u32 third w).bytes
      ∙ ap (λ r. number_bytes type_u32 first ++ number_bytes type_u32 third ++ r) d8
      ∙ append_assoc (number_bytes type_u32 first) (number_bytes type_u32 third) tail
    where
      d4 : drop 4 (val b) ≡ put B laws type_u32 second tail
      d4 = drop-number B laws type_u32 first 0 (val b) _ e

      d8 : drop 8 (val b) ≡ tail
      d8 = drop-number B laws type_u32 second 4 (val b) tail d4

      long : 4 ≤ length (val b)
      long = rw (e, length-append, laws.length_number) (omega arith)

      w : Wrote B laws (set_wpos 4 b) 4 (number_bytes type_u32 first) (val b)
      w = record {
        wpos = laws.wpos_set_wpos 4 b long;
        bytes =
            laws.val_set_wpos 4 b long ∙ e ∙ ap (λ r. number_bytes type_u32 first ++ r) (sym d4);
        filled = laws.length_number type_u32 first;
      }

  set_cookie-bytes :
      (cookie : ℕ) (m : NetMsg B) (h : Head) (rest : List ℕ)
      → get_wpos m.buffer ≤ length (val m.buffer)
      → val m.buffer ≡ head_bytes B laws h rest
      → val (set_cookie B cookie m).buffer ≡ head_bytes B laws (record h { cookie = cookie }) rest
  unfolding set_cookie
  set_cookie-bytes cookie m h rest fits e =
      laws.val_set_wpos _ _ (rw (written, length-head_bytes, ← same_length) fits) ∙ written
    where
      same_length : length (val m.buffer) ≡ 26 + length rest
      same_length = rw (e, length-head_bytes) refl

      written :
          val (B.encode_number type_u32 cookie (set_wpos 4 m.buffer))
          ≡ head_bytes B laws (record h { cookie = cookie }) rest
      written = overwrite h.len h.cookie cookie _ m.buffer e

  -- A cookie that is set in a message after it was ended is in its bytes: they are parsed to the head
  -- that the message had, with that cookie in it, and to its name.
  pub set_cookie-new_by_data :
      (cookie : ℕ) (name : List ℕ) (m : NetMsg B)
      → IsMessage B laws name m
      → cookie < 2 ^ 32
      → let v = val (set_cookie B cookie (end_msg B m)).buffer in
        new_by_data B v
        ≡ success (record {
          buffer = set_rpos 26 (write v new);
          head = record m.head { len = length (val m.buffer); cookie = cookie };
          pack_name = name;
        })
  set_cookie-new_by_data cookie name m i hc =
      new_by_data-Packet B laws _ name _ packet
      ∙ ap
          (λ h. success (record {
            buffer = set_rpos 26 (write (val (set_cookie B cookie (end_msg B m)).buffer) new);
            head = record h { cookie = cookie };
            pack_name = name;
          }))
          (end_msg-head B laws name m i)
    where
      p : Packet B laws (end_msg B m).head name (val (end_msg B m).buffer)
      p = end_msg-Packet B laws name m i

      at_end : get_wpos (end_msg B m).buffer ≤ length (val (end_msg B m).buffer)
      at_end = omega (
        arith,
        (end_msg-Ended B laws m i.at_end i.room).wpos,
        length-end_msg B laws m i.at_end i.room,
        i.at_end,
      )

      bytes :
          val (set_cookie B cookie (end_msg B m)).buffer
          ≡ head_bytes B laws
              (record (end_msg B m).head { cookie = cookie })
              (string_bytes name ++ p.rest)
      bytes = set_cookie-bytes cookie (end_msg B m) (end_msg B m).head _ at_end p.bytes

      packet :
          Packet B laws
            (record (end_msg B m).head { cookie = cookie })
            name
            (val (set_cookie B cookie (end_msg B m)).buffer)
      packet = record {
        range = cookie-InRange _ cookie p.range hc;
        counted = p.counted ∙ rw (bytes, p.bytes, length-head_bytes, length-head_bytes) refl;
        short = p.short;
        rest = p.rest;
        bytes = bytes;
      }

  -- What a head that is accepted comes to.
  named : Head → List ℕ → Step Buffer (NetMsg B)
  named h name =
      modify (set_rpos 26) >> λ b. (b, success (record { buffer = b; head = h; pack_name = name }))

  named_lem :
      (h : Head) (o : Buffer × Option (List ℕ)) (m : NetMsg B)
      → (after (named h) (o.0, decoded B o.1)).1 ≡ success m
      → (m.head ≡ h) × (get_rpos m.buffer ≡ 26)
  unfolding named ◌>>=◌
  named_lem h (b, none) m e = absurd (cc)
  named_lem h (b, some name) m e =
      let same = success-injective e in
      (
        ap (λ (x : NetMsg B). x.head) (sym same),
        ap (λ (x : NetMsg B). get_rpos x.buffer) (sym same) ∙ laws.rpos_set_rpos 26 b,
      )

  checked-lem :
      (v : List ℕ) (h : Head) (b : Buffer) (m : NetMsg B)
      → (checked B v h b).1 ≡ success m
      → (h.len ≡ length v) × (m.head ≡ h) × (get_rpos m.buffer ≡ 26)
  unfolding checked named ◌>>=◌
  checked-lem v h b m e = elim (Bool-cases (length v == h.len)) [
    | inl same ↦
        let (kept, stands) = named_lem h (B.decode_str_raw (set_rpos 26 b)) m (rw same at e) in
        (sym ((==_iff _ _).0 same), kept, stands)
    | inr other ↦ (let f : failure _ ≡ success m = (rw other at e) in absurd (cc))
  ]

  -- What `new_by_data` accepts is at least as long as a head, is counted by the length in its head, and
  -- its buffer stands behind the head, ready to be read.
  pub new_by_data-checks :
      (v : List ℕ) (m : NetMsg B)
      → new_by_data B v ≡ success m
      → (26 ≤ length v) × (m.head.len ≡ length v) × (get_rpos m.buffer ≡ 26)
  unfolding new_by_data
  new_by_data-checks v m e = elim (Bool-cases (ltb (length v) 26)) [
    | inl short ↦ (let f : failure _ ≡ success m = (rw short at e) in absurd (cc))
    | inr enough ↦
        let parsed : ((decode_head B >>= checked B v) (write v new)).1 ≡ success m =
          (rw enough at e) in
        let (b, h, _, got) = >>=-eq-success (decode_head B) (checked B v) parsed in
        let (counts, same, stands) = checked-lem v h b m got in
        (ground arith, ap (λ (x : Head). x.len) same ∙ counts, stands)
  ]
