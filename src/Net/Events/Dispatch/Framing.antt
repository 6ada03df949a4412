-- ===== src/Net/Events/Dispatch/Framing.antt =====
-- How `get_next_message` of src/mgr/mio_event_mgr.rs finds the messages in a buffer.
use tunm.Prelude.{
  ℕ, ◌+◌, ◌-◌, ◌^◌, ◌≤◌, ◌<◌, ◌≡◌, ◌⊎◌, inl, inr, sym, subst, ap, ap₂, Bool-cases, ◌∙◌, min, some,
  none, List, ◌++◌, length, take, drop, length-append, append_assoc, arith, ltb, ok, ◌>>=◌,
  checked_sub, false, if◌then◌else◌,
}
use tunm.Net.Buffer.{type_u32, ProtoBuffer, BufferLaws}
use tunm.Net.Msg.{Head}
use tunm.Net.Msg.Laws.{drop-number, drop-append, take-append}
use tunm.Net.Msg.RoundTrip.{Packet, length-head_bytes}
use tunm.Net.Events.Dispatch.{if_left, drained, framed, get_next_message}

module _ (B : ProtoBuffer) (laws : BufferLaws B) where
  open B use {
    Buffer, new, val, get_rpos, get_wpos, set_rpos, write, len, decode_number, drain_collect,
  }
  open laws use {number_bytes, string_bytes}

  -- A buffer that is read from its start and written at its end, with its bytes.
  pub record Ready (b : Buffer) (v : List ℕ) : Type 0 where
    pub rpos : get_rpos b ≡ 0
    pub wpos : get_wpos b ≡ length v
    pub bytes : val b ≡ v

  -- The length that the bytes begin with is read, and the buffer stands as before.
  read_length :
      (n : ℕ) (rest : List ℕ) (b : Buffer)
      → n < 2 ^ 32
      → Ready b (number_bytes type_u32 n ++ rest)
      → decode_number type_u32 b ≡ (set_rpos 4 b, some n)
  read_length n rest b h r =
      laws.decode_number_read type_u32 n b rest h (rw r.rpos r.bytes)
      ∙ ap (λ p. (set_rpos (p + 4) b, some n)) r.rpos

  back : (b : Buffer) → get_rpos b ≡ 0 → set_rpos (get_rpos b) (set_rpos 4 b) ≡ b
  back b h = laws.set_rpos_twice _ 4 b ∙ laws.set_rpos_same b

  pub enough : {b : Buffer} {v : List ℕ} → Ready b v → len b ≡ length v
  enough {b} r = laws.len_val b ∙ ap length r.bytes

  nothing_read : (n : ℕ) → checked_sub n 0 ≡ ok n
  nothing_read n = ground arith

  -- The frame of a length, in a buffer that is ready.
  framed_lem :
      (n : ℕ) (b : Buffer) (v : List ℕ)
      → Ready b v
      → framed B (get_rpos b) (set_rpos 4 b, some n) ≡ if_left B (min n 65536) b (length v)
  framed_lem n b v r =
      ap (λ c. checked_sub (len c) (get_rpos b) >>= if_left B (min n 65536) c) (back b r.rpos)
      ∙ ap₂ (λ l p. checked_sub l p >>= if_left B (min n 65536) b) (enough r) r.rpos
      ∙ ap (λ o. o >>= if_left B (min n 65536) b) (nothing_read (length v))

  next_framed :
      (n : ℕ) (rest : List ℕ) (b : Buffer)
      → n < 2 ^ 32
      → Ready b (number_bytes type_u32 n ++ rest)
      → 26 ≤ length (number_bytes type_u32 n ++ rest)
      → get_next_message B b ≡ if_left B (min n 65536) b (length (number_bytes type_u32 n ++ rest))
  unfolding get_next_message
  next_framed n rest b h r long =
      let long_enough : ltb (len b) 26 ≡ false = rw (enough r) (ground arith) in
      ap (λ t. if t then ok (b, none) else framed B (get_rpos b) (decode_number type_u32 b))
        long_enough
      ∙ ap (framed B (get_rpos b)) (read_length n rest b h r)
      ∙ framed_lem n b _ r

  not_left : (n : ℕ) (b : Buffer) (left : ℕ) → left < n → if_left B n b left ≡ ok (b, none)
  not_left n b left h = ground arith

  is_left :
      (n : ℕ) (b : Buffer) (left : ℕ)
      → n ≤ left
      → if_left B n b left ≡ ok (drained B (drain_collect n b))
  is_left n b left h = ground arith

  -- What has arrived is not yet a message.
  abbrev pub IsPartial : List ℕ → Type 0
  IsPartial v =
      (length v < 26)
      ⊎ ((n : ℕ) × (rest : List ℕ) × (n < 2 ^ 32)
          × (v ≡ number_bytes type_u32 n ++ rest)
          × (length v < min n 65536))

  pub next_none :
      (b : Buffer) (v : List ℕ) → Ready b v → IsPartial v → get_next_message B b ≡ ok (b, none)
  unfolding get_next_message
  next_none b v r p = elim (Bool-cases (ltb (length v) 26)) [
    | inl short ↦
        ap (λ t. if t then ok (b, none) else framed B (get_rpos b) (decode_number type_u32 b))
          (ap (λ l. ltb l 26) (enough r) ∙ short)
    | inr long ↦ elim p [
      | inl short ↦ absurd (ground arith)
      | inr (n, rest, hn, e, small) ↦
          next_framed n rest b hn (subst (Ready b) e r)
            (subst (λ x. 26 ≤ length x) e (ground arith))
          ∙ ap (λ x. if_left B (min n 65536) b (length x)) (sym e)
          ∙ not_left (min n 65536) b (length v) small
    ]
  ]

  -- One message, whole, that came first.
  pub record Frame : Type 0 where
    pub head : Head
    pub name : List ℕ
    pub bytes : List ℕ
    pub packet : Packet B laws head name bytes
    pub small : length bytes ≤ 65536

  pub frame_size : (f : Frame) → min f.head.len 65536 ≡ length f.bytes
  frame_size f =
      let p : Packet B laws f.head f.name f.bytes = f.packet in omega (arith, p.counted, f.small)

  -- A message begins with its length.
  pub frame_head :
      (f : Frame) (more : List ℕ)
      → f.bytes ++ more ≡ number_bytes type_u32 f.head.len ++ (drop 4 f.bytes ++ more)
  frame_head f more =
      let p : Packet B laws f.head f.name f.bytes = f.packet in
      let behind = drop-number B laws type_u32 f.head.len 0 f.bytes _ p.bytes in
      ap (λ x. x ++ more) (p.bytes ∙ ap (λ t. number_bytes type_u32 f.head.len ++ t) (sym behind))
      ∙ append_assoc (number_bytes type_u32 f.head.len) (drop 4 f.bytes) more

  pub next_some :
      (f : Frame) (b : Buffer) (more : List ℕ)
      → Ready b (f.bytes ++ more)
      → (b' : Buffer) × (get_next_message B b ≡ ok (b', some f.bytes)) × Ready b' more
  next_some f b more r = (
    (drain_collect k b).0,
    found,
    record {
      rpos = positions.0;
      wpos = positions.1 ∙ ap (λ w. w - k) r.wpos ∙ omega (arith, length-append f.bytes more);
      bytes = taken.1 ∙ ap (drop k) r.bytes ∙ drop-append f.bytes more;
    },
  )
    where
      p : Packet B laws f.head f.name f.bytes
      p = f.packet

      k : ℕ
      k = length f.bytes

      long : 26 ≤ k
      long = rw (p.bytes, length-head_bytes) (omega arith)

      all : length (f.bytes ++ more) ≡ k + length more
      all = length-append f.bytes more

      taken :
          ((drain_collect k b).1 ≡ take k (val b)) × (val (drain_collect k b).0 ≡ drop k (val b))
      taken = laws.drain_collect_bytes k b r.rpos (omega (arith, all, ap length r.bytes))

      positions :
          (get_rpos (drain_collect k b).0 ≡ 0) × (get_wpos (drain_collect k b).0 ≡ get_wpos b - k)
      positions = laws.drain_collect_positions k b r.rpos (omega (arith, all, r.wpos))

      found : get_next_message B b ≡ ok ((drain_collect k b).0, some f.bytes)
      found =
          next_framed f.head.len _ b p.range.len (subst (Ready b) (frame_head f more) r)
            (subst (λ x. 26 ≤ length x) (frame_head f more) (omega (arith, all, long)))
          ∙ ap (λ x. if_left B (min f.head.len 65536) b (length x)) (sym (frame_head f more))
          ∙ ap (λ n. if_left B n b (length (f.bytes ++ more))) (frame_size f)
          ∙ is_left k b _ (omega (arith, all))
          ∙ ap (λ x. ok ((drain_collect k b).0, some x))
              (taken.0 ∙ ap (take k) r.bytes ∙ take-append f.bytes more)
