-- ===== src/Net/Msg/Fields.antt =====
-- The head of a message of src/net/net_msg.rs that is read back or changed in place.
use tunm.Prelude.{ℕ, ◌+◌, ◌^◌, ◌<◌, ◌≡◌, ap, ◌∙◌, List, ◌++◌, drop, length}
use tunm.Net.Values.{NetResult, success, Step, ◌>>=◌, >>=-success, modify_then}
use tunm.Net.Buffer.{NumType, type_u8, type_u16, type_u32, width, limit, ProtoBuffer, BufferLaws}
use tunm.Net.Msg.{Head, NetMsg, assign, assign_name, field, name_field, read_fields, read_head}
use tunm.Net.Msg.Laws.{head_bytes, InRange, drop-number, decode_at}
use tunm.Net.Msg.RoundTrip.{name_at}

module _ (B : ProtoBuffer) (laws : BufferLaws B) where
  open B use {Buffer, new, val, get_rpos, get_wpos, set_rpos, set_wpos, write}
  open laws use {number_bytes, string_bytes}

  then_field :
      {A : Type 0} (t : NumType) (put : ℕ → Head → Head) (n p : ℕ) (b : Buffer) (rest : List ℕ)
      (h : Head) (name : List ℕ) (f : Unit {0} → Step (NetMsg B) A) {r : NetMsg B × NetResult A}
      → n < limit t
      → drop p (val b) ≡ number_bytes t n ++ rest
      → (drop (p + width t) (val b) ≡ rest
          → f tt (record { buffer = set_rpos (p + width t) b; head = put n h; pack_name = name })
            ≡ r)
      → (field B t put >>= f) (record { buffer = set_rpos p b; head = h; pack_name = name }) ≡ r
  then_field t put n p b rest h name f hn e k =
      >>=-success (field B t put) f read ∙ k (drop-number B laws t n p (val b) rest e)
    where
      read : field B t put (record { buffer = set_rpos p b; head = h; pack_name = name }) ≡ (
        record { buffer = set_rpos (p + width t) b; head = put n h; pack_name = name },
        success tt,
      )
      read =
          ap (assign B (record { buffer = set_rpos p b; head = h; pack_name = name }) put)
            (decode_at B laws t n p b rest hn e)

  -- `read_head` finds in the buffer of a message the head that was written there and the name behind
  -- it, and leaves the position to read at; only the server's id stays what it was before.
  pub read_head_lem :
      (h : Head) (name rest : List ℕ) (m : NetMsg B)
      → InRange h
      → length name < 2 ^ 16
      → val m.buffer ≡ head_bytes B laws h (string_bytes name ++ rest)
      → read_head B m ≡ (
        record {
          buffer = m.buffer;
          head = record h { from_svr_id = m.head.from_svr_id };
          pack_name = name;
        },
        success tt,
      )
  unfolding read_head read_fields
  read_head_lem h name rest m range short e =
      >>=-success (read_fields B) _ fields
      ∙ ap
          (λ b. (
            record {
              buffer = b;
              head = record h { from_svr_id = m.head.from_svr_id };
              pack_name = name;
            },
            success tt,
          ))
          (laws.set_rpos_twice _ _ _ ∙ laws.set_rpos_same m.buffer)
    where
      b : Buffer
      b = m.buffer

      kept : Head
      kept = record h { from_svr_id = m.head.from_svr_id }

      name_read :
          name_field B
            (record { buffer = set_rpos 26 (set_rpos 26 b); head = kept; pack_name = m.pack_name })
          ≡ (
            record {
              buffer = set_rpos (26 + length (string_bytes name)) b;
              head = kept;
              pack_name = name;
            },
            success tt,
          )
      name_read =
          ap (assign_name B (record { buffer = b; head = kept; pack_name = m.pack_name })) (
            ap B.decode_str_raw (laws.set_rpos_twice 26 26 b)
            ∙ name_at B laws h name rest b short e)

      fields : read_fields B m ≡ (
        record {
          buffer = set_rpos (26 + length (string_bytes name)) m.buffer;
          head = record h { from_svr_id = m.head.from_svr_id };
          pack_name = name;
        },
        success tt,
      )
      fields = modify_then _ _ (
          then_field type_u32 _ h.len 0 b _ _ _ _ range.len e λ e1.
            then_field type_u32 _ h.cookie 4 b _ _ _ _ range.cookie e1 λ e2.
              then_field type_u8 _ h.msg_type 8 b _ _ _ _ range.msg_type e2 λ e3.
                then_field type_u8 _ h.msg_flag 9 b _ _ _ _ range.msg_flag e3 λ e4.
                  then_field type_u16 _ h.from_svr_type 10 b _ _ _ _ range.from_svr_type e4 λ e5.
                    then_field type_u32 _ h.from_svr_id 12 b _ _ _ _ range.from_svr_id e5 λ e6.
                      then_field type_u16 _ h.to_svr_type 16 b _ _ _ _ range.to_svr_type e6 λ e7.
                        then_field type_u32 _ h.to_svr_id 18 b _ _ _ _ range.to_svr_id e7 λ e8.
                          then_field type_u32 _ h.real_fd 22 b _ _ _ _ range.real_fd e8
                            λ e9. modify_then _ _ name_read)
