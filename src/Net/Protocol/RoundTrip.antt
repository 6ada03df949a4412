-- ===== src/Net/Protocol/RoundTrip.antt =====
-- What `pack_protocol` of src/mgr/protocol_mgr.rs packs for a script is what `unpack_protocol` gives to
-- the script that receives it.
use tunm.Prelude.{
  ℕ, ◌+◌, ◌%◌, ◌^◌, ◌<◌, ◌≡◌, refl, sym, ap, ap₂, ◌∙◌, ◌⊎◌, inl, inr, true, Option, some, List, [],
  ◌∷◌, ◌++◌, length, take, drop, length-take, take-append-drop, append_assoc, arith,
}
use tunm.Net.Values.{success}
use tunm.Net.Buffer.{type_u16, ProtoBuffer, BufferLaws}
use tunm.Net.Msg.{
  NetMsg, new_by_data, new_by_detail, set_read_data, msg_type_json, msg_type_bin, msg_type_text,
}
use tunm.Net.Msg.Laws.{drop-add, drop-append}
use tunm.Net.Msg.Detail.{body, new_by_detail-new_by_data}
use tunm.Net.Protocol.{
  Stack, Codec, name_of, value_of, pack_protocol, unpack_protocol, pack_bin, pack_text, pack_json,
  unpack_raw, unpack_json, content_by, pushed_content, unpack_as, ok_or_none,
}

module _ (B : ProtoBuffer) (laws : BufferLaws B) where
  open B use {Buffer, val, get_rpos, set_rpos, decode_str_raw, decode_raw, get_write_data}
  open laws use {number_bytes, string_bytes}

  -- What a decoder reads of bytes that stand behind their number.
  abbrev IsDecoder : (Buffer → Buffer × Option (List ℕ)) → List ℕ → Type 0
  IsDecoder decode s =
      (b : Buffer) (rest : List ℕ)
      → drop (get_rpos b) (val b) ≡ string_bytes s ++ rest
      → decode b ≡ (set_rpos (get_rpos b + length (string_bytes s)) b, some s)

  -- The part of a content that its number of 16 bits counts.
  abbrev pub counted : List ℕ → List ℕ
  counted content = take (length content % 2 ^ 16) content

  length-counted : (content : List ℕ) → length (counted content) ≡ length content % 2 ^ 16
  length-counted content = length-take (length content % 2 ^ 16) content ∙ omega arith

  content_bytes :
      (content : List ℕ)
      → number_bytes type_u16 (length content % 2 ^ 16) ++ content
        ≡ string_bytes (counted content) ++ drop (length content % 2 ^ 16) content
  content_bytes content =
      let n : ℕ = length content % 2 ^ 16 in
      let s : List ℕ = counted content in
      let small : length s < 2 ^ 16 = omega (arith, length-counted content) in
      let written : string_bytes s ≡ number_bytes type_u16 n ++ s =
        laws.string_bytes_are s small
        ∙ ap (λ k. number_bytes type_u16 k ++ s) (length-counted content) in
      ap (λ c. number_bytes type_u16 n ++ c) (sym (take-append-drop n content))
      ∙ sym (append_assoc (number_bytes type_u16 n) s (drop n content))
      ∙ ap (λ h. h ++ drop n content) (sym written)

  module _ (C : Codec B) where
    open C use {Value}

    -- A name and a content are decoded one after the other.
    content_by_lem :
        (decode : Buffer → Buffer × Option (List ℕ)) (name s rest : List ℕ) (m : NetMsg B)
        → IsDecoder decode s
        → length name < 2 ^ 16
        → drop 26 (val m.buffer) ≡ string_bytes name ++ (string_bytes s ++ rest)
        → (b : Buffer) × (content_by B C decode m (decode_str_raw (set_rpos 26 m.buffer))
            ≡ (record m { buffer = b }, success (name_of name ∷ value_of s ∷ [])))
    content_by_lem decode name s rest m decodes short e =
        let b : Buffer = set_rpos 26 m.buffer in
        let size : ℕ = length (string_bytes name) in
        let at : get_rpos b ≡ 26 = laws.rpos_set_rpos 26 m.buffer in
        let held : val b ≡ val m.buffer = laws.val_set_rpos 26 m.buffer in
        let b' : Buffer = set_rpos (get_rpos b + size) b in
        let read : decode_str_raw b ≡ (b', some name) =
          laws.decode_str_raw_read name b (string_bytes s ++ rest) short (rw (at, held) e) in
        let at' : get_rpos b' ≡ 26 + size =
          laws.rpos_set_rpos (get_rpos b + size) b ∙ ap (λ p. p + size) at in
        let held' : val b' ≡ val m.buffer = laws.val_set_rpos (get_rpos b + size) b ∙ held in
        let behind : drop (get_rpos b') (val b') ≡ string_bytes s ++ rest =
          ap₂ drop at' held'
          ∙ drop-add 26 size (val m.buffer)
          ∙ ap (drop size) e
          ∙ drop-append (string_bytes name) (string_bytes s ++ rest) in
        (
          set_rpos (get_rpos b' + length (string_bytes s)) b',
          ap (content_by B C decode m) read
              ∙ ap (pushed_content B C m name) (decodes b' rest behind),
        )

    -- The content that a script hands over with a type: as bytes or as a text behind the name, or as what
    -- `arg_to_encode` makes, which is short enough to be read as a text.
    abbrev pub Gives : ℕ → Stack Value → List ℕ → Type 0
    Gives t s content =
        ((t ≡ msg_type_bin) × (s.is_string ≡ true) × (s.bytes ≡ some content))
        ⊎ ((t ≡ msg_type_text) × (s.is_string ≡ true) × (s.text ≡ some content))
        ⊎ ((t ≡ msg_type_json) × (s.json ≡ some content) × (length content < 2 ^ 16))

    packed :
        (t : ℕ) (s : Stack Value) (name content : List ℕ)
        → s.name ≡ some name
        → Gives t s content
        → pack_protocol B C t s ≡ some (new_by_detail B t name content)
    unfolding pack_protocol pack_bin pack_text pack_json
    packed t s name content named (inl (kind, string, given)) = rw (kind, named, string, given) refl
    packed t s name content named (inr (inl (kind, string, given))) =
        rw (kind, named, string, given) refl
    packed t s name content named (inr (inr (kind, given, _))) = rw (kind, named, given) refl

    -- The decoder of a type reads the counted part of the content.
    abbrev Reads : ℕ → (Buffer → Buffer × Option (List ℕ)) → Type 0
    Reads t decode =
        (m : NetMsg B)
        → unpack_as B C t m ≡ content_by B C decode m (decode_str_raw (set_rpos 26 m.buffer))

    unpacked_by :
        (decode : Buffer → Buffer × Option (List ℕ)) (t : ℕ) (name content : List ℕ) (m : NetMsg B)
        → Reads t decode
        → IsDecoder decode (counted content)
        → m.head.msg_type ≡ t
        → length name < 2 ^ 16
        → drop 26 (val m.buffer) ≡ body B laws name content
        → (m' : NetMsg B) × (unpack_protocol B C m
            ≡ (m', name_of name ∷ value_of (counted content) ∷ []))
    unfolding unpack_protocol
    unpacked_by decode t name content m reads decodes kind short e =
        let held = e ∙ ap (λ l. string_bytes name ++ l) (content_bytes content) in
        let (b, found) =
          content_by_lem decode name (counted content) (drop (length content % 2 ^ 16) content) m
            decodes short held in
        (
          record m { buffer = b },
          ap (λ k. ok_or_none B C (unpack_as B C k m)) kind ∙ ap (ok_or_none B C) (reads m ∙ found),
        )

    unpacked :
        (t : ℕ) (s : Stack Value) (name content : List ℕ) (m : NetMsg B)
        → Gives t s content
        → m.head.msg_type ≡ t
        → length name < 2 ^ 16
        → drop 26 (val m.buffer) ≡ body B laws name content
        → (m' : NetMsg B) × (unpack_protocol B C m
            ≡ (m', name_of name ∷ value_of (counted content) ∷ []))
    unfolding unpack_as unpack_raw unpack_json set_read_data
    unpacked t s name content m gives kind short e =
        let small : length (counted content) < 2 ^ 16 = omega (arith, length-counted content) in
        let raw : IsDecoder decode_raw (counted content) =
          λ b rest h. laws.decode_raw_read (counted content) b rest small h in
        let text_ : IsDecoder decode_str_raw (counted content) =
          λ b rest h. laws.decode_str_raw_read (counted content) b rest small h in
        elim gives [
          | inl (bin, _, _) ↦
              unpacked_by decode_raw t name content m (λ m'. rw bin refl) raw kind short e
          | inr (inl (text_kind, _, _)) ↦
              unpacked_by decode_raw t name content m (λ m'. rw text_kind refl) raw kind short e
          | inr (inr (json_kind, _, _)) ↦
              unpacked_by decode_str_raw t name content m (λ m'. rw json_kind refl) text_ kind short
                e
        ]

    -- Let a script pack a name of less than 65536 bytes with a content, as bytes, as a text or as JSON, which
    -- as JSON has less than 65536 bytes, and let the whole message have less than 2 ^ 32 bytes. What is
    -- parsed from the bytes of that message is unpacked for the script that receives it: the name, and the
    -- content. Of bytes or a text of 65536 bytes or more, only as many bytes as the length modulo 65536 are
    -- left.
    pub pack_protocol-unpack_protocol :
        (t : ℕ) (s : Stack Value) (name content : List ℕ)
        → s.name ≡ some name
        → Gives t s content
        → length name < 2 ^ 16
        → 28 + length (string_bytes name) + length content < 2 ^ 32
        → (m : NetMsg B) × (m' : NetMsg B) × (m'' : NetMsg B) × (pack_protocol B C t s ≡ some m)
          × (new_by_data B (get_write_data (set_rpos 0 m.buffer)) ≡ success m')
          × (unpack_protocol B C m' ≡ (m'', name_of name ∷ value_of (counted content) ∷ []))
    pack_protocol-unpack_protocol t s name content named gives short fits =
        let small : t < 2 ^ 8 = elim gives [
          | inl (kind, _, _) ↦ omega (arith, kind)
          | inr (inl (kind, _, _)) ↦ omega (arith, kind)
          | inr (inr (kind, _, _)) ↦ omega (arith, kind)
        ] in
        let (m', parsed, head, _, _, held) =
          new_by_detail-new_by_data B laws t name content small short fits in
        let (m'', found) =
          unpacked t s name content m' gives (ap (λ h. h.msg_type) head) short held in
        (
          new_by_detail B t name content,
          m',
          m'',
          packed t s name content named gives,
          parsed,
          found,
        )
