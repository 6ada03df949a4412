-- ===== src/Net/Protocol/Examples.antt =====
-- A message that a script packs and another unpacks.
use tunm.Prelude.{ℕ, ◌≡◌, refl, true, false, some, none, [], ◌∷◌, bytes_of, arith, inl}
use tunm.Net.Values.{success}
use tunm.Net.Sample.{sample, sample_laws}
use tunm.Net.Msg.{NetMsg, new_by_data, msg_type_bin}
use tunm.Net.Protocol.{
  Stack, Codec, name_of, value_of, pack_protocol, unpack_protocol, pack_message, pack_bin,
}
use tunm.Net.Protocol.RoundTrip.{pack_protocol-unpack_protocol}

abbrev codec : Codec sample
codec = record {
  Value = ℕ;
  encode_proto = λ name args b. (b, false);
  decode_proto = λ b. (b, none);
}

-- `pack_message(MSG_TYPE_BIN, "hi", "\1\2")`.
abbrev hi_stack : Stack ℕ
hi_stack = record {
  name = some (bytes_of "hi");
  is_string = true;
  bytes = some (1 ∷ 2 ∷ []);
  text = none;
  json = none;
  args = none;
}

pack_protocol-unpack_protocol_example :
    (m : NetMsg sample) × (m' : NetMsg sample) × (m'' : NetMsg sample) × (pack_protocol sample codec
        msg_type_bin hi_stack
      ≡ some m)
    × (new_by_data sample (sample.get_write_data (sample.set_rpos 0 m.buffer)) ≡ success m')
    × (unpack_protocol sample codec m'
        ≡ (m'', name_of (bytes_of "hi") ∷ value_of (1 ∷ 2 ∷ []) ∷ []))
pack_protocol-unpack_protocol_example =
    pack_protocol-unpack_protocol sample sample_laws codec msg_type_bin hi_stack (bytes_of "hi")
      (1 ∷ 2 ∷ []) refl (inl (refl, refl, refl)) (omega arith) (omega arith)

-- A name that is no text packs nothing.
no_name : pack_message sample codec msg_type_bin (record hi_stack { name = none }) ≡ none
unfolding pack_message pack_protocol pack_bin
no_name = refl
