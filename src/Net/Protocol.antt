-- ===== src/Net/Protocol.antt =====
-- How scripts make messages and read them: src/protocol and `ProtocolMgr` of src/mgr/protocol_mgr.rs, and
-- `pack_message` of src/lua_custom/lua_network.rs. What the Lua stack holds is an argument, what is pushed
-- on it a result.
pub mod RoundTrip
pub mod Examples
use tunm.Prelude.{
  ℕ, ◌+◌, ◌==◌, ◌||◌, Bool, true, false, Option, none, some, List, [], ◌∷◌, ltb, length,
  if◌then◌else◌,
}
use tunm.Net.Values.{NetResult, success, failure, rp}
use tunm.Net.Buffer.{ProtoBuffer}
use tunm.Net.Msg.{
  NetMsg, new_msg, new_by_detail, end_msg, set_read_data, len_of, decoded, msg_type_td,
  msg_type_json, msg_type_bin, msg_type_text,
}

-- What is read from the stack from an index on: the name; whether the value behind it is a string, its
-- bytes, and the same as a text; what `arg_to_encode` makes of the values; and the values.
pub record Stack (V : Type 0) : Type 0 where
  pub name : Option (List ℕ)
  pub is_string : Bool
  pub bytes : Option (List ℕ)
  pub text : Option (List ℕ)
  pub json : Option (List ℕ)
  pub args : Option (List V)

abbrev text_or_nothing : Option (List ℕ) → List ℕ
text_or_nothing none = []
text_or_nothing (some text) = text

pub data Pushed (V : Type 0) : Type 0 where
  name_of : List ℕ → Pushed V
  value_of : List ℕ → Pushed V
  table : List V → Pushed V

-- `encode_proto` and `decode_proto` of tunm_proto, which may fail.
pub record Codec (B : ProtoBuffer) : Type 1 where
  pub Value : Type 0
  pub encode_proto : List ℕ → List Value → B.Buffer → B.Buffer × Bool
  pub decode_proto : B.Buffer → B.Buffer × Option (List ℕ × List Value)

module _ (B : ProtoBuffer) (C : Codec B) where
  open B use {Buffer, decode_str_raw, decode_raw}
  open C use {Value, encode_proto, decode_proto}

  -- A message of a type with a name and its content, if both are there.
  abbrev pub detail_of : ℕ → Option (List ℕ) → Option (List ℕ) → Option (NetMsg B)
  detail_of msg_type none content = none
  detail_of msg_type (some name) none = none
  detail_of msg_type (some name) (some content) = some (new_by_detail B msg_type name content)

  abbrev pub if_string : Stack Value → Option (List ℕ) → Option (List ℕ)
  if_string s content = if s.is_string then content else none

  -- `ProtoBin`, `ProtoText` and `ProtoJson::pack_protocol`.
  unfoldable pub pack_bin : Stack Value → Option (NetMsg B)
  pack_bin s = detail_of msg_type_bin s.name (if_string s s.bytes)

  unfoldable pub pack_text : Stack Value → Option (NetMsg B)
  pack_text s = detail_of msg_type_text s.name (if_string s s.text)

  unfoldable pub pack_json : Stack Value → Option (NetMsg B)
  pack_json s = detail_of msg_type_json s.name s.json

  -- Not more than 0xFFFFFF bytes.
  abbrev pub if_short : NetMsg B → Option (NetMsg B)
  if_short m = if ltb 0xffffff (len_of B m) then none else some m

  abbrev pub encoded : NetMsg B → Buffer × Bool → Option (NetMsg B)
  encoded m (b, false) = none
  encoded m (b, true) = if_short (end_msg B (record m { buffer = b }))

  abbrev pub values_of : Option (List ℕ) → Option (List Value) → Option (NetMsg B)
  values_of none args = none
  values_of (some name) none = none
  values_of (some name) (some args) =
      let m : NetMsg B = new_msg B in encoded m (encode_proto name args m.buffer)

  -- `ProtoRt::pack_protocol`.
  unfoldable pub pack_rt : Stack Value → Option (NetMsg B)
  pack_rt s = values_of s.name s.args

  unfoldable pub pack_protocol : ℕ → Stack Value → Option (NetMsg B)
  unfolding pack_bin pack_text pack_json pack_rt
  pack_protocol msg_type s =
      if msg_type == msg_type_td
      then pack_rt s
      else if msg_type == msg_type_json
      then pack_json s
      else if msg_type == msg_type_bin
      then pack_bin s
      else if msg_type == msg_type_text
      then pack_text s
      else none

  abbrev pub if_there : Option (NetMsg B) → Option (NetMsg B)
  if_there none = none
  if_there (some m) = if_short m

  unfoldable pub pack_message : ℕ → Stack Value → Option (NetMsg B)
  unfolding pack_protocol
  pack_message msg_type s = if_there (pack_protocol msg_type s)

  abbrev pub Unpacked : Type 0
  Unpacked = NetMsg B × NetResult (List (Pushed Value))

  abbrev pub pushed_content : NetMsg B → List ℕ → Buffer × Option (List ℕ) → Unpacked
  pushed_content m name (b, none) = (record m { buffer = b }, failure (rp ""))
  pushed_content m name (b, some raw) =
      (record m { buffer = b }, success (name_of name ∷ value_of raw ∷ []))

  abbrev pub content_by :
      (Buffer → Buffer × Option (List ℕ)) → NetMsg B → Buffer × Option (List ℕ) → Unpacked
  content_by decode m (b, none) = (record m { buffer = b }, failure (rp ""))
  content_by decode m (b, some name) = pushed_content m name (decode b)

  -- `unpack_protocol` of `ProtoBin` and `ProtoText`, and that of `ProtoJson`, which differ in how the
  -- content is decoded.
  unfoldable pub unpack_raw : NetMsg B → Unpacked
  unfolding set_read_data
  unpack_raw m = content_by decode_raw m (decode_str_raw (set_read_data B m).buffer)

  unfoldable pub unpack_json : NetMsg B → Unpacked
  unfolding set_read_data
  unpack_json m = content_by decode_str_raw m (decode_str_raw (set_read_data B m).buffer)

  abbrev pub table_of : NetMsg B → Buffer × Option (List ℕ × List Value) → Unpacked
  table_of m (b, none) = (record m { buffer = b }, success [])
  table_of m (b, some (name, args)) =
      (record m { buffer = b }, success (name_of name ∷ table args ∷ []))

  unfoldable pub unpack_rt : NetMsg B → Unpacked
  unfolding set_read_data
  unpack_rt m = table_of m (decode_proto (set_read_data B m).buffer)

  -- The number of values pushed, and none if decoding fails.
  abbrev pub ok_or_none : Unpacked → NetMsg B × List (Pushed Value)
  ok_or_none (m, failure e) = (m, [])
  ok_or_none (m, success pushed) = (m, pushed)

  unfoldable pub unpack_as : ℕ → NetMsg B → Unpacked
  unfolding unpack_raw unpack_json unpack_rt
  unpack_as msg_type m =
      if msg_type == msg_type_td
      then unpack_rt m
      else if msg_type == msg_type_json
      then unpack_json m
      else if msg_type == msg_type_bin || msg_type == msg_type_text
      then unpack_raw m
      else (m, success [])

  unfoldable pub unpack_protocol : NetMsg B → NetMsg B × List (Pushed Value)
  unfolding unpack_as
  unpack_protocol m = ok_or_none (unpack_as m.head.msg_type m)

  -- `convert_string` of `ProtoBin`, `ProtoText` and `ProtoJson`: the content as a text.
  abbrev pub text_of : NetMsg B → Buffer × Option (List ℕ) → NetMsg B × NetResult (List ℕ)
  text_of m (b, none) = (record m { buffer = b }, failure (rp ""))
  text_of m (b, some raw) = (record m { buffer = b }, success raw)

  abbrev pub text_behind : NetMsg B → Buffer × Option (List ℕ) → NetMsg B × NetResult (List ℕ)
  text_behind m (b, none) = (record m { buffer = b }, failure (rp ""))
  text_behind m (b, some name) = text_of m (decode_str_raw b)

  unfoldable pub convert_text : NetMsg B → NetMsg B × NetResult (List ℕ)
  unfolding set_read_data
  convert_text m = text_behind m (decode_str_raw (set_read_data B m).buffer)

  -- `ProtoRt::convert_string`: what the scripts' `arg_to_encode` makes of the name and the values.
  abbrev pub json_of :
      (List ℕ → List Value → Option (List ℕ))
      → NetMsg B
      → Buffer × Option (List ℕ × List Value)
      → NetMsg B × NetResult (List ℕ)
  json_of arg_to_encode m (b, none) = (record m { buffer = b }, success [])
  json_of arg_to_encode m (b, some (name, args)) =
      (record m { buffer = b }, success (text_or_nothing (arg_to_encode name args)))

  unfoldable pub convert_string :
      (List ℕ → List Value → Option (List ℕ)) → NetMsg B → NetMsg B × NetResult (List ℕ)
  unfolding set_read_data convert_text
  convert_string arg_to_encode m =
      let t = m.head.msg_type in
      if t == msg_type_td
      then json_of arg_to_encode m (decode_proto (set_read_data B m).buffer)
      else if t == msg_type_json || t == msg_type_bin || t == msg_type_text
      then convert_text m
      else (m, success [])
