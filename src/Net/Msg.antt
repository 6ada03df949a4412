-- ===== src/Net/Msg.antt =====
-- `NetMsg` of src/net/net_msg.rs: a message in its buffer, behind a head of 26 bytes.
pub mod Laws
pub mod RoundTrip
pub mod Proto
pub mod Detail
pub mod Fields
pub mod Checks
pub mod Setters
use tunm.Prelude.{
  ℕ, ◌%◌, ◌^◌, Option, none, some, List, [], ◌==◌, not, if◌then◌else◌, ltb, length, replicate,
}
use tunm.Net.Values.{
  NetResult, success, failure, NetError, rp, make_extension_error, Step, ◌>>=◌, ◌>>◌, return, fail,
  modify,
}
use tunm.Net.Buffer.{NumType, type_u8, type_u16, type_u32, ProtoBuffer}

abbrev pub head_fill_up : List ℕ
head_fill_up = replicate 26 0

abbrev pub msg_type_td : ℕ
msg_type_td = 0

abbrev pub msg_type_json : ℕ
msg_type_json = 1

abbrev pub msg_type_bin : ℕ
msg_type_bin = 2

abbrev pub msg_type_text : ℕ
msg_type_text = 3

abbrev pub min_len : ℕ
min_len = 26

-- The nine numbers of the head.
pub record Head : Type 0 where
  pub len : ℕ
  pub cookie : ℕ
  pub msg_type : ℕ
  pub msg_flag : ℕ
  pub from_svr_type : ℕ
  pub from_svr_id : ℕ
  pub to_svr_type : ℕ
  pub to_svr_id : ℕ
  pub real_fd : ℕ

-- A head that was given no more than its length and type.
abbrev pub plain_head : ℕ → ℕ → Head
plain_head len msg_type = record {
  len = len;
  cookie = 0;
  msg_type = msg_type;
  msg_flag = 0;
  from_svr_type = 0;
  from_svr_id = 0;
  to_svr_type = 0;
  to_svr_id = 0;
  real_fd = 0;
}

module _ (B : ProtoBuffer) where
  open B use {
    Buffer, new, get_rpos, get_wpos, set_rpos, set_wpos, write, encode_number, decode_number,
    encode_str_raw, decode_str_raw,
  }

  pub record NetMsg : Type 0 where
    pub buffer : Buffer
    pub head : Head
    pub pack_name : List ℕ

  -- An error of tunm_proto, whose text is not read.
  abbrev pub decoded : {A : Type 0} → Option A → NetResult A
  decoded none = failure (rp "")
  decoded (some a) = success a

  abbrev pub number : NumType → Step Buffer ℕ
  number t b = let (b', n) = decode_number t b in (b', decoded n)

  abbrev pub str_raw : Step Buffer (List ℕ)
  str_raw b = let (b', s) = decode_str_raw b in (b', decoded s)

  -- `NetMsg::new`.
  unfoldable pub new_msg : NetMsg
  new_msg =
      let buffer = write head_fill_up new in
      record { buffer = buffer; head = plain_head (B.len buffer % 2 ^ 32) 0; pack_name = [] }

  -- The numbers of a head in their order.
  unfoldable pub encode_head : Head → Buffer → Buffer
  encode_head h b =
      let b = encode_number type_u32 h.len b in
      let b = encode_number type_u32 h.cookie b in
      let b = encode_number type_u8 h.msg_type b in
      let b = encode_number type_u8 h.msg_flag b in
      let b = encode_number type_u16 h.from_svr_type b in
      let b = encode_number type_u32 h.from_svr_id b in
      let b = encode_number type_u16 h.to_svr_type b in
      let b = encode_number type_u32 h.to_svr_id b in encode_number type_u32 h.real_fd b

  unfoldable pub end_msg : NetMsg → NetMsg
  end_msg m =
      let wpos = get_wpos m.buffer in
      let h = record m.head { len = wpos % 2 ^ 32 } in
      record m { buffer = set_wpos wpos (encode_head h (set_wpos 0 m.buffer)); head = h }

  -- The message of `new_by_detail` before it is ended.
  unfoldable pub detail : ℕ → List ℕ → List ℕ → NetMsg
  detail msg_type msg_name content =
      let b = write head_fill_up new in
      let b = encode_str_raw msg_name b in
      let b = encode_number type_u16 (length content % 2 ^ 16) b in
      let b = write content b in
      record { buffer = b; head = plain_head (B.len b % 2 ^ 32) msg_type; pack_name = msg_name }

  unfoldable pub new_by_detail : ℕ → List ℕ → List ℕ → NetMsg
  new_by_detail msg_type msg_name content = end_msg (detail msg_type msg_name content)

  -- The buffer of the functions that parse is dropped with an error.
  abbrev pub result : {A : Type 0} → Buffer × NetResult A → NetResult A
  result (b, r) = r

  abbrev finish_proto : List ℕ → Step Buffer NetMsg
  finish_proto name b = (
    b,
    success
        (end_msg (record { buffer = b; head = plain_head (B.len b % 2 ^ 32) 0; pack_name = name })),
  )

  unfoldable pub parse_proto : Step Buffer NetMsg
  parse_proto = do
    modify (set_rpos (length head_fill_up))
    name ← str_raw
    modify (set_rpos (length head_fill_up))
    finish_proto name

  unfoldable pub new_by_proto_data : List ℕ → NetResult NetMsg
  new_by_proto_data content = result (parse_proto (write content (write head_fill_up new)))

  -- The numbers of a head, read in their order.
  unfoldable pub decode_head : Step Buffer Head
  decode_head = do
    len ← number type_u32
    cookie ← number type_u32
    msg_type ← number type_u8
    msg_flag ← number type_u8
    from_svr_type ← number type_u16
    from_svr_id ← number type_u32
    to_svr_type ← number type_u16
    to_svr_id ← number type_u32
    real_fd ← number type_u32
    return (record {
      len = len;
      cookie = cookie;
      msg_type = msg_type;
      msg_flag = msg_flag;
      from_svr_type = from_svr_type;
      from_svr_id = from_svr_id;
      to_svr_type = to_svr_type;
      to_svr_id = to_svr_id;
      real_fd = real_fd;
    })

  -- The name behind the head, and the message with its buffer at that name.
  abbrev pub with_name : Head → Step Buffer NetMsg
  with_name h = do
    modify (set_rpos (length head_fill_up))
    name ← str_raw
    modify (set_rpos (length head_fill_up))
    λ b. (b, success (record { buffer = b; head = h; pack_name = name }))

  -- A head is good if it counts the bytes.
  unfoldable pub checked : List ℕ → Head → Step Buffer NetMsg
  checked content h =
      if not (length content == h.len)
      then fail (make_extension_error "data length not match" none)
      else with_name h

  unfoldable pub new_by_data : List ℕ → NetResult NetMsg
  new_by_data content =
      if ltb (length content) (length head_fill_up)
      then failure (make_extension_error "data len too small" none)
      else result ((decode_head >>= checked content) (write content new))

  -- `self.field = decode_number(&mut self.buffer, ...)?.into()`.
  abbrev pub assign : NetMsg → (ℕ → Head → Head) → Buffer × Option ℕ → NetMsg × NetResult (Unit {0})
  assign m put (b, none) = (record m { buffer = b }, failure (rp ""))
  assign m put (b, some n) = (record m { buffer = b; head = put n m.head }, success tt)

  abbrev pub field : NumType → (ℕ → Head → Head) → Step NetMsg (Unit {0})
  field t put m = assign m put (decode_number t m.buffer)

  abbrev pub at_rpos : ℕ → NetMsg → NetMsg
  at_rpos rpos m = record m { buffer = set_rpos rpos m.buffer }

  abbrev pub assign_name : NetMsg → Buffer × Option (List ℕ) → NetMsg × NetResult (Unit {0})
  assign_name m (b, none) = (record m { buffer = b }, failure (rp ""))
  assign_name m (b, some name) = (record m { buffer = b; pack_name = name }, success tt)

  abbrev pub name_field : Step NetMsg (Unit {0})
  name_field m = assign_name m (decode_str_raw m.buffer)

  -- The fields of the head as `read_head` assigns them, and the name.
  unfoldable pub read_fields : Step NetMsg (Unit {0})
  read_fields = do
    modify (at_rpos 0)
    field type_u32 λ n h. record h { len = n }
    field type_u32 λ n h. record h { cookie = n }
    field type_u8 λ n h. record h { msg_type = n }
    field type_u8 λ n h. record h { msg_flag = n }
    field type_u16 λ n h. record h { from_svr_type = n }
    field type_u32 λ n h. record h { real_fd = n }
    field type_u16 λ n h. record h { to_svr_type = n }
    field type_u32 λ n h. record h { to_svr_id = n }
    field type_u32 λ n h. record h { real_fd = n }
    modify (at_rpos (length head_fill_up))
    name_field

  unfoldable pub read_head : Step NetMsg (Unit {0})
  read_head m = (read_fields >>= λ _. modify (at_rpos (get_rpos m.buffer))) m

  unfoldable pub set_read_data : NetMsg → NetMsg
  set_read_data m = record m { buffer = set_rpos (length head_fill_up) m.buffer }

  unfoldable pub set_write_data : NetMsg → NetMsg
  set_write_data m = record m { buffer = set_wpos (length head_fill_up) m.buffer }

  -- `NetMsg::len`.
  abbrev pub len_of : NetMsg → ℕ
  len_of m = get_wpos m.buffer

  unfoldable pub set_cookie : ℕ → NetMsg → NetMsg
  set_cookie cookie m =
      let wpos = get_wpos m.buffer in
      let b = set_wpos 4 m.buffer in
      let b = encode_number type_u32 cookie b in
      record {
        buffer = set_wpos wpos b;
        head = record m.head { cookie = cookie };
        pack_name = m.pack_name;
      }
