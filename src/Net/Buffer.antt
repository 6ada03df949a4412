-- ===== src/Net/Buffer.antt =====
-- The `Buffer` of the crate tunm_proto, which the messages and the sockets are built on: its
-- operations are a parameter, and so is what its documentation says of them. Texts are their bytes.
use tunm.Prelude.{
  ℕ, ◌+◌, ◌-◌, ◌^◌, Bool, ◌≤◌, ◌<◌, ◌≡◌, Option, some, List, [], ◌++◌, length, take, drop,
}

-- `tunm_proto::TYPE_U8`, `TYPE_U16` and `TYPE_U32`.
pub data NumType : Type 0 where
  type_u8 type_u16 type_u32 : NumType

abbrev pub width : NumType → ℕ
width type_u8 = 1
width type_u16 = 2
width type_u32 = 4

abbrev pub limit : NumType → ℕ
limit type_u8 = 2 ^ 8
limit type_u16 = 2 ^ 16
limit type_u32 = 2 ^ 32

-- A number or a text that is read may not be there. `decode_raw` is `decode_str_raw` for bytes that need not
-- be a text. `get_read_array` lends an array behind the position to write at and tells its length,
-- `fill_read_array` stands for what the borrower writes at the start of that array, and `write_offset` moves
-- the position to write at.
pub record ProtoBuffer : Type 1 where
  pub Buffer : Type 0
  pub new : Buffer
  pub val : Buffer → List ℕ
  pub get_rpos : Buffer → ℕ
  pub get_wpos : Buffer → ℕ
  pub len : Buffer → ℕ
  pub set_rpos : ℕ → Buffer → Buffer
  pub set_wpos : ℕ → Buffer → Buffer
  pub write : List ℕ → Buffer → Buffer
  pub encode_number : NumType → ℕ → Buffer → Buffer
  pub decode_number : NumType → Buffer → Buffer × Option ℕ
  pub encode_str_raw : List ℕ → Buffer → Buffer
  pub decode_str_raw : Buffer → Buffer × Option (List ℕ)
  pub decode_raw : Buffer → Buffer × Option (List ℕ)
  pub get_write_data : Buffer → List ℕ
  pub read_offset : ℕ → Buffer → Buffer × Bool
  pub drain_collect : ℕ → Buffer → Buffer × List ℕ
  pub get_read_array : ℕ → Buffer → Buffer × ℕ
  pub fill_read_array : List ℕ → Buffer → Buffer
  pub write_offset : ℕ → Buffer → Buffer

-- The documented behaviour: a buffer holds bytes, a position to read at and one to write at. Numbers
-- take their width, writing overwrites what is there, and what was written is read back.
module _ (B : ProtoBuffer) where
  open B use {
    Buffer, new, val, get_rpos, get_wpos, len, set_rpos, set_wpos, write, encode_number,
    decode_number, encode_str_raw, decode_str_raw, decode_raw, get_write_data, drain_collect,
    get_read_array, fill_read_array, write_offset,
  }

  pub record BufferLaws : Type 0 where
    pub number_bytes : NumType → ℕ → List ℕ
    pub string_bytes : List ℕ → List ℕ
    pub length_number : (t : NumType) (n : ℕ) → length (number_bytes t n) ≡ width t
    pub val_new : val new ≡ []
    pub wpos_new : get_wpos new ≡ 0
    pub rpos_new : get_rpos new ≡ 0
    pub len_val : (b : Buffer) → len b ≡ length (val b)
    pub rpos_set_rpos : (p : ℕ) (b : Buffer) → get_rpos (set_rpos p b) ≡ p
    pub val_set_rpos : (p : ℕ) (b : Buffer) → val (set_rpos p b) ≡ val b
    pub wpos_set_rpos : (p : ℕ) (b : Buffer) → get_wpos (set_rpos p b) ≡ get_wpos b
    pub set_rpos_twice : (p q : ℕ) (b : Buffer) → set_rpos p (set_rpos q b) ≡ set_rpos p b
    pub set_rpos_same : (b : Buffer) → set_rpos (get_rpos b) b ≡ b
    pub wpos_set_wpos : (p : ℕ) (b : Buffer) → p ≤ length (val b) → get_wpos (set_wpos p b) ≡ p
    pub val_set_wpos : (p : ℕ) (b : Buffer) → p ≤ length (val b) → val (set_wpos p b) ≡ val b
    pub rpos_set_wpos : (p : ℕ) (b : Buffer) → get_rpos (set_wpos p b) ≡ get_rpos b
    pub val_write :
        (d : List ℕ) (b : Buffer)
        → get_wpos b ≤ length (val b)
        → val (write d b) ≡ take (get_wpos b) (val b) ++ d ++ drop (get_wpos b + length d) (val b)
    pub wpos_write : (d : List ℕ) (b : Buffer) → get_wpos (write d b) ≡ get_wpos b + length d
    pub rpos_write : (d : List ℕ) (b : Buffer) → get_rpos (write d b) ≡ get_rpos b
    pub encode_number_write :
        (t : NumType) (n : ℕ) (b : Buffer) → encode_number t n b ≡ write (number_bytes t n) b
    pub decode_number_read :
        (t : NumType) (n : ℕ) (b : Buffer) (rest : List ℕ)
        → n < limit t
        → drop (get_rpos b) (val b) ≡ number_bytes t n ++ rest
        → decode_number t b ≡ (set_rpos (get_rpos b + width t) b, some n)
    pub encode_str_raw_write :
        (s : List ℕ) (b : Buffer) → encode_str_raw s b ≡ write (string_bytes s) b
    pub decode_str_raw_read :
        (s : List ℕ) (b : Buffer) (rest : List ℕ)
        → length s < 2 ^ 16
        → drop (get_rpos b) (val b) ≡ string_bytes s ++ rest
        → decode_str_raw b ≡ (set_rpos (get_rpos b + length (string_bytes s)) b, some s)
    -- A text and raw bytes stand behind their length.
    pub string_bytes_are :
        (s : List ℕ) → length s < 2 ^ 16 → string_bytes s ≡ number_bytes type_u16 (length s) ++ s
    pub decode_raw_read :
        (s : List ℕ) (b : Buffer) (rest : List ℕ)
        → length s < 2 ^ 16
        → drop (get_rpos b) (val b) ≡ string_bytes s ++ rest
        → decode_raw b ≡ (set_rpos (get_rpos b + length (string_bytes s)) b, some s)
    pub get_write_data_from_start :
        (b : Buffer) → get_wpos b ≡ length (val b) → get_write_data (set_rpos 0 b) ≡ val b
    -- Reading does not change the bytes. From a buffer that is read from its start, bytes are drained off its front.
    pub decode_number_keeps :
        (t : NumType) (b : Buffer)
        → (val (decode_number t b).0 ≡ val b) × (get_wpos (decode_number t b).0 ≡ get_wpos b)
    pub drain_collect_bytes :
        (n : ℕ) (b : Buffer)
        → get_rpos b ≡ 0
        → n ≤ length (val b)
        → ((drain_collect n b).1 ≡ take n (val b)) × (val (drain_collect n b).0 ≡ drop n (val b))
    pub drain_collect_positions :
        (n : ℕ) (b : Buffer)
        → get_rpos b ≡ 0
        → n ≤ get_wpos b
        → (get_rpos (drain_collect n b).0 ≡ 0) × (get_wpos (drain_collect n b).0 ≡ get_wpos b - n)
    -- A borrowed array has the length that was asked for, and what was written before stays in front of it.
    pub get_read_array_length : (n : ℕ) (b : Buffer) → (get_read_array n b).1 ≡ n
    pub get_read_array_keeps :
        (n : ℕ) (b : Buffer)
        → get_wpos b ≤ length (val b)
        → (get_wpos (get_read_array n b).0 ≡ get_wpos b)
          × (take (get_wpos b) (val (get_read_array n b).0) ≡ take (get_wpos b) (val b))
          × (get_wpos b + n ≤ length (val (get_read_array n b).0))
    pub fill_read_array_bytes :
        (d : List ℕ) (b : Buffer)
        → get_wpos b + length d ≤ length (val b)
        → (val (fill_read_array d b)
            ≡ take (get_wpos b) (val b) ++ d ++ drop (get_wpos b + length d) (val b))
          × (get_wpos (fill_read_array d b) ≡ get_wpos b)
    pub write_offset_moves :
        (n : ℕ) (b : Buffer)
        → get_wpos b + n ≤ length (val b)
        → (get_wpos (write_offset n b) ≡ get_wpos b + n) × (val (write_offset n b) ≡ val b)
