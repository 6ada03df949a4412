-- ===== src/Net/Sample.antt =====
-- A buffer that behaves as the documentation of tunm_proto says, to run the messages on: bytes with
-- two positions, and numbers with their low byte first.
use tunm.Prelude.{
  ℕ, ◌+◌, ◌-◌, ◌*◌, ◌/◌, ◌%◌, ◌^◌, ◌<◌, ◌≤◌, ◌≡◌, refl, ap, subst, ◌∙◌, replicate, length-append,
  length-take, length-replicate, Option, some, none, List, [], ◌∷◌, ◌++◌, length, take, drop, leb,
  arith,
}
use tunm.Net.Buffer.{NumType, type_u8, type_u16, type_u32, width, limit, ProtoBuffer, BufferLaws}
use tunm.Net.Msg.Laws.{take-append, take-length}

pub record Bytes : Type 0 where
  pub val : List ℕ
  pub rpos : ℕ
  pub wpos : ℕ

abbrev number_bytes : NumType → ℕ → List ℕ
number_bytes type_u8 n = n % 256 ∷ []
number_bytes type_u16 n = n % 256 ∷ n / 256 % 256 ∷ []
number_bytes type_u32 n = n % 256 ∷ n / 256 % 256 ∷ n / 65536 % 256 ∷ n / 16777216 % 256 ∷ []

abbrev number_of : NumType → List ℕ → Option ℕ
number_of type_u8 (a ∷ _) = some a
number_of type_u16 (a ∷ b ∷ _) = some (a + b * 256)
number_of type_u32 (a ∷ b ∷ c ∷ d ∷ _) = some (a + b * 256 + c * 65536 + d * 16777216)
number_of _ _ = none

abbrev string_bytes : List ℕ → List ℕ
string_bytes s = number_bytes type_u16 (length s) ++ s

abbrev string_of : List ℕ → Option (List ℕ)
string_of (a ∷ b ∷ rest) = some (take (a + b * 256) rest)
string_of _ = none

abbrev put_bytes : List ℕ → Bytes → Bytes
put_bytes d b = record b {
  val = take b.wpos b.val ++ d ++ drop (b.wpos + length d) b.val;
  wpos = b.wpos + length d;
}

abbrev moved : {A : Type 0} → (A → ℕ) → Bytes → Option A → Bytes × Option A
moved size b none = (b, none)
moved size b (some a) = (record b { rpos = b.rpos + size a }, some a)

pub moved_keeps :
    {A : Type 0} (size : A → ℕ) (b : Bytes) (o : Option A)
    → ((moved size b o).0.val ≡ b.val) × ((moved size b o).0.wpos ≡ b.wpos)
moved_keeps size b none = (refl, refl)
moved_keeps size b (some a) = (refl, refl)

abbrev read_number : NumType → Bytes → Bytes × Option ℕ
read_number t b = moved (λ _. width t) b (number_of t (drop b.rpos b.val))

abbrev read_string : Bytes → Bytes × Option (List ℕ)
read_string b = moved (λ s. 2 + length s) b (string_of (drop b.rpos b.val))

abbrev pub sample : ProtoBuffer
sample = record {
  Buffer = Bytes;
  new = record { val = []; rpos = 0; wpos = 0 };
  val = λ b. b.val;
  get_rpos = λ b. b.rpos;
  get_wpos = λ b. b.wpos;
  len = λ b. length b.val;
  set_rpos = λ p b. record b { rpos = p };
  set_wpos = λ p b. record b { wpos = p };
  write = put_bytes;
  encode_number = λ t n. put_bytes (number_bytes t n);
  decode_number = read_number;
  encode_str_raw = λ s. put_bytes (string_bytes s);
  decode_str_raw = read_string;
  decode_raw = read_string;
  get_write_data = λ b. take (b.wpos - b.rpos) (drop b.rpos b.val);
  read_offset = λ n b. (record b { rpos = b.rpos + n }, leb b.wpos (b.rpos + n));
  drain_collect =
      λ n b. (record { val = drop n b.val; rpos = b.rpos - n; wpos = b.wpos - n }, take n b.val);
  get_read_array = λ n b. (record b { val = take b.wpos b.val ++ replicate n 0 }, n);
  fill_read_array =
      λ d b. record b { val = take b.wpos b.val ++ d ++ drop (b.wpos + length d) b.val };
  write_offset = λ n b. record b { wpos = b.wpos + n };
}

pub number_of_lem :
    (t : NumType) (n : ℕ) (rest : List ℕ)
    → n < limit t
    → number_of t (number_bytes t n ++ rest) ≡ some n
number_of_lem type_u8 n rest h = ap some (omega arith)
number_of_lem type_u16 n rest h = ap some (omega arith)
number_of_lem type_u32 n rest h = ap some (omega arith)

pub length-number : (t : NumType) (n : ℕ) → length (number_bytes t n) ≡ width t
length-number type_u8 n = refl
length-number type_u16 n = refl
length-number type_u32 n = refl

pub string_of_lem :
    (s rest : List ℕ) → length s < 2 ^ 16 → string_of (string_bytes s ++ rest) ≡ some s
string_of_lem s rest h =
    let size : length s % 256 + length s / 256 % 256 * 256 ≡ length s = omega arith in
    ap some (ap (λ n. take n (s ++ rest)) size ∙ take-append s rest)

pub read_string_lem :
    (s : List ℕ) (b : Bytes) (rest : List ℕ)
    → length s < 2 ^ 16
    → drop b.rpos b.val ≡ string_bytes s ++ rest
    → read_string b ≡ (record b { rpos = b.rpos + length (string_bytes s) }, some s)
read_string_lem s b rest h e =
    ap (moved (λ r. 2 + length r) b) (ap string_of e ∙ string_of_lem s rest h)
    ∙ ap (λ k. (record b { rpos = b.rpos + k }, some s)) {x = 2 + length s}
        {y = length (string_bytes s)} (omega arith)

pub take-longer : (n : ℕ) (xs ys : List ℕ) → n ≤ length xs → take n (take n xs ++ ys) ≡ take n xs
take-longer n xs ys h =
    let size : length (take n xs) ≡ n = length-take n xs ∙ omega (arith, h) in
    subst (λ k. take k (take n xs ++ ys) ≡ take n xs) size (take-append (take n xs) ys)

pub room_behind :
    (w n : ℕ) (xs : List ℕ) → w ≤ length xs → w + n ≤ length (take w xs ++ replicate n 0)
room_behind w n xs h = rw (length-append, length-take, length-replicate) (omega (arith, h))

abbrev pub sample_laws : BufferLaws sample
sample_laws = record {
  number_bytes = number_bytes;
  string_bytes = string_bytes;
  length_number = length-number;
  val_new = refl;
  wpos_new = refl;
  rpos_new = refl;
  len_val = λ b. refl;
  rpos_set_rpos = λ p b. refl;
  val_set_rpos = λ p b. refl;
  wpos_set_rpos = λ p b. refl;
  set_rpos_twice = λ p q b. refl;
  set_rpos_same = λ b. refl;
  wpos_set_wpos = λ p b h. refl;
  val_set_wpos = λ p b h. refl;
  rpos_set_wpos = λ p b. refl;
  val_write = λ d b h. refl;
  wpos_write = λ d b. refl;
  rpos_write = λ d b. refl;
  encode_number_write = λ t n b. refl;
  decode_number_read =
      λ t n b rest h e. ap (moved (λ _. width t) b) (ap (number_of t) e ∙ number_of_lem t n rest h);
  encode_str_raw_write = λ s b. refl;
  string_bytes_are = λ s h. refl;
  decode_str_raw_read = read_string_lem;
  decode_raw_read = read_string_lem;
  get_write_data_from_start = λ b h.
      ap (λ k. take k b.val) {x = b.wpos - 0} {y = length b.val} (omega arith) ∙ take-length b.val;
  decode_number_keeps = λ t b. moved_keeps (λ _. width t) b (number_of t (drop b.rpos b.val));
  drain_collect_bytes = λ n b h k. (refl, refl);
  drain_collect_positions = λ n b h k. (rw h (omega arith), refl);
  get_read_array_length = λ n b. refl;
  get_read_array_keeps =
      λ n b h. (refl, take-longer b.wpos b.val (replicate n 0) h, room_behind b.wpos n b.val h);
  fill_read_array_bytes = λ d b h. (refl, refl);
  write_offset_moves = λ n b h. (refl, refl);
}
