-- ===== src/Net/Msg/Laws.antt =====
-- How the head of a message of src/net/net_msg.rs is laid out in its buffer, and read from it.
use tunm.Prelude.{
  ℕ, zero, suc, ◌+◌, ◌≤◌, ◌<◌, ◌≡◌, refl, sym, ap, ◌∙◌, some, List, [], ◌∷◌, ◌++◌, length, take,
  drop, length-append, append_assoc, arith,
}
use tunm.Net.Values.{NetResult, success, Step, ◌>>=◌, >>=-success}
use tunm.Net.Buffer.{NumType, type_u8, type_u16, type_u32, width, limit, ProtoBuffer, BufferLaws}
use tunm.Net.Msg.{Head, number, encode_head, decode_head}

module _ {A : Type 0} where
  pub drop_nil : (n : ℕ) → drop {A = A} n [] ≡ []
  drop_nil zero = refl
  drop_nil (suc n) = refl

  pub drop-add : (m n : ℕ) (xs : List A) → drop (m + n) xs ≡ drop n (drop m xs)
  drop-add zero n xs = ap (λ k. drop k xs) (omega arith)
  drop-add (suc m) n [] = drop_nil (suc m + n) ∙ sym (drop_nil n)
  drop-add (suc m) n (x ∷ xs) =
      ap (λ k. drop k (x ∷ xs)) {y = suc (m + n)} (omega arith) ∙ drop-add m n xs

  pub drop-append : (xs ys : List A) → drop (length xs) (xs ++ ys) ≡ ys
  drop-append [] ys = refl
  drop-append (x ∷ xs) ys = drop-append xs ys

  pub drop-length : (xs : List A) → drop (length xs) xs ≡ []
  drop-length [] = refl
  drop-length (x ∷ xs) = drop-length xs

  pub take-length : (xs : List A) → take (length xs) xs ≡ xs
  take-length [] = refl
  take-length (x ∷ xs) = ap (λ r. x ∷ r) (take-length xs)

  pub take-append : (xs ys : List A) → take (length xs) (xs ++ ys) ≡ xs
  take-append [] ys = refl
  take-append (x ∷ xs) ys = ap (λ r. x ∷ r) (take-append xs ys)

-- Each number of the head fits its type.
pub record InRange (h : Head) : Type 0 where
  pub len : h.len < limit type_u32
  pub cookie : h.cookie < limit type_u32
  pub msg_type : h.msg_type < limit type_u8
  pub msg_flag : h.msg_flag < limit type_u8
  pub from_svr_type : h.from_svr_type < limit type_u16
  pub from_svr_id : h.from_svr_id < limit type_u32
  pub to_svr_type : h.to_svr_type < limit type_u16
  pub to_svr_id : h.to_svr_id < limit type_u32
  pub real_fd : h.real_fd < limit type_u32

module _ (B : ProtoBuffer) (laws : BufferLaws B) where
  open B use {
    Buffer, val, get_rpos, get_wpos, set_rpos, set_wpos, write, encode_number, decode_number,
  }
  open laws use {number_bytes}

  abbrev pub put : NumType → ℕ → List ℕ → List ℕ
  put t n rest = number_bytes t n ++ rest

  -- The bytes of a head, in front of others.
  abbrev pub head_bytes : Head → List ℕ → List ℕ
  head_bytes h rest = put type_u32 h.len (
      put type_u32 h.cookie (
        put type_u8 h.msg_type (
          put type_u8 h.msg_flag (
            put type_u16 h.from_svr_type (
              put type_u32 h.from_svr_id (
                put type_u16 h.to_svr_type
                  (put type_u32 h.to_svr_id (put type_u32 h.real_fd rest))))))))

  -- The buffer `b` holds `done` in place of the first bytes of `old`, and writes behind it.
  pub record Wrote (b : Buffer) (p : ℕ) (done old : List ℕ) : Type 0 where
    pub wpos : get_wpos b ≡ p
    pub bytes : val b ≡ done ++ drop p old
    pub filled : length done ≡ p

  pub write-Wrote :
      (d : List ℕ) {b : Buffer} {p : ℕ} {done old : List ℕ}
      → Wrote b p done old
      → Wrote (write d b) (p + length d) (done ++ d) old
  write-Wrote d {b} {p} {done} {old} w = record {
    wpos = rw (laws.wpos_write d b, w.wpos) refl;
    bytes =
        rw (laws.val_write d b fits, w.wpos, w.bytes) rw
          (
            drop-add p (length d) (done ++ drop p old),
            drop-add p (length d) old,
            ← w.filled,
            take-append,
            drop-append,
          )
          refl;
    filled = rw (length-append done d, w.filled) refl;
  }
    where
      fits : get_wpos b ≤ length (val b)
      fits = rw (w.wpos, w.bytes, length-append) omega (arith, w.filled)

  pub number-Wrote :
      (t : NumType) (n : ℕ) {b : Buffer} {p : ℕ} {done old : List ℕ}
      → Wrote b p done old
      → Wrote (encode_number t n b) (p + width t) (done ++ number_bytes t n) old
  number-Wrote t n {b} {p} {done} {old} w =
      rw (laws.encode_number_write t n b, ← laws.length_number t n)
        (write-Wrote (number_bytes t n) w)

  pub encode_head-Wrote :
      (h : Head) {b : Buffer} {old : List ℕ}
      → Wrote b 0 [] old
      → val (encode_head B h b) ≡ head_bytes h (drop 26 old)
  unfolding encode_head
  encode_head-Wrote h w0 =
      let w1 = number-Wrote type_u32 h.len w0 in
      let w2 = number-Wrote type_u32 h.cookie w1 in
      let w3 = number-Wrote type_u8 h.msg_type w2 in
      let w4 = number-Wrote type_u8 h.msg_flag w3 in
      let w5 = number-Wrote type_u16 h.from_svr_type w4 in
      let w6 = number-Wrote type_u32 h.from_svr_id w5 in
      let w7 = number-Wrote type_u16 h.to_svr_type w6 in
      let w8 = number-Wrote type_u32 h.to_svr_id w7 in
      let w9 = number-Wrote type_u32 h.real_fd w8 in w9.bytes ∙ simp append_assoc

  -- Reading a number of the bytes at `p`, and what stands behind it.
  pub decode_at :
      (t : NumType) (n p : ℕ) (b : Buffer) (rest : List ℕ)
      → n < limit t
      → drop p (val b) ≡ number_bytes t n ++ rest
      → decode_number t (set_rpos p b) ≡ (set_rpos (p + width t) b, some n)
  decode_at t n p b rest h e =
      let step =
        laws.decode_number_read t n (set_rpos p b) rest h
          (rw (laws.rpos_set_rpos, laws.val_set_rpos) e) in
      rw (laws.rpos_set_rpos, laws.set_rpos_twice) at step

  pub drop-number :
      (t : NumType) (n p : ℕ) (v rest : List ℕ)
      → drop p v ≡ number_bytes t n ++ rest
      → drop (p + width t) v ≡ rest
  drop-number t n p v rest e =
      rw (drop-add p (width t) v, e, ← laws.length_number t n) (drop-append (number_bytes t n) rest)

  -- A step that reads a number goes on behind it.
  then_number :
      {A : Type 0} (t : NumType) (n p : ℕ) (b : Buffer) (rest : List ℕ) (f : ℕ → Step Buffer A)
      {r : Buffer × NetResult A}
      → n < limit t
      → drop p (val b) ≡ number_bytes t n ++ rest
      → (drop (p + width t) (val b) ≡ rest → f n (set_rpos (p + width t) b) ≡ r)
      → (number B t >>= f) (set_rpos p b) ≡ r
  then_number t n p b rest f h e k =
      >>=-success (number B t) f read ∙ k (drop-number t n p (val b) rest e)
    where
      read : number B t (set_rpos p b) ≡ (set_rpos (p + width t) b, success n)
      read = rw (decode_at t n p b rest h e) refl

  pub decode_head_lem :
      (h : Head) (b : Buffer) (rest : List ℕ)
      → InRange h
      → val b ≡ head_bytes h rest
      → decode_head B (set_rpos 0 b) ≡ (set_rpos 26 b, success h)
  unfolding decode_head
  decode_head_lem h b rest range e = then_number type_u32 h.len 0 b _ _ range.len e λ e1.
      then_number type_u32 h.cookie 4 b _ _ range.cookie e1 λ e2.
        then_number type_u8 h.msg_type 8 b _ _ range.msg_type e2 λ e3.
          then_number type_u8 h.msg_flag 9 b _ _ range.msg_flag e3 λ e4.
            then_number type_u16 h.from_svr_type 10 b _ _ range.from_svr_type e4 λ e5.
              then_number type_u32 h.from_svr_id 12 b _ _ range.from_svr_id e5 λ e6.
                then_number type_u16 h.to_svr_type 16 b _ _ range.to_svr_type e6 λ e7.
                  then_number type_u32 h.to_svr_id 18 b _ _ range.to_svr_id e7
                    λ e8. then_number type_u32 h.real_fd 22 b _ _ range.real_fd e8 λ e9. refl

  pub drop-head : (h : Head) (rest : List ℕ) → drop 26 (head_bytes h rest) ≡ rest
  drop-head h rest =
      let v = head_bytes h rest in
      let d1 = drop-number type_u32 h.len 0 v _ refl in
      let d2 = drop-number type_u32 h.cookie 4 v _ d1 in
      let d3 = drop-number type_u8 h.msg_type 8 v _ d2 in
      let d4 = drop-number type_u8 h.msg_flag 9 v _ d3 in
      let d5 = drop-number type_u16 h.from_svr_type 10 v _ d4 in
      let d6 = drop-number type_u32 h.from_svr_id 12 v _ d5 in
      let d7 = drop-number type_u16 h.to_svr_type 16 v _ d6 in
      let d8 = drop-number type_u32 h.to_svr_id 18 v _ d7 in
      drop-number type_u32 h.real_fd 22 v rest d8
