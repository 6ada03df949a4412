-- ===== src/Utils/Rid/Decode.antt =====
-- Role ids of src/lua_custom/lua_util.rs are read back.
use tunm.Prelude.{
  ℕ, zero, suc, ◌+◌, ◌*◌, ◌/◌, ◌%◌, ◌^◌, ◌<◌, ◌≡◌, refl, ◌==◌, ==_iff, Bool, true, ◌&&◌, List, [],
  ◌∷◌, ◌++◌, arith, sym, ap, ◌∙◌, if◌then◌else◌, get_or, take, drop,
}
use tunm.Utils.Rid.{sign, encode, encode_map}

-- Over a small range, every value is checked by evaluation.
abbrev pub all_below : ℕ → (ℕ → Bool) → Bool
all_below zero p = true
all_below (suc n) p = p n && all_below n p

pub all_below_sound : (n : ℕ) (p : ℕ → Bool) (x : ℕ) → all_below n p ≡ true → x < n → p x ≡ true
all_below_sound zero p x h lt = absurd (omega arith)
all_below_sound (suc n) p x h lt = ground (arith, all_below_sound n p x)

-- The place of a sign among the 32.
abbrev pub place : ℕ → List ℕ → ℕ
place c [] = 0
place c (d ∷ ds) = if c == d then 0 else suc (place c ds)

unfoldable pub value : ℕ → ℕ
value c = place c encode_map

value-table : all_below 32 (λ n. value (sign n) == n) ≡ true
unfolding sign value
value-table = refl

value-sign : (n : ℕ) → value (sign n) ≡ n % 32
unfolding sign value
value-sign n =
    let m : ℕ = n % 32 in
    let same : m % 32 ≡ m = omega arith in
    ap (λ k. value (get_or encode_map k 0)) (sym same)
    ∙ (==_iff _ m).0 (all_below_sound 32 (λ k. value (sign k) == k) m value-table (omega arith))

-- Signs as a number, the highest first, behind those that make `acc`.
abbrev pub read : ℕ → List ℕ → ℕ
read acc [] = acc
read acc (c ∷ cs) = read (acc * 32 + value c) cs

abbrev pub rid_time : List ℕ → ℕ
rid_time rid = read 0 (take 8 rid)

abbrev pub rid_server : List ℕ → ℕ
rid_server rid = read 0 (take 4 (drop 8 rid))

abbrev pub rid_flag : List ℕ → ℕ
rid_flag rid = read 0 (take 3 (drop 12 rid))

abbrev pub rid_sequence : List ℕ → ℕ
rid_sequence rid = read 0 (drop 15 rid)

-- Three signs, and the signs of the higher digits before them.
read_three :
    (acc n : ℕ)
    → read acc (sign (n / 2 ^ 10) ∷ sign (n / 2 ^ 5) ∷ sign n ∷ []) ≡ acc * 2 ^ 15 + n % 2 ^ 15
read_three acc n = omega (arith, value-sign (n / 2 ^ 10), value-sign (n / 2 ^ 5), value-sign n)

read_four :
    (n : ℕ)
    → read 0 (sign (n / 2 ^ 15) ∷ sign (n / 2 ^ 10) ∷ sign (n / 2 ^ 5) ∷ sign n ∷ []) ≡ n % 2 ^ 20
read_four n =
    read_three (0 * 32 + value (sign (n / 2 ^ 15))) n ∙ omega (arith, value-sign (n / 2 ^ 15))

high_signs : ℕ → List ℕ
high_signs n =
    sign (n / 2 ^ 35)
    ∷ sign (n / 2 ^ 30)
    ∷ sign (n / 2 ^ 25)
    ∷ sign (n / 2 ^ 20)
    ∷ sign (n / 2 ^ 15)
    ∷ []

read-high_signs : (n : ℕ) → read 0 (high_signs n) ≡ (n / 2 ^ 15) % 2 ^ 25
unfolding high_signs
read-high_signs n = omega (
  arith,
  value-sign (n / 2 ^ 35),
  value-sign (n / 2 ^ 30),
  value-sign (n / 2 ^ 25),
  value-sign (n / 2 ^ 20),
  value-sign (n / 2 ^ 15),
)

read-append : (acc : ℕ) (cs ds : List ℕ) → read acc (cs ++ ds) ≡ read (read acc cs) ds
read-append acc [] ds = refl
read-append acc (c ∷ cs) ds = read-append (acc * 32 + value c) cs ds

read_eight :
    (n : ℕ)
    → read 0 (high_signs n ++ sign (n / 2 ^ 10) ∷ sign (n / 2 ^ 5) ∷ sign n ∷ []) ≡ n % 2 ^ 40
read_eight n =
    read-append 0 (high_signs n) _
    ∙ read_three (read 0 (high_signs n)) n
    ∙ omega (arith, read-high_signs n)

-- The time is kept up to 2^40, the server whole, the flag and the sequence up to 2^15.
pub decode-encode :
    (ti server_id flag seq : ℕ)
    → server_id < 2 ^ 16
    → let rid = encode ti server_id flag seq in
      (rid_time rid ≡ ti % 2 ^ 40)
      × (rid_server rid ≡ server_id)
      × (rid_flag rid ≡ flag % 2 ^ 15)
      × (rid_sequence rid ≡ seq % 2 ^ 15)
unfolding encode high_signs
decode-encode ti server_id flag seq h = (
  read_eight ti,
  read_four server_id ∙ omega arith,
  read_three 0 flag ∙ omega arith,
  read_three 0 seq ∙ omega arith,
)
