-- ===== src/Prelude/Decimal.antt =====
-- Decimal notation of unsigned numbers, as `format!("{}", n)` prints it and `str::parse::<usize>` reads
-- it where a usize has 64 bits.
use tunm.Prelude.Tests.{ltb, leb, ◌==◌, if◌then◌else◌, Bool-cases}
use Prim.Native.Nat.{ℕ, zero, suc, ◌+◌, ◌-◌, ◌*◌, ◌/◌, ◌%◌, ◌^◌, ◌≤◌, ◌<◌}
use mathlib.Core.Path.{◌≡◌, refl, sym, ap, ◌∙◌}
use mathlib.Core.Logic.{inl, inr}
use mathlib.Core.Bool.{◌&&◌}
use mathlib.Core.Option.{Option, none, some}
use mathlib.Core.List.{List, [], ◌∷◌, ◌++◌}
use native.Mathlib.Omega.{arith}

-- `n` has at most `fuel` digits: a number has at most as many digits as one more than itself.
unfoldable pub digits : ℕ → ℕ → List ℕ
digits zero n = []
digits (suc fuel) n =
    let more = digits fuel (n / 10) ++ (48 + n % 10) ∷ [] in
    if ltb n 10 then (48 + n) ∷ [] else more

unfoldable pub to_decimal : ℕ → List ℕ
unfolding digits
to_decimal n = digits (suc n) n

-- One more digit behind a number, or none where the byte is not a digit or the number gets too large.
unfoldable pub push_digit : ℕ → ℕ → Option ℕ
push_digit acc c =
    if leb 48 c && ltb c 58 && ltb (acc * 10 + (c - 48)) (2 ^ 64)
    then some (acc * 10 + (c - 48))
    else none

abbrev and_then : Option ℕ → (ℕ → Option ℕ) → Option ℕ
and_then none f = none
and_then (some n) f = f n

unfoldable pub parse_digits : ℕ → List ℕ → Option ℕ
parse_digits acc [] = some acc
parse_digits acc (c ∷ cs) = and_then (push_digit acc c) (λ n. parse_digits n cs)

-- A sign is passed over where something follows it.
unfoldable pub parse_usize : List ℕ → Option ℕ
parse_usize [] = none
parse_usize (c ∷ []) = parse_digits 0 (c ∷ [])
parse_usize (c ∷ d ∷ rest) =
    if c == 43 then parse_digits 0 (d ∷ rest) else parse_digits 0 (c ∷ d ∷ rest)

and_then_assoc :
    (f g h : ℕ → Option ℕ)
    → ((n : ℕ) → f n ≡ and_then (g n) h)
    → (o : Option ℕ) → and_then o f ≡ and_then (and_then o g) h
and_then_assoc f g h e none = refl
and_then_assoc f g h e (some n) = e n

parse_digits-append :
    (acc : ℕ) (cs ds : List ℕ)
    → parse_digits acc (cs ++ ds) ≡ and_then (parse_digits acc cs) (λ n. parse_digits n ds)
unfolding parse_digits
parse_digits-append acc [] ds = refl
parse_digits-append acc (c ∷ cs) ds =
    and_then_assoc _ _ _ (λ n. parse_digits-append n cs ds) (push_digit acc c)

push_digit_lem :
    (acc d n : ℕ) → d < 10 → n ≡ acc * 10 + d → n < 2 ^ 64 → push_digit acc (48 + d) ≡ some n
unfolding push_digit
push_digit_lem acc d n hd e hn = ground arith

digits_small : (fuel n : ℕ) → n < 10 → digits (suc fuel) n ≡ (48 + n) ∷ []
unfolding digits
digits_small fuel n h = ground arith

digits_large :
    (fuel n : ℕ) → 10 ≤ n → digits (suc fuel) n ≡ digits fuel (n / 10) ++ (48 + n % 10) ∷ []
unfolding digits
digits_large fuel n h = ground arith

parse_digits-one :
    (acc d n : ℕ)
    → d < 10
    → n ≡ acc * 10 + d
    → n < 2 ^ 64
    → parse_digits acc ((48 + d) ∷ []) ≡ some n
unfolding parse_digits
parse_digits-one acc d n hd e hn =
    ap (λ o. and_then o (λ k. some k)) (push_digit_lem acc d n hd e hn)

-- The digits of a number are read back.
parse_digits-digits : (fuel n : ℕ) → n < fuel → n < 2 ^ 64 → parse_digits 0 (digits fuel n) ≡ some n
parse_digits-digits zero n h hn = absurd (omega arith)
parse_digits-digits (suc fuel) n h hn = elim (Bool-cases (ltb n 10)) [
  | inl small ↦
      ap (parse_digits 0) (digits_small fuel n (ground arith))
      ∙ parse_digits-one 0 n n (ground arith) (omega arith) hn
  | inr large ↦
      let before = parse_digits-digits fuel (n / 10) (ground arith) (omega arith) in
      ap (parse_digits 0) (digits_large fuel n (ground arith))
      ∙ parse_digits-append 0 (digits fuel (n / 10)) _
      ∙ ap (λ o. and_then o (λ k. parse_digits k ((48 + n % 10) ∷ []))) before
      ∙ parse_digits-one (n / 10) (n % 10) n (omega arith) (omega arith) hn
]

digits_start :
    (fuel n : ℕ)
    → n < fuel
    → (c : ℕ) × (cs : List ℕ) × (digits fuel n ≡ c ∷ cs) × (48 ≤ c) × (c < 58)
digits_start zero n h = absurd (omega arith)
digits_start (suc fuel) n h = elim (Bool-cases (ltb n 10)) [
  | inl small ↦ (48 + n, [], digits_small fuel n (ground arith), omega arith, ground arith)
  | inr large ↦
      let (c, cs, e, hc, small) = digits_start fuel (n / 10) (ground arith) in
      (
        c,
        cs ++ (48 + n % 10) ∷ [],
        digits_large fuel n (ground arith) ∙ ap (λ l. l ++ (48 + n % 10) ∷ []) e,
        hc,
        small,
      )
]

parse_usize_unsigned :
    (c : ℕ) (cs : List ℕ) → 48 ≤ c → parse_usize (c ∷ cs) ≡ parse_digits 0 (c ∷ cs)
unfolding parse_usize
parse_usize_unsigned c [] h = refl
parse_usize_unsigned c (d ∷ cs) h = ground arith

-- They begin with a digit, which is no sign.
parse_usize-digits :
    (fuel n : ℕ) → n < fuel → parse_usize (digits fuel n) ≡ parse_digits 0 (digits fuel n)
parse_usize-digits fuel n h =
    let (c, cs, e, hc, _) = digits_start fuel n h in
    ap parse_usize e ∙ parse_usize_unsigned c cs hc ∙ ap (parse_digits 0) (sym e)

pub to_decimal_starts :
    (n : ℕ) → (c : ℕ) × (cs : List ℕ) × (to_decimal n ≡ c ∷ cs) × (48 ≤ c) × (c < 58)
unfolding to_decimal
to_decimal_starts n = digits_start (suc n) n (omega arith)

pub parse_usize-to_decimal : (n : ℕ) → n < 2 ^ 64 → parse_usize (to_decimal n) ≡ some n
unfolding to_decimal
parse_usize-to_decimal n h =
    parse_usize-digits (suc n) n (omega arith) ∙ parse_digits-digits (suc n) n (omega arith) h
