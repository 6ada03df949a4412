-- ===== src/Telnet/History.antt =====
-- The history of lines of the console, src/utils/telnet_utils.rs.
use tunm.Prelude.{
  ℕ, zero, suc, ◌≤◌, sym, Bool-cases, inl, inr, ◌≡◌, refl, ap, ◌∙◌, List, [], ◌∷◌, ◌++◌, arith,
  length, length-append, append-nil, append_assoc, take, pop-push, ltb,
}
use tunm.Telnet.Client.{push_record}
use tunm.Telnet.Invariant.{length-push_record-le}

take_short : {A : Type 0} (n : ℕ) (xs : List A) → length xs ≤ n → take n xs ≡ xs
take_short zero [] h = refl
take_short zero (x ∷ xs) h = absurd (omega arith)
take_short (suc n) [] h = refl
take_short (suc n) (x ∷ xs) h = ap (λ l. x ∷ l) (take_short n xs (omega arith))

take_full : {A : Type 0} (n : ℕ) (xs ys : List A) → length xs ≡ n → take n (xs ++ ys) ≡ xs
take_full zero [] ys h = refl
take_full zero (x ∷ xs) ys h = absurd (omega arith)
take_full (suc n) [] ys h = absurd (omega arith)
take_full (suc n) (x ∷ xs) ys h = ap (λ l. x ∷ l) (take_full n xs ys (omega arith))

take_again : {A : Type 0} (n : ℕ) (xs ys : List A) → take n (take n xs ++ ys) ≡ take n (xs ++ ys)
take_again zero xs ys = refl
take_again (suc n) [] ys = refl
take_again (suc n) (x ∷ xs) ys = ap (λ l. x ∷ l) (take_again n xs ys)

-- The history after more lines are entered.
abbrev pub push_all : List (List ℕ) → List (List ℕ) → List (List ℕ)
push_all [] records = records
push_all (line ∷ lines) records = push_all lines (push_record line records)

push_record-take :
    (line : List ℕ) (records : List (List ℕ))
    → length records ≤ 10
    → push_record line records ≡ take 10 (records ++ line ∷ [])
unfolding push_record
push_record-take line records h = elim (Bool-cases (ltb 10 (length (records ++ line ∷ [])))) [
  | inl full ↦ rw full (
      pop-push records line
      ∙ sym (take_full 10 records (line ∷ []) (ground (arith, length-append records (line ∷ [])))))
  | inr room ↦ rw room (sym (take_short 10 (records ++ line ∷ []) (ground arith)))
]

-- A history of at most ten lines keeps the first ten lines that were ever entered: once it is full, a
-- new line is dropped, and not the oldest.
pub push_all-take :
    (lines records : List (List ℕ))
    → length records ≤ 10
    → push_all lines records ≡ take 10 (records ++ lines)
push_all-take [] records h = rw append-nil (sym (take_short 10 records h))
push_all-take (line ∷ lines) records h =
    push_all-take lines (push_record line records) (length-push_record-le line records h)
    ∙ ap (λ (l : List (List ℕ)). take 10 (l ++ lines)) (push_record-take line records h)
    ∙ take_again 10 (records ++ line ∷ []) lines
    ∙ ap (take 10) (append_assoc records (line ∷ []) lines)
