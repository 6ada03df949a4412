-- ===== src/Majiang/CombineLaws.antt =====
-- `get_combine_list` of src/game/majiang.rs ends, and lists only choices of k indices.
use tunm.Prelude.{
  ℕ, zero, suc, ◌+◌, ◌-◌, ◌^◌, ◌≤◌, ◌<◌, ◌≡◌, refl, ap, All-append, Bool, true, false, List, [],
  ◌∷◌, arith, leb, ◌==◌, length, ok, All, Ensures, Returns, Returns-if, Option-cases, inl, inr,
}
use tunm.Majiang.Combine.{first_ready, chosen, first_idx, advance, combine_loop, get_combine_list}
use tunm.Majiang.Flags.{value, ones, value-lt, advance-Grows}

-- Strictly increasing numbers, from `lo` on.
abbrev pub Increasing : ℕ → List ℕ → Type 0
Increasing lo [] = Unit
Increasing lo (x ∷ xs) = (lo ≤ x) × Increasing (x + 1) xs

-- A choice of `k` of the indices below `n`.
pub record IsChoice (n k : ℕ) (c : List ℕ) : Type 0 where
  pub size : length c ≡ k
  pub increasing : Increasing 0 c
  pub bounded : All (λ j. j < n) c

length-chosen : (i : ℕ) (l : List Bool) → length (chosen i l) ≡ ones l
unfolding chosen ones
length-chosen i [] = refl
length-chosen i (true ∷ l) = omega (arith, length-chosen (i + 1) l)
length-chosen i (false ∷ l) = omega (arith, length-chosen (i + 1) l)

Increasing-mono : (lo hi : ℕ) (xs : List ℕ) → lo ≤ hi → Increasing hi xs → Increasing lo xs
Increasing-mono lo hi [] h p = tt
Increasing-mono lo hi (x ∷ xs) h p = (omega (arith, p.0), p.1)

chosen-Increasing : (i : ℕ) (l : List Bool) → Increasing i (chosen i l)
unfolding chosen
chosen-Increasing i [] = tt
chosen-Increasing i (true ∷ l) = (omega arith, chosen-Increasing (i + 1) l)
chosen-Increasing i (false ∷ l) =
    Increasing-mono i (i + 1) (chosen (i + 1) l) (omega arith) (chosen-Increasing (i + 1) l)

chosen_bounded : (i n : ℕ) (l : List Bool) → i + length l ≤ n → All (λ j. j < n) (chosen i l)
unfolding chosen
chosen_bounded i n [] h = tt
chosen_bounded i n (true ∷ l) h = (omega arith, chosen_bounded (i + 1) n l (omega arith))
chosen_bounded i n (false ∷ l) h = chosen_bounded (i + 1) n l (omega arith)

chosen-IsChoice : (l : List Bool) → IsChoice (length l) (ones l) (chosen 0 l)
chosen-IsChoice l = record {
  size = length-chosen 0 l;
  increasing = chosen-Increasing 0 l;
  bounded = chosen_bounded 0 (length l) l (omega arith);
}

module _ (n k : ℕ) where
  -- With fuel for every larger number of n binary digits, the loop returns.
  combine_loop-Returns :
      (fuel : ℕ) (ready : List Bool) (result : List (List ℕ))
      → length ready ≡ n
      → ones ready ≡ k
      → 2 ^ n ≤ value ready + fuel
      → All (IsChoice n k) result
      → Returns (All (IsChoice n k)) (combine_loop fuel ready result)
  unfolding combine_loop
  combine_loop-Returns zero ready result hn hk room all =
      absurd (omega (arith, rw hn at (value-lt ready)))
  combine_loop-Returns (suc fuel) ready result hn hk room all =
      let choice : IsChoice n k (chosen 0 ready) = rw (hn, hk) at (chosen-IsChoice ready) in
      let all' = All-append (IsChoice n k) result (chosen 0 ready ∷ []) all (choice, tt) in
      elim (Option-cases (first_idx 0 ready)) [
        | inl e ↦ rw (e, combine_loop) (record { ensures = all' })
        | inr (f, e) ↦
            let g = advance-Grows f ready e in
            rw (e, combine_loop)
              (combine_loop-Returns fuel (advance f ready) _ (omega (arith, g.same_length))
                (omega (arith, g.same_ones)) (omega (arith, g.larger)) all')
      ]

length-first_ready : (n i k : ℕ) → length (first_ready n i k) ≡ n
unfolding first_ready
length-first_ready zero i k = refl
length-first_ready (suc n) i k = ap suc (length-first_ready n (i + 1) k)

ones-first_ready : (n i k : ℕ) → k ≤ i + n → 0 < k → ones (first_ready n i k) ≡ k - i
unfolding first_ready ones
ones-first_ready zero i k h p = omega arith
ones-first_ready (suc n) i k h p = ground (arith, ones-first_ready n (i + 1) k)

get_combine_list-Returns : (n k : ℕ) → k ≤ n → Returns (All (IsChoice n k)) (get_combine_list n k)
unfolding get_combine_list
get_combine_list-Returns n k h =
    let loop = combine_loop (2 ^ n) (first_ready n 0 k) [] in
    let inside : leb k n ≡ true = ground arith in
    let set_flags = λ (p : 0 < k). ones-first_ready n 0 k (omega arith) p in
    rw inside (
      Returns-if (k == 0) (ok []) loop (λ _. record { ensures = tt })
        λ some_k.
          combine_loop-Returns n k (2 ^ n) (first_ready n 0 k) [] (length-first_ready n 0 k)
            (omega (arith, set_flags (ground arith))) (omega arith) tt)

-- For k ≤ n the loop ends, with the fuel that it is given, and every list in the result is a choice of
-- exactly k different indices below n, in increasing order.
pub get_combine_list-IsChoice :
    (n k : ℕ) → k ≤ n → Ensures (All (IsChoice n k)) (get_combine_list n k)
get_combine_list-IsChoice n k h = (get_combine_list-Returns n k h).ensures
