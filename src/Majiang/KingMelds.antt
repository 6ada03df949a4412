-- ===== src/Majiang/KingMelds.antt =====
-- The melds that `calc_ttt_combine` of src/game/majiang.rs tries are melds of three tiles, and listing
-- them ends; so the function returns.
use tunm.Prelude.{
  ℕ, zero, suc, ◌+◌, ◌-◌, ◌*◌, ◌≤◌, ◌<◌, ◌≡◌, refl, Bool, true, false, ◌&&◌, ◌||◌, not, List, [],
  ◌∷◌, ◌++◌, arith, ltb, leb, ◌==◌, length, Outcome, ok, panic, ◌>>=◌, index_total, Ensures,
  Returns, Returns-if, Returns-bind, Option-cases, inl, inr, All, All-append,
}
use tunm.Prelude.Int.{ℤ, pos, pos_part, leb_ℤ, ltb_ℤ, eq_ℤ, ◌+ℤ◌, ◌-ℤ◌}
use tunm.Prelude.Maps as Maps
use tunm.Prelude.Maps.{nat_eq, Every, Every-insert}
use tunm.Majiang.Hand.{
  Hand, KindItem, king_idx, range_from, get_poker_num, check_can_eat, get_poker_idx_sum,
}
use tunm.Majiang.KingItems.{
  div3, min_item_num, count_or_zero, king_peng, spend, kings_for, king_runs, eat_runs, king_eats,
  king_items,
}
use tunm.Majiang.Kings.{Best, no_best, need_loop, CombineResult, result_of, calc_ttt_combine}
use tunm.Majiang.KingLaws.{HasKings-insert_king}
use tunm.Majiang.KingBounds.{IsMeld, if-holds, IsHonest, no_best-IsHonest, need_loop-IsHonest}

abbrev Melds : Outcome (List KindItem) → Type 0
Melds r = Returns (All IsMeld) r

spend-pos : (v : ℤ) (n : ℕ) → v ≡ pos n → spend v ≡ pos (n - 1)
unfolding ◌-ℤ◌
spend-pos v n e = ground arith

abbrev lone : ℤ → ℤ → ℤ → Bool
lone c1 c2 c3 = eq_ℤ (c1 +ℤ c2) (pos 0) || eq_ℤ (c1 +ℤ c3) (pos 0) || eq_ℤ (c2 +ℤ c3) (pos 0)

-- A round takes two tiles.
fewer_tiles :
    (a b c fuel : ℕ)
    → lone (pos a) (pos b) (pos c) ≡ false
    → a + b + c < suc fuel
    → (a - 1) + (b - 1) + (c - 1) < fuel
unfolding ◌+ℤ◌
fewer_tiles a b c fuel l h = ground arith

fewer :
    (c1 c2 c3 : ℤ) (a b c fuel : ℕ)
    → c1 ≡ pos a
    → c2 ≡ pos b
    → c3 ≡ pos c
    → lone c1 c2 c3 ≡ false
    → a + b + c < suc fuel
    → (a - 1) + (b - 1) + (c - 1) < fuel
unfolding ◌+ℤ◌
fewer c1 c2 c3 a b c fuel e1 e2 e3 l h = fewer_tiles a b c fuel (rw (e1, e2, e3) at l) h

king_runs-IsMeld :
    (fuel a b c : ℕ) (eat : List ℕ) (c1 c2 c3 temp : ℤ)
    → length eat ≡ 3
    → c1 ≡ pos a
    → c2 ≡ pos b
    → c3 ≡ pos c
    → a + b + c < fuel
    → Melds (king_runs fuel eat c1 c2 c3 temp)
unfolding king_runs
king_runs-IsMeld zero a b c eat c1 c2 c3 temp three e1 e2 e3 h = elim h [ ]
king_runs-IsMeld (suc fuel) a b c eat c1 c2 c3 temp three e1 e2 e3 h =
    let kings = kings_for c1 +ℤ kings_for c2 +ℤ kings_for c3 in
    let (x, ex) = index_total eat 0 (omega arith) in
    let (y, ey) = index_total eat 1 (omega arith) in
    let (z, ez) = index_total eat 2 (omega arith) in
    Returns-if (leb_ℤ (pos 3) (c1 +ℤ c2 +ℤ c3 +ℤ temp)) _ (ok [])
      (λ _.
        Returns-if (lone c1 c2 c3) (ok []) _ (λ _. record { ensures = tt })
          λ more.
            rw (ex, ey, ez)
              (Returns-bind (king_runs fuel eat (spend c1) (spend c2) (spend c3) (temp -ℤ kings)) _
                (king_runs-IsMeld fuel (a - 1) (b - 1) (c - 1) eat _ _ _ _ three (spend-pos c1 a e1)
                  (spend-pos c2 b e2) (spend-pos c3 c e3)
                  (fewer c1 c2 c3 a b c fuel e1 e2 e3 more h))
                λ (rest : List KindItem) (w : All IsMeld rest). record { ensures = (refl, w) }))
      (λ _. record { ensures = tt })

check_can_eat-three :
    (color idx : ℕ) (spec : Bool) → All (λ eat. length eat ≡ 3) (check_can_eat color idx spec)
unfolding check_can_eat
check_can_eat-three color idx spec =
    let three = All (λ (eat : List ℕ). length eat ≡ 3) in
    if-holds three (not spec && leb 3 color) tt (
      if-holds three (ltb 7 color) tt (
        if-holds three (ltb color 3) (refl, tt)
          (if-holds three (color == 3)
            (if-holds three (idx == 1) (refl, (refl, (refl, tt)))
              (if-holds three (idx == 2) (refl, tt) tt))
            (if-holds three (color == 4) (refl, tt) tt))))

-- No count of the hand is negative.
abbrev pub IsHand : Hand → Type 0
IsHand = Every (λ v. (n : ℕ) × (v ≡ pos n))

count_or_zero-pos : (card : ℕ) (m : Hand) → IsHand m → (n : ℕ) × (count_or_zero card m ≡ pos n)
unfolding count_or_zero
count_or_zero-pos card m h = elim (Option-cases (Maps.get card m)) [
  | inl e ↦ (0, rw (e, count_or_zero) refl)
  | inr (v, e) ↦ let (n, is) = h.at card v e in (n, rw (e, count_or_zero) is)
]

module _ (card_idx : Hand) (hand : IsHand card_idx) (king_count : ℤ) where
  eat_runs-IsMeld :
      (eat : List ℕ) (x y z : ℕ) → length eat ≡ 3 → Melds (eat_runs card_idx king_count eat x y z)
  unfolding eat_runs
  eat_runs-IsMeld eat x y z three =
      let (a, ea) = count_or_zero-pos x card_idx hand in
      let (b, eb) = count_or_zero-pos y card_idx hand in
      let (c, ec) = count_or_zero-pos z card_idx hand in
      let c1 = count_or_zero x card_idx in
      let c2 = count_or_zero y card_idx in
      let c3 = count_or_zero z card_idx in
      let fuel = suc (pos_part c1 + pos_part c2 + pos_part c3) in
      let enough : a + b + c < fuel = rw (ea, eb, ec) (omega arith) in
      king_runs-IsMeld fuel a b c eat c1 c2 c3 king_count three ea eb ec enough

  king_eats-IsMeld :
      (eats : List (List ℕ))
      → All (λ eat. length eat ≡ 3) eats
      → Melds (king_eats card_idx king_count eats)
  unfolding king_eats
  king_eats-IsMeld [] all = record { ensures = tt }
  king_eats-IsMeld (eat ∷ eats) all =
      let (x, ex) = index_total eat 0 (omega (arith, all.0)) in
      let (y, ey) = index_total eat 1 (omega (arith, all.0)) in
      let (z, ez) = index_total eat 2 (omega (arith, all.0)) in
      let with_rest = λ (runs : List KindItem).
        king_eats card_idx king_count eats >>= λ (rest : List KindItem). ok (runs ++ rest) in
      rw (ex, ey, ez)
        (Returns-bind (eat_runs card_idx king_count eat x y z) with_rest
          (eat_runs-IsMeld eat x y z all.0)
          λ (runs : List KindItem) (w : All IsMeld runs).
            Returns-bind (king_eats card_idx king_count eats) _ (king_eats-IsMeld eats all.1)
              λ (rest : List KindItem) (v : All IsMeld rest). record {
                ensures = All-append IsMeld runs rest w v;
              })

  king_peng-IsMeld : (card : ℕ) (count : ℤ) → All IsMeld (king_peng card count king_count)
  unfolding king_peng
  king_peng-IsMeld card count =
      if-holds (All IsMeld) (eq_ℤ count (pos 2) && leb_ℤ (pos 1) king_count) (refl, tt)
        (if-holds (All IsMeld) (eq_ℤ count (pos 1) && leb_ℤ (pos 2) king_count) (refl, tt) tt)

  king_items-IsMeld :
      (left_sum : ℤ) (color : ℕ) (spec : Bool) (js : List ℕ)
      → Melds (king_items card_idx left_sum king_count color spec js)
  unfolding king_items
  king_items-IsMeld left_sum color spec [] = record { ensures = tt }
  king_items-IsMeld left_sum color spec (j ∷ js) =
      let card = color * 16 + j in
      let peng = king_peng card (count_or_zero card card_idx) king_count in
      Returns-if (ltb_ℤ (left_sum +ℤ king_count) (pos 3)) (ok []) _ (λ _. record { ensures = tt })
        λ _.
          Returns-bind (king_eats card_idx king_count (check_can_eat color j spec)) _
            (king_eats-IsMeld _ (check_can_eat-three color j spec))
            λ (runs : List KindItem) (w : All IsMeld runs).
              Returns-bind (king_items card_idx left_sum king_count color spec js) _
                (king_items-IsMeld left_sum color spec js)
                λ (rest : List KindItem) (v : All IsMeld rest). record {
                  ensures =
                      All-append IsMeld peng (runs ++ rest)
                        (king_peng-IsMeld card (count_or_zero card card_idx))
                        (All-append IsMeld runs rest w v);
                }

-- What a result says of the kings it uses.
abbrev pub UsesAtMost : ℕ → CombineResult → Type 0
UsesAtMost most r = (used : ℕ) × (r.1 ≡ pos used) × (used ≤ most)

get_poker_num-Returns : (color : ℕ) → color < 5 → Returns (λ _. Unit {0}) (get_poker_num color)
unfolding get_poker_num
get_poker_num-Returns color h =
    Returns-if (color == 0 || color == 1 || color == 2) (ok 10) _ (λ _. record { ensures = tt })
      λ high.
        Returns-if (color == 3) (ok 5) _ (λ _. record { ensures = tt })
          λ not3.
            Returns-if (color == 4) (ok 4) panic (λ _. record { ensures = tt })
              λ not4. absurd (ground arith)

result_of-UsesAtMost :
    (most : ℕ) (best : Best) → IsHonest most best → UsesAtMost most (result_of best)
result_of-UsesAtMost most best h = elim (Option-cases best.pre_result_list) [
  | inl e ↦ rw e (0, refl, omega arith)
  | inr (list, e) ↦ rw e (h.used, h.counted, h.within (rw e refl))
]

calc_ttt_combine-Returns :
    (hand : Hand) (most color : ℕ) (spec : Bool)
    → IsHand hand
    → color < 5
    → Returns (UsesAtMost most) (calc_ttt_combine hand (pos most) color spec)
unfolding calc_ttt_combine
calc_ttt_combine-Returns hand most color spec h c =
    let left_sum = get_poker_idx_sum hand in
    let min_items = min_item_num left_sum in
    let rounds = pos_part (div3 (left_sum +ℤ pos most) +ℤ pos 1) - min_items in
    let card_idx = Maps.insert king_idx (pos most) hand in
    let counts =
      Every-insert (λ v. (n : ℕ) × (v ≡ pos n)) king_idx (pos most) hand (most, refl) h in
    let kings = HasKings-insert_king most most hand (omega arith) in
    Returns-if (eq_ℤ left_sum (pos 0)) (ok (true, pos 0, [])) _
      (λ _. record { ensures = (0, refl, omega arith) })
      λ _.
        Returns-if (ltb_ℤ (pos most) (pos (min_item_num left_sum))) (ok (false, pos 0, [])) _
          (λ _. record { ensures = (0, refl, omega arith) })
          λ _.
            Returns-bind (get_poker_num color) _ (get_poker_num-Returns color c)
              λ (num : ℕ) (_ : Unit {0}).
                Returns-bind
                  (king_items card_idx left_sum (pos most) color spec (range_from 1 (num - 1))) _
                  (king_items-IsMeld card_idx counts (pos most) left_sum color spec _)
                  λ (items : List KindItem) (melds : All IsMeld items).
                    Returns-bind (need_loop card_idx (pos most) items rounds min_items no_best)
                      (λ (best : Best). ok (result_of best))
                      (need_loop-IsHonest most card_idx items melds kings rounds min_items no_best
                        (no_best-IsHonest most))
                      λ (best : Best) (w : IsHonest most best). record {
                        ensures = result_of-UsesAtMost most best w;
                      }

-- For a hand without negative counts and one of the five colors, the search for melds with kings
-- returns, and the number of kings that it says it uses is from 0 to the number of kings there are.
pub calc_ttt_combine-UsesAtMost :
    (hand : Hand) (most color : ℕ) (spec : Bool)
    → IsHand hand
    → color < 5
    → Ensures (UsesAtMost most) (calc_ttt_combine hand (pos most) color spec)
calc_ttt_combine-UsesAtMost hand most color spec h c =
    (calc_ttt_combine-Returns hand most color spec h c).ensures
