-- ===== src/Majiang/KingBounds.antt =====
-- `calc_ttt_combine` of src/game/majiang.rs returns, and uses no more kings than there are.
use tunm.Prelude.{
  ℕ, zero, suc, ◌+◌, ◌-◌, ◌≤◌, ◌<◌, ◌≡◌, refl, Bool, true, false, ◌||◌, some, List, [], ◌∷◌, arith,
  ltb, ◌==◌, if◌then◌else◌, length, ok, ◌>>=◌, index, Returns, Returns-if, Returns-bind,
  Returns-mono, All,
}
use tunm.Prelude.Int.{pos, ltb_ℤ, ◌-ℤ◌}
use tunm.Prelude.Maps.{nat_eq}
use tunm.Majiang.Combine.{get_combine_list}
use tunm.Majiang.CombineLaws.{IsChoice, get_combine_list-IsChoice}
use tunm.Majiang.Hand.{Hand, KindItem, king_idx, cost_one_items}
use tunm.Majiang.Left.{LeftResult, check_left_vaild}
use tunm.Majiang.Kings.{
  Paid, Best, no_best, pay_list, better, try_paid, unpaid, try_lists, try_none, has_result,
  need_loop,
}
use tunm.Majiang.KingLaws.{
  HasKings, cost_one_items-HasKings, HasLeft, check_left_vaild-HasLeft, count_of_found,
}

-- A meld of three tiles.
abbrev pub IsMeld : KindItem → Type 0
IsMeld item = length item.card_idx ≡ 3

index-All :
    {A : Type 0} (P : A → Type 0) (xs : List A) (i : ℕ)
    → i < length xs
    → All P xs
    → (x : A) × (index xs i ≡ ok x) × P x
index-All P [] i h all = elim h [ ]
index-All P (x ∷ xs) zero h all = (x, refl, all.0)
index-All P (x ∷ xs) (suc i) h all = index-All P xs i (omega arith) all.1

-- The best result so far uses a number of kings, of those that there are if there is a result.
pub record IsHonest (most : ℕ) (best : Best) : Type 0 where
  pub used : ℕ
  pub counted : best.min_use_king_count ≡ pos used
  pub within : has_result best ≡ true → used ≤ most

pub no_best-IsHonest : (most : ℕ) → IsHonest most no_best
no_best-IsHonest most = record { used = 255; counted = refl; within = λ e. cc }

king_diff : (a b : ℕ) → b ≤ a → (pos a -ℤ pos b) ≡ pos (a - b)
unfolding ◌-ℤ◌
king_diff a b h = ground arith

module _ (most : ℕ) (items : List KindItem) (melds : All IsMeld items) where
  pay_list-HasKings :
      (list : List ℕ) (p : Paid)
      → All (λ j. j < length items) list
      → HasKings most p.temp_card_idx
      → Returns (λ q. HasKings most q.temp_card_idx) (pay_list items list p)
  unfolding pay_list
  pay_list-HasKings [] p all h = record { ensures = h }
  pay_list-HasKings (idx ∷ list) p all h =
      let (item, e, three) = index-All IsMeld items idx all.0 melds in
      rw (e, pay_list)
        (Returns-bind (cost_one_items p.temp_card_idx item) _
          (cost_one_items-HasKings most p.temp_card_idx item three h)
          λ (r : Hand × Bool) (w : HasKings most r.0).
            Returns-if r.1 _ _ (λ _. pay_list-HasKings list _ all.1 w)
              (λ _. record { ensures = w }))

pub if-holds :
    {A : Type 0} (P : A → Type 0) (b : Bool) {x y : A} → P x → P y → P (if b then x else y)
if-holds P true h k = h
if-holds P false h k = k

bounded_choices :
    (n k : ℕ) (lists : List (List ℕ))
    → All (IsChoice n k) lists
    → All (λ list. All (λ j. j < n) list) lists
bounded_choices n k [] all = tt
bounded_choices n k (list ∷ lists) all = (all.0.bounded, bounded_choices n k lists all.1)

-- The lists of indices that are tried are in range.
choices :
    (n k : ℕ)
    → k ≤ n
    → Returns (λ lists. All (λ list. All (λ j. j < n) list) lists) (get_combine_list n k)
choices n k h =
    Returns-mono (get_combine_list n k) (record { ensures = get_combine_list-IsChoice n k h })
      λ (lists : List (List ℕ)) (all : All (IsChoice n k) lists). bounded_choices n k lists all

module _ (most : ℕ) where
  better-IsHonest :
      (p : Paid) (left : LeftResult) (best : Best)
      → HasKings most left.temp_card_idx
      → IsHonest most best
      → Returns (IsHonest most) (better (pos most) p left best)
  unfolding better
  better-IsHonest p left best h honest =
      let cur = most - h.kings in
      let taken : IsHonest most (record {
        pre_result_list = some left.cur_list;
        min_use_king_count = pos cur;
        max_use_item_num = p.king_items_used;
      }) =
        record { used = cur; counted = refl; within = λ _. omega arith } in
      rw (count_of_found king_idx left.temp_card_idx h.found, better)
        (rw (king_diff most h.kings h.bounded) (record {
          ensures = if-holds (IsHonest most) _ taken (if-holds (IsHonest most) _ taken honest);
        }))

  module _ (card_idx : Hand) where
    try_paid-IsHonest :
        (p : Paid) (best : Best)
        → HasKings most p.temp_card_idx
        → IsHonest most best
        → Returns (IsHonest most) (try_paid card_idx (pos most) p best)
    unfolding try_paid
    try_paid-IsHonest p best h honest =
        Returns-if p.cost_success _ (ok best)
          (λ _.
            Returns-bind (check_left_vaild card_idx p.temp_card_idx p.cur_list) _
              (check_left_vaild-HasLeft most card_idx p.temp_card_idx p.cur_list h)
              λ (l : LeftResult) (w : HasLeft most l).
                Returns-if l.is_success (better (pos most) p l best) (ok best)
                  (λ _. better-IsHonest p l best w.kings_left honest)
                  (λ _. record { ensures = honest }))
          (λ _. record { ensures = honest })

    try_none-IsHonest :
        (best : Best)
        → HasKings most card_idx
        → IsHonest most best
        → Returns (IsHonest most) (try_none card_idx best)
    unfolding try_none
    try_none-IsHonest best h honest =
        Returns-bind (check_left_vaild card_idx card_idx []) _
          (check_left_vaild-HasLeft most card_idx card_idx [] h)
          λ (l : LeftResult) (w : HasLeft most l).
            let found : IsHonest most (record best {
              pre_result_list = some l.cur_list;
              min_use_king_count = l.use_king_count;
            }) =
              record { used = w.used; counted = w.counted; within = λ _. w.within } in
            record { ensures = if-holds (IsHonest most) l.is_success found honest }

    module _ (items : List KindItem) (melds : All IsMeld items) (h : HasKings most card_idx) where
      try_lists-IsHonest :
          (lists : List (List ℕ)) (best : Best)
          → All (λ list. All (λ j. j < length items) list) lists
          → IsHonest most best
          → Returns (IsHonest most) (try_lists card_idx (pos most) items lists best)
      unfolding try_lists
      try_lists-IsHonest [] best all honest = record { ensures = honest }
      try_lists-IsHonest (list ∷ lists) best all honest =
          Returns-bind (pay_list items list (unpaid card_idx)) _
            (pay_list-HasKings most items melds list (unpaid card_idx) all.0 h)
            λ (p : Paid) (w : HasKings most p.temp_card_idx).
              Returns-bind (try_paid card_idx (pos most) p best) _
                (try_paid-IsHonest p best w honest)
                λ (best' : Best) (honest' : IsHonest most best').
                  try_lists-IsHonest lists best' all.1 honest'

      pub need_loop-IsHonest :
          (n need_num : ℕ) (best : Best)
          → IsHonest most best
          → Returns (IsHonest most) (need_loop card_idx (pos most) items n need_num best)
      unfolding need_loop
      need_loop-IsHonest zero need_num best honest = record { ensures = honest }
      need_loop-IsHonest (suc n) need_num best honest =
          let next = need_loop card_idx (pos most) items n (need_num + 1) in
          let later = λ (b : Best) (w : IsHonest most b). need_loop-IsHonest n (need_num + 1) b w in
          Returns-if (ltb (length items) need_num || ltb_ℤ best.min_use_king_count (pos need_num))
            (ok best) _ (λ _. record { ensures = honest })
            λ go.
              Returns-if (need_num == 0) (try_none card_idx best >>= next) _
                (λ _.
                  Returns-bind (try_none card_idx best) next (try_none-IsHonest best h honest)
                    later)
                λ _.
                  Returns-bind (get_combine_list (length items) need_num) _
                    (choices (length items) need_num (ground arith))
                    λ (lists : List (List ℕ))
                        (all : All (λ list. All (λ j. j < length items) list) lists).
                      Returns-bind (try_lists card_idx (pos most) items lists best) _
                        (try_lists-IsHonest lists best all honest)
                        λ (best' : Best) (honest' : IsHonest most best').
                          Returns-if (has_result best') (ok best') (next best')
                            (λ _. record { ensures = honest' }) (λ _. later best' honest')
