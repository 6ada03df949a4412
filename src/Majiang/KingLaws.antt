-- ===== src/Majiang/KingLaws.antt =====
-- The kings of src/game/majiang.rs: paying for melds never overdraws them.
use tunm.Prelude.{
  ℕ, zero, suc, ◌+◌, ◌-◌, ◌≤◌, ◌≡◌, ◌≢◌, refl, true, false, some, List, [], ◌∷◌, arith, ◌==◌,
  length, ok, index_total, Returns, Returns-if, Bool-cases, Option-cases, inl, inr, ==_iff,
}
use tunm.Prelude.Int.{ℤ, pos, leb_ℤ, eq_ℤ, ◌-ℤ◌}
use tunm.Prelude.Maps as Maps
use tunm.Prelude.Maps.{nat_eq, get-insert_self, get-insert_ne}
use tunm.Majiang.Hand.{
  Hand, KindItem, king_idx, pay, cost_card, cost_cards, cost_one_items, sub_num_pokers, idx_to_list,
}
use tunm.Majiang.Left.{LeftResult, count_of, left_of, check_left_vaild}

-- The kings of a hand are known, from 0 to the number given.
pub record HasKings (most : ℕ) (m : Hand) : Type 0 where
  pub kings : ℕ
  pub found : Maps.get king_idx m ≡ some (pos kings)
  pub bounded : kings ≤ most

king_left : (k : ℕ) → leb_ℤ (pos (suc k)) (pos 0) ≡ false
king_left k = ground arith

king_paid : (k : ℕ) → (pos (suc k) -ℤ pos 1) ≡ pos k
unfolding ◌-ℤ◌
king_paid k = ground arith

king_there : (k : ℕ) → leb_ℤ (pos 1) (pos (suc k)) ≡ true
king_there k = ground arith

pub count_of_found : (key : ℕ) (m : Hand) {v : ℤ} → Maps.get key m ≡ some v → count_of key m ≡ ok v
unfolding count_of
count_of_found key m e = rw (e, count_of) refl

module _ (most : ℕ) where
  pub HasKings-insert_king :
      (k : ℕ) (m : Hand) → k ≤ most → HasKings most (Maps.insert king_idx (pos k) m)
  HasKings-insert_king k m h = record {
    kings = k;
    found = get-insert_self king_idx (pos k) m;
    bounded = h;
  }

  HasKings-insert_other :
      (card : ℕ) (v : ℤ) (m : Hand)
      → card ≢ king_idx
      → HasKings most m
      → HasKings most (Maps.insert card v m)
  HasKings-insert_other card v m ne h = record {
    kings = h.kings;
    found = rw (get-insert_ne card king_idx v m ne) h.found;
    bounded = h.bounded;
  }

  pay_king-HasKings :
      (k : ℕ) (m : Hand)
      → Maps.get king_idx m ≡ some (pos k)
      → k ≤ most
      → HasKings most (pay king_idx m).0
  unfolding pay
  pay_king-HasKings zero m e h =
      rw (e, pay) (record { kings = 0; found = e; bounded = omega arith })
  pay_king-HasKings (suc k) m e h =
      rw (e, pay) (rw (king_left k, king_paid k) (HasKings-insert_king k m (omega arith)))

  pay_other-HasKings :
      (card : ℕ) (m : Hand) → card ≢ king_idx → HasKings most m → HasKings most (pay card m).0
  unfolding pay
  pay_other-HasKings card m ne h = elim (Option-cases (Maps.get card m)) [
    | inl e ↦ rw (e, pay) h
    | inr (num, e) ↦ elim (Bool-cases (leb_ℤ num (pos 0))) [
      | inl low ↦ rw (e, low, pay) h
      | inr some_left ↦ rw (e, some_left, pay) (HasKings-insert_other card _ m ne h)
    ]
  ]

  pay-HasKings : (card : ℕ) (m : Hand) → HasKings most m → HasKings most (pay card m).0
  pay-HasKings card m h = elim (Bool-cases (card == king_idx)) [
    | inl same ↦ rw ((==_iff card king_idx).0 same) (pay_king-HasKings h.kings m h.found h.bounded)
    | inr other ↦ pay_other-HasKings card m (λ e. cc) h
  ]

  cost_card-HasKings : (card : ℕ) (m : Hand) → HasKings most m → HasKings most (cost_card card m).0
  unfolding cost_card
  cost_card-HasKings card m h = elim (Option-cases (Maps.get card m)) [
    | inl e ↦ rw (e, cost_card) (pay-HasKings king_idx m h)
    | inr (num, e) ↦ elim (Bool-cases (eq_ℤ num (pos 0))) [
      | inl gone ↦ rw (e, gone, cost_card) (pay-HasKings king_idx m h)
      | inr held ↦ rw (e, held, cost_card) (pay-HasKings card m h)
    ]
  ]

  cost_cards-HasKings :
      (n i : ℕ) (cards : List ℕ) (m : Hand)
      → i + n ≤ length cards
      → HasKings most m
      → Returns (λ r. HasKings most r.0) (cost_cards n i cards m)
  unfolding cost_cards
  cost_cards-HasKings zero i cards m room h = record { ensures = h }
  cost_cards-HasKings (suc n) i cards m room h =
      let (card, e) = index_total cards i (omega arith) in
      let (m', paid) = cost_card card m in
      let h' = cost_card-HasKings card m h in
      rw (e, cost_cards)
        (Returns-if paid (cost_cards n (i + 1) cards m') (ok (m', false))
          (λ _. cost_cards-HasKings n (i + 1) cards m' (omega arith) h')
          (λ _. record { ensures = h' }))

  pub cost_one_items-HasKings :
      (m : Hand) (item : KindItem)
      → length item.card_idx ≡ 3
      → HasKings most m
      → Returns (λ r. HasKings most r.0) (cost_one_items m item)
  unfolding cost_one_items
  cost_one_items-HasKings m item three h = cost_cards-HasKings 3 0 item.card_idx m (omega arith) h

  -- What the judgement of the tiles left keeps and counts.
  pub record HasLeft (l : LeftResult) : Type 0 where
    pub kings_left : HasKings most l.temp_card_idx
    pub used : ℕ
    pub counted : l.use_king_count ≡ pos used
    pub within : used ≤ most

  left_one-HasLeft :
      (a k : ℕ) (temp : Hand) (list : List KindItem)
      → Maps.get king_idx temp ≡ some (pos k)
      → k ≤ most
      → Returns HasLeft (left_of (a ∷ []) temp list)
  unfolding left_of
  left_one-HasLeft a zero temp list e h =
      let kept : HasKings most temp = record { kings = 0; found = e; bounded = h } in
      rw (count_of_found king_idx temp e, left_of)
        (record {
          ensures = record { kings_left = kept; used = 0; counted = refl; within = omega arith };
        })
  left_one-HasLeft a (suc k) temp list e h =
      let kept = HasKings-insert_king (suc k + 0 - 1) temp (omega arith) in
      rw (count_of_found king_idx temp e, king_there k, left_of)
        (record {
          ensures = record { kings_left = kept; used = 1; counted = refl; within = omega arith };
        })

  left_of-HasLeft :
      (sub : List ℕ) (temp : Hand) (list : List KindItem)
      → HasKings most temp
      → Returns HasLeft (left_of sub temp list)
  unfolding left_of
  left_of-HasLeft [] temp list h = record {
    ensures = record { kings_left = h; used = 0; counted = refl; within = omega arith };
  }
  left_of-HasLeft (a ∷ []) temp list h = left_one-HasLeft a h.kings temp list h.found h.bounded
  left_of-HasLeft (a ∷ b ∷ []) temp list h = record {
    ensures = record { kings_left = h; used = 0; counted = refl; within = omega arith };
  }
  left_of-HasLeft (a ∷ b ∷ c ∷ rest) temp list h = record {
    ensures = record { kings_left = h; used = 0; counted = refl; within = omega arith };
  }

  pub check_left_vaild-HasLeft :
      (card_idx temp : Hand) (list : List KindItem)
      → HasKings most temp
      → Returns HasLeft (check_left_vaild card_idx temp list)
  unfolding check_left_vaild
  check_left_vaild-HasLeft card_idx temp list h =
      left_of-HasLeft (idx_to_list (sub_num_pokers card_idx list)) temp list h
