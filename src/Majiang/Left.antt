-- ===== src/Majiang/Left.antt =====
-- `MaJiang::check_left_vaild` of src/game/majiang.rs: what the melds leave must be a pair or nothing.
use tunm.Prelude.{
  ℕ, Bool, true, false, none, some, List, [], ◌∷◌, ◌++◌, ◌==◌, if◌then◌else◌, Outcome, ok, panic,
  ◌>>=◌,
}
use tunm.Prelude.Int.{ℤ, pos, ◌-ℤ◌, leb_ℤ}
use tunm.Prelude.Maps as Maps
use tunm.Prelude.Maps.{nat_eq}
use tunm.Majiang.Hand.{Hand, KindItem, mj_dui, king_idx, sub_num_pokers, idx_to_list}

-- `map[&key]`.
unfoldable pub count_of : ℕ → Hand → Outcome ℤ
count_of key m = elim (Maps.get key m) [ none ↦ panic | some count ↦ ok count ]

pub record LeftResult : Type 0 where
  pub is_success : Bool
  pub use_king_count : ℤ
  pub temp_card_idx : Hand
  pub cur_list : List KindItem

abbrev pub pair_of : ℕ → ℤ → KindItem
pair_of card kings = record {
  card_idx = card ∷ card ∷ [];
  kind_type = mj_dui;
  use_king_count = kings;
}

-- By the tiles left: a single one is paired by a king.
unfoldable pub left_of : List ℕ → Hand → List KindItem → Outcome LeftResult
unfolding ◌-ℤ◌
left_of [] temp cur_list = ok (record {
  is_success = true;
  use_king_count = pos 0;
  temp_card_idx = temp;
  cur_list = cur_list;
})
left_of (a ∷ []) temp cur_list = do
  kings ← count_of king_idx temp
  let paid : LeftResult = record {
    is_success = true;
    use_king_count = pos 1;
    temp_card_idx = Maps.insert king_idx (kings -ℤ pos 1) temp;
    cur_list = cur_list ++ pair_of a (pos 1) ∷ [];
  }
  let failed : LeftResult = record {
    is_success = false;
    use_king_count = pos 0;
    temp_card_idx = temp;
    cur_list = cur_list;
  }
  if leb_ℤ (pos 1) kings then ok paid else ok failed
left_of (a ∷ b ∷ []) temp cur_list =
    let same = a == b in
    ok (record {
      is_success = same;
      use_king_count = pos 0;
      temp_card_idx = temp;
      cur_list = if same then cur_list ++ pair_of a (pos 0) ∷ [] else cur_list;
    })
left_of (a ∷ b ∷ c ∷ rest) temp cur_list = ok (record {
  is_success = false;
  use_king_count = pos 0;
  temp_card_idx = temp;
  cur_list = cur_list;
})

unfoldable pub check_left_vaild : Hand → Hand → List KindItem → Outcome LeftResult
unfolding sub_num_pokers idx_to_list left_of
check_left_vaild card_idx temp cur_list =
    left_of (idx_to_list (sub_num_pokers card_idx cur_list)) temp cur_list
