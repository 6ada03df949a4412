-- ===== src/Majiang/Kings.antt =====
-- `MaJiang::calc_ttt_combine` of src/game/majiang.rs: the melds that kings complete in one color.
use tunm.Prelude.{
  ℕ, zero, suc, ◌+◌, ◌-◌, Bool, true, false, ◌&&◌, ◌||◌, Option, none, some, List, [], ◌∷◌, ◌++◌,
  ltb, ◌==◌, if◌then◌else◌, length, Outcome, ok, ◌>>=◌, index,
}
use tunm.Prelude.Int.{ℤ, pos, pos_part, ◌+ℤ◌, ◌-ℤ◌, ltb_ℤ, eq_ℤ}
use tunm.Prelude.Maps as Maps
use tunm.Prelude.Maps.{nat_eq}
use tunm.Majiang.Combine.{get_combine_list}
use tunm.Majiang.Hand.{
  Hand, KindItem, king_idx, range_from, get_poker_num, cost_one_items, get_poker_idx_sum,
}
use tunm.Majiang.Left.{LeftResult, count_of, check_left_vaild}
use tunm.Majiang.KingItems.{div3, min_item_num, king_items}

-- What the melds of one choice cost: whether all could be paid, the hand left, the melds, and how many of
-- them use kings.
pub record Paid : Type 0 where
  pub cost_success : Bool
  pub temp_card_idx : Hand
  pub cur_list : List KindItem
  pub king_items_used : ℕ

unfoldable pub pay_list : List KindItem → List ℕ → Paid → Outcome Paid
unfolding cost_one_items
pay_list items [] p = ok p
pay_list items (idx ∷ list) p = do
  item ← index items idx
  (temp, success) ← cost_one_items p.temp_card_idx item
  let with_kings = if ltb_ℤ (pos 0) item.use_king_count then 1 else 0
  let next : Paid = record {
    cost_success = true;
    temp_card_idx = temp;
    cur_list = p.cur_list ++ item ∷ [];
    king_items_used = p.king_items_used + with_kings;
  }
  let failed = record p { cost_success = false; temp_card_idx = temp }
  if success then pay_list items list next else ok failed

-- The best result so far; 255 stands for no bound on the kings.
pub record Best : Type 0 where
  pub pre_result_list : Option (List KindItem)
  pub min_use_king_count : ℤ
  pub max_use_item_num : ℕ

abbrev pub no_best : Best
no_best = record { pre_result_list = none; min_use_king_count = pos 255; max_use_item_num = 0 }

-- Fewer kings are better, and of as many kings more melds with kings are.
unfoldable pub better : ℤ → Paid → LeftResult → Best → Outcome Best
unfolding count_of ◌-ℤ◌
better king_count p left best = do
  kings ← count_of king_idx left.temp_card_idx
  let cur = king_count -ℤ kings
  let taken : Best = record {
    pre_result_list = some left.cur_list;
    min_use_king_count = cur;
    max_use_item_num = p.king_items_used;
  }
  ok (
      if ltb_ℤ cur best.min_use_king_count
      then taken
      else if eq_ℤ cur best.min_use_king_count && ltb best.max_use_item_num p.king_items_used
      then taken
      else best)

-- A choice of melds that could be paid counts if it leaves a pair or nothing.
unfoldable pub try_paid : Hand → ℤ → Paid → Best → Outcome Best
unfolding check_left_vaild better
try_paid card_idx king_count p best =
    let judged : Outcome Best = do
      left ← check_left_vaild card_idx p.temp_card_idx p.cur_list
      if left.is_success then better king_count p left best else ok best
    in if p.cost_success then judged else ok best

abbrev pub unpaid : Hand → Paid
unpaid card_idx = record {
  cost_success = false;
  temp_card_idx = card_idx;
  cur_list = [];
  king_items_used = 0;
}

unfoldable pub try_lists : Hand → ℤ → List KindItem → List (List ℕ) → Best → Outcome Best
unfolding pay_list try_paid
try_lists card_idx king_count items [] best = ok best
try_lists card_idx king_count items (list ∷ lists) best = do
  p ← pay_list items list (unpaid card_idx)
  best' ← try_paid card_idx king_count p best
  try_lists card_idx king_count items lists best'

-- The hand that is left without any meld.
unfoldable pub try_none : Hand → Best → Outcome Best
unfolding check_left_vaild
try_none card_idx best = do
  left ← check_left_vaild card_idx card_idx []
  let found = record best {
    pre_result_list = some left.cur_list;
    min_use_king_count = left.use_king_count;
  }
  ok (if left.is_success then found else best)

abbrev pub has_result : Best → Bool
has_result best = Maps.is_some best.pre_result_list

-- `for need_num in min_item_num .. max_item_num + 1`, for `n` rounds from `need_num` on.
unfoldable pub need_loop : Hand → ℤ → List KindItem → ℕ → ℕ → Best → Outcome Best
unfolding get_combine_list try_lists try_none
need_loop card_idx king_count items zero need_num best = ok best
need_loop card_idx king_count items (suc n) need_num best =
    let next = need_loop card_idx king_count items n (need_num + 1) in
    let none_needed : Outcome Best = try_none card_idx best >>= next in
    let some_needed : Outcome Best = do
      lists ← get_combine_list (length items) need_num
      best' ← try_lists card_idx king_count items lists best
      let later = next best'
      if has_result best' then ok best' else later
    in if ltb (length items) need_num || ltb_ℤ best.min_use_king_count (pos need_num)
      then ok best
      else if need_num == 0
      then none_needed
      else some_needed

abbrev pub CombineResult : Type 0
CombineResult = Bool × ℤ × List KindItem

abbrev pub result_of : Best → CombineResult
result_of best = elim best.pre_result_list [
  | none ↦ (false, pos 0, [])
  | some list ↦ (true, best.min_use_king_count, list)
]

unfoldable pub calc_ttt_combine : Hand → ℤ → ℕ → Bool → Outcome CombineResult
unfolding get_poker_idx_sum div3 min_item_num king_items need_loop range_from get_poker_num ◌+ℤ◌
calc_ttt_combine hand king_count color is_spec_eat =
    let left_sum = get_poker_idx_sum hand in
    let card_idx = Maps.insert king_idx king_count hand in
    let max_items = div3 (left_sum +ℤ king_count) in
    let min_items = min_item_num left_sum in
    let rounds = pos_part (max_items +ℤ pos 1) - min_items in
    let combined : Outcome CombineResult = do
      num ← get_poker_num color
      items ← king_items card_idx left_sum king_count color is_spec_eat (range_from 1 (num - 1))
      best ← need_loop card_idx king_count items rounds min_items no_best
      ok (result_of best)
    in if eq_ℤ left_sum (pos 0)
      then ok (true, pos 0, [])
      else if ltb_ℤ king_count (pos min_items)
      then ok (false, pos 0, [])
      else combined
