-- ===== src/Majiang/Hu.antt =====
-- `MaJiang::check_can_hu` of src/game/majiang.rs, the colors of a hand. Per color the melds that the
-- tiles make by themselves are collected, the choices of them tried from the largest on, and what is
-- left is completed by kings.
use tunm.Prelude.{
  ℕ, zero, suc, ◌+◌, ◌-◌, ◌*◌, Bool, true, false, ◌&&◌, Option, none, some, List, [], ◌∷◌, ◌++◌,
  if◌then◌else◌, length, min, Outcome, ok, ◌>>=◌, index,
}
use tunm.Prelude.Int.{ℤ, pos, pos_part, ◌+ℤ◌, ◌-ℤ◌, leb_ℤ, ltb_ℤ}
use tunm.Prelude.Maps as Maps
use tunm.Prelude.Maps.{nat_eq}
use tunm.Majiang.Combine.{get_combine_list}
use tunm.Majiang.Hand.{
  Hand, KindItem, new_by_data, mj_chi, mj_peng, range_from, get_poker_num, get_sub_poker_idx,
  check_can_eat, cost_one_items, sub_num_pokers,
}
use tunm.Majiang.KingItems.{div3, count_or_zero}
use tunm.Majiang.Kings.{calc_ttt_combine}

-- `*all_card_idx.entry(poker).or_insert(0) += 1` for every tile.
unfoldable pub count_pokers : List ℕ → Hand → Hand
unfolding count_or_zero ◌+ℤ◌
count_pokers [] m = m
count_pokers (poker ∷ pokers) m =
    count_pokers pokers (Maps.insert poker (count_or_zero poker m +ℤ pos 1) m)

-- `while count1 > 0 && count2 > 0 && count3 > 0`; there are no more rounds than the first count.
unfoldable pub plain_runs : ℕ → KindItem → ℤ → ℤ → ℤ → List KindItem
unfolding ◌-ℤ◌
plain_runs zero item c1 c2 c3 = []
plain_runs (suc fuel) item c1 c2 c3 =
    let rest = plain_runs fuel item (c1 -ℤ pos 1) (c2 -ℤ pos 1) (c3 -ℤ pos 1) in
    if leb_ℤ (pos 1) c1 && (leb_ℤ (pos 1) c2 && leb_ℤ (pos 1) c3) then item ∷ rest else []

-- The runs for the counts of three tiles: none if one is missing.
unfoldable pub runs_for : KindItem → Option ℤ → Option ℤ → Option ℤ → List KindItem
unfolding plain_runs
runs_for item (some c1) (some c2) (some c3) = plain_runs (pos_part c1) item c1 c2 c3
runs_for item _ _ _ = []

unfoldable pub plain_eats : Hand → List (List ℕ) → Outcome (List KindItem)
unfolding runs_for
plain_eats all [] = ok []
plain_eats all (eat ∷ eats) = do
  a ← index eat 0
  b ← index eat 1
  c ← index eat 2
  let item = new_by_data a b c mj_chi
  rest ← plain_eats all eats
  ok (runs_for item (Maps.get a all) (Maps.get b all) (Maps.get c all) ++ rest)

-- The triple of a tile that the hand holds three times.
abbrev pub plain_peng : ℕ → ℤ → List KindItem
plain_peng card count = if leb_ℤ (pos 3) count then new_by_data card card card mj_peng ∷ [] else []

-- `kind_items` of a color, for the ranks of the list.
unfoldable pub plain_items : Hand → ℤ → ℕ → Bool → List ℕ → Outcome (List KindItem)
unfolding check_can_eat plain_eats
plain_items all all_num color is_spec_eat [] = ok []
plain_items all all_num color is_spec_eat (j ∷ js) =
    let card = color * 16 + j in
    let later = plain_items all all_num color is_spec_eat js in
    let runs = plain_eats all (check_can_eat color j is_spec_eat) in
    let here : Outcome (List KindItem) = elim (Maps.get card all) [
      | none ↦ later
      | some count ↦ runs >>= λ r. later >>= λ rest. ok (plain_peng card count ++ (r ++ rest))
    ] in
    if ltb_ℤ all_num (pos 3) then ok [] else here

-- The melds of one choice, `false` with the melds so far if one cannot be paid.
unfoldable pub pay_choice :
    List KindItem → List ℕ → Hand → List KindItem → Outcome (Bool × List KindItem)
unfolding cost_one_items
pay_choice items [] temp cur_list = ok (true, cur_list)
pay_choice items (idx ∷ list) temp cur_list = do
  item ← index items idx
  (temp', success) ← cost_one_items temp item
  let next = pay_choice items list temp' (cur_list ++ item ∷ [])
  if success then next else ok (false, cur_list)

-- All choices of one size: whether the last one could be paid, and those that could.
unfoldable pub pay_choices :
    Hand
    → List KindItem
    → List (List ℕ)
    → Bool
    → List (List KindItem)
    → Outcome (Bool × List (List KindItem))
unfolding pay_choice
pay_choices card_idx items [] success hu_list = ok (success, hu_list)
pay_choices card_idx items (list ∷ lists) success hu_list = do
  (success', cur_list) ← pay_choice items list card_idx []
  pay_choices card_idx items lists success' (if success' then hu_list ++ cur_list ∷ [] else hu_list)

abbrev pub is_nil {ℓ} : {A : Type ℓ} → List A → Bool
is_nil [] = true
is_nil (x ∷ xs) = false

-- `for i in (0 .. max_combine + 1).rev()`, with `i + 1` rounds left.
unfoldable pub choose_loop : Hand → List KindItem → ℤ → ℤ → ℕ → Outcome (List (List KindItem))
unfolding get_combine_list pay_choices ◌+ℤ◌
choose_loop card_idx items left_king_count all_num zero = ok []
choose_loop card_idx items left_king_count all_num (suc i) =
    let smaller = choose_loop card_idx items left_king_count all_num i in
    let reach = pos (i * 3) +ℤ left_king_count +ℤ left_king_count +ℤ pos 2 in
    let tried : Outcome (List (List KindItem)) = do
      lists ← get_combine_list (length items) i
      (success, hu_list) ← pay_choices card_idx items lists true []
      let hu_list' = if success && is_nil hu_list then [] ∷ [] else hu_list
      if is_nil hu_list' then smaller else ok hu_list'
    in if ltb_ℤ reach all_num then ok [] else tried

-- `final_list` and `min_use_king_count`.
abbrev pub Final : Type 0
Final = Option (List KindItem) × ℤ

-- The completion by the fewest kings, of the choices found.
unfoldable pub complete_loop : Hand → ℤ → ℕ → Bool → List (List KindItem) → Final → Outcome Final
unfolding sub_num_pokers calc_ttt_combine
complete_loop card_idx left_king_count color is_spec_eat [] final = ok final
complete_loop card_idx left_king_count color is_spec_eat (list ∷ lists) final = do
  (is_success, kings, more) ←
      calc_ttt_combine (sub_num_pokers card_idx list) left_king_count color is_spec_eat
  let better = is_success && ltb_ℤ kings final.1
  complete_loop card_idx left_king_count color is_spec_eat lists
      (if better then (some (list ++ more), kings) else final)

-- One color: its melds and the kings that are left, or `none` if it cannot be completed.
unfoldable pub check_color : Hand → ℤ → Bool → ℕ → Outcome (Option (List KindItem × ℤ))
unfolding get_sub_poker_idx plain_items choose_loop complete_loop ◌-ℤ◌
check_color all left_king_count is_spec_eat color = do
  (card_idx, all_num) ← get_sub_poker_idx all color
  num ← get_poker_num color
  items ← plain_items all all_num color is_spec_eat (range_from 1 (num - 1))
  let max_combine = min (length items) (pos_part (div3 all_num))
  choices ← choose_loop card_idx items left_king_count all_num (suc max_combine)
  (final_list, kings) ←
      complete_loop card_idx left_king_count color is_spec_eat choices (none, pos 255)
  ok (elim final_list [ none ↦ none | some list ↦ some (list, left_king_count -ℤ kings) ])

-- The colors of a list, one after the other: the melds of all, in order, and the kings left.
unfoldable pub check_colors :
    Hand → Bool → List ℕ → ℤ → List KindItem → Outcome (Option (List KindItem × ℤ))
unfolding check_color
check_colors all is_spec_eat [] kings melds = ok (some (melds, kings))
check_colors all is_spec_eat (color ∷ colors) kings melds = do
  found ← check_color all kings is_spec_eat color
  elim found [
    | none ↦ ok none
    | some (list, kings') ↦ check_colors all is_spec_eat colors kings' (melds ++ list)
  ]
