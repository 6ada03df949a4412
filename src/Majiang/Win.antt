-- ===== src/Majiang/Win.antt =====
-- `MaJiang::check_can_hu` of src/game/majiang.rs, the last part: the pairs that the colors left become
-- triples by a king each, but for one pair if the hand wants it, and the kings left make melds.
use tunm.Prelude.{
  ℕ, zero, suc, ◌+◌, ◌-◌, ◌%◌, ◌^◌, Bool, true, false, not, ◌&&◌, ◌||◌, Option, none, some, List,
  [], ◌∷◌, ◌++◌, leb, ◌==◌, if◌then◌else◌, length, Outcome, ok, ◌>>=◌, index,
}
use tunm.Prelude.Int.{ℤ, pos, negsuc, pos_part, ◌+ℤ◌, ◌-ℤ◌, leb_ℤ, ltb_ℤ}
use tunm.Majiang.Hand.{KindItem, new_by_data, mj_peng, mj_dui}
use tunm.Majiang.Left.{pair_of}
use tunm.Majiang.Hu.{count_pokers, check_colors}

unfoldable pub is_dui : KindItem → Bool
is_dui v = v.kind_type == mj_dui

-- The melds that are pairs, or those that are not.
unfoldable pub select : Bool → List KindItem → List KindItem
unfolding is_dui
select true [] = []
select true (v ∷ vs) = if is_dui v then v ∷ select true vs else select true vs
select false [] = []
select false (v ∷ vs) = if is_dui v then select false vs else v ∷ select false vs

-- A pair and a king are a triple.
unfoldable pub to_peng : KindItem → Outcome KindItem
unfolding ◌+ℤ◌
to_peng v = do
  card ← index v.card_idx 0
  ok (record {
    card_idx = v.card_idx ++ card ∷ [];
    kind_type = mj_peng;
    use_king_count = v.use_king_count +ℤ pos 1;
  })

unfoldable pub to_pengs : List KindItem → Outcome (List KindItem)
unfolding to_peng
to_pengs [] = ok []
to_pengs (v ∷ vs) = do p ← to_peng v; rest ← to_pengs vs; ok (p ∷ rest)

-- Three kings are a triple, while there are any; there are no more rounds than kings.
unfoldable pub king_pengs : ℕ → ℕ → ℤ → List KindItem
unfolding ◌-ℤ◌
king_pengs zero king_poker kings = []
king_pengs (suc fuel) king_poker kings =
    let item = record (new_by_data king_poker king_poker king_poker mj_peng) {
      use_king_count = pos 3;
    } in
    let rest = king_pengs fuel king_poker (kings -ℤ pos 3) in
    if leb_ℤ kings (pos 0) then [] else item ∷ rest

-- The hand without a pair.
unfoldable pub full_win : ℕ → ℤ → List KindItem → List KindItem → Outcome (Option (List KindItem))
unfolding to_pengs king_pengs
full_win king_poker kings dui hu =
    let kings' = kings -ℤ pos (length dui) in
    let won : Outcome (Option (List KindItem)) = do
      pengs ← to_pengs dui
      ok (some (hu ++ (pengs ++ king_pengs (pos_part kings') king_poker kings')))
    in if leb_ℤ (pos (length dui)) kings then won else ok none

-- The two loops over the pairs: their melds so far, the pairs put off, and how many got a king.
pub record Pairs : Type 0 where
  pub hu_list : List KindItem
  pub use_king_dui : List KindItem
  pub add_num : ℕ

abbrev pub last_pair : Bool → ℕ → ℕ → Bool
last_pair is_big sum add_num = not is_big && leb sum (add_num + 1)

-- The first loop puts off the pairs that use kings already.
unfoldable pub split_pairs : Bool → ℕ → List KindItem → Pairs → Outcome Pairs
unfolding to_peng
split_pairs is_big sum [] p = ok p
split_pairs is_big sum (v ∷ vs) p =
    let put_off = record p { use_king_dui = p.use_king_dui ++ v ∷ [] } in
    let later = split_pairs is_big sum vs put_off in
    let filled : Outcome Pairs = to_peng v >>= λ item.
    split_pairs is_big sum vs
      (record p { hu_list = p.hu_list ++ item ∷ []; add_num = p.add_num + 1 }) in
    if last_pair is_big sum p.add_num
    then ok (record p { hu_list = p.hu_list ++ v ∷ [] })
    else if ltb_ℤ (pos 0) v.use_king_count
    then later
    else filled

-- The second loop goes over those put off.
unfoldable pub finish_pairs : Bool → ℕ → List KindItem → ℕ → List KindItem → Outcome (List KindItem)
unfolding to_peng
finish_pairs is_big sum [] add_num hu = ok hu
finish_pairs is_big sum (v ∷ vs) add_num hu =
    let filled : Outcome (List KindItem) =
      to_peng v >>= λ item. finish_pairs is_big sum vs (add_num + 1) (hu ++ item ∷ []) in
    if last_pair is_big sum add_num then ok (hu ++ v ∷ []) else filled

-- The hand with a pair, of kings if they suffice for all others.
unfoldable pub pair_win : ℕ → ℤ → List KindItem → List KindItem → Outcome (Option (List KindItem))
unfolding split_pairs finish_pairs king_pengs ◌+ℤ◌ ◌-ℤ◌
pair_win king_poker kings dui hu =
    let sum = length dui in
    let is_big = ltb_ℤ (pos sum) (kings +ℤ pos 1) in
    let left = if is_big then kings -ℤ pos sum else kings -ℤ (pos sum -ℤ pos 1) in
    let left' = if is_big then left -ℤ pos 2 else left in
    let king_pair = if is_big then pair_of king_poker (pos 2) ∷ [] else [] in
    let won : Outcome (Option (List KindItem)) = do
      p ← split_pairs is_big sum dui (record { hu_list = hu; use_king_dui = []; add_num = 0 })
      melds ← finish_pairs is_big sum p.use_king_dui p.add_num p.hu_list
      ok (some (melds ++ (king_pair ++ king_pengs (pos_part left') king_poker left')))
    in if leb_ℤ (pos sum) (kings +ℤ pos 1) then won else ok none

-- `x as usize` on an i32.
unfoldable pub as_usize : ℤ → ℕ
as_usize (pos n) = n
as_usize (negsuc n) = 2 ^ 64 - 1 - n

-- The melds of a winning hand. The flag that comes with them is always true, and the third list empty.
unfoldable pub check_can_hu : List ℕ → ℤ → ℕ → Bool → Outcome (Option (List KindItem))
unfolding as_usize count_pokers check_colors select full_win pair_win
check_can_hu poker_list king_num king_poker is_spec_eat =
    let left = (length poker_list + as_usize king_num) % 2 ^ 64 % 3 in
    let colors = 0 ∷ 1 ∷ 2 ∷ 3 ∷ 4 ∷ [] in
    let judged : Outcome (Option (List KindItem)) = do
      found ← check_colors (count_pokers poker_list []) is_spec_eat colors king_num []
      elim found [
        | none ↦ ok none
        | some (melds, kings) ↦
            if left == 0
            then full_win king_poker kings (select true melds) (select false melds)
            else pair_win king_poker kings (select true melds) (select false melds)
      ]
    in if left == 0 || left == 2 then judged else ok none
