-- ===== src/Majiang/Hand.antt =====
-- Tiles, hands and melds of src/game/majiang.rs. A tile is its number, `color * 16 + rank`, and a hand
-- maps tiles to how many there are; the king has the number 255. Counts are integers, and an i32 or u8
-- that overflows is not modelled: no count passes the number of tiles held.
use tunm.Prelude.{
  ℕ, zero, suc, ◌+◌, ◌-◌, ◌*◌, Bool, true, false, not, ◌&&◌, ◌||◌, none, some, List, [], ◌∷◌, ◌++◌,
  map, ltb, leb, ◌==◌, if◌then◌else◌, replicate, Outcome, ok, panic, ◌>>=◌, index,
}
use tunm.Prelude.Int.{ℤ, pos, pos_part, ◌+ℤ◌, ◌-ℤ◌, leb_ℤ, eq_ℤ}
use tunm.Prelude.Maps as Maps
use tunm.Prelude.Maps.{HashMap, nat_eq}

abbrev pub mj_null : ℕ
mj_null = 0

abbrev pub mj_chi : ℕ
mj_chi = 1

abbrev pub mj_peng : ℕ
mj_peng = 2

abbrev pub mj_dui : ℕ
mj_dui = 10

abbrev pub king_idx : ℕ
king_idx = 255

abbrev pub Hand : Type 0
Hand = HashMap ℕ ℤ

pub record KindItem : Type 0 where
  pub card_idx : List ℕ
  pub kind_type : ℕ
  pub use_king_count : ℤ

-- `KindItem::new_by_data`.
abbrev pub new_by_data : ℕ → ℕ → ℕ → ℕ → KindItem
new_by_data card1 card2 card3 kind_type = record {
  card_idx = card1 ∷ card2 ∷ card3 ∷ [];
  kind_type = kind_type;
  use_king_count = pos 0;
}

-- `from .. from + n`.
unfoldable pub range_from : ℕ → ℕ → List ℕ
range_from i zero = []
range_from i (suc n) = i ∷ range_from (i + 1) n

-- How many ranks a color has, and one more. Other colors are `unreachable!`.
unfoldable pub get_poker_num : ℕ → Outcome ℕ
get_poker_num idx =
    if idx == 0 || idx == 1 || idx == 2
    then ok 10
    else if idx == 3
    then ok 5
    else if idx == 4
    then ok 4
    else panic

-- The tiles of one color that the hand holds, and how many.
unfoldable pub sub_cards : Hand → List ℕ → Hand → ℤ → Hand × ℤ
sub_cards all [] poker_idx sum = (poker_idx, sum)
sub_cards all (card ∷ cards) poker_idx sum = elim (Maps.get card all) [
  | none ↦ sub_cards all cards poker_idx sum
  | some count ↦ sub_cards all cards (Maps.insert card count poker_idx) (sum +ℤ count)
]

unfoldable pub get_sub_poker_idx : Hand → ℕ → Outcome (Hand × ℤ)
unfolding range_from get_poker_num sub_cards ◌+ℤ◌
get_sub_poker_idx all idx = do
  num ← get_poker_num idx
  ok (sub_cards all (map (λ i. idx * 16 + i) (range_from 1 (num - 1))) [] (pos 0))

unfoldable pub calc_hu_pokers : List KindItem → List ℕ
calc_hu_pokers [] = []
calc_hu_pokers (v ∷ list) = v.card_idx ++ calc_hu_pokers list

-- One tile is taken out: the last of its kind takes the kind with it, and one that is not there is
-- passed over.
unfoldable pub sub_one : ℕ → Hand → Hand
unfolding ◌-ℤ◌
sub_one poker m = elim (Maps.get poker m) [
  | none ↦ m
  | some count ↦
      let left = if leb_ℤ (pos 1) count then count -ℤ pos 1 else count in
      if eq_ℤ left (pos 0) then Maps.remove poker m else Maps.insert poker left m
]

unfoldable pub sub_all : List ℕ → Hand → Hand
unfolding sub_one
sub_all [] m = m
sub_all (poker ∷ pokers) m = sub_all pokers (sub_one poker m)

unfoldable pub sub_num_pokers : Hand → List KindItem → Hand
unfolding calc_hu_pokers sub_all
sub_num_pokers card_idx list = sub_all (calc_hu_pokers list) card_idx

abbrev run3 : ℕ → ℕ → ℕ → List ℕ
run3 a b c = a ∷ b ∷ c ∷ []

-- The runs that begin with a tile.
unfoldable pub check_can_eat : ℕ → ℕ → Bool → List (List ℕ)
check_can_eat color idx is_spec_eat =
    let first_card = color * 16 + idx in
    let straight = run3 first_card (first_card + 1) (first_card + 2) in
    let winds =
      straight
      ∷ run3 first_card (first_card + 1) (first_card + 3)
      ∷ run3 first_card (first_card + 2) (first_card + 3)
      ∷ [] in
    if not is_spec_eat && leb 3 color
    then []
    else if ltb 7 color
    then []
    else if ltb color 3
    then straight ∷ []
    else if color == 3
    then (if idx == 1 then winds else if idx == 2 then straight ∷ [] else [])
    else if color == 4
    then straight ∷ []
    else []

-- A tile is paid from the hand, `false` if there is none.
unfoldable pub pay : ℕ → Hand → Hand × Bool
unfolding ◌-ℤ◌
pay card m = elim (Maps.get card m) [
  | none ↦ (m, false)
  | some num ↦ if leb_ℤ num (pos 0) then (m, false) else (Maps.insert card (num -ℤ pos 1) m, true)
]

-- The tile itself if the hand has it, a king if not.
unfoldable pub cost_card : ℕ → Hand → Hand × Bool
unfolding pay
cost_card card m = elim (Maps.get card m) [
  | none ↦ pay king_idx m
  | some num ↦ if eq_ℤ num (pos 0) then pay king_idx m else pay card m
]

-- The three tiles of a meld, from the `i`-th on; the first that cannot be paid ends it.
unfoldable pub cost_cards : ℕ → ℕ → List ℕ → Hand → Outcome (Hand × Bool)
unfolding cost_card
cost_cards zero i cards m = ok (m, true)
cost_cards (suc n) i cards m = do
  card ← index cards i
  let (m', paid) = cost_card card m
  let rest = cost_cards n (i + 1) cards m'
  if paid then rest else ok (m', false)

unfoldable pub cost_one_items : Hand → KindItem → Outcome (Hand × Bool)
unfolding cost_cards
cost_one_items temp_card_idx item = cost_cards 3 0 item.card_idx temp_card_idx

unfoldable pub get_poker_idx_sum : Hand → ℤ
unfolding ◌+ℤ◌
get_poker_idx_sum [] = pos 0
get_poker_idx_sum ((key, val) ∷ m) = val +ℤ get_poker_idx_sum m

-- The tiles one by one, without the kings.
unfoldable pub idx_to_list : Hand → List ℕ
idx_to_list [] = []
idx_to_list ((key, val) ∷ m) =
    (if key == king_idx then [] else replicate (pos_part val) key) ++ idx_to_list m
