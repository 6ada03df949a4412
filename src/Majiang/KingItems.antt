-- ===== src/Majiang/KingItems.antt =====
-- The melds that `MaJiang::calc_ttt_combine` of src/game/majiang.rs lists for one color: what tiles and
-- kings could form.
-- The bound on the melds is `floor(1.51f32 / 3f32 * (left_sum - 2))`; here it is the same fraction of
-- integers, floor(151 * (left_sum - 2) / 300), which agrees for fewer than 300 tiles.
use tunm.Prelude.{
  ℕ, zero, suc, ◌+◌, ◌*◌, ◌/◌, Bool, ◌&&◌, ◌||◌, none, some, List, [], ◌∷◌, ◌++◌, if◌then◌else◌,
  Outcome, ok, panic, ◌>>=◌, index,
}
use tunm.Prelude.Int.{ℤ, pos, negsuc, pos_part, ◌+ℤ◌, ◌-ℤ◌, leb_ℤ, ltb_ℤ, eq_ℤ}
use tunm.Prelude.Maps as Maps
use tunm.Prelude.Maps.{nat_eq}
use tunm.Majiang.Hand.{Hand, KindItem, new_by_data, mj_chi, mj_peng, check_can_eat}

-- `/ 3` on an i32, which rounds towards zero.
unfoldable pub div3 : ℤ → ℤ
unfolding ◌-ℤ◌
div3 (pos n) = pos (n / 3)
div3 (negsuc n) = pos 0 -ℤ pos (suc n / 3)

unfoldable pub min_item_num : ℤ → ℕ
unfolding ◌-ℤ◌
min_item_num left_sum = 151 * pos_part (left_sum -ℤ pos 2) / 300

-- `card_idx.get(&card).map(|v| v.clone()).unwrap_or(0)`.
unfoldable pub count_or_zero : ℕ → Hand → ℤ
count_or_zero card m = elim (Maps.get card m) [ none ↦ pos 0 | some count ↦ count ]

-- A triple of a tile, filled up by one king or two.
unfoldable pub king_peng : ℕ → ℤ → ℤ → List KindItem
king_peng card card_count king_count =
    let item =
      λ (kings : ℤ). record (new_by_data card card card mj_peng) { use_king_count = kings } in
    if eq_ℤ card_count (pos 2) && leb_ℤ (pos 1) king_count
    then item (pos 1) ∷ []
    else if eq_ℤ card_count (pos 1) && leb_ℤ (pos 2) king_count
    then item (pos 2) ∷ []
    else []

-- One place of a run: the tile if there is one left, and a king if not.
abbrev pub spend : ℤ → ℤ
spend count = if leb_ℤ count (pos 0) then count else count -ℤ pos 1

abbrev pub kings_for : ℤ → ℤ
kings_for count = if leb_ℤ count (pos 0) then pos 1 else pos 0

-- The runs of three tiles, as often as tiles and kings suffice. Each round takes two tiles at least;
-- `panic` would mean that the fuel ran out.
unfoldable pub king_runs : ℕ → List ℕ → ℤ → ℤ → ℤ → ℤ → Outcome (List KindItem)
unfolding ◌+ℤ◌ ◌-ℤ◌
king_runs zero eat c1 c2 c3 temp = panic
king_runs (suc fuel) eat c1 c2 c3 temp =
    let kings = kings_for c1 +ℤ kings_for c2 +ℤ kings_for c3 in
    let round : Outcome (List KindItem) = do
      a ← index eat 0
      b ← index eat 1
      c ← index eat 2
      let item = record (new_by_data a b c mj_chi) { use_king_count = kings }
      rest ← king_runs fuel eat (spend c1) (spend c2) (spend c3) (temp -ℤ kings)
      ok (item ∷ rest)
    in let lone = eq_ℤ (c1 +ℤ c2) (pos 0) || eq_ℤ (c1 +ℤ c3) (pos 0) || eq_ℤ (c2 +ℤ c3) (pos 0) in
      if leb_ℤ (pos 3) (c1 +ℤ c2 +ℤ c3 +ℤ temp) then (if lone then ok [] else round) else ok []

-- The runs of the tiles a, b and c that `eat` lists.
unfoldable pub eat_runs : Hand → ℤ → List ℕ → ℕ → ℕ → ℕ → Outcome (List KindItem)
unfolding count_or_zero king_runs
eat_runs card_idx king_count eat a b c =
    let c1 = count_or_zero a card_idx in
    let c2 = count_or_zero b card_idx in
    let c3 = count_or_zero c card_idx in
    let fuel = suc (pos_part c1 + pos_part c2 + pos_part c3) in
    king_runs fuel eat c1 c2 c3 king_count

-- The runs that begin with one tile.
unfoldable pub king_eats : Hand → ℤ → List (List ℕ) → Outcome (List KindItem)
king_eats card_idx king_count [] = ok []
king_eats card_idx king_count (eat ∷ eats) = do
  a ← index eat 0
  b ← index eat 1
  c ← index eat 2
  runs ← eat_runs card_idx king_count eat a b c
  rest ← king_eats card_idx king_count eats
  ok (runs ++ rest)

-- `kind_items`, for the ranks of a color from the first of the list on.
unfoldable pub king_items : Hand → ℤ → ℤ → ℕ → Bool → List ℕ → Outcome (List KindItem)
unfolding king_peng king_eats check_can_eat count_or_zero ◌+ℤ◌
king_items card_idx left_sum king_count color is_spec_eat [] = ok []
king_items card_idx left_sum king_count color is_spec_eat (j ∷ js) =
    let card = color * 16 + j in
    let items : Outcome (List KindItem) = do
      runs ← king_eats card_idx king_count (check_can_eat color j is_spec_eat)
      rest ← king_items card_idx left_sum king_count color is_spec_eat js
      ok (king_peng card (count_or_zero card card_idx) king_count ++ (runs ++ rest))
    in if ltb_ℤ (left_sum +ℤ king_count) (pos 3) then ok [] else items
