-- ===== src/Majiang/Examples.antt =====
-- The properties of the tile game at concrete hands, and runs of its functions.
use tunm.Prelude.{ℕ, ◌≡◌, refl, false, [], ◌∷◌, arith, ok, Ensures, All}
use tunm.Prelude.Int.{ℤ, pos}
use tunm.Prelude.Maps as Maps
use tunm.Prelude.Maps.{nat_eq, Every, Every-insert}
use tunm.Majiang.Hand.{Hand}
use tunm.Majiang.Kings.{calc_ttt_combine}
use tunm.Majiang.KingMelds.{IsHand, UsesAtMost, calc_ttt_combine-UsesAtMost}
use tunm.Majiang.Combine.{get_combine_list}
use tunm.Majiang.CombineLaws.{IsChoice, get_combine_list-IsChoice}

get_combine_list-IsChoice_example : Ensures (All (IsChoice 4 2)) (get_combine_list 4 2)
get_combine_list-IsChoice_example = get_combine_list-IsChoice 4 2 (omega arith)

-- The pairs of four indices, in the order in which they are listed.
pairs_of_four :
    get_combine_list 4 2
    ≡ ok (
        (0 ∷ 1 ∷ [])
        ∷ (0 ∷ 2 ∷ [])
        ∷ (1 ∷ 2 ∷ [])
        ∷ (0 ∷ 3 ∷ [])
        ∷ (1 ∷ 3 ∷ [])
        ∷ (2 ∷ 3 ∷ [])
        ∷ [])
unfolding get_combine_list
pairs_of_four = refl

-- Two equal tiles and a third beside them, with a king.
abbrev hand : Hand
hand = Maps.insert 17 (pos 2) (Maps.insert 18 (pos 1) [])

nothing-IsHand : IsHand []
unfolding Maps.get
nothing-IsHand = record { at = λ k v e. cc }

hand-IsHand : IsHand hand
hand-IsHand =
    let nat = λ (v : ℤ). (n : ℕ) × (v ≡ pos n) in
    Every-insert nat 17 (pos 2) _ (2, refl)
      (Every-insert nat 18 (pos 1) [] (1, refl) nothing-IsHand)

calc_ttt_combine-UsesAtMost_example : Ensures (UsesAtMost 2) (calc_ttt_combine hand (pos 2) 1 false)
calc_ttt_combine-UsesAtMost_example =
    calc_ttt_combine-UsesAtMost hand 2 1 false hand-IsHand (omega arith)
