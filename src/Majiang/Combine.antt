-- ===== src/Majiang/Combine.antt =====
-- `MaJiang::get_combine_list` of src/game/majiang.rs: the ways to choose k of n indices.
-- The flags of `ready_list`, 1 and 0 in the source, are booleans here.
use tunm.Prelude.{
  ℕ, zero, suc, ◌+◌, ◌-◌, ◌^◌, Bool, true, false, Option, none, some, List, [], ◌∷◌, ◌++◌, leb,
  ◌==◌, if◌then◌else◌, set, Outcome, ok, panic,
}

-- The first list: `i <= k - 1` for the `n` indices from `i` on.
unfoldable pub first_ready : ℕ → ℕ → ℕ → List Bool
first_ready zero i k = []
first_ready (suc n) i k = leb i (k - 1) ∷ first_ready n (i + 1) k

-- `cur_list`: the indices whose flag is set.
unfoldable pub chosen : ℕ → List Bool → List ℕ
chosen i [] = []
chosen i (b ∷ l) = if b then i ∷ chosen (i + 1) l else chosen (i + 1) l

-- `first_idx`: the first set flag with a clear one behind it; `none` for `usize::max_value()`.
unfoldable pub first_idx : ℕ → List Bool → Option ℕ
first_idx i [] = none
first_idx i (b ∷ []) = none
first_idx i (true ∷ false ∷ l) = some i
first_idx i (true ∷ true ∷ l) = first_idx (i + 1) (true ∷ l)
first_idx i (false ∷ c ∷ l) = first_idx (i + 1) (c ∷ l)

-- The set flags among the first `n`.
unfoldable pub count_ready : ℕ → List Bool → ℕ
count_ready zero l = 0
count_ready (suc n) [] = 0
count_ready (suc n) (b ∷ l) = let rest = count_ready n l in if b then rest + 1 else rest

-- `for i in start .. start + n { ready_list[i] = v }`.
unfoldable pub fill : ℕ → ℕ → Bool → List Bool → List Bool
fill start zero v l = l
fill start (suc n) v l = fill (start + 1) n v (set l start v)

-- One round: the flag at `f` moves up, and those below it move to the bottom.
unfoldable pub advance : ℕ → List Bool → List Bool
unfolding count_ready fill
advance f ready =
    let moved = set (set ready f false) (f + 1) true in
    let count = count_ready f moved in fill count (f - count) false (fill 0 count true moved)

-- The loop, on fuel: `panic` would mean that the fuel ran out.
unfoldable pub combine_loop : ℕ → List Bool → List (List ℕ) → Outcome (List (List ℕ))
unfolding chosen first_idx advance
combine_loop zero ready result = panic
combine_loop (suc fuel) ready result =
    let result' = result ++ chosen 0 ready ∷ [] in
    elim (first_idx 0 ready) [
      | none ↦ ok result'
      | some f ↦ combine_loop fuel (advance f ready) result'
    ]

unfoldable pub get_combine_list : ℕ → ℕ → Outcome (List (List ℕ))
unfolding first_ready combine_loop
get_combine_list n k =
    if leb k n
    then (if k == 0 then ok [] else combine_loop (2 ^ n) (first_ready n 0 k) [])
    else panic
