-- ===== src/Majiang/Flags.antt =====
-- The flags of `get_combine_list`, src/game/majiang.rs, as a number, and how a round changes them.
use tunm.Prelude.{
  ℕ, zero, suc, ◌+◌, ◌-◌, ◌*◌, ◌^◌, ◌≤◌, ◌<◌, ◌≡◌, refl, sym, ap, ap₂, subst₂, ◌∙◌, Bool, true,
  false, some, List, [], ◌∷◌, ◌++◌, arith, if◌then◌else◌, length, length-append, set, replicate,
  drop, take, take-append-drop, length-take, length-drop, append_assoc, length-replicate,
}
use native.Mathlib.Nat.{pow-suc}
use tunm.Majiang.Combine.{first_idx, count_ready, fill, advance}

-- The flags as a number, the lowest index first.
unfoldable pub value : List Bool → ℕ
value [] = 0
value (b ∷ l) = (if b then 1 else 0) + 2 * value l

unfoldable pub ones : List Bool → ℕ
ones [] = 0
ones (b ∷ l) = (if b then 1 else 0) + ones l

pub value-lt : (l : List Bool) → value l < 2 ^ length l
unfolding value
value-lt [] = omega arith
value-lt (true ∷ l) = omega (arith, value-lt l, pow-suc 2 (length l))
value-lt (false ∷ l) = omega (arith, value-lt l, pow-suc 2 (length l))

ones-append : (xs ys : List Bool) → ones (xs ++ ys) ≡ ones xs + ones ys
unfolding ones
ones-append [] ys = omega arith
ones-append (x ∷ xs) ys = omega (arith, ones-append xs ys)

-- Moving a flag up one place outweighs any change below it.
value_grows :
    (xs zs ys : List Bool)
    → length xs ≡ length zs
    → value (xs ++ true ∷ false ∷ ys) < value (zs ++ false ∷ true ∷ ys)
unfolding value
value_grows [] [] ys h = omega arith
value_grows [] (z ∷ zs) ys h = absurd (omega arith)
value_grows (x ∷ xs) [] ys h = absurd (omega arith)
value_grows (x ∷ xs) (z ∷ zs) ys h = ground (arith, value_grows xs zs ys)

-- Where the scan stops, the list splits.
record Found (i f : ℕ) (l : List Bool) : Type 0 where
  below : List Bool
  above : List Bool
  parts : l ≡ below ++ true ∷ false ∷ above
  place : f ≡ i + length below

first_idx-Found : (i f : ℕ) (l : List Bool) → first_idx i l ≡ some f → Found i f l
unfolding first_idx
first_idx-Found i f [] h = cc
first_idx-Found i f (b ∷ []) h = cc
first_idx-Found i f (true ∷ false ∷ l) h = record {
  below = [];
  above = l;
  parts = refl;
  place = ground arith;
}
first_idx-Found i f (true ∷ true ∷ l) h =
    let r = first_idx-Found (i + 1) f (true ∷ l) h in
    record {
      below = true ∷ r.below;
      above = r.above;
      parts = ap (λ m. true ∷ m) r.parts;
      place = omega (arith, r.place);
    }
first_idx-Found i f (false ∷ c ∷ l) h =
    let r = first_idx-Found (i + 1) f (c ∷ l) h in
    record {
      below = false ∷ r.below;
      above = r.above;
      parts = ap (λ m. false ∷ m) r.parts;
      place = omega (arith, r.place);
    }

set-append : (xs ys : List Bool) (b v : Bool) → set (xs ++ b ∷ ys) (length xs) v ≡ xs ++ v ∷ ys
set-append [] ys b v = refl
set-append (x ∷ xs) ys b v = ap (λ m. x ∷ m) (set-append xs ys b v)

set_next-append :
    (xs ys : List Bool) (b c v : Bool) (g : ℕ)
    → g ≡ suc (length xs)
    → set (xs ++ b ∷ c ∷ ys) g v ≡ xs ++ b ∷ v ∷ ys
set_next-append [] ys b c v g h = rw h refl
set_next-append (x ∷ xs) ys b c v g h =
    rw h (ap (λ m. x ∷ m) (set_next-append xs ys b c v (suc (length xs)) refl))

-- Filling a stretch of a list.
fill-append :
    (ps xs ys : List Bool) (v : Bool) (start : ℕ)
    → start ≡ length ps
    → fill start (length xs) v (ps ++ (xs ++ ys)) ≡ ps ++ (replicate (length xs) v ++ ys)
unfolding fill
fill-append ps [] ys v start h = refl
fill-append ps (x ∷ xs) ys v start h =
    let moved : set (ps ++ x ∷ (xs ++ ys)) start v ≡ (ps ++ v ∷ []) ++ (xs ++ ys) =
      rw h (set-append ps (xs ++ ys) x v ∙ sym (append_assoc ps (v ∷ []) (xs ++ ys))) in
    let rest =
      fill-append (ps ++ v ∷ []) xs ys v (start + 1)
        (omega (arith, h, length-append ps (v ∷ []))) in
    rw (moved, fill) (rest ∙ append_assoc ps (v ∷ []) (replicate (length xs) v ++ ys))

-- Filling the two stretches below a place.
fill_both :
    (us ws rest : List Bool)
    → fill (length us) (length ws) false (fill 0 (length us) true (us ++ (ws ++ rest)))
      ≡ replicate (length us) true ++ (replicate (length ws) false ++ rest)
fill_both us ws rest = rw (fill-append [] us (ws ++ rest) true 0 refl) (
    fill-append (replicate (length us) true) ws rest false (length us)
      (sym (length-replicate (length us) true)))

fill_packed :
    (c : ℕ) (xs rest : List Bool)
    → c ≤ length xs
    → fill c (length xs - c) false (fill 0 c true (xs ++ rest))
      ≡ replicate c true ++ (replicate (length xs - c) false ++ rest)
fill_packed c xs rest h =
    let us = take c xs in
    let ws = drop c xs in
    let split : us ++ (ws ++ rest) ≡ xs ++ rest =
      sym (append_assoc us ws rest) ∙ ap (λ m. m ++ rest) (take-append-drop c xs) in
    let lu : length us ≡ c = omega (arith, length-take c xs, h) in
    let lw : length ws ≡ length xs - c = length-drop c xs in
    let both = fill_both us ws rest in rw (lu, lw, split) at both

count_ready-append : (xs ys : List Bool) → count_ready (length xs) (xs ++ ys) ≡ ones xs
unfolding count_ready ones
count_ready-append [] ys = refl
count_ready-append (x ∷ xs) ys = ground (arith, count_ready-append xs ys)

ones-le : (xs : List Bool) → ones xs ≤ length xs
unfolding ones
ones-le [] = omega arith
ones-le (x ∷ xs) = ground (arith, ones-le xs)

-- The flags below the one that moved, packed at the bottom.
packed : List Bool → List Bool
packed xs = replicate (ones xs) true ++ replicate (length xs - ones xs) false

advance-append :
    (xs ys : List Bool)
    → advance (length xs) (xs ++ true ∷ false ∷ ys) ≡ packed xs ++ false ∷ true ∷ ys
unfolding advance packed
advance-append xs ys =
    let f = length xs in
    let rest = false ∷ true ∷ ys in
    let moved : set (set (xs ++ true ∷ false ∷ ys) f false) (f + 1) true ≡ xs ++ rest =
      rw (set-append xs (false ∷ ys) true false)
        (set_next-append xs ys false false true (f + 1) (omega arith)) in
    rw (moved, count_ready-append xs rest)
      (fill_packed (ones xs) xs rest (ones-le xs)
        ∙ sym (append_assoc (replicate (ones xs) true) (replicate (f - ones xs) false) rest))

ones-replicate : (n : ℕ) → (ones (replicate n true) ≡ n) × (ones (replicate n false) ≡ 0)
unfolding ones
ones-replicate zero = omega arith
ones-replicate (suc n) = omega (arith, ones-replicate n)

length-packed : (xs : List Bool) → length (packed xs) ≡ length xs
unfolding packed
length-packed xs = omega (
  arith,
  ones-le xs,
  length-append (replicate (ones xs) true) (replicate (length xs - ones xs) false),
  length-replicate (ones xs) true,
  length-replicate (length xs - ones xs) false,
)

ones-packed : (xs : List Bool) → ones (packed xs) ≡ ones xs
unfolding packed
ones-packed xs = omega (
  arith,
  ones-append (replicate (ones xs) true) (replicate (length xs - ones xs) false),
  ones-replicate (ones xs),
  ones-replicate (length xs - ones xs),
)

-- A round keeps the length and the number of flags, and the number that they write grows.
pub record Grows (l m : List Bool) : Type 0 where
  pub same_length : length m ≡ length l
  pub same_ones : ones m ≡ ones l
  pub larger : value l < value m

packed-Grows :
    (xs ys : List Bool) → Grows (xs ++ true ∷ false ∷ ys) (packed xs ++ false ∷ true ∷ ys)
unfolding ones
packed-Grows xs ys = record {
  same_length = omega (
    arith,
    length-append xs (true ∷ false ∷ ys),
    length-append (packed xs) (false ∷ true ∷ ys),
    length-packed xs,
  );
  same_ones = omega (
    arith,
    ones-append xs (true ∷ false ∷ ys),
    ones-append (packed xs) (false ∷ true ∷ ys),
    ones-packed xs,
  );
  larger = value_grows xs (packed xs) ys (sym (length-packed xs));
}

pub advance-Grows : (f : ℕ) (l : List Bool) → first_idx 0 l ≡ some f → Grows l (advance f l)
advance-Grows f l h =
    let r = first_idx-Found 0 f l h in
    let place : f ≡ length r.below = omega (arith, r.place) in
    let moved : advance f l ≡ packed r.below ++ false ∷ true ∷ r.above =
      ap₂ advance place r.parts ∙ advance-append r.below r.above in
    subst₂ Grows (sym r.parts) (sym moved) (packed-Grows r.below r.above)
