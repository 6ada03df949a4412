-- ===== src/Prelude/Maps.antt =====
-- The program's hash maps, as association lists. The order of the entries stands for the order in
-- which the map is iterated, which the program does not determine.
use tunm.Prelude.Tests.{◌==◌ as nat_beq, ==_iff, if◌then◌else◌, Bool-cases}
use tunm.Prelude.Text.{bytes_eq, bytes_eq_iff}
use Prim.Native.Nat.{ℕ}
use Prim.Native.String.{String}
use text.Mathlib.Text.{◌==◌ as str_eq}
use text.Mathlib.TextEquality.{eq_iff}
use mathlib.Core.Path.{◌≡◌, refl, subst}
use mathlib.Core.Logic.{◌↔◌, ◌≢◌, ◌⊎◌, inl, inr}
use mathlib.Core.Bool.{Bool, true, false}
use mathlib.Core.Option.{Option, none, some, some-injective}
use mathlib.Core.List.{List, [], ◌∷◌}
use native.Mathlib.Omega.{arith}

-- The keys' test for equality.
pub record Eq {ℓ} (K : Type ℓ) : Type ℓ where
  pub beq : K → K → Bool
  pub beq_iff : (a b : K) → (beq a b ≡ true) ↔ (a ≡ b)

instance abbrev pub nat_eq : Eq ℕ
nat_eq = record { beq = nat_beq; beq_iff = ==_iff }

instance abbrev pub string_eq : Eq String
string_eq = record { beq = str_eq; beq_iff = eq_iff }

instance abbrev pub text_eq : Eq (List ℕ)
text_eq = record { beq = bytes_eq; beq_iff = bytes_eq_iff }

abbrev pub HashMap {ℓ κ} : Type ℓ → Type κ → Type (ℓ ⊔ κ)
HashMap K V = List (K × V)

abbrev pub is_some {ℓ} : {V : Type ℓ} → Option V → Bool
is_some none = false
is_some (some v) = true

pub beq_refl {ℓ} : {K : Type ℓ} ⦃e : Eq K⦄ (k : K) → e.beq k k ≡ true
beq_refl ⦃e⦄ k = (e.beq_iff k k).1 refl

module _ {ℓ κ} {K : Type ℓ} {V : Type κ} ⦃e : Eq K⦄ where
  -- `map.get(&k)`
  unfoldable pub get : K → HashMap K V → Option V
  get k [] = none
  get k ((j, v) ∷ m) = if e.beq j k then some v else get k m

  -- `map.insert(k, v)`
  unfoldable pub insert : K → V → HashMap K V → HashMap K V
  insert k v [] = (k, v) ∷ []
  insert k v ((j, w) ∷ m) = if e.beq j k then (k, v) ∷ m else (j, w) ∷ insert k v m

  -- `map.remove(&k)`
  unfoldable pub remove : K → HashMap K V → HashMap K V
  remove k [] = []
  remove k ((j, w) ∷ m) = let rest = remove k m in if e.beq j k then rest else (j, w) ∷ rest

  -- `map.contains_key(&k)`
  unfoldable pub contains_key : K → HashMap K V → Bool
  unfolding get
  contains_key k m = is_some (get k m)

  pub get-insert :
      (k j : K) (v : V) (m : HashMap K V)
      → get j (insert k v m) ≡ (if e.beq k j then some v else get j m)
  unfolding get insert
  get-insert k j v [] = refl
  get-insert k j v ((i, w) ∷ m) =
      ground (arith, e.beq_iff k j, e.beq_iff i k, e.beq_iff i j, get-insert k j v m)

  pub get-remove :
      (k j : K) (m : HashMap K V) → get j (remove k m) ≡ (if e.beq k j then none else get j m)
  unfolding get remove
  get-remove k j [] = ground arith
  get-remove k j ((i, w) ∷ m) =
      ground (arith, e.beq_iff k j, e.beq_iff i k, e.beq_iff i j, get-remove k j m)

  pub get-insert_self : (k : K) (v : V) (m : HashMap K V) → get k (insert k v m) ≡ some v
  get-insert_self k v m = simp (get-insert, beq_refl)

  pub insert-insert_self :
      (k : K) (v w : V) (m : HashMap K V) → insert k w (insert k v m) ≡ insert k w m
  unfolding insert
  insert-insert_self k v w [] = rw (beq_refl k) refl
  insert-insert_self k v w ((i, x) ∷ m) = elim (Bool-cases (e.beq i k)) [
    | inl same ↦ rw (same, beq_refl k) refl
    | inr other ↦ rw (other, other, insert-insert_self k v w m) refl
  ]

  pub get-remove_self : (k : K) (m : HashMap K V) → get k (remove k m) ≡ none
  get-remove_self k m = simp (get-remove, beq_refl)

  pub get-insert_ne : (k j : K) (v : V) (m : HashMap K V) → k ≢ j → get j (insert k v m) ≡ get j m
  get-insert_ne k j v m h = elim (Bool-cases (e.beq k j)) [
    | inl same ↦ absurd (h ((e.beq_iff k j).0 same))
    | inr other ↦ rw (get-insert, other)
  ]

  pub get-remove_ne : (k j : K) (m : HashMap K V) → k ≢ j → get j (remove k m) ≡ get j m
  get-remove_ne k j m h = elim (Bool-cases (e.beq k j)) [
    | inl same ↦ absurd (h ((e.beq_iff k j).0 same))
    | inr other ↦ rw (get-remove, other)
  ]

  -- A property of every value of the map.
  pub record Every {μ} (P : V → Type μ) (m : HashMap K V) : Type (ℓ ⊔ κ ⊔ μ) where
    pub at : (k : K) (v : V) → get k m ≡ some v → P v

  -- What a look-up after a write finds: the value written, or one that was there.
  pub get-insert_inv :
      (k j : K) (v w : V) (m : HashMap K V)
      → get j (insert k v m) ≡ some w
      → (v ≡ w) ⊎ (get j m ≡ some w)
  get-insert_inv k j v w m h = elim (Bool-cases (e.beq k j)) [
    | inl same ↦ inl (some-injective v w (rw (get-insert, same) at h))
    | inr other ↦ inr (rw (get-insert, other) at h)
  ]

  pub get-remove_inv :
      (k j : K) (w : V) (m : HashMap K V) → get j (remove k m) ≡ some w → get j m ≡ some w
  get-remove_inv k j w m h = elim (Bool-cases (e.beq k j)) [
    | inl same ↦ cc (rw (get-remove, same) at h)
    | inr other ↦ rw (get-remove, other) at h
  ]

  pub Every-insert {μ} :
      (P : V → Type μ) (k : K) (v : V) (m : HashMap K V) → P v → Every P m → Every P (insert k v m)
  Every-insert P k v m h all = record {
    at = λ j w found. elim (get-insert_inv k j v w m found) [
      | inl same ↦ subst P same h
      | inr old ↦ all.at j w old
    ];
  }

  pub Every-remove {μ} :
      (P : V → Type μ) (k : K) (m : HashMap K V) → Every P m → Every P (remove k m)
  Every-remove P k m all = record { at = λ j w found. all.at j w (get-remove_inv k j w m found) }
