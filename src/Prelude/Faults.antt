-- ===== src/Prelude/Faults.antt =====
-- A step of the program that may panic: an index or a slice out of range, a checked subtraction
-- below zero, an `unwrap` of nothing or a failed `assert!`.
use tunm.Prelude.Tests.{ltb, leb, if◌then◌else◌}
use tunm.Prelude.Lists.{length, get_elem?, drop}
use Prim.Native.Nat.{ℕ, zero, suc, ◌-◌, ◌<◌}
use mathlib.Core.Path.{◌≡◌, refl}
use mathlib.Core.Option.{none, some}
use mathlib.Core.Bool.{Bool, true, false}
use mathlib.Core.List.{List, [], ◌∷◌}
use native.Mathlib.Omega.{arith}

pub data Outcome {ℓ} (A : Type ℓ) : Type ℓ where
  ok : A → Outcome A
  panic : Outcome A

infixl 5 ◌>>=◌
abbrev pub ◌>>=◌ {ℓ κ} : {A : Type ℓ} {B : Type κ} → Outcome A → (A → Outcome B) → Outcome B
ok a >>= f = f a
panic >>= f = panic

-- The step returns, and its result satisfies `P`.
abbrev pub Ensures {ℓ} : {A : Type ℓ} → (A → Type 0) → Outcome A → Type 0
Ensures P (ok a) = P a
Ensures P panic = ⊥

-- The same as a record, so that its rules apply by unification.
pub record Returns {ℓ} {A : Type ℓ} (P : A → Type 0) (r : Outcome A) : Type 0 where
  pub ensures : Ensures P r

module _ {ℓ} {A : Type ℓ} {P : A → Type 0} where
  pub Returns-if :
      (b : Bool) (x y : Outcome A)
      → (b ≡ true → Returns P x)
      → (b ≡ false → Returns P y)
      → Returns P (if b then x else y)
  Returns-if true x y p q = p refl
  Returns-if false x y p q = q refl

  pub Returns-mono :
      {Q : A → Type 0} (r : Outcome A) → Returns P r → ((a : A) → P a → Q a) → Returns Q r
  Returns-mono (ok a) h k = record { ensures = k a h.ensures }
  Returns-mono panic h k = absurd h.ensures

module _ {ℓ κ} {A : Type ℓ} {B : Type κ} {P : A → Type 0} {Q : B → Type 0} where
  pub Returns-bind :
      (m : Outcome A) (f : A → Outcome B)
      → Returns P m
      → ((a : A) → P a → Returns Q (f a))
      → Returns Q (m >>= f)
  Returns-bind (ok a) f h k = k a h.ensures
  Returns-bind panic f h k = absurd h.ensures

-- `a - b` on an unsigned integer where an underflow is a fault.
abbrev pub checked_sub : ℕ → ℕ → Outcome ℕ
checked_sub a b = if ltb a b then panic else ok (a - b)

-- `xs[i]` and `&xs[i..]`.
abbrev pub index {ℓ} : {A : Type ℓ} → List A → ℕ → Outcome A
index xs i = elim (get_elem? xs i) [ none ↦ panic | some x ↦ ok x ]

abbrev pub slice_from {ℓ} : {A : Type ℓ} → List A → ℕ → Outcome (List A)
slice_from xs i = if leb i (length xs) then ok (drop i xs) else panic

-- In range, indexing returns.
pub index_total {ℓ} :
    {A : Type ℓ} (xs : List A) (i : ℕ) → i < length xs → (x : A) × (index xs i ≡ ok x)
index_total [] i h = elim h [ ]
index_total (x ∷ xs) zero h = (x, refl)
index_total (x ∷ xs) (suc i) h = index_total xs i (omega arith)

-- What a chain that returns went through.
pub >>=-eq-ok {ℓ κ} :
    {A : Type ℓ} {B : Type κ} {end : B} (m : Outcome A) (f : A → Outcome B)
    → (m >>= f) ≡ ok end
    → (between : A) × (m ≡ ok between) × (f between ≡ ok end)
>>=-eq-ok (ok x) f e = (x, refl, e)
>>=-eq-ok panic f e = cc

pub ok-injective {ℓ} : {A : Type ℓ} {a b : A} → ok a ≡ ok b → a ≡ b
ok-injective h = cc
