-- ===== src/Db/Select/Columns.antt =====
-- The row that the loop over the columns in src/db/db_sqlite.rs makes.
use tunm.Prelude.{
  ℕ, zero, suc, ◌+◌, ◌<◌, ◌≡◌, ◌≢◌, refl, sym, ap, ◌∙◌, ◌⊎◌, inl, inr, Bool-cases, some, List, [],
  ◌∷◌, get_elem?, arith,
}
use mathlib.Core.Option.{some-injective}
use tunm.Prelude.Maps as Maps
use tunm.Prelude.Maps.{HashMap, text_eq, get-insert_self, get-insert_ne, get-insert}
use tunm.Lua.Engine.{Text}
use tunm.Db.Select.{DbValue}
use tunm.Db.Select.Sqlite.{ValueRef, cell_value, fill_row}

-- The k-th column has a name that no later column has.
pub record LastAt (names : List Text) (k : ℕ) (name : Text) : Type 0 where
  pub here : get_elem? names k ≡ some name
  pub later : (j : ℕ) → k < j → get_elem? names j ≢ some name

module _ {R : Type 0} where
  -- A row has under the name of each column what stands in the last column of that name, and no other names.
  pub record IsRow (names : List Text) (row : ℕ → ValueRef R) (hash : HashMap Text (DbValue R))
      : Type 0 where
    pub at :
        (k : ℕ) (name : Text) → LastAt names k name → Maps.get name hash ≡ some (cell_value (row k))
    pub only :
        (name : Text) (v : DbValue R)
        → Maps.get name hash ≡ some v
        → (k : ℕ) × (get_elem? names k ≡ some name)

  absent :
      (names : List Text) (i : ℕ) (row : ℕ → ValueRef R) (hash : HashMap Text (DbValue R))
      (name : Text)
      → ((j : ℕ) → get_elem? names j ≢ some name)
      → Maps.get name (fill_row names i row hash) ≡ Maps.get name hash
  unfolding fill_row
  absent [] i row hash name gone = refl
  absent (n ∷ names) i row hash name gone =
      absent names (suc i) row (Maps.insert n (cell_value (row i)) hash) name (λ j. gone (suc j))
      ∙ get-insert_ne n name (cell_value (row i)) hash (λ e. gone 0 (ap some e))

  found :
      (names : List Text) (i : ℕ) (row : ℕ → ValueRef R) (hash : HashMap Text (DbValue R)) (k : ℕ)
      (name : Text)
      → LastAt names k name
      → Maps.get name (fill_row names i row hash) ≡ some (cell_value (row (i + k)))
  unfolding fill_row
  found [] i row hash k name l = absurd (cc (l.here))
  found (n ∷ names) i row hash zero name l =
      absent names (suc i) row (Maps.insert n (cell_value (row i)) hash) name
        (λ j. l.later (suc j) (omega arith))
      ∙ ap (λ m. Maps.get m (Maps.insert n (cell_value (row i)) hash))
          (sym (some-injective n name l.here))
      ∙ get-insert_self n (cell_value (row i)) hash
      ∙ ap (λ c. some (cell_value (row c))) (omega arith)
  found (n ∷ names) i row hash (suc k) name l =
      found names (suc i) row (Maps.insert n (cell_value (row i)) hash) k name
        (record { here = l.here; later = λ j h. l.later (suc j) (omega arith) })
      ∙ ap (λ c. some (cell_value (row c))) (omega arith)

  among :
      (names : List Text) (i : ℕ) (row : ℕ → ValueRef R) (hash : HashMap Text (DbValue R))
      (name : Text) (v : DbValue R)
      → Maps.get name (fill_row names i row hash) ≡ some v
      → ((k : ℕ) × (get_elem? names k ≡ some name)) ⊎ (Maps.get name hash ≡ some v)
  unfolding fill_row
  among [] i row hash name v e = inr e
  among (n ∷ names) i row hash name v e =
      elim (among names (suc i) row (Maps.insert n (cell_value (row i)) hash) name v e) [
        | inl (k, at_k) ↦ inl (suc k, at_k)
        | inr e' ↦ elim (Bool-cases (text_eq.beq n name)) [
          | inl same ↦ inl (0, ap some ((text_eq.beq_iff n name).0 same))
          | inr other ↦ inr (rw (get-insert, other) at e')
        ]
      ]

  pub fill_row-IsRow :
      (names : List Text) (row : ℕ → ValueRef R) → IsRow names row (fill_row names 0 row [])
  unfolding Maps.get
  fill_row-IsRow names row = record {
    at = λ k name l.
        found names 0 row [] k name l ∙ ap (λ c. some (cell_value (row c))) (omega arith);
    only = λ name v e. elim (among names 0 row [] name v e) [
      | inl there ↦ there
      | inr e' ↦ absurd (cc e')
    ];
  }

  -- Maps for the rows, one by one.
  pub data AreRows (names : List Text)
      : List (ℕ → ValueRef R) → List (HashMap Text (DbValue R)) → Type 0 where
    none_left : AreRows names [] []
    one_more :
        {row : ℕ → ValueRef R} {hash : HashMap Text (DbValue R)} {rows : List (ℕ → ValueRef R)}
        {hashes : List (HashMap Text (DbValue R))}
        → IsRow names row hash
        → AreRows names rows hashes
        → AreRows names (row ∷ rows) (hash ∷ hashes)

  abbrev pub row_maps : List Text → List (ℕ → ValueRef R) → List (HashMap Text (DbValue R))
  row_maps names [] = []
  row_maps names (row ∷ rows) = fill_row names 0 row [] ∷ row_maps names rows

  pub row_maps-AreRows :
      (names : List Text) (rows : List (ℕ → ValueRef R)) → AreRows names rows (row_maps names rows)
  row_maps-AreRows names [] = none_left
  row_maps-AreRows names (row ∷ rows) =
      one_more (fill_row-IsRow names row) (row_maps-AreRows names rows)
