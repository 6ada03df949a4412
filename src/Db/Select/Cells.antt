-- ===== src/Db/Select/Cells.antt =====
-- What the loop over the columns in `DbMysql::select` of src/db/db_mysql.rs makes of the rows.
use tunm.Prelude.{
  ℕ, map, ◌+◌, ◌%◌, ◌^◌, ◌≡◌, refl, ap, ◌∙◌, Bool, true, false, Option, some, none, List, [], ◌∷◌,
  ok, ◌>>=◌, if◌then◌else◌,
}
use tunm.Prelude.Maps as Maps
use tunm.Prelude.Maps.{HashMap, text_eq, get-insert}
use tunm.Net.Buffer.{ProtoBuffer}
use tunm.Lua.Engine.{Text, Foreign}
use tunm.Db.Mysql.{Driver}
use tunm.Db.Select.{DbValue, int, uint, float, str, raw, Encoder}
use tunm.Db.Select.Mysql.{
  MysqlValue, null, bytes, signed, unsigned, float_or_double, date, time, Queries, mysql_value,
  put_cell, seconds, fill_mysql_row, read_mysql_rows,
}

-- The cells of a row, with the names of their columns.
abbrev pub Cells : Type 0 → Type 0
Cells R = List (Text × MysqlValue R)

module _ {R : Type 0} (timestamp : ℕ → ℕ → ℕ → ℕ → ℕ → ℕ → Option ℕ) where
  -- What a script is to get for a value of MySQL, if anything: a date is the second that the calendar has
  -- for it, 1970 years later, in 32 bits.
  pub data IsGiven : MysqlValue R → Option (DbValue R) → Type 0 where
    for_null : IsGiven null none
    for_time : IsGiven time none
    for_text : {b : List ℕ} {s : Text} → IsGiven (bytes b (some s)) (some (str s))
    for_bytes : {b : List ℕ} → IsGiven (bytes b none) (some (raw b))
    for_signed : {n : _} → IsGiven (signed n) (some (int n))
    for_unsigned : {n : ℕ} → IsGiven (unsigned n) (some (uint n))
    for_float : {x : R} → IsGiven (float_or_double x) (some (float x))
    for_date :
        {year month day hour minutes secs t : ℕ}
        → timestamp (year + 1970) month day hour minutes secs ≡ some t
        → IsGiven (date year month day hour minutes secs) (some (uint (t % 2 ^ 32)))

  -- The cells of a row that are given, in their order.
  pub data AreGiven : Cells R → List (Text × DbValue R) → Type 0 where
    no_cells : AreGiven [] []
    left_out :
        {name : Text} {v : MysqlValue R} {cells : Cells R} {given : List (Text × DbValue R)}
        → IsGiven v none
        → AreGiven cells given
        → AreGiven ((name, v) ∷ cells) given
    given_as :
        {name : Text} {v : MysqlValue R} {x : DbValue R} {cells : Cells R}
        {given : List (Text × DbValue R)}
        → IsGiven v (some x)
        → AreGiven cells given
        → AreGiven ((name, v) ∷ cells) ((name, x) ∷ given)

  -- The same of the rows of a result set, for none of which the driver has an error.
  pub data RowsGiven : List (Option (Cells R)) → List (List (Text × DbValue R)) → Type 0 where
    no_rows : RowsGiven [] []
    one_row :
        {cells : Cells R} {given : List (Text × DbValue R)} {rows : List (Option (Cells R))}
        {givens : List (List (Text × DbValue R))}
        → AreGiven cells given
        → RowsGiven rows givens
        → RowsGiven (some cells ∷ rows) (given ∷ givens)

module _ {R : Type 0} where
  -- The last that is given under a name.
  abbrev pub last_named : Text → List (Text × DbValue R) → Option (DbValue R)
  last_named name [] = none
  last_named name ((n, x) ∷ given) = elim (last_named name given) [
    | some later ↦ some later
    | none ↦ if text_eq.beq n name then some x else none
  ]

  abbrev pub map_of : List (Text × DbValue R) → HashMap Text (DbValue R) → HashMap Text (DbValue R)
  map_of [] hash = hash
  map_of ((name, x) ∷ given) hash = map_of given (Maps.insert name x hash)

  abbrev or_old : Option (DbValue R) → Option (DbValue R) → Option (DbValue R)
  or_old none old = old
  or_old (some x) old = some x

  pushed_in :
      (later : Option (DbValue R)) (same : Bool) (x : DbValue R) (old : Option (DbValue R))
      → or_old later (if same then some x else old)
        ≡ or_old (elim later [ some y ↦ some y | none ↦ if same then some x else none ]) old
  pushed_in none true x old = refl
  pushed_in none false x old = refl
  pushed_in (some y) same x old = refl

  get-map_of :
      (given : List (Text × DbValue R)) (hash : HashMap Text (DbValue R)) (name : Text)
      → Maps.get name (map_of given hash) ≡ or_old (last_named name given) (Maps.get name hash)
  get-map_of [] hash name = refl
  get-map_of ((n, x) ∷ given) hash name =
      get-map_of given (Maps.insert n x hash) name
      ∙ ap (or_old (last_named name given)) (get-insert n name x hash)
      ∙ pushed_in (last_named name given) (text_eq.beq n name) x (Maps.get name hash)

  -- A map has under each name the last that is given under it, and no other names.
  abbrev pub HoldsLast : List (Text × DbValue R) → HashMap Text (DbValue R) → Type 0
  HoldsLast given hash = (name : Text) → Maps.get name hash ≡ last_named name given

  -- Maps for the rows, one by one.
  pub data AreMysqlRows
      : List (List (Text × DbValue R)) → List (HashMap Text (DbValue R)) → Type 0 where
    none_left : AreMysqlRows [] []
    one_more :
        {given : List (Text × DbValue R)} {hash : HashMap Text (DbValue R)}
        {givens : List (List (Text × DbValue R))} {hashes : List (HashMap Text (DbValue R))}
        → HoldsLast given hash
        → AreMysqlRows givens hashes
        → AreMysqlRows (given ∷ givens) (hash ∷ hashes)

  abbrev pub maps_of : List (List (Text × DbValue R)) → List (HashMap Text (DbValue R))
  maps_of [] = []
  maps_of (given ∷ givens) = map_of given [] ∷ maps_of givens

  abbrev or_none : (o : Option (DbValue R)) → or_old o none ≡ o
  or_none none = refl
  or_none (some x) = refl

  pub maps_of-AreMysqlRows :
      (givens : List (List (Text × DbValue R))) → AreMysqlRows givens (maps_of givens)
  unfolding Maps.get
  maps_of-AreMysqlRows [] = none_left
  maps_of-AreMysqlRows (given ∷ givens) =
      one_more (λ name. get-map_of given [] name ∙ or_none (last_named name given))
        (maps_of-AreMysqlRows givens)

module _ (B : ProtoBuffer) (F : Foreign B) (E : Encoder B F) {C : Type 0} (driver : Driver C)
    (queries : Queries C (E.Float)) where
  mysql_value_lem :
      (v : MysqlValue E.Float) (o : Option (DbValue E.Float))
      → IsGiven queries.timestamp v o
      → mysql_value B F E driver queries v ≡ ok o
  mysql_value_lem _ _ for_null = refl
  mysql_value_lem _ _ for_time = refl
  mysql_value_lem _ _ for_text = refl
  mysql_value_lem _ _ for_bytes = refl
  mysql_value_lem _ _ for_signed = refl
  mysql_value_lem _ _ for_unsigned = refl
  mysql_value_lem _ _ for_float = refl
  mysql_value_lem _ _ (for_date e) = ap (seconds B F E driver queries) e

  fill_mysql_row_lem :
      (cells : Cells E.Float) (given : List (Text × DbValue E.Float))
      (hash : HashMap Text (DbValue E.Float))
      → AreGiven queries.timestamp cells given
      → fill_mysql_row B F E driver queries cells hash ≡ ok (map_of given hash)
  unfolding fill_mysql_row
  fill_mysql_row_lem _ _ hash no_cells = refl
  fill_mysql_row_lem _ _ hash (left_out {name} {v} {cells} {given} g more) =
      ap
        (λ o. o >>= λ x.
          fill_mysql_row B F E driver queries cells (put_cell B F E driver queries name x hash))
        (mysql_value_lem v none g)
      ∙ fill_mysql_row_lem cells given hash more
  fill_mysql_row_lem _ _ hash (given_as {name} {v} {x} {cells} {given} g more) =
      ap
        (λ o. o >>= λ y.
          fill_mysql_row B F E driver queries cells (put_cell B F E driver queries name y hash))
        (mysql_value_lem v (some x) g)
      ∙ fill_mysql_row_lem cells given (Maps.insert name x hash) more

  pub read_mysql_rows_lem :
      (rows : List (Option (Cells E.Float))) (givens : List (List (Text × DbValue E.Float)))
      → RowsGiven queries.timestamp rows givens
      → read_mysql_rows B F E driver queries rows ≡ ok (map E.row_value (maps_of givens))
  unfolding read_mysql_rows
  read_mysql_rows_lem _ _ no_rows = refl
  read_mysql_rows_lem _ _ (one_row {cells} {given} {rows} {givens} g more) =
      rw (fill_mysql_row_lem cells given [] g, read_mysql_rows_lem rows givens more) refl
