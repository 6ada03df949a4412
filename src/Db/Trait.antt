-- ===== src/Db/Trait.antt =====
-- `DbTrait` of src/db/db_trait.rs, the interface of a database connection, as far as statements without
-- a result message go; `select` and `insert`, which write into a `NetMsg`, stand in Db/Select.
use tunm.Prelude.{String, Option}
use tunm.Prelude.Int.{ℤ}

-- `NetResult<i32>`; the error is kept as its text.
pub data NetResult : Type 0 where
  done : ℤ → NetResult
  failed : String → NetResult

-- The operations on a connection of type D, which they change.
pub record DbTrait (D : Type 0) : Type 0 where
  pub execute : String → D → D × NetResult
  pub begin_transaction : D → D × NetResult
  pub commit_transaction : D → D × NetResult
  pub rollback_transaction : D → D × NetResult
  pub get_error_code : D → ℤ
  pub get_error_str : D → Option String
