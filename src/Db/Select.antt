-- ===== src/Db/Select.antt =====
-- The methods of `DbTrait` (src/db/db_trait.rs) that write into a message, `select` and `insert`, and
-- `get_last_insert_id`. The encoding of values is tunm_proto's, and so a parameter.
pub mod Sqlite
pub mod Mysql
pub mod Pool
pub mod Threads
pub mod Handler
pub mod Columns
pub mod Cells
pub mod Message
pub mod MysqlRows
pub mod Rows
pub mod Examples
use tunm.Prelude.{
  ℕ, String, Option, List, [], ◌∷◌, ◌++◌, Outcome, bytes_of, length, drop, ◌≡◌, none, some,
}
use tunm.Prelude.Int.{ℤ}
use tunm.Prelude.Maps.{HashMap}
use tunm.Net.Buffer.{ProtoBuffer}
use tunm.Net.Msg.{NetMsg}
use tunm.Lua.Engine.{Text, Foreign}
use tunm.Db.Trait.{NetResult}

-- `DB_RESULT_PROTO` and `LAST_INSERT_ID`.
abbrev pub db_result_proto : Text
db_result_proto = bytes_of "msg_db_result"

abbrev pub sys_last_insert_id : Text
sys_last_insert_id = bytes_of "sys_last_insert_id"

-- What a cell of a row becomes: `Value` of tunm_proto, as far as it is used here.
pub data DbValue (R : Type 0) : Type 0 where
  nil : DbValue R
  int : ℤ → DbValue R
  uint : ℕ → DbValue R
  float : R → DbValue R
  str : Text → DbValue R
  raw : List ℕ → DbValue R

module _ (B : ProtoBuffer) (F : Foreign B) where
  open F use {Value}

  -- The rest of tunm_proto: a row as a value, and `encode_proto`, which gives the text of an error.
  pub record Encoder : Type 1 where
    pub Float : Type 0
    pub row_value : HashMap Text (DbValue Float) → Value
    pub encode_proto : Text → List Value → B.Buffer → B.Buffer × Option String

  -- A result with the connection and the message after it.
  abbrev pub Selected : Type 0 → Type 0
  Selected D = Outcome (D × NetMsg B × NetResult)

  pub record DbSelect (D : Type 0) : Type 0 where
    pub select : String → NetMsg B → D → Selected D
    pub insert : String → NetMsg B → D → Selected D
    pub get_last_insert_id : D → ℕ

  -- `encode_proto(msg.get_buffer(), ...)?`, with what goes on after it.
  module _ (E : Encoder) where
    open E use {encode_proto}

    abbrev pub row_list : List (HashMap Text (DbValue E.Float)) → List Value
    row_list [] = []
    row_list (row ∷ rows) = E.row_value row ∷ row_list rows

    abbrev pub after_encoding :
        {A : Type 0}
        → (NetMsg B → A)
        → (NetMsg B → String → A)
        → NetMsg B
        → B.Buffer × Option String
        → A
    after_encoding done_ failed_ m (b, none) = done_ (record m { buffer = b })
    after_encoding done_ failed_ m (b, some text) = failed_ (record m { buffer = b }) text

    abbrev pub encode_rows :
        {A : Type 0} → List Value → (NetMsg B → A) → (NetMsg B → String → A) → NetMsg B → A
    encode_rows values done_ failed_ m =
        after_encoding done_ failed_ m (encode_proto db_result_proto values m.buffer)
