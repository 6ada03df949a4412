-- ===== src/Telnet/Client.antt =====
-- The state of a telnet client and what its handlers share, src/utils/telnet_utils.rs.
-- Bytes and positions are numbers. A handler works on a `Term`: the client, with what was done to the
-- outside on its behalf, oldest first. A write to a socket may fail; the program ignores its result.
use tunm.Prelude.{
  ℕ, zero, suc, ◌+◌, ◌-◌, ◌&&◌, String, Bool, false, List, [], ◌∷◌, ◌++◌, ltb, ◌==◌, if◌then◌else◌,
  length, pop, Outcome, ok, ◌>>=◌, slice_from, bytes_of, bytes_eq,
}
use tunm.Prelude.Int.{ℤ, pos}

pub record ClientInfo : Type 0 where
  pub unique : String
  pub text : List ℕ
  pub ipos : ℕ
  pub records : List (List ℕ)
  pub blogin : Bool
  pub benterpwd : Bool
  pub binsert : Bool
  pub ircdnum : ℤ

-- `ClientInfo::new`; the source's field `data` is `text`.
abbrev pub new_client : String → ClientInfo
new_client unique = record {
  unique = unique;
  text = [];
  ipos = 0;
  records = [];
  blogin = false;
  benterpwd = false;
  binsert = false;
  ircdnum = pos 0;
}

-- A write to the client's socket, and a string handed to the Lua engine.
pub data Effect : Type 0 where
  sent : String → List ℕ → Effect
  exec_string : List ℕ → Effect

pub record Term : Type 0 where
  pub client : ClientInfo
  pub open client use *
  pub effects : List Effect

abbrev pub bs : ℕ
bs = 8

abbrev pub sp : ℕ
sp = 32

abbrev pub login_name : List ℕ
login_name = bytes_of "tunm"

-- `send_client_msg`.
unfoldable pub send_client_msg : List ℕ → Term → Term
send_client_msg bytes t = record t { effects = t.effects ++ sent t.client.unique bytes ∷ [] }

-- `for _ in 0..n { send_client_msg(&[BS]) }`.
unfoldable pub send_backspaces : ℕ → Term → Term
unfolding send_client_msg
send_backspaces zero t = t
send_backspaces (suc n) t = send_backspaces n (send_client_msg (bs ∷ []) t)

-- `records.push(data.clone()); if records.len() > 10 { records.pop(); }`.
unfoldable pub push_record : List ℕ → List (List ℕ) → List (List ℕ)
push_record line records =
    let pushed = records ++ line ∷ [] in if ltb 10 (length pushed) then pop pushed else pushed

-- The body of the backspace and the delete key: the last byte goes, and the tail is drawn again.
unfoldable pub erase : ℕ → Term → Outcome Term
unfolding send_backspaces
erase ipos t =
    let c = record t.client { ipos = ipos; text = pop t.client.text } in
    let t' = record t { client = c } in
    if c.benterpwd then ok t' else do
      tail ← slice_from c.text c.ipos
      let shown = send_client_msg (sp ∷ []) (send_client_msg tail (send_client_msg (bs ∷ []) t'))
      ok (send_backspaces (length tail + 1) shown)

-- The backspace key.
unfoldable pub backspace : Term → Outcome Term
unfolding erase
backspace t = if t.client.ipos == 0 then ok t else erase (t.client.ipos - 1) t

-- `TelnetUtils::check`: the two lines given are the name and the password.
unfoldable pub check : ClientInfo → Bool
check c = elim c.records [
  | [] ↦ false
  | r ∷ rs ↦ elim rs [ [] ↦ false | r' ∷ _ ↦ bytes_eq r login_name && bytes_eq r' login_name ]
]
