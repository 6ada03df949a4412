-- ===== src/Telnet/Keys.antt =====
-- The keys of the line editor of `TelnetUtils::update_data`, src/utils/telnet_utils.rs.
use tunm.Prelude.{
  ℕ, zero, suc, ◌+◌, ◌-◌, Bool, true, false, not, none, some, List, [], ◌∷◌, ◌++◌, ltb, leb, ◌==◌,
  if◌then◌else◌, length, take, drop, set, get_elem?, ◌&&◌, Outcome, ok, panic, ◌>>=◌, slice_from,
  index, checked_sub,
}
use tunm.Prelude.Int.{ℤ, pos, negsuc, ◌+ℤ◌, ltb_ℤ}
use tunm.Prelude.Decimal.{to_decimal}
use tunm.Telnet.Client.{Term, bs, send_client_msg, send_backspaces, erase}

-- `i < bytes.len() && bytes[i] == v`.
unfoldable pub byte_is : List ℕ → ℕ → ℕ → Bool
byte_is bytes i v = elim (get_elem? bytes i) [ none ↦ false | some b ↦ b == v ]

abbrev pub is_empty {ℓ} : {A : Type ℓ} → List A → Bool
is_empty [] = true
is_empty (x ∷ xs) = false

-- `records[n as usize]`: a negative `n` is out of range of every vector.
unfoldable pub record_at : List (List ℕ) → ℤ → Outcome (List ℕ)
record_at records (pos n) = index records n
record_at records (negsuc n) = panic

-- `\x1b[K`, which clears the line behind the cursor.
abbrev pub clear_line : List ℕ
clear_line = 27 ∷ 91 ∷ 75 ∷ []

-- A line takes the place of the one that is edited, with the cursor behind it.
unfoldable pub show_line : ℤ → List ℕ → Term → Term
unfolding send_client_msg
show_line num line t =
    let c = record t.client { ircdnum = num; text = line; ipos = length line } in
    send_client_msg line (send_client_msg clear_line (record t { client = c }))

unfoldable pub key_up : Term → Outcome Term
unfolding send_backspaces record_at show_line ◌+ℤ◌
key_up t =
    let num = t.client.ircdnum +ℤ pos 1 in
    if ltb_ℤ num (pos (length t.client.records))
    then (do
      line ← record_at t.client.records num
      ok (show_line num line (send_backspaces (length t.client.text) t)))
    else ok t

unfoldable pub key_down_from : ℤ → Term → Outcome Term
unfolding send_backspaces record_at show_line
key_down_from (negsuc zero) t = ok t
key_down_from (pos zero) t = ok (show_line (negsuc 0) [] (send_backspaces (length t.client.text) t))
key_down_from (pos (suc n)) t = do
  line ← record_at t.client.records (pos n)
  ok (show_line (pos n) line (send_backspaces (length t.client.text) t))
key_down_from (negsuc (suc n)) t = panic

-- From the history line shown, `ircdnum`, to the one before it: none behind -1.
unfoldable pub key_down : Term → Outcome Term
unfolding key_down_from
key_down t = key_down_from t.client.ircdnum t

-- `ipos < data.len()` holds.
unfoldable pub key_right : Term → Outcome Term
unfolding send_client_msg
key_right t = do
  byte ← index t.client.text t.client.ipos
  let shown = send_client_msg (byte ∷ []) t
  ok (record shown { client = record t.client { ipos = t.client.ipos + 1 } })

-- `ipos != 0` holds.
unfoldable pub key_left : Term → Term
unfolding send_client_msg
key_left t =
    send_client_msg (bs ∷ []) (record t { client = record t.client { ipos = t.client.ipos - 1 } })

unfoldable pub key_home : Term → Term
unfolding send_backspaces
key_home t =
    let back = send_backspaces (length t.client.text) t in
    record back { client = record t.client { ipos = 0 } }

unfoldable pub key_insert : Term → Term
key_insert t = record t { client = record t.client { binsert = not t.client.binsert } }

unfoldable pub key_end : Term → Outcome Term
unfolding send_client_msg to_decimal
key_end t = do
  steps ← checked_sub (length t.client.text) t.client.ipos
  if steps == 0 then ok t else do
    let moved = send_client_msg (27 ∷ 91 ∷ to_decimal steps ++ 67 ∷ []) t
    ok (record moved { client = record t.client { ipos = length t.client.text } })

-- The bytes behind `\x1b[`, at `i + 2` and `i + 3`, name an arrow, Home, Insert or End.
unfoldable pub key_escape : List ℕ → ℕ → Term → Outcome Term
unfolding byte_is key_up key_down key_right key_left key_home key_insert key_end
key_escape bytes i t =
    let c = t.client in
    let two = λ (v : ℕ). byte_is bytes (i + 2) v in
    let tilde = byte_is bytes (i + 3) 126 in
    if two 65 && not (is_empty c.records)
    then key_up t
    else if two 66 && not (is_empty c.records)
    then key_down t
    else if two 67 && ltb c.ipos (length c.text)
    then key_right t
    else if two 68 && not (c.ipos == 0)
    then ok (key_left t)
    else if two 49 && tilde
    then ok (key_home t)
    else if two 50 && tilde
    then ok (key_insert t)
    else if two 52 && tilde
    then key_end t
    else ok t

-- The delete key: `client.ipos -= 1` is not guarded.
unfoldable pub key_delete : Term → Outcome Term
unfolding erase
key_delete t = do ipos ← checked_sub t.client.ipos 1; erase ipos t

-- `data.insert(ipos, b)`.
unfoldable pub insert_at : List ℕ → ℕ → ℕ → Outcome (List ℕ)
insert_at text ipos b =
    if leb ipos (length text) then ok (take ipos text ++ b ∷ drop ipos text) else panic

-- Any other byte replaces what is under the cursor, in replace mode.
unfoldable pub key_replace : ℕ → Term → Term
unfolding send_client_msg
key_replace b t =
    let c = t.client in
    let text = if ltb c.ipos (length c.text) then set c.text c.ipos b else c.text ++ b ∷ [] in
    let shown = send_client_msg (b ∷ []) t in
    record shown { client = record c { text = text; ipos = c.ipos + 1 } }

-- Otherwise it is put in at the cursor, and what follows is drawn again.
unfoldable pub key_put : ℕ → Term → Outcome Term
unfolding insert_at send_backspaces
key_put b t = do
  text ← insert_at t.client.text t.client.ipos b
  tail ← slice_from text t.client.ipos
  back ← checked_sub (length tail) 1
  let shown = send_backspaces back (send_client_msg tail t)
  ok (record shown { client = record t.client { text = text; ipos = t.client.ipos + 1 } })

unfoldable pub key_char : ℕ → Term → Outcome Term
unfolding key_replace key_put
key_char b t = if t.client.binsert then ok (key_replace b t) else key_put b t
