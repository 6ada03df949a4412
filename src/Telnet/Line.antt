-- ===== src/Telnet/Line.antt =====
-- The line editor of src/utils/telnet_utils.rs: what is typed and entered is executed once, and where
-- the delete key does not do what is expected of it.
use tunm.Prelude.{
  ℕ, zero, suc, ◌+◌, ◌≡◌, ◌≢◌, refl, ap, ◌∙◌, false, List, [], ◌∷◌, ◌++◌, arith, length,
  length-append, append-nil, append_assoc, take, drop, ok, panic, All, ne_test, ◌==◌, if◌then◌else◌,
}
use tunm.Telnet.Client.{
  ClientInfo, Effect, sent, exec_string, Term, send_client_msg, send_backspaces, backspace,
}
use tunm.Telnet.Keys.{key_char, key_delete}
use tunm.Telnet.Editor.{key_enter, update_loop}
use tunm.Telnet.LoginSafety.{typed}
use tunm.Lua.Convert.{convert_excute_string}

-- A byte that is none of the editor's keys.
pub record IsTyped (b : ℕ) : Type 0 where
  pub not_stop : b ≢ 255
  pub not_enter : b ≢ 13
  pub not_backspace : b ≢ 8
  pub not_tab : b ≢ 9
  pub not_delete : b ≢ 127
  pub not_escape : b ≢ 27

-- A client that types at the end of its line, in insert mode.
pub record AtEnd (c : ClientInfo) : Type 0 where
  pub cursor : c.ipos ≡ length c.text
  pub inserts : c.binsert ≡ false

-- The strings handed to the Lua engine.
abbrev pub executed : List Effect → List (List ℕ)
executed [] = []
executed (sent u m ∷ es) = executed es
executed (exec_string s ∷ es) = s ∷ executed es

executed-append : (xs ys : List Effect) → executed (xs ++ ys) ≡ executed xs ++ executed ys
executed-append [] ys = refl
executed-append (sent u m ∷ xs) ys = executed-append xs ys
executed-append (exec_string s ∷ xs) ys = ap (λ r. s ∷ r) (executed-append xs ys)

executed-send_client_msg :
    (m : List ℕ) (t : Term) → executed (send_client_msg m t).effects ≡ executed t.effects
unfolding send_client_msg
executed-send_client_msg m t =
    executed-append t.effects (sent t.client.unique m ∷ []) ∙ append-nil (executed t.effects)

executed-send_backspaces :
    (n : ℕ) (t : Term) → executed (send_backspaces n t).effects ≡ executed t.effects
unfolding send_backspaces
executed-send_backspaces zero t = refl
executed-send_backspaces (suc n) t =
    executed-send_backspaces n (send_client_msg (8 ∷ []) t) ∙ executed-send_client_msg (8 ∷ []) t

drop-length : (xs ys : List ℕ) → drop (length xs) (xs ++ ys) ≡ ys
drop-length [] ys = refl
drop-length (x ∷ xs) ys = drop-length xs ys

insert_end : (xs : List ℕ) (b : ℕ) → take (length xs) xs ++ b ∷ drop (length xs) xs ≡ xs ++ b ∷ []
insert_end [] b = refl
insert_end (x ∷ xs) b = ap (λ r. x ∷ r) (insert_end xs b)

-- A byte typed at the end of the line is shown and joins it.
abbrev typed_end : ℕ → Term → Term
typed_end b t = record { client = typed b t.client; effects = (send_client_msg (b ∷ []) t).effects }

AtEnd-typed : (b : ℕ) (c : ClientInfo) → AtEnd c → AtEnd (typed b c)
AtEnd-typed b c e = record {
  cursor = omega (arith, e.cursor, length-append c.text (b ∷ []));
  inserts = e.inserts;
}

key_char_end : (b : ℕ) (t : Term) → AtEnd t.client → key_char b t ≡ ok (typed_end b t)
unfolding key_char
key_char_end b t e = ground (
  arith,
  e.cursor,
  e.inserts,
  insert_end t.client.text b,
  drop-length t.client.text (b ∷ []),
  length-append t.client.text (b ∷ []),
)

module _ (lossy : List ℕ → List ℕ) (prompt bytes : List ℕ) where
  update_loop_typed :
      (i b : ℕ) (rest : List ℕ) (t : Term)
      → IsTyped b
      → AtEnd t.client
      → update_loop lossy prompt bytes i (b ∷ rest) t
        ≡ update_loop lossy prompt bytes (i + 1) rest (typed_end b t)
  unfolding update_loop
  update_loop_typed i b rest t p e = rw (
    ne_test b 255 p.not_stop,
    ne_test b 13 p.not_enter,
    ne_test b 8 p.not_backspace,
    ne_test b 9 p.not_tab,
    ne_test b 127 p.not_delete,
    ne_test b 27 p.not_escape,
    key_char_end b t e,
  )

  executed-key_enter :
      (t : Term)
      → executed (key_enter lossy prompt t).effects
        ≡ executed t.effects ++ convert_excute_string (lossy t.client.text) ∷ []
  unfolding key_enter
  executed-key_enter t = simp (executed-append, append_assoc, append-nil)

  -- Bytes that are none of the editor's keys, typed in insert mode at the end of what is there, and then
  -- the enter key: the handler returns, the whole line is converted and executed, once, and the line is
  -- empty again with the cursor at its start, whatever bytes follow.
  pub update_loop-line :
      (xs rest : List ℕ) (i : ℕ) (t : Term)
      → All IsTyped xs
      → AtEnd t.client
      → (t' : Term) × (update_loop lossy prompt bytes i (xs ++ 13 ∷ rest) t ≡ ok t')
        × (executed t'.effects
            ≡ executed t.effects ++ convert_excute_string (lossy (t.client.text ++ xs)) ∷ [])
        × (t'.client.text ≡ [])
        × (t'.client.ipos ≡ 0)
  unfolding update_loop
  update_loop-line [] rest i t p e =
      (key_enter lossy prompt t, refl, rw append-nil (executed-key_enter t), refl, refl)
  update_loop-line (b ∷ xs) rest i t p e =
      let (t', ran, did, empty, start) =
        update_loop-line xs rest (i + 1) (typed_end b t) p.1 (AtEnd-typed b t.client e) in
      (
        t',
        update_loop_typed i b (xs ++ 13 ∷ rest) t p.0 e ∙ ran,
        did ∙ simp (executed-append, append_assoc, append-nil),
        empty,
        start,
      )

-- The delete key does what the backspace key does, for the rest of the bytes too; but at the start of a
-- line, where the backspace key does nothing, the handler panics: the cursor is moved below zero.
pub update_loop-delete :
    (lossy : List ℕ → List ℕ) (prompt bytes rest : List ℕ) (i : ℕ) (t : Term)
    → update_loop lossy prompt bytes i (127 ∷ rest) t
      ≡ (if t.client.ipos == 0 then panic else update_loop lossy prompt bytes i (8 ∷ rest) t)
unfolding update_loop key_delete backspace
update_loop-delete lossy prompt bytes rest i t = ground arith
