-- ===== src/Telnet/Invariant.antt =====
-- The invariant of a telnet client: the cursor stays in the line, the history stays small, and the
-- line of the history that is shown exists. Under it no handler panics, but for the delete key.
use tunm.Prelude.{
  ℕ, zero, suc, ◌+◌, ◌-◌, ◌≤◌, ◌<◌, ◌≡◌, refl, true, List, [], ◌∷◌, ◌++◌, arith, length,
  length-append, length-pop, Outcome, ok, panic, Ensures, if◌then◌else◌, subst, sym, ◌==◌,
  slice_from, pop, drop, Bool-cases, inl, inr,
}
use tunm.Prelude.Int.{ℤ, pos, negsuc}
use tunm.Telnet.Client.{
  ClientInfo, Term, send_client_msg, send_backspaces, push_record, erase, backspace,
}

-- The history line that is shown: none for -1.
abbrev pub InHistory : ℤ → List (List ℕ) → Type 0
InHistory (pos n) records = n < length records
InHistory (negsuc zero) records = Unit
InHistory (negsuc (suc n)) records = ⊥

pub record IsEditing (c : ClientInfo) : Type 0 where
  pub cursor : c.ipos ≤ length c.text
  pub kept : length c.records ≤ 10
  pub browsing : InHistory c.ircdnum c.records

-- A client that is not logged in need not have entered a line yet.
pub record IsValid (c : ClientInfo) : Type 0 where
  pub cursor : c.ipos ≤ length c.text
  pub kept : length c.records ≤ 10
  pub browsing : c.blogin ≡ true → InHistory c.ircdnum c.records

abbrev pub Editing : Outcome Term → Type 0
Editing r = Ensures (λ t. IsEditing t.client) r

pub client-send_client_msg : (m : List ℕ) (t : Term) → (send_client_msg m t).client ≡ t.client
unfolding send_client_msg
client-send_client_msg m t = refl

pub client-send_backspaces : (n : ℕ) (t : Term) → (send_backspaces n t).client ≡ t.client
unfolding send_backspaces
client-send_backspaces zero t = refl
client-send_backspaces (suc n) t = client-send_backspaces n (send_client_msg (8 ∷ []) t)

pub length-push_record-le :
    (line : List ℕ) (records : List (List ℕ))
    → length records ≤ 10
    → length (push_record line records) ≤ 10
unfolding push_record
length-push_record-le line records h =
    ground (arith, length-append records (line ∷ []), length-pop (records ++ line ∷ []))

-- A slice from a position in the line returns.
pub slice_from_total {ℓ} :
    {A : Type ℓ} (xs : List A) (i : ℕ) → i ≤ length xs → slice_from xs i ≡ ok (drop i xs)
slice_from_total xs i h = ground arith

-- The step returns and leaves this client, whatever it sends.
abbrev pub Leaves : ClientInfo → Outcome Term → Type 0
Leaves c r = Ensures (λ t. t.client ≡ c) r

-- Taking the byte before the cursor returns, whatever is drawn.
pub erase-Leaves :
    (ipos : ℕ) (t : Term)
    → ipos + 1 ≤ length t.client.text
    → Leaves (record t.client { ipos = ipos; text = pop t.client.text }) (erase ipos t)
unfolding erase
erase-Leaves ipos t h = elim (Bool-cases t.client.benterpwd) [
  | inl e ↦ rw e refl
  | inr e ↦
      rw (e, slice_from_total (pop t.client.text) ipos (omega (arith, length-pop t.client.text)))
        (simp client-send_backspaces)
]

pub IsEditing-of_Leaves : (c : ClientInfo) (r : Outcome Term) → Leaves c r → IsEditing c → Editing r
IsEditing-of_Leaves c (ok t) e v = subst IsEditing (sym e) v
IsEditing-of_Leaves c panic e v = elim e [ ]

pub IsValid-of_Leaves :
    (c : ClientInfo) (r : Outcome Term) → Leaves c r → IsValid c → Ensures (λ t. IsValid t.client) r
IsValid-of_Leaves c (ok t) e v = subst IsValid (sym e) v
IsValid-of_Leaves c panic e v = elim e [ ]

-- The client after the backspace key: the cursor goes left and the last byte goes.
abbrev pub erased : ClientInfo → ClientInfo
erased c = record c { ipos = c.ipos - 1; text = if c.ipos == 0 then c.text else pop c.text }

erased_start : (c : ClientInfo) → (c.ipos == 0) ≡ true → c ≡ erased c
erased_start c h = ground arith

-- With the cursor in the line, the backspace key returns, and leaves the client with the cursor one to
-- the left and without the last byte of the line, wherever the cursor is; at the start of the line it
-- changes nothing.
pub backspace-Leaves :
    (t : Term) → t.client.ipos ≤ length t.client.text → Leaves (erased t.client) (backspace t)
unfolding backspace
backspace-Leaves t h = elim (Bool-cases (t.client.ipos == 0)) [
  | inl e ↦ let same = erased_start t.client e in rw e (rw e at same)
  | inr e ↦ rw e (erase-Leaves (t.client.ipos - 1) t (ground arith))
]

pub erased-IsEditing : (c : ClientInfo) → IsEditing c → IsEditing (erased c)
erased-IsEditing c v = record {
  cursor = ground (arith, length-pop c.text, v.cursor);
  kept = v.kept;
  browsing = v.browsing;
}

pub erased-IsValid : (c : ClientInfo) → IsValid c → IsValid (erased c)
erased-IsValid c v = record {
  cursor = ground (arith, length-pop c.text, v.cursor);
  kept = v.kept;
  browsing = v.browsing;
}
