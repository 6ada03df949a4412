-- ===== src/Telnet/LoginSafety.antt =====
-- `TelnetUtils::login` of src/utils/telnet_utils.rs keeps the invariant and does not panic.
use tunm.Prelude.{
  ℕ, ◌+◌, ◌≤◌, ◌<◌, ◌≡◌, false, List, [], ◌∷◌, ◌++◌, arith, length, Outcome, ok, ◌>>=◌, Ensures,
  Returns, Returns-if, Returns-bind, if◌then◌else◌, ◌≢◌, ne_test, ◌==◌, length-append, length-drop,
}
use tunm.Prelude.Int.{negsuc}
use tunm.Telnet.Client.{ClientInfo, Term, backspace}
use tunm.Telnet.Login.{login_enter, login_escape, login_char, login_byte, login_loop, login}
use tunm.Telnet.Invariant.{
  Leaves, IsValid, IsValid-of_Leaves, erased, erased-IsValid, backspace-Leaves,
  length-push_record-le,
}

abbrev Valid : Term → Type 0
Valid s = IsValid s.client

ircdnum-login_enter :
    (prompt : List ℕ) (t : Term) → (login_enter prompt t).client.ircdnum ≡ negsuc 0
unfolding login_enter
ircdnum-login_enter prompt t = ground arith

login_enter-IsValid :
    (prompt : List ℕ) (t : Term) → IsValid t.client → IsValid (login_enter prompt t).client
unfolding login_enter
login_enter-IsValid prompt t v = record {
  cursor = ground arith;
  kept = ground (arith, v.kept, length-push_record-le t.client.text t.client.records);
  browsing = λ _. rw (ircdnum-login_enter prompt t) tt;
}

-- The test for an escape sequence in the login dialogue returns and fails, for every byte received at a
-- position within the bytes.
pub login_escape_never :
    (bytes : List ℕ) (i b : ℕ) → i < length bytes → login_escape bytes i b ≡ ok false
unfolding login_escape
login_escape_never bytes i b h = ground arith

-- The client after a character of a name or a password.
abbrev pub typed : ℕ → ClientInfo → ClientInfo
typed b c = record c { text = c.text ++ b ∷ []; ipos = c.ipos + 1 }

pub login_char-Leaves :
    (b : ℕ) (t : Term)
    → t.client.ipos ≤ length t.client.text
    → Leaves (typed b t.client) (login_char b t)
unfolding login_char
login_char-Leaves b t h =
    let text = t.client.text ++ b ∷ [] in
    ground (arith, length-append t.client.text (b ∷ []), length-drop t.client.ipos text)

typed-IsValid : (b : ℕ) (c : ClientInfo) → IsValid c → IsValid (typed b c)
typed-IsValid b c v = record {
  cursor = omega (arith, v.cursor, length-append c.text (b ∷ []));
  kept = v.kept;
  browsing = v.browsing;
}

abbrev Step : Outcome Term → Type 0
Step r = Returns Valid r

login_char-IsValid : (b : ℕ) (t : Term) → IsValid t.client → Step (login_char b t)
login_char-IsValid b t v = record {
  ensures =
      IsValid-of_Leaves (typed b t.client) (login_char b t) (login_char-Leaves b t v.cursor)
        (typed-IsValid b t.client v);
}

backspace-IsValid : (t : Term) → IsValid t.client → Step (backspace t)
backspace-IsValid t v = record {
  ensures =
      IsValid-of_Leaves (erased t.client) (backspace t) (backspace-Leaves t v.cursor)
        (erased-IsValid t.client v);
}

-- A byte that is none of the keys of the dialogue.
pub login_byte_plain :
    (prompt bytes : List ℕ) (i b : ℕ) (t : Term)
    → i < length bytes
    → b ≢ 13
    → b ≢ 8
    → b ≢ 10
    → b ≢ 9
    → login_byte prompt bytes i b t ≡ login_char b t
unfolding login_byte
login_byte_plain prompt bytes i b t h h13 h8 h10 h9 = rw (
  ne_test b 13 h13,
  ne_test b 8 h8,
  ne_test b 10 h10,
  ne_test b 9 h9,
  login_escape_never bytes i b h,
)

module _ (prompt bytes : List ℕ) where
  login_byte-IsValid :
      (i b : ℕ) (t : Term)
      → i < length bytes
      → IsValid t.client
      → Step (login_byte prompt bytes i b t)
  unfolding login_byte
  login_byte-IsValid i b t h v =
      let typing : Outcome Term =
        login_escape bytes i b >>= λ escape. if escape then ok t else login_char b t in
      Returns-if (b == 13) (ok (login_enter prompt t)) _
        (λ _. record { ensures = login_enter-IsValid prompt t v })
        λ _.
          Returns-if (b == 8) (backspace t) _ (λ _. backspace-IsValid t v)
            λ _.
              Returns-if (b == 10) (ok t) _ (λ _. record { ensures = v })
                λ _.
                  Returns-if (b == 9) (ok t) typing (λ _. record { ensures = v })
                    λ _. rw (login_escape_never bytes i b h) (login_char-IsValid b t v)

  login_loop-Returns :
      (i : ℕ) (rest : List ℕ) (t : Term)
      → i + length rest ≡ length bytes
      → IsValid t.client
      → Step (login_loop prompt bytes i rest t)
  unfolding login_loop
  login_loop-Returns i [] t h v = record { ensures = v }
  login_loop-Returns i (b ∷ rest) t h v =
      let continue = login_loop prompt bytes (i + 1) rest in
      let later =
        λ (s : Term) (w : IsValid s.client). login_loop-Returns (i + 1) rest s (omega arith) w in
      Returns-if (b == 255) (ok t) _ (λ _. record { ensures = v })
        λ _.
          Returns-if (b == 0) (continue t) (login_byte prompt bytes i b t >>= continue)
            (λ _. later t v)
            λ _.
              Returns-bind (login_byte prompt bytes i b t) continue
                (login_byte-IsValid i b t (omega arith) v) later

-- A client in the login dialogue, sent any bytes: the handler returns and the invariant holds after.
pub login-IsValid :
    (prompt bytes : List ℕ) (t : Term)
    → IsValid t.client
    → Ensures (λ s. IsValid s.client) (login prompt bytes t)
unfolding login
login-IsValid prompt bytes t v = (login_loop-Returns prompt bytes 0 bytes t (omega arith) v).ensures
