-- ===== src/Telnet/Auth.antt =====
-- The login dialogue of src/utils/telnet_utils.rs from end to end: a name line and a password line.
use tunm.Prelude.{
  ℕ, ◌+◌, ◌≤◌, ◌<◌, ◌≡◌, ◌≢◌, ◌↔◌, refl, ap, ◌∙◌, true, false, List, [], ◌∷◌, ◌++◌, arith, length,
  length-append, append-nil, append_assoc, Outcome, ok, panic, All, ◌&&◌, ne_test, bytes_eq,
  bytes_eq_iff,
}
use tunm.Prelude.Int.{negsuc}
use tunm.Telnet.Client.{ClientInfo, Term, login_name}
use tunm.Telnet.Login.{login_enter, login_char, login_loop, login}
use tunm.Telnet.Invariant.{Leaves}
use tunm.Telnet.LoginSafety.{typed, login_char-Leaves, login_byte_plain}

-- A byte that the dialogue takes as a character.
pub record IsPlain (b : ℕ) : Type 0 where
  pub not_stop : b ≢ 255
  pub not_nul : b ≢ 0
  pub not_enter : b ≢ 13
  pub not_backspace : b ≢ 8
  pub not_newline : b ≢ 10
  pub not_tab : b ≢ 9

-- A client that is asked for its name, with nothing typed yet.
pub record IsAsked (c : ClientInfo) : Type 0 where
  pub no_text : c.text ≡ []
  pub at_start : c.ipos ≡ 0
  pub no_records : c.records ≡ []
  pub asks_name : c.benterpwd ≡ false
  pub stranger : c.blogin ≡ false

abbrev typed_all : List ℕ → ClientInfo → ClientInfo
typed_all xs c = record c { text = c.text ++ xs; ipos = c.ipos + length xs }

of_Leaves :
    (c : ClientInfo) (r : Outcome Term) → Leaves c r → (t : Term) × (r ≡ ok t) × (t.client ≡ c)
of_Leaves c (ok t) e = (t, refl, e)
of_Leaves c panic e = elim e [ ]

module _ (prompt bytes : List ℕ) where
  login_loop_plain :
      (i b : ℕ) (rest : List ℕ) (t t' : Term)
      → i < length bytes
      → IsPlain b
      → login_char b t ≡ ok t'
      → login_loop prompt bytes i (b ∷ rest) t ≡ login_loop prompt bytes (i + 1) rest t'
  unfolding login_loop
  login_loop_plain i b rest t t' h p e = rw (
    ne_test b 255 p.not_stop,
    ne_test b 0 p.not_nul,
    login_byte_plain prompt bytes i b t h p.not_enter p.not_backspace p.not_newline p.not_tab,
    e,
  )

  login_loop_enter :
      (i : ℕ) (rest : List ℕ) (t : Term)
      → login_loop prompt bytes i (13 ∷ rest) t
        ≡ login_loop prompt bytes (i + 1) rest (login_enter prompt t)
  unfolding login_loop
  login_loop_enter i rest t = refl

  typed_all_cons :
      (b : ℕ) (xs : List ℕ) (c : ClientInfo) → typed_all xs (typed b c) ≡ typed_all (b ∷ xs) c
  typed_all_cons b xs c = ground (arith, append_assoc c.text (b ∷ []) xs)

  -- A run of characters is collected in the line.
  login_loop_line :
      (i : ℕ) (xs rest : List ℕ) (t : Term)
      → All IsPlain xs
      → i + length (xs ++ rest) ≤ length bytes
      → t.client.ipos ≤ length t.client.text
      → (t' : Term) × (login_loop prompt bytes i (xs ++ rest) t
          ≡ login_loop prompt bytes (i + length xs) rest t')
        × (t'.client ≡ typed_all xs t.client)
  login_loop_line i [] rest t p h v = (
    t,
    ap (λ (j : ℕ). login_loop prompt bytes j rest t) (omega arith),
    ground (arith, append-nil t.client.text),
  )
  login_loop_line i (b ∷ xs) rest t p h v =
      let (t1, e1, c1) = of_Leaves (typed b t.client) (login_char b t) (login_char-Leaves b t v) in
      let fits : t1.client.ipos ≤ length t1.client.text =
        rw c1 (omega (arith, v, length-append t.client.text (b ∷ []))) in
      let (t2, e2, c2) = login_loop_line (i + 1) xs rest t1 p.1 (omega arith) fits in
      let moved : login_loop prompt bytes (i + 1 + length xs) rest t2
          ≡ login_loop prompt bytes (i + length (b ∷ xs)) rest t2 =
        ap (λ (j : ℕ). login_loop prompt bytes j rest t2) (omega arith) in
      (
        t2,
        login_loop_plain i b (xs ++ rest) t t1 (omega arith) p.0 e1 ∙ e2 ∙ moved,
        c2 ∙ ap (typed_all xs) c1 ∙ typed_all_cons b xs t.client,
      )

-- What the two lines leave of a client that was asked for its name.
client-login_enter_name :
    (prompt : List ℕ) (t : Term)
    → t.client.benterpwd ≡ false
    → t.client.records ≡ []
    → (login_enter prompt t).client ≡ record t.client {
      records = t.client.text ∷ [];
      text = [];
      ipos = 0;
      ircdnum = negsuc 0;
      benterpwd = true;
    }
unfolding login_enter
client-login_enter_name prompt t h r = ground arith

blogin-login_enter :
    (prompt name : List ℕ) (t : Term)
    → t.client.benterpwd ≡ true
    → t.client.blogin ≡ false
    → t.client.records ≡ name ∷ []
    → (login_enter prompt t).client.blogin
      ≡ (bytes_eq name login_name && bytes_eq t.client.text login_name)
unfolding login_enter
blogin-login_enter prompt name t h b r = ground arith

both_iff :
    (xs ys : List ℕ)
    → ((bytes_eq xs login_name && bytes_eq ys login_name) ≡ true)
      ↔ ((xs ≡ login_name) × (ys ≡ login_name))
both_iff xs ys = ground (arith, bytes_eq_iff xs login_name, bytes_eq_iff ys login_name)

-- A client that is not logged in, is asked for its name and has typed nothing yet, sends two lines of
-- plain characters: the handler returns, and the client is logged in exactly if both lines are the name
-- of the program.
pub login_iff :
    (prompt name password : List ℕ) (t : Term)
    → IsAsked t.client
    → All IsPlain name
    → All IsPlain password
    → (t' : Term) × (login prompt (name ++ 13 ∷ (password ++ 13 ∷ [])) t ≡ ok t')
      × ((t'.client.blogin ≡ true) ↔ ((name ≡ login_name) × (password ≡ login_name)))
unfolding login
login_iff prompt name password t asked pn pp =
    let second = password ++ 13 ∷ [] in
    let bytes = name ++ 13 ∷ second in
    let sizes = length-append name (13 ∷ second) in
    let n = length name in
    let start : t.client.ipos ≤ length t.client.text = omega (arith, asked.at_start) in
    let (t1, e1, c1) = login_loop_line prompt bytes 0 name (13 ∷ second) t pn (omega arith) start in
    let t2 = login_enter prompt t1 in
    let e2 = login_loop_enter prompt bytes (0 + n) second t1 in
    let c2 = client-login_enter_name prompt t1 (rw c1 asked.asks_name) (rw c1 asked.no_records) in
    let restart : t2.client.ipos ≤ length t2.client.text = rw c2 (omega arith) in
    let (t3, e3, c3) =
      login_loop_line prompt bytes (0 + n + 1) password (13 ∷ []) t2 pp (omega arith) restart in
    let line : t1.client.text ≡ name = ground (arith, c1, asked.no_text) in
    let password_line : t3.client.text ≡ password = ground (arith, c2, c3) in
    let verdict =
      blogin-login_enter prompt name t3 (rw (c3, c2) refl) (rw (c3, c2, c1) asked.stranger)
        (rw (c3, c2) (ap (λ (l : List ℕ). l ∷ []) line)) in
    let finish = login_loop_enter prompt bytes (0 + n + 1 + length password) [] t3 in
    (
      login_enter prompt t3,
      e1 ∙ e2 ∙ e3 ∙ finish,
      rw (verdict, password_line) (both_iff name password),
    )
