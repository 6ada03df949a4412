-- ===== src/Http/Answers.antt =====
-- Which answers of src/mgr/http_mgr.rs go to which requests, compared with a list of the requests in the order
-- in which they came.
use tunm.Prelude.{
  ℕ, zero, suc, ◌+◌, ◌≤◌, ◌≡◌, refl, sym, ap, ap₂, ◌∙◌, inl, inr, true, false, Bool, Bool-cases,
  ◌==◌, ==_iff, ne_test, Option, none, some, List, [], ◌∷◌, ◌++◌, length, length-append, arith,
  if◌then◌else◌,
}
use tunm.Prelude.Maps as Maps
use tunm.Prelude.Maps.{nat_eq, get-insert, get-remove}
use tunm.Net.Buffer.{ProtoBuffer}
use tunm.Lua.Engine.{Text, Foreign, LuaElem}
use tunm.Http.{
  Requests, ServerRequest, HttpMgr, new_http, last_cookie, next_cookie, told, new_request_receive,
  responded, http_server_respone,
}

-- A request that came at some time, or a script's answer.
pub data Event (Q : Type 0) : Type 0 where
  received : ℕ → Q → Event Q
  answered : ℕ → Text → Event Q

-- A comparison under `suc`.
suc_test : (a b : ℕ) → (suc a == suc b) ≡ (a == b)
suc_test a b = ground (arith, ==_iff (suc a) (suc b), ==_iff a b)

-- The requests so far, each by the cookie that is its number from 1 on, unless it was answered.
module _ {Q : Type 0} where
  abbrev pub waiting : ℕ → List (Option Q) → Option Q
  waiting cookie [] = none
  waiting zero (slot ∷ slots) = none
  waiting (suc zero) (slot ∷ slots) = slot
  waiting (suc (suc n)) (slot ∷ slots) = waiting (suc n) slots

  abbrev pub taken : ℕ → List (Option Q) → List (Option Q)
  taken cookie [] = []
  taken zero slots = slots
  taken (suc zero) (slot ∷ slots) = none ∷ slots
  taken (suc (suc n)) (slot ∷ slots) = slot ∷ taken (suc n) slots

  abbrev pub answer_with : Option Q → Text → List (Q × Text) → List (Q × Text)
  answer_with none content rest = rest
  answer_with (some q) content rest = (q, content) ∷ rest

  length-taken : (cookie : ℕ) (slots : List (Option Q)) → length (taken cookie slots) ≡ length slots
  length-taken cookie [] = refl
  length-taken zero (slot ∷ slots) = refl
  length-taken (suc zero) (slot ∷ slots) = refl
  length-taken (suc (suc n)) (slot ∷ slots) = ap suc (length-taken (suc n) slots)

  waiting-append :
      (cookie : ℕ) (slots : List (Option Q)) (q : Q)
      → waiting cookie (slots ++ some q ∷ [])
        ≡ (if suc (length slots) == cookie then some q else waiting cookie slots)
  waiting-append zero [] q = refl
  waiting-append (suc zero) [] q = refl
  waiting-append (suc (suc n)) [] q = rw (ne_test 1 (suc (suc n)) (omega arith)) refl
  waiting-append zero (slot ∷ slots) q =
      rw (ne_test (suc (suc (length slots))) 0 (omega arith)) refl
  waiting-append (suc zero) (slot ∷ slots) q =
      rw (ne_test (suc (suc (length slots))) 1 (omega arith)) refl
  waiting-append (suc (suc n)) (slot ∷ slots) q =
      rw (suc_test (suc (length slots)) (suc n)) (waiting-append (suc n) slots q)

  waiting-taken :
      (cookie : ℕ) (slots : List (Option Q)) (c : ℕ)
      → waiting c (taken cookie slots) ≡ (if cookie == c then none else waiting c slots)
  waiting-taken cookie [] c = elim (Bool-cases (cookie == c)) [
    | inl same ↦ rw same refl
    | inr other ↦ rw other refl
  ]
  waiting-taken zero (slot ∷ slots) zero = refl
  waiting-taken zero (slot ∷ slots) (suc c) = rw (ne_test 0 (suc c) (omega arith)) refl
  waiting-taken (suc zero) (slot ∷ slots) zero = refl
  waiting-taken (suc zero) (slot ∷ slots) (suc zero) = refl
  waiting-taken (suc zero) (slot ∷ slots) (suc (suc c)) =
      rw (ne_test 1 (suc (suc c)) (omega arith)) refl
  waiting-taken (suc (suc n)) (slot ∷ slots) zero = rw (ne_test (suc (suc n)) 0 (omega arith)) refl
  waiting-taken (suc (suc n)) (slot ∷ slots) (suc zero) =
      rw (ne_test (suc (suc n)) 1 (omega arith)) refl
  waiting-taken (suc (suc n)) (slot ∷ slots) (suc (suc c)) =
      rw (suc_test (suc n) (suc c)) (waiting-taken (suc n) slots (suc c))

  abbrev pub arrivals : List (Event Q) → ℕ
  arrivals [] = 0
  arrivals (received now q ∷ events) = suc (arrivals events)
  arrivals (answered cookie content ∷ events) = arrivals events

  abbrev with_answer : Option (Q × Text) → List (Q × Text) → List (Q × Text)
  with_answer none sent = sent
  with_answer (some s) sent = s ∷ sent

  abbrev request_of : Option (ServerRequest Q) → Option Q
  request_of none = none
  request_of (some r) = some (r.request)

  request_of-if :
      (b : Bool) (x y : Option (ServerRequest Q))
      → request_of (if b then x else y) ≡ (if b then request_of x else request_of y)
  request_of-if true x y = refl
  request_of-if false x y = refl

  -- The manager has the requests that wait, under their cookies.
  record Agrees (mgr : HttpMgr Q) (slots : List (Option Q)) : Type 0 where
    mutex : mgr.mutex ≡ length slots
    found : (cookie : ℕ) → request_of (Maps.get cookie mgr.requests) ≡ waiting cookie slots

module _ (B : ProtoBuffer) (F : Foreign B) {Q : Type 0} (lib : Requests Q) where
  -- What the scripts are told, and the responses that are sent.
  abbrev pub Done : Type 0
  Done = List (LuaElem B F) × List (Q × Text)

  abbrev pub run : List (Event Q) → HttpMgr Q → Done
  run [] mgr = ([], [])
  run (received now q ∷ events) mgr =
      let (mgr', elem_) = new_request_receive B F lib now q mgr in
      let (elems, sent) = run events mgr' in (elem_ ∷ elems, sent)
  run (answered cookie content ∷ events) mgr =
      let (mgr', answer) = http_server_respone B F cookie content mgr in
      let (elems, sent) = run events mgr' in (elems, with_answer answer sent)

  abbrev pub expected : List (Event Q) → List (Option Q) → Done
  expected [] slots = ([], [])
  expected (received now q ∷ events) slots =
      let (elems, sent) = expected events (slots ++ some (lib.read_to_string q).0 ∷ []) in
      (told B F lib (suc (length slots)) q ∷ elems, sent)
  expected (answered cookie content ∷ events) slots =
      let (elems, sent) = expected events (taken cookie slots) in
      (elems, answer_with (waiting cookie slots) content sent)

  next_cookie_lem : (n : ℕ) → n ≤ last_cookie → next_cookie n ≡ suc n
  next_cookie_lem n h = ground arith

  new_request_receive-Agrees :
      (now : ℕ) (q : Q) (mgr : HttpMgr Q) (slots : List (Option Q))
      → Agrees mgr slots
      → length slots ≤ last_cookie
      → Agrees
          (new_request_receive B F lib now q mgr).0
          (slots ++ some (lib.read_to_string q).0 ∷ [])
  unfolding new_request_receive
  new_request_receive-Agrees now q mgr slots a h =
      let cookie : next_cookie mgr.mutex ≡ suc (length slots) =
        ap next_cookie a.mutex ∙ next_cookie_lem (length slots) h in
      let q' : Q = (lib.read_to_string q).0 in
      record {
        mutex = cookie ∙ sym (length-append slots (some q' ∷ []) ∙ omega arith);
        found = λ c.
            ap request_of (
              get-insert (next_cookie mgr.mutex) c (record { request = q'; time = now })
                mgr.requests)
            ∙ request_of-if (next_cookie mgr.mutex == c)
                (some (record { request = q'; time = now })) (Maps.get c mgr.requests)
            ∙ ap₂ (λ k w. if k == c then some q' else w) cookie (a.found c)
            ∙ sym (waiting-append c slots q');
      }

  http_server_respone-Agrees :
      (cookie : ℕ) (content : Text) (mgr : HttpMgr Q) (slots : List (Option Q))
      → Agrees mgr slots
      → Agrees (http_server_respone B F cookie content mgr).0 (taken cookie slots)
  unfolding http_server_respone
  http_server_respone-Agrees cookie content mgr slots a = record {
    mutex = a.mutex ∙ sym (length-taken cookie slots);
    found = λ c.
        ap request_of (get-remove cookie c mgr.requests)
        ∙ request_of-if (cookie == c) none (Maps.get c mgr.requests)
        ∙ ap (λ w. if cookie == c then none else w) (a.found c)
        ∙ sym (waiting-taken cookie slots c);
  }

  answer_lem :
      (content : Text) (r : Option (ServerRequest Q)) (w : Option Q) (sent : List (Q × Text))
      → request_of r ≡ w
      → with_answer (responded B F r content) sent ≡ answer_with w content sent
  answer_lem content none w sent e = ap (λ w. answer_with w content sent) e
  answer_lem content (some r) w sent e = ap (λ w. answer_with w content sent) e

  run-Agrees :
      (events : List (Event Q)) (mgr : HttpMgr Q) (slots : List (Option Q))
      → Agrees mgr slots
      → length slots + arrivals events ≤ suc last_cookie
      → run events mgr ≡ expected events slots
  unfolding new_request_receive http_server_respone
  run-Agrees [] mgr slots a h = refl
  run-Agrees (received now q ∷ events) mgr slots a h =
      let cookie : next_cookie mgr.mutex ≡ suc (length slots) =
        ap next_cookie a.mutex ∙ next_cookie_lem (length slots) (omega arith) in
      let slots' : List (Option Q) = slots ++ some (lib.read_to_string q).0 ∷ [] in
      let more =
        run-Agrees events (new_request_receive B F lib now q mgr).0 slots'
          (new_request_receive-Agrees now q mgr slots a (omega arith))
          (omega (arith, h, length-append slots (some (lib.read_to_string q).0 ∷ []))) in
      ap₂ (λ c (d : Done). (told B F lib c q ∷ d.0, d.1)) cookie more
  run-Agrees (answered cookie content ∷ events) mgr slots a h =
      let more =
        run-Agrees events (http_server_respone B F cookie content mgr).0 (taken cookie slots)
          (http_server_respone-Agrees cookie content mgr slots a)
          (omega (arith, h, length-taken cookie slots)) in
      let d : Done = expected events (taken cookie slots) in
      ap
        (λ (d : Done).
          (d.0, with_answer (responded B F (Maps.get cookie mgr.requests) content) d.1))
        more
      ∙ ap (λ sent. (d.0, sent))
          (answer_lem content (Maps.get cookie mgr.requests) (waiting cookie slots) d.1
            (a.found cookie))

  -- While the cookies last, each request is told to the scripts with its number as its cookie, and an answer
  -- is sent, once, to the request that it names: it does nothing where no request has that cookie or where
  -- the request was answered before.
  pub run-expected :
      (events : List (Event Q))
      → arrivals events ≤ suc last_cookie
      → run events new_http ≡ expected events []
  unfolding Maps.get
  run-expected events h =
      run-Agrees events new_http [] (record { mutex = refl; found = λ cookie. refl }) (omega arith)
