-- ===== src/Http/Examples.antt =====
-- Two requests that are answered in the other order, and answers that come to nothing.
use tunm.Prelude.{ℕ, ◌≡◌, refl, ◌+◌, none, some, List, [], ◌∷◌, bytes_of, arith}
use tunm.Prelude.Maps as Maps
use tunm.Prelude.Decimal.{to_decimal}
use tunm.Net.Sample.{sample}
use tunm.Lua.Engine.{Foreign, http_callback_func, args_func}
use tunm.Http.{Requests, told, new_http, http_get_request, http_post_request}
use tunm.Http.Answers.{Event, received, answered, run, run-expected}

abbrev foreign : Foreign sample
foreign = record { Value = ℕ; Redis = ℕ; decode_proto = λ b. (b, none) }

-- A request is a number, and reading its body adds 100.
abbrev lib : Requests ℕ
lib = record {
  headers = λ q. (bytes_of "Host", (q ∷ [])) ∷ (bytes_of "Host", ((q + 1) ∷ [])) ∷ [];
  read_to_string = λ q. (q + 100, bytes_of "body");
  method = λ q. bytes_of "GET";
  url = λ q. q ∷ [];
  remote_addr = λ q. bytes_of "here";
}

abbrev events : List (Event ℕ)
events =
    received 5 7
    ∷ received 6 8
    ∷ answered 2 (bytes_of "b")
    ∷ answered 2 (bytes_of "c")
    ∷ answered 9 (bytes_of "x")
    ∷ answered 1 (bytes_of "a")
    ∷ []

run-expected_example : run sample foreign lib events new_http ≡ (
  told sample foreign lib 1 7 ∷ told sample foreign lib 2 8 ∷ [],
  (108, bytes_of "b") ∷ (107, bytes_of "a") ∷ [],
)
run-expected_example = run-expected sample foreign lib events (omega arith)

-- The header that came last stays.
told_seven :
    told sample foreign lib 1 7
    ≡ http_callback_func
        (bytes_of "GET")
        ((bytes_of "Host", (8 ∷ [])) ∷ [])
        (bytes_of "1" ∷ (107 ∷ []) ∷ bytes_of "body" ∷ bytes_of "here" ∷ [])
unfolding told Maps.insert to_decimal
told_seven = refl

-- A request that cannot be sent, and one with an answer.
get_fails :
    http_get_request sample foreign (λ url. none) 3 (bytes_of "a") (bytes_of "/b")
    ≡ args_func (bytes_of "http_client_msg_respone") (bytes_of "3" ∷ bytes_of "0" ∷ [])
unfolding http_get_request to_decimal
get_fails = refl

post_answered :
    http_post_request sample foreign
      (λ url body. some (200, some url))
      3
      (bytes_of "a")
      (bytes_of "/b")
      []
    ≡ args_func
        (bytes_of "http_client_msg_respone")
        (bytes_of "3" ∷ bytes_of "200" ∷ bytes_of "http://a/b" ∷ [])
unfolding http_post_request to_decimal
post_answered = refl
