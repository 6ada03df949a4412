-- ===== src/Net/Socket/Names.antt =====
-- The names of sockets: `SocketEvent::token_to_unique` of src/net/socket_event.rs, and
-- `SocketEvent::unique_to_token`, which takes the descriptor back out of a name.
use tunm.Prelude.{
  ℕ, ◌^◌, ◌<◌, ◌≡◌, sym, ap, ◌∙◌, Option, none, some, List, [], ◌∷◌, ◌++◌, bytes_of, length, drop,
  arith, ltb, leb, ◌&&◌, if◌then◌else◌,
}
use tunm.Prelude.Decimal.{to_decimal, parse_usize, to_decimal_starts, parse_usize-to_decimal}
use tunm.Net.Socket.{token_to_unique}

-- A text is cut in front of a character only: a byte from 128 to 191 goes on with one.
abbrev pub at_boundary : List ℕ → Option (List ℕ)
at_boundary [] = some []
at_boundary (c ∷ cs) = if leb 128 c && ltb c 192 then none else some (c ∷ cs)

abbrev pub get_from : ℕ → List ℕ → Option (List ℕ)
get_from n text = if ltb (length text) n then none else at_boundary (drop n text)

abbrev pub unwrap_or {ℓ} : {A : Type ℓ} → A → Option A → A
unwrap_or a none = a
unwrap_or a (some x) = x

unfoldable pub unique_to_token : List ℕ → ℕ
unique_to_token unique = unwrap_or 0 (parse_usize (unwrap_or (bytes_of "0") (get_from 3 unique)))

at_boundary_lem : (c : ℕ) (cs : List ℕ) → c < 128 → at_boundary (c ∷ cs) ≡ some (c ∷ cs)
at_boundary_lem c cs h = ground arith

get_from_long : (a b c : ℕ) (l : List ℕ) → get_from 3 (a ∷ b ∷ c ∷ l) ≡ at_boundary l
get_from_long a b c l = ground arith

get_from-name :
    (token : ℕ) → get_from 3 (bytes_of "NM:" ++ to_decimal token) ≡ some (to_decimal token)
get_from-name token =
    let (c, cs, e, _, small) = to_decimal_starts token in
    ap (λ l. get_from 3 (bytes_of "NM:" ++ l)) e
    ∙ get_from_long 78 77 58 (c ∷ cs)
    ∙ at_boundary_lem c cs (omega arith)
    ∙ ap some (sym e)

-- The name that is made of a descriptor of 64 bits leads back to it.
pub unique_to_token-token_to_unique :
    (token : ℕ) → token < 2 ^ 64 → unique_to_token (token_to_unique token) ≡ token
unfolding unique_to_token token_to_unique
unique_to_token-token_to_unique token h =
    ap (λ o. unwrap_or 0 (parse_usize (unwrap_or (bytes_of "0") o))) (get_from-name token)
    ∙ ap (unwrap_or 0) (parse_usize-to_decimal token h)
