-- ===== src/Http.antt =====
-- `HttpMgr` of src/mgr/http_mgr.rs: the requests of http that wait for a script to answer, and the requests
-- that scripts make. The server and the client are packages, and so parameters.
pub mod Answers
pub mod Examples
use tunm.Prelude.{ℕ, ◌+◌, Option, none, some, List, [], ◌∷◌, ◌++◌, ltb, bytes_of, if◌then◌else◌}
use tunm.Prelude.Maps as Maps
use tunm.Prelude.Maps.{HashMap, nat_eq, text_eq}
use tunm.Prelude.Decimal.{to_decimal}
use tunm.Net.Buffer.{ProtoBuffer}
use tunm.Lua.Engine.{Text, Foreign, LuaElem, http_callback_func, args_func}

-- What a request of tiny_http tells: `read_to_string` gives the request after it and the body, which is empty
-- where it is no text.
pub record Requests (Q : Type 0) : Type 0 where
  pub headers : Q → List (Text × Text)
  pub read_to_string : Q → Q × Text
  pub method : Q → Text
  pub url : Q → Text
  pub remote_addr : Q → Text

pub record ServerRequest (Q : Type 0) : Type 0 where
  pub request : Q
  pub time : ℕ

-- `mutex` is the number that the lock guards, the cookie given last.
pub record HttpMgr (Q : Type 0) : Type 0 where
  pub requests : HashMap ℕ (ServerRequest Q)
  pub mutex : ℕ

abbrev pub new_http : {Q : Type 0} → HttpMgr Q
new_http = record { requests = []; mutex = 0 }

-- `u32::max_value() - 1000`
abbrev pub last_cookie : ℕ
last_cookie = 4294966295

abbrev pub next_cookie : ℕ → ℕ
next_cookie last = (if ltb last_cookie last then 0 else last) + 1

-- A later header replaces an earlier one of the same name.
unfoldable pub header_map : List (Text × Text) → HashMap Text Text → HashMap Text Text
header_map [] hs = hs
header_map ((field, value) ∷ more) hs = header_map more (Maps.insert field value hs)

module _ (B : ProtoBuffer) (F : Foreign B) where
  module _ {Q : Type 0} (lib : Requests Q) where
    open lib use {headers, read_to_string, method, url, remote_addr}

    -- What the scripts are told of a request.
    unfoldable pub told : ℕ → Q → LuaElem B F
    unfolding header_map
    told cookie request =
        let (read, body) = read_to_string request in
        http_callback_func (method read) (header_map (headers request) [])
          (to_decimal cookie ∷ url read ∷ body ∷ remote_addr read ∷ [])

    unfoldable pub new_request_receive : ℕ → Q → HttpMgr Q → HttpMgr Q × LuaElem B F
    unfolding told
    new_request_receive now request mgr =
        let cookie = next_cookie mgr.mutex in
        let server_request : ServerRequest Q = record {
          request = (read_to_string request).0;
          time = now;
        } in
        (
          record { requests = Maps.insert cookie server_request mgr.requests; mutex = cookie },
          told cookie request,
        )

  -- The response that a thread of the pool sends, if there is a request to answer.
  abbrev pub responded : {Q : Type 0} → Option (ServerRequest Q) → Text → Option (Q × Text)
  responded none content = none
  responded (some r) content = some (r.request, content)

  unfoldable pub http_server_respone :
      {Q : Type 0} → ℕ → Text → HttpMgr Q → HttpMgr Q × Option (Q × Text)
  http_server_respone cookie content mgr = (
    record mgr { requests = Maps.remove cookie mgr.requests },
    responded (Maps.get cookie mgr.requests) content,
  )

  -- What the client of http gives for an address and a body: nothing if it cannot send, else a status and
  -- the body as a text, if it can be read.
  abbrev pub Reply : Type 0
  Reply = Option (ℕ × Option Text)

  abbrev pub client_respone : List Text → LuaElem B F
  client_respone args = args_func (bytes_of "http_client_msg_respone") args

  abbrev pub reply_of : ℕ → Reply → LuaElem B F
  reply_of cookie (some (status_code, some body)) =
      client_respone (to_decimal cookie ∷ to_decimal status_code ∷ body ∷ [])
  reply_of cookie (some (status_code, none)) =
      client_respone (to_decimal cookie ∷ bytes_of "0" ∷ [])
  reply_of cookie none = client_respone (to_decimal cookie ∷ bytes_of "0" ∷ [])

  abbrev pub full_url : Text → Text → Text
  full_url addr url = bytes_of "http://" ++ addr ++ url

  unfoldable pub http_get_request : (Text → Reply) → ℕ → Text → Text → LuaElem B F
  http_get_request client cookie addr url = reply_of cookie (client (full_url addr url))

  unfoldable pub http_post_request : (Text → Text → Reply) → ℕ → Text → Text → Text → LuaElem B F
  http_post_request client cookie addr url body = reply_of cookie (client (full_url addr url) body)
