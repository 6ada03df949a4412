-- ===== src/Lua/Engine.antt =====
-- `LuaEngine` of src/lua_engine.rs: the work that waits for the Lua scripts, and how it is handed to
-- them. The Lua machine is a parameter: a call changes its state, may queue further work through the
-- functions that the scripts are given, and returns a number. Texts are their bytes.
use tunm.Prelude.{ℕ, Bool, Option, none, some, List, [], ◌∷◌, ◌++◌, bytes_of}
use tunm.Prelude.Int.{ℤ, pos, negsuc, eq_ℤ}
use tunm.Prelude.Maps.{HashMap}
use tunm.Prelude.{if◌then◌else◌}
use tunm.Net.Values.{NetResult, success, failure}
use tunm.Net.Buffer.{ProtoBuffer}
use tunm.Net.Msg.{NetMsg, set_read_data, read_head}

abbrev pub Text : Type 0
Text = List ℕ

-- The values that tunm_proto decodes, and the results of Redis.
pub record Foreign (B : ProtoBuffer) : Type 1 where
  pub Value : Type 0
  pub Redis : Type 0
  pub decode_proto : B.Buffer → B.Buffer × Option (List Value)

module _ (B : ProtoBuffer) (F : Foreign B) where
  open F use {Value, Redis, decode_proto}

  pub data LuaElem : Type 0 where
    message : Text → NetMsg B → LuaElem
    db_result : ℕ → ℤ → Option Text → Option (NetMsg B) → LuaElem
    redis_result : ℕ → Option Redis → LuaElem
    new_connection : ℕ → Text → Text → ℕ → Bool → LuaElem
    lost_connection : Text → Text → LuaElem
    exec_string : Text → LuaElem
    http_callback_func : Text → HashMap Text Text → List Text → LuaElem
    args_func : Text → List Text → LuaElem

  -- What is pushed for a Lua function, and a call `exec_func`.
  pub data LuaArg : Type 0 where
    number : ℤ → LuaArg
    text : Text → LuaArg
    flag : Bool → LuaArg
    table : List Value → LuaArg
    redis : Redis → LuaArg
    headers : HashMap Text Text → LuaArg
    net_msg : NetMsg B → LuaArg

  pub record LuaCall : Type 0 where
    pub func : Text
    pub args : List LuaArg

  pub record LuaMachine : Type 1 where
    pub Lua : Type 0
    pub exec_func : LuaCall → Lua → Lua × List LuaElem × ℤ

  abbrev pub detail_text : Option Text → Text
  detail_text none = bytes_of "err msg detail miss"
  detail_text (some err_msg) = err_msg

  -- The answer of a database whose message is decoded.
  abbrev pub decoded_result : ℕ → ℤ → Option (List Value) → List LuaArg
  decoded_result cookie ret (some val) = number (pos cookie) ∷ number ret ∷ table val ∷ []
  decoded_result cookie ret none =
      number (pos cookie) ∷ number (negsuc 1) ∷ text (bytes_of "analyse data failed") ∷ []

  unfoldable pub db_args : ℕ → ℤ → Option (NetMsg B) → List LuaArg
  db_args cookie ret none = number (pos cookie) ∷ number ret ∷ table [] ∷ []
  db_args cookie ret (some m) =
      decoded_result cookie ret (decode_proto (set_read_data B m).buffer).1

  module _ (M : LuaMachine) where
    open M use {Lua, exec_func}

    pub record LuaEngine : Type 0 where
      pub exec_list : List LuaElem
      pub lua : Lua

    -- The `apply_` functions.
    unfoldable pub apply : LuaElem → LuaEngine → LuaEngine
    apply elem e = record e { exec_list = e.exec_list ++ elem ∷ [] }

    unfoldable pub exec : Text → List LuaArg → LuaEngine → LuaEngine × ℤ
    exec func args e =
        let (lua, queued, ret) = exec_func (record { func = func; args = args }) e.lua in
        (record { exec_list = e.exec_list ++ queued; lua = lua }, ret)

    unfoldable pub execute_new_connect : ℕ → Text → Text → ℕ → Bool → LuaEngine → LuaEngine × ℤ
    execute_new_connect cookie unique client_ip server_port websocket =
        exec (bytes_of "cmd_new_connection") (
          number (pos cookie)
          ∷ text unique
          ∷ text client_ip
          ∷ number (pos server_port)
          ∷ flag websocket
          ∷ [])

    unfoldable pub execute_lost_connect : Text → Text → LuaEngine → LuaEngine × ℤ
    execute_lost_connect unique reason =
        exec (bytes_of "cmd_lost_connection") (text unique ∷ text reason ∷ [])

    unfoldable pub execute_db_result :
        ℕ → ℤ → Option Text → Option (NetMsg B) → LuaEngine → LuaEngine × ℤ
    execute_db_result cookie ret err_msg m =
        if eq_ℤ ret (pos 0)
        then exec (bytes_of "msg_db_result") (db_args cookie ret m)
        else exec (bytes_of "msg_db_result")
            (number (pos cookie) ∷ number ret ∷ text (detail_text err_msg) ∷ [])

    unfoldable pub execute_redis_result : ℕ → Option Redis → LuaEngine → LuaEngine × ℤ
    execute_redis_result cookie none = exec (bytes_of "msg_redis_result") (number (pos cookie) ∷ [])
    execute_redis_result cookie (some r) =
        exec (bytes_of "msg_redis_result") (number (pos cookie) ∷ redis r ∷ [])

    -- A message whose head cannot be read is dropped.
    abbrev pub dispatch : Text → NetMsg B × NetResult (Unit {0}) → LuaEngine → LuaEngine × ℤ
    dispatch unique (m, failure err) e = (e, negsuc 0)
    dispatch unique (m, success _) e =
        exec (bytes_of "global_dispatch_command") (text unique ∷ text m.pack_name ∷ net_msg m ∷ [])
          e

    unfoldable pub execute_message : Text → NetMsg B → LuaEngine → LuaEngine × ℤ
    execute_message unique m = dispatch unique (read_head B (set_read_data B m))

    unfoldable pub execute_string : Text → LuaEngine → LuaEngine × ℤ
    execute_string func_str = exec (bytes_of "RUN_STRING") (text func_str ∷ [])

    unfoldable pub execute_args_func : Text → List Text → LuaEngine → LuaEngine × ℤ
    execute_args_func func [] = exec func []
    execute_args_func func (a ∷ []) = exec func (text a ∷ [])
    execute_args_func func (a ∷ b ∷ []) = exec func (text a ∷ text b ∷ [])
    execute_args_func func (a ∷ b ∷ c ∷ []) = exec func (text a ∷ text b ∷ text c ∷ [])
    execute_args_func func (a ∷ b ∷ c ∷ d ∷ []) = exec func (text a ∷ text b ∷ text c ∷ text d ∷ [])
    execute_args_func func (a ∷ b ∷ c ∷ d ∷ e ∷ []) =
        exec func (text a ∷ text b ∷ text c ∷ text d ∷ text e ∷ [])
    execute_args_func func (a ∷ b ∷ c ∷ d ∷ e ∷ f ∷ []) =
        exec func (text a ∷ text b ∷ text c ∷ text d ∷ text e ∷ text f ∷ [])
    execute_args_func func (a ∷ b ∷ c ∷ d ∷ e ∷ f ∷ g ∷ []) =
        exec func (text a ∷ text b ∷ text c ∷ text d ∷ text e ∷ text f ∷ text g ∷ [])
    execute_args_func func (a ∷ b ∷ c ∷ d ∷ e ∷ f ∷ g ∷ h ∷ more) = λ engine. (engine, negsuc 0)

    abbrev pub exec_http : Text → HashMap Text Text → List LuaArg → LuaEngine → LuaEngine × ℤ
    exec_http method hs more =
        exec (bytes_of "http_server_msg_recv") (text method ∷ headers hs ∷ more)

    unfoldable pub execute_http_func :
        Text → HashMap Text Text → List Text → LuaEngine → LuaEngine × ℤ
    execute_http_func method hs [] = exec_http method hs []
    execute_http_func method hs (a ∷ []) = exec_http method hs (text a ∷ [])
    execute_http_func method hs (a ∷ b ∷ []) = exec_http method hs (text a ∷ text b ∷ [])
    execute_http_func method hs (a ∷ b ∷ c ∷ []) =
        exec_http method hs (text a ∷ text b ∷ text c ∷ [])
    execute_http_func method hs (a ∷ b ∷ c ∷ d ∷ []) =
        exec_http method hs (text a ∷ text b ∷ text c ∷ text d ∷ [])
    execute_http_func method hs (a ∷ b ∷ c ∷ d ∷ e ∷ []) =
        exec_http method hs (text a ∷ text b ∷ text c ∷ text d ∷ text e ∷ [])
    execute_http_func method hs (a ∷ b ∷ c ∷ d ∷ e ∷ f ∷ []) =
        exec_http method hs (text a ∷ text b ∷ text c ∷ text d ∷ text e ∷ text f ∷ [])
    execute_http_func method hs (a ∷ b ∷ c ∷ d ∷ e ∷ f ∷ g ∷ []) =
        exec_http method hs (text a ∷ text b ∷ text c ∷ text d ∷ text e ∷ text f ∷ text g ∷ [])
    execute_http_func method hs (a ∷ b ∷ c ∷ d ∷ e ∷ f ∷ g ∷ h ∷ more) =
        λ engine. (engine, negsuc 0)

    unfoldable pub execute_elem : LuaElem → LuaEngine → LuaEngine × ℤ
    execute_elem (message unique m) = execute_message unique m
    execute_elem (db_result cookie ret err_msg m) = execute_db_result cookie ret err_msg m
    execute_elem (redis_result cookie result) = execute_redis_result cookie result
    execute_elem (new_connection cookie new_fd client_ip server_port websocket) =
        execute_new_connect cookie new_fd client_ip server_port websocket
    execute_elem (lost_connection unique reason) = execute_lost_connect unique reason
    execute_elem (exec_string func_str) = execute_string func_str
    execute_elem (args_func func args) = execute_args_func func args
    execute_elem (http_callback_func method hs args) = execute_http_func method hs args

    -- `for elem in temp_list`.
    unfoldable pub execute_list : List LuaElem → LuaEngine → LuaEngine
    execute_list [] e = e
    execute_list (elem ∷ rest) e = execute_list rest (execute_elem elem e).0

    -- The list is emptied first, so what the calls queue waits for the next time.
    unfoldable pub execute_lua : LuaEngine → LuaEngine
    execute_lua e = execute_list e.exec_list (record e { exec_list = [] })
