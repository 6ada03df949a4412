-- ===== src/Lua/Order.antt =====
-- The order in which `LuaEngine::execute_lua` of src/lua_engine.rs calls the scripts.
use tunm.Prelude.{
  ◌≡◌, sym, ap, ◌∙◌, none, some, List, [], ◌∷◌, ◌++◌, map, length, leb, if◌then◌else◌, bytes_of,
  append-nil, append_assoc, Bool-cases, inl, inr, false, arith,
}
use tunm.Prelude.Int.{pos, eq_ℤ}
use tunm.Net.Values.{NetResult, success, failure}
use tunm.Net.Buffer.{ProtoBuffer}
use tunm.Net.Msg.{NetMsg, set_read_data, read_head}
use tunm.Lua.Engine.{
  Text, Foreign, LuaElem, message, db_result, redis_result, new_connection, lost_connection,
  exec_string, http_callback_func, args_func, LuaArg, number, text, flag, redis, headers, net_msg,
  LuaCall, LuaMachine, LuaEngine, exec, execute_elem, execute_list, execute_lua, detail_text,
  db_args, execute_new_connect, execute_lost_connect, execute_db_result, execute_redis_result,
  execute_message, execute_string, execute_args_func, execute_http_func, dispatch,
}

module _ (B : ProtoBuffer) (F : Foreign B) where
  abbrev at_most_seven : List Text → LuaCall B F → List (LuaCall B F)
  at_most_seven args call = if leb (length args) 7 then call ∷ [] else []

  abbrev read_message : Text → NetMsg B × NetResult (Unit {0}) → List (LuaCall B F)
  read_message unique (m, failure _) = []
  read_message unique (m, success _) =
      record {
        func = bytes_of "global_dispatch_command";
        args = text unique ∷ text m.pack_name ∷ net_msg m ∷ [];
      }
      ∷ []

  -- The calls of the scripts that an element of the list asks for: one, or none.
  unfoldable pub calls_of : LuaElem B F → List (LuaCall B F)
  calls_of (message unique m) = read_message unique (read_head B (set_read_data B m))
  calls_of (db_result cookie ret err_msg m) =
      record {
        func = bytes_of "msg_db_result";
        args =
            if eq_ℤ ret (pos 0)
            then db_args B F cookie ret m
            else number (pos cookie) ∷ number ret ∷ text (detail_text B F err_msg) ∷ [];
      }
      ∷ []
  calls_of (redis_result cookie none) =
      record { func = bytes_of "msg_redis_result"; args = number (pos cookie) ∷ [] } ∷ []
  calls_of (redis_result cookie (some r)) =
      record { func = bytes_of "msg_redis_result"; args = number (pos cookie) ∷ redis r ∷ [] } ∷ []
  calls_of (new_connection cookie unique client_ip server_port websocket) =
      record {
        func = bytes_of "cmd_new_connection";
        args =
            number (pos cookie)
            ∷ text unique
            ∷ text client_ip
            ∷ number (pos server_port)
            ∷ flag websocket
            ∷ [];
      }
      ∷ []
  calls_of (lost_connection unique reason) =
      record { func = bytes_of "cmd_lost_connection"; args = text unique ∷ text reason ∷ [] } ∷ []
  calls_of (exec_string func_str) =
      record { func = bytes_of "RUN_STRING"; args = text func_str ∷ [] } ∷ []
  calls_of (args_func func args) = at_most_seven args (record { func = func; args = map text args })
  calls_of (http_callback_func method hs args) = at_most_seven args (record {
    func = bytes_of "http_server_msg_recv";
    args = text method ∷ headers hs ∷ map text args;
  })

  unfoldable pub all_calls : List (LuaElem B F) → List (LuaCall B F)
  unfolding calls_of
  all_calls [] = []
  all_calls (elem ∷ rest) = calls_of elem ++ all_calls rest

  module _ (M : LuaMachine B F) where
    open M use {Lua, exec_func}

    -- The state of the machine after a list of calls, and what they queue.
    unfoldable pub after_calls : List (LuaCall B F) → Lua → Lua
    after_calls [] lua = lua
    after_calls (call ∷ calls) lua = after_calls calls (exec_func call lua).0

    unfoldable pub queued_by : List (LuaCall B F) → Lua → List (LuaElem B F)
    queued_by [] lua = []
    queued_by (call ∷ calls) lua = (exec_func call lua).1 ++ queued_by calls (exec_func call lua).0

    abbrev performed : List (LuaCall B F) → LuaEngine B F M → LuaEngine B F M
    performed calls e = record {
      exec_list = e.exec_list ++ queued_by calls e.lua;
      lua = after_calls calls e.lua;
    }

    called : LuaCall B F → LuaEngine B F M → LuaEngine B F M
    called call e = record {
      exec_list = e.exec_list ++ (exec_func call e.lua).1;
      lua = (exec_func call e.lua).0;
    }

    performed-cons :
        (x : LuaCall B F) (xs : List (LuaCall B F)) (e : LuaEngine B F M)
        → performed xs (called x e) ≡ performed (x ∷ xs) e
    unfolding after_calls queued_by called
    performed-cons x xs e =
        ap (λ q. record { exec_list = q; lua = after_calls xs (exec_func x e.lua).0 })
          (append_assoc e.exec_list (exec_func x e.lua).1 (queued_by xs (exec_func x e.lua).0))

    performed-append :
        (xs ys : List (LuaCall B F)) (e : LuaEngine B F M)
        → performed (xs ++ ys) e ≡ performed ys (performed xs e)
    unfolding after_calls queued_by
    performed-append [] ys e =
        ap (λ q. performed ys (record e { exec_list = q })) (sym (append-nil e.exec_list))
    performed-append (x ∷ xs) ys e =
        sym (performed-cons x (xs ++ ys) e)
        ∙ performed-append xs ys (called x e)
        ∙ ap (performed ys) (performed-cons x xs e)

    none_performed : (e : LuaEngine B F M) → e ≡ performed [] e
    unfolding after_calls queued_by
    none_performed e = ap (λ q. record e { exec_list = q }) (sym (append-nil e.exec_list))

    one_performed :
        (func : Text) (args : List (LuaArg B F)) (e : LuaEngine B F M)
        → (exec B F M func args e).0 ≡ performed (record { func = func; args = args } ∷ []) e
    unfolding exec after_calls queued_by
    one_performed func args e =
        let (lua, queued, _) = exec_func (record { func = func; args = args }) e.lua in
        ap (λ q. record { exec_list = e.exec_list ++ q; lua = lua }) (sym (append-nil queued))

    message_performed :
        (unique : Text) (o : NetMsg B × NetResult (Unit {0})) (e : LuaEngine B F M)
        → (dispatch B F M unique o e).0 ≡ performed (read_message unique o) e
    message_performed unique (m, failure _) e = none_performed e
    message_performed unique (m, success _) e = one_performed _ _ e

    too_many :
        (a b c d k f g h : Text) (more : List Text) (call : LuaCall B F) (e : LuaEngine B F M)
        → e ≡ performed (at_most_seven (a ∷ b ∷ c ∷ d ∷ k ∷ f ∷ g ∷ h ∷ more) call) e
    too_many a b c d k f g h more call e =
        let over : leb (length (a ∷ b ∷ c ∷ d ∷ k ∷ f ∷ g ∷ h ∷ more)) 7 ≡ false = ground arith in
        none_performed e ∙ ap (λ b. performed (if b then call ∷ [] else []) e) (sym over)

    execute_elem_lem :
        (elem : LuaElem B F) (e : LuaEngine B F M)
        → (execute_elem B F M elem e).0 ≡ performed (calls_of elem) e
    unfolding execute_message execute_db_result execute_elem calls_of exec execute_new_connect
        execute_lost_connect execute_redis_result execute_string execute_args_func execute_http_func
        after_calls queued_by
    execute_elem_lem (message unique m) e =
        message_performed unique (read_head B (set_read_data B m)) e
    execute_elem_lem (db_result cookie ret err_msg m) e = elim (Bool-cases (eq_ℤ ret (pos 0))) [
      | inl zero_ ↦ (rw zero_ (one_performed _ _ e))
      | inr other ↦ (rw other (one_performed _ _ e))
    ]
    execute_elem_lem (redis_result cookie none) e = one_performed _ _ e
    execute_elem_lem (redis_result cookie (some r)) e = one_performed _ _ e
    execute_elem_lem (new_connection cookie unique client_ip server_port websocket) e =
        one_performed _ _ e
    execute_elem_lem (lost_connection unique reason) e = one_performed _ _ e
    execute_elem_lem (exec_string func_str) e = one_performed _ _ e
    execute_elem_lem (args_func func []) e = one_performed _ _ e
    execute_elem_lem (args_func func (a ∷ [])) e = one_performed _ _ e
    execute_elem_lem (args_func func (a ∷ b ∷ [])) e = one_performed _ _ e
    execute_elem_lem (args_func func (a ∷ b ∷ c ∷ [])) e = one_performed _ _ e
    execute_elem_lem (args_func func (a ∷ b ∷ c ∷ d ∷ [])) e = one_performed _ _ e
    execute_elem_lem (args_func func (a ∷ b ∷ c ∷ d ∷ k ∷ [])) e = one_performed _ _ e
    execute_elem_lem (args_func func (a ∷ b ∷ c ∷ d ∷ k ∷ f ∷ [])) e = one_performed _ _ e
    execute_elem_lem (args_func func (a ∷ b ∷ c ∷ d ∷ k ∷ f ∷ g ∷ [])) e = one_performed _ _ e
    execute_elem_lem (args_func func (a ∷ b ∷ c ∷ d ∷ k ∷ f ∷ g ∷ h ∷ more)) e =
        too_many a b c d k f g h more _ e
    execute_elem_lem (http_callback_func method hs []) e = one_performed _ _ e
    execute_elem_lem (http_callback_func method hs (a ∷ [])) e = one_performed _ _ e
    execute_elem_lem (http_callback_func method hs (a ∷ b ∷ [])) e = one_performed _ _ e
    execute_elem_lem (http_callback_func method hs (a ∷ b ∷ c ∷ [])) e = one_performed _ _ e
    execute_elem_lem (http_callback_func method hs (a ∷ b ∷ c ∷ d ∷ [])) e = one_performed _ _ e
    execute_elem_lem (http_callback_func method hs (a ∷ b ∷ c ∷ d ∷ k ∷ [])) e = one_performed _ _ e
    execute_elem_lem (http_callback_func method hs (a ∷ b ∷ c ∷ d ∷ k ∷ f ∷ [])) e =
        one_performed _ _ e
    execute_elem_lem (http_callback_func method hs (a ∷ b ∷ c ∷ d ∷ k ∷ f ∷ g ∷ [])) e =
        one_performed _ _ e
    execute_elem_lem (http_callback_func method hs (a ∷ b ∷ c ∷ d ∷ k ∷ f ∷ g ∷ h ∷ more)) e =
        too_many a b c d k f g h more _ e

    execute_list_lem :
        (elems : List (LuaElem B F)) (e : LuaEngine B F M)
        → execute_list B F M elems e ≡ performed (all_calls elems) e
    unfolding execute_list all_calls
    execute_list_lem [] e = none_performed e
    execute_list_lem (elem ∷ rest) e =
        execute_list_lem rest _
        ∙ ap (performed (all_calls rest)) (execute_elem_lem elem e)
        ∙ sym (performed-append (calls_of elem) (all_calls rest) e)

    -- A run makes the calls that the waiting elements ask for, in the order in which these were
    -- applied, and no other; what the calls queue, in their order, is what waits after it.
    pub execute_lua_lem :
        (e : LuaEngine B F M)
        → execute_lua B F M e ≡ record {
          exec_list = queued_by (all_calls e.exec_list) e.lua;
          lua = after_calls (all_calls e.exec_list) e.lua;
        }
    unfolding execute_lua
    execute_lua_lem e = execute_list_lem e.exec_list (record e { exec_list = [] })
