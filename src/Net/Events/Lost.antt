-- ===== src/Net/Events/Lost.antt =====
-- How often the scripts are told that a socket of src/mgr/mio_event_mgr.rs or src/mgr/websocket_mgr.rs is lost.
use tunm.Prelude.{
  ℕ, ◌+◌, ◌≡◌, ◌≢◌, refl, sym, subst, ap, ◌∙◌, Bool, true, false, not, ◌&&◌, ◌||◌, Option, some,
  none, List, [], ◌∷◌, ◌++◌, bytes_of, bytes_eq, bytes_eq_refl, if◌then◌else◌, arith,
}
use tunm.Prelude.Maps as Maps
use tunm.Prelude.Maps.{text_eq, is_some}
use tunm.Net.Buffer.{ProtoBuffer}
use tunm.Net.Socket.{SocketEvent}
use tunm.Lua.Engine.{Text, Foreign, LuaElem, lost_connection}
use tunm.Net.Events.{
  TimerStep, World, apply_lost_connect, kick_timer, kicked_by, kicked, kick_on, add_kick_event,
  on_close, closed_on, ws_close_on, ws_close_fd, server_close, log, kick_text,
}
use tunm.Net.Events.Close.{close_fd, close_by, close_on, removed}

module _ (B : ProtoBuffer) (F : Foreign B) where
  abbrev one_if : Bool → ℕ
  one_if true = 1
  one_if false = 0

  abbrev lost_by : Text → LuaElem B F → ℕ
  lost_by unique (lost_connection u _) = one_if (bytes_eq u unique)
  lost_by unique _ = 0

  abbrev lost_in : Text → List (LuaElem B F) → ℕ
  lost_in unique [] = 0
  lost_in unique (e ∷ es) = lost_by unique e + lost_in unique es

  abbrev kick_by : Text → TimerStep → ℕ
  kick_by unique t =
      one_if
        (bytes_eq t.handle.timer_name (bytes_of "KICK_SOCKET") && bytes_eq t.handle.unique unique)

  abbrev kicks_in : Text → List TimerStep → ℕ
  kicks_in unique [] = 0
  kicks_in unique (t ∷ ts) = kick_by unique t + kicks_in unique ts

  -- How often the scripts are told, or will be by a timer, that the socket of a name is lost.
  abbrev pub told : Text → World B F → ℕ
  told unique w = lost_in unique w.exec_list + kicks_in unique w.timers

  lost_in-push :
      (unique : Text) (e : LuaElem B F) (es : List (LuaElem B F))
      → lost_in unique (es ++ e ∷ []) ≡ lost_in unique es + lost_by unique e
  lost_in-push unique e [] = omega arith
  lost_in-push unique e (x ∷ es) = omega (arith, lost_in-push unique e es)

  kicks_in-push :
      (unique : Text) (t : TimerStep) (ts : List TimerStep)
      → kicks_in unique (ts ++ t ∷ []) ≡ kicks_in unique ts + kick_by unique t
  kicks_in-push unique t [] = omega arith
  kicks_in-push unique t (x ∷ ts) = omega (arith, kicks_in-push unique t ts)

  same_name : (unique : Text) → one_if (bytes_eq unique unique) ≡ 1
  same_name unique = ap one_if (bytes_eq_refl unique)

  pub apply_lost_connect-told :
      (unique reason : Text) (w : World B F)
      → told unique (apply_lost_connect B F unique reason w) ≡ told unique w + 1
  unfolding apply_lost_connect
  apply_lost_connect-told unique reason w =
      omega
        (arith, lost_in-push unique (lost_connection unique reason) w.exec_list, same_name unique)

  kicked-told :
      (unique : Text) (w : World B F) (later : Bool)
      → told unique (kicked_by B F unique w later) ≡ told unique w + 1
  kicked-told unique w true =
      let name : bytes_eq (bytes_of "KICK_SOCKET") (bytes_of "KICK_SOCKET") ≡ true = refl in
      omega (arith, kicks_in-push unique (kick_timer B F unique) w.timers, same_name unique)
  kicked-told unique w false = omega (
    arith,
    lost_in-push unique (lost_connection unique server_close) w.exec_list,
    same_name unique,
  )

  kicked-connect_ids :
      (unique : Text) (w : World B F) (later : Bool)
      → (kicked_by B F unique w later).connect_ids ≡ w.connect_ids
  kicked-connect_ids unique w true = refl
  kicked-connect_ids unique w false = refl

  -- Kicking a socket removes it and leaves all others, and the scripts are told of it once more, at once
  -- or by a timer; a name without a socket is not told of.
  pub add_kick_event-told :
      (unique other reason : Text) (w : World B F)
      → let w' = add_kick_event B F unique reason w in
        (Maps.get unique w'.connect_ids ≡ none)
        × (unique ≢ other → Maps.get other w'.connect_ids ≡ Maps.get other w.connect_ids)
        × (told unique w'
            ≡ told unique w + (if Maps.contains_key unique w.connect_ids then 1 else 0))
  unfolding add_kick_event kicked Maps.contains_key
  add_kick_event-told unique other reason w = kick_on-told (Maps.get unique w.connect_ids) refl
    where
      logged : World B F
      logged = log B F (kick_text B F unique reason) w

      kick_on-told :
          (o : Option (SocketEvent B))
          → Maps.get unique w.connect_ids ≡ o
          → let w' = kick_on B F unique logged o in
            (Maps.get unique w'.connect_ids ≡ none)
            × (unique ≢ other → Maps.get other w'.connect_ids ≡ Maps.get other w.connect_ids)
            × (told unique w' ≡ told unique w + (if is_some o then 1 else 0))
      kick_on-told none e = (e, λ _. refl, omega arith)
      kick_on-told (some ev) e =
          let kept : World B F = record logged { connect_ids = Maps.remove unique w.connect_ids } in
          let later = not ev.websocket || not ev.mio in
          let ids = kicked-connect_ids unique kept later in
          (
            ap (Maps.get unique) ids ∙ Maps.get-remove_self unique w.connect_ids,
            λ ne. ap (Maps.get other) ids ∙ Maps.get-remove_ne unique other w.connect_ids ne,
            kicked-told unique kept later,
          )

  -- Closing a websocket's connection leaves the sockets and what the scripts are told of.
  ws_close_fd-keeps :
      (unique : Text) (w : World B F)
      → let w' = (ws_close_fd B F unique w).0 in
        (w'.connect_ids ≡ w.connect_ids) × (told unique w' ≡ told unique w)
  unfolding ws_close_fd
  ws_close_fd-keeps unique w = keeps (Maps.get unique w.senders)
    where
      keeps :
          (o : Option ℕ)
          → let w' = (ws_close_on B F unique w o).0 in
            (w'.connect_ids ≡ w.connect_ids) × (told unique w' ≡ told unique w)
      keeps none = (refl, refl)
      keeps (some sender) = (refl, refl)

  close_by-told :
      (unique reason : Text) (w : World B F) (websocket : Bool)
      → let w' = (close_by B F unique reason w websocket).0 in
        (w'.connect_ids ≡ w.connect_ids)
        × (told unique w' ≡ told unique w + (if websocket then 0 else 1))
  unfolding apply_lost_connect
  close_by-told unique reason w true =
      let (ids, same) = ws_close_fd-keeps unique w in (ids, omega (arith, same))
  close_by-told unique reason w false = (
    refl,
    omega
        (arith, lost_in-push unique (lost_connection unique reason) w.exec_list, same_name unique),
  )

  -- Closing a socket that is stored under its own name removes it; the scripts are told of it once more
  -- if it is a plain socket, and not if it is a websocket.
  pub close_fd-told :
      (unique reason : Text) (ev : SocketEvent B) (w : World B F)
      → Maps.get unique w.connect_ids ≡ some ev
      → ev.unique ≡ unique
      → let w' = (close_fd B F unique reason w).0 in
        (Maps.get unique w'.connect_ids ≡ none)
        × (told unique w' ≡ told unique w + (if ev.websocket then 0 else 1))
  unfolding close_fd
  close_fd-told unique reason ev w found same =
      let (ids, count) = close_by-told ev.unique reason (removed B F ev w) ev.websocket in
      let after_ : World B F = (close_by B F ev.unique reason (removed B F ev w) ev.websocket).0 in
      let Closed : World B F → Type 0 = λ w'.
        (Maps.get unique w'.connect_ids ≡ none)
        × (told unique w' ≡ told unique w + (if ev.websocket then 0 else 1)) in
      subst (λ o. Closed (close_on B F reason w o).0) (sym found)
        (
          ap (Maps.get unique) ids
              ∙ ap (λ u. Maps.get unique (Maps.remove u w.connect_ids)) same
              ∙ Maps.get-remove_self unique w.connect_ids,
          subst (λ u. told u after_ ≡ told u w + (if ev.websocket then 0 else 1)) same count,
        )

  -- After a script has closed a websocket, the end of that connection does not tell the scripts either:
  -- the socket is gone, and they are told of it no more often than before.
  pub close_fd-on_close :
      (unique reason why : Text) (sender : ℕ) (ev : SocketEvent B) (w : World B F)
      → Maps.get unique w.connect_ids ≡ some ev
      → ev.unique ≡ unique
      → ev.websocket ≡ true
      → let w' = on_close B F unique sender why (close_fd B F unique reason w).0 in
        (Maps.get unique w'.connect_ids ≡ none) × (told unique w' ≡ told unique w)
  unfolding on_close Maps.contains_key
  close_fd-on_close unique reason why sender ev w found same web =
      let (gone, count) = close_fd-told unique reason ev w found same in
      let unchanged : told unique w1 ≡ told unique w =
        count ∙ ap (λ t. told unique w + (if t then 0 else 1)) web ∙ omega arith in
      closed (Maps.get unique w1.senders) gone unchanged
    where
      w1 : World B F
      w1 = (close_fd B F unique reason w).0

      closed :
          (o : Option ℕ)
          → Maps.get unique w1.connect_ids ≡ none
          → told unique w1 ≡ told unique w
          → let w' = closed_on B F unique sender why w1 o in
            (Maps.get unique w'.connect_ids ≡ none) × (told unique w' ≡ told unique w)
      closed none gone same_told = (gone, same_told)
      closed (some _) gone same_told =
          let w2 : World B F = record w1 { senders = Maps.remove unique w1.senders } in
          let (gone', _, count) = add_kick_event-told unique unique why w2 in
          (
            gone',
            count
                ∙ ap (λ o. told unique w1 + (if is_some o then 1 else 0)) gone
                ∙ omega (arith, same_told),
          )
