-- ===== src/Net/Events/Dispatch/Pieces.antt =====
-- Messages that arrive in pieces of any size at a socket of src/mgr/mio_event_mgr.rs.
use tunm.Prelude.{ℕ, ◌≡◌, List, [], ◌∷◌, ◌++◌, Outcome, ok, ◌>>=◌}
use tunm.Prelude.Maps as Maps
use tunm.Prelude.Maps.{text_eq}
use tunm.Net.Buffer.{ProtoBuffer, BufferLaws}
use tunm.Net.Events.{World}
use tunm.Lua.Engine.{Text, Foreign}
use tunm.Net.Events.Dispatch.{data_recieved}
use tunm.Net.Events.Dispatch.Framing.{IsPartial, Frame}
use tunm.Net.Events.Dispatch.Stream.{stream}

module _ (B : ProtoBuffer) (laws : BufferLaws B) where
  open laws use {number_bytes}

  module _ (F : Foreign B) where
    -- A beginning of the stream holds some of the messages and the beginning of the next.
    record Cut (fs : List (Frame B laws)) (tail x y : List ℕ) : Type 0 where
      pub before : List (Frame B laws)
      pub behind : List (Frame B laws)
      pub rest : List ℕ
      pub all : fs ≡ before ++ behind
      pub first : x ≡ stream B laws F before rest
      pub partial : IsPartial B laws rest
      pub second : rest ++ y ≡ stream B laws F behind tail

    -- The pieces arrive one after another.
    unfoldable pub receive_all : Text → List (List ℕ) → World B F → Outcome (World B F)
    receive_all unique [] w = ok w
    receive_all unique (piece ∷ pieces) w =
        data_recieved B F unique piece w >>= receive_all unique pieces
