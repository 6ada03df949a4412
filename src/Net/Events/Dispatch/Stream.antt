-- ===== src/Net/Events/Dispatch/Stream.antt =====
-- Messages that arrive one after another at a socket of src/mgr/mio_event_mgr.rs.
use tunm.Prelude.{ℕ, List, [], ◌∷◌, ◌++◌}
use tunm.Prelude.Maps as Maps
use tunm.Prelude.Maps.{text_eq}
use tunm.Net.Buffer.{ProtoBuffer, BufferLaws}
use tunm.Net.Msg.{NetMsg}
use tunm.Lua.Engine.{Text, Foreign, LuaElem, message}
use tunm.Net.Events.Dispatch.Framing.{Frame}

module _ (B : ProtoBuffer) (laws : BufferLaws B) (F : Foreign B) where
  open B use {Buffer, new, val, get_rpos, get_wpos, set_rpos, write, len}

  -- The bytes of some messages and of what follows them.
  unfoldable pub stream : List (Frame B laws) → List ℕ → List ℕ
  stream [] tail = tail
  stream (f ∷ fs) tail = f.bytes ++ stream fs tail

  -- The message that a frame is parsed to.
  abbrev pub parsed : Frame B laws → NetMsg B
  parsed f = record { buffer = set_rpos 26 (write f.bytes new); head = f.head; pack_name = f.name }

  unfoldable pub messages : Text → List (Frame B laws) → List (LuaElem B F)
  messages unique [] = []
  messages unique (f ∷ fs) = message unique (parsed f) ∷ messages unique fs
