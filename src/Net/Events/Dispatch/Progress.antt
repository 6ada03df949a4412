-- ===== src/Net/Events/Dispatch/Progress.antt =====
-- That `try_dispatch_message` of src/mgr/mio_event_mgr.rs ends, whatever bytes have arrived.
use tunm.Prelude.{ℕ, ◌+◌, ◌≡◌, Option, some, none, List, length}
use tunm.Prelude.Maps as Maps
use tunm.Prelude.Maps.{text_eq}
use tunm.Net.Buffer.{ProtoBuffer, BufferLaws}
use tunm.Lua.Engine.{Foreign}

module _ (B : ProtoBuffer) (laws : BufferLaws B) where
  open B use {Buffer, val, get_rpos, get_wpos, set_rpos, len, decode_number, drain_collect}

  -- A buffer that is read from its start and written at its end.
  pub record IsSound (b : Buffer) : Type 0 where
    pub rpos : get_rpos b ≡ 0
    pub wpos : get_wpos b ≡ length (val b)

  -- What is taken from the buffer is missing in it.
  abbrev Taken : ℕ → Buffer × Option (List ℕ) → Type 0
  Taken size (b, none) = Unit
  Taken size (b, some bytes) = IsSound b × (length (val b) + length bytes ≡ size)

  module _ (F : Foreign B) where
    abbrev Ends {ℓ} : {A : Type ℓ} → A → Type 0
    Ends a = Unit
