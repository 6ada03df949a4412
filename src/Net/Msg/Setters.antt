-- ===== src/Net/Msg/Setters.antt =====
-- The fields of the head of a message of src/net/net_msg.rs that are set before it is ended.
use tunm.Prelude.{ℕ}
use tunm.Net.Buffer.{ProtoBuffer}
use tunm.Net.Msg.{NetMsg}

module _ (B : ProtoBuffer) where
  unfoldable pub set_msg_type : ℕ → NetMsg B → NetMsg B
  set_msg_type msg_type m = record m { head = record m.head { msg_type = msg_type } }

  unfoldable pub set_msg_flag : ℕ → NetMsg B → NetMsg B
  set_msg_flag msg_flag m = record m { head = record m.head { msg_flag = msg_flag } }

  unfoldable pub set_from_svr_type : ℕ → NetMsg B → NetMsg B
  set_from_svr_type from_svr_type m = record m {
    head = record m.head { from_svr_type = from_svr_type };
  }

  unfoldable pub set_from_svr_id : ℕ → NetMsg B → NetMsg B
  set_from_svr_id from_svr_id m = record m { head = record m.head { from_svr_id = from_svr_id } }

  unfoldable pub set_real_fd : ℕ → NetMsg B → NetMsg B
  set_real_fd real_fd m = record m { head = record m.head { real_fd = real_fd } }

  unfoldable pub set_to_svr_type : ℕ → NetMsg B → NetMsg B
  set_to_svr_type to_svr_type m = record m { head = record m.head { to_svr_type = to_svr_type } }

  unfoldable pub set_to_svr_id : ℕ → NetMsg B → NetMsg B
  set_to_svr_id to_svr_id m = record m { head = record m.head { to_svr_id = to_svr_id } }
