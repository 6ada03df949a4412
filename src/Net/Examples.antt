-- ===== src/Net/Examples.antt =====
-- The network modules on concrete messages.
pub mod Sockets
use tunm.Prelude.{ℕ, ◌+◌, ◌≤◌, ◌≡◌, refl, true, none, List, [], ◌∷◌, bytes_of, length, drop, arith}
use tunm.Prelude.Maps.{string_eq}
use tunm.Net.Values.{success, failure, NetError, extension, eq, make_extension_error}
use tunm.Net.Sample.{sample, sample_laws, Bytes}
use tunm.Net.Msg.{
  Head, plain_head, NetMsg, end_msg, encode_head, detail, new_by_detail, new_by_data, read_head,
}
use tunm.Net.Msg.Laws.{head_bytes, InRange}
use tunm.Net.Msg.RoundTrip.{IsMessage, end_msg-new_by_data}
use tunm.Net.Msg.Detail.{body, detail-IsMessage, new_by_detail-new_by_data}
use tunm.Net.Msg.Fields.{read_head_lem}

abbrev pub hi : List ℕ
hi = bytes_of "hi"

abbrev payload : List ℕ
payload = 1 ∷ 2 ∷ []

-- A message named "hi" of type 1.
abbrev pub hi_msg : NetMsg sample
hi_msg = detail sample 1 hi payload

pub hi_msg-IsMessage : IsMessage sample sample_laws hi hi_msg
hi_msg-IsMessage =
    detail-IsMessage sample sample_laws 1 hi payload (omega arith) (omega arith) (omega arith)

abbrev pub hi_bytes : List ℕ
hi_bytes = sample.val (end_msg sample hi_msg).buffer

-- 26 bytes of head, the name behind its length, and the payload behind its own.
hi_bytes_are :
    hi_bytes
    ≡ 34 ∷ 0 ∷ 0 ∷ 0 ∷ 0 ∷ 0 ∷ 0 ∷ 0 ∷ 1 ∷ 0 ∷ 0 ∷ 0 ∷ 0 ∷ 0 ∷ 0 ∷ 0 ∷ 0 ∷ 0 ∷ 0 ∷ 0 ∷ 0 ∷ 0 ∷ 0 ∷ 0
      ∷ 0 ∷ 0 ∷ 2 ∷ 0 ∷ 104 ∷ 105 ∷ 2 ∷ 0 ∷ 1 ∷ 2 ∷ []
unfolding end_msg detail encode_head
hi_bytes_are = refl

abbrev hi_parsed : NetMsg sample
hi_parsed = record {
  buffer = sample.set_rpos 26 (sample.write hi_bytes sample.new);
  head = record hi_msg.head { len = length (sample.val hi_msg.buffer) };
  pack_name = hi;
}

end_msg-new_by_data_example : new_by_data sample hi_bytes ≡ success hi_parsed
end_msg-new_by_data_example = end_msg-new_by_data sample sample_laws hi hi_msg hi_msg-IsMessage

abbrev sent_hi : List ℕ
sent_hi = sample.get_write_data (sample.set_rpos 0 (new_by_detail sample 1 hi payload).buffer)

new_by_detail-new_by_data_example :
    (m : NetMsg sample) × (new_by_data sample sent_hi ≡ success m)
    × (m.head ≡ plain_head (28 + 4 + 2) 1)
    × (m.pack_name ≡ hi)
    × (sample.get_rpos m.buffer ≡ 26)
    × (drop 26 (sample.val m.buffer) ≡ body sample sample_laws hi payload)
new_by_detail-new_by_data_example =
    new_by_detail-new_by_data sample sample_laws 1 hi payload (omega arith) (omega arith)
      (omega arith)

-- A head with every field set.
abbrev full_head : Head
full_head = record {
  len = 30;
  cookie = 7;
  msg_type = 1;
  msg_flag = 2;
  from_svr_type = 3;
  from_svr_id = 4;
  to_svr_type = 5;
  to_svr_id = 6;
  real_fd = 8;
}

full_head-InRange : InRange full_head
full_head-InRange = record {
  len = omega arith;
  cookie = omega arith;
  msg_type = omega arith;
  msg_flag = omega arith;
  from_svr_type = omega arith;
  from_svr_id = omega arith;
  to_svr_type = omega arith;
  to_svr_id = omega arith;
  real_fd = omega arith;
}

abbrev full_msg : NetMsg sample
full_msg = record {
  buffer = record {
    val = head_bytes sample sample_laws full_head (2 ∷ 0 ∷ 104 ∷ 105 ∷ []);
    rpos = 0;
    wpos = 30;
  };
  head = plain_head 0 0;
  pack_name = [];
}

-- The server's id 4 of the bytes is not read.
read_head_lem_example : read_head sample full_msg ≡ (
  record { buffer = full_msg.buffer; head = record full_head { from_svr_id = 0 }; pack_name = hi },
  success tt,
)
read_head_lem_example =
    read_head_lem sample sample_laws full_head hi [] full_msg full_head-InRange (omega arith) refl

-- Bytes that are too few.
too_small : new_by_data sample (1 ∷ []) ≡ failure (make_extension_error "data len too small" none)
unfolding new_by_data
too_small = refl

abbrev missing_a : NetError
missing_a = extension "missing" "a"

abbrev missing_b : NetError
missing_b = extension "missing" "b"

eq_missing : eq missing_a missing_b ≡ true
unfolding eq
eq_missing = (string_eq.beq_iff "missing" "missing").1 refl
