-- ===== src/Net/Examples/Sockets/Peers.antt =====
-- Concrete names of sockets, and messages between two servers.
use tunm.Prelude.{◌≡◌, refl, false, bytes_of, arith}
use tunm.Prelude.Maps as Maps
use tunm.Prelude.Decimal.{parse_usize, parse_digits, push_digit}
use tunm.Prelude.Maps.{text_eq}
use tunm.Net.Sample.{sample, sample_laws}
use tunm.Net.Events.Peers.{Delivered, send_message-Delivered}
use tunm.Net.Socket.{token_to_unique}
use tunm.Net.Socket.Names.{unique_to_token, unique_to_token-token_to_unique}
use tunm.Net.Examples.{hi, hi_msg, hi_msg-IsMessage}
use tunm.Net.Examples.Sockets.{foreign, name, half, with_socket, web}

unique_to_token-token_to_unique_example : unique_to_token (token_to_unique 4096) ≡ 4096
unique_to_token-token_to_unique_example = unique_to_token-token_to_unique 4096 (omega arith)

-- A name that is too short, one without a number and one with too great a number lead to 0.
no_token :
    (unique_to_token (bytes_of "NM") ≡ 0)
    × (unique_to_token (bytes_of "NM:x") ≡ 0)
    × (unique_to_token (bytes_of "NM:18446744073709551616") ≡ 0)
    × (unique_to_token (bytes_of "NM:18446744073709551615") ≡ 18446744073709551615)
unfolding unique_to_token parse_usize parse_digits push_digit
no_token = (refl, refl, refl, refl)

send_message-Delivered_example :
    Delivered sample sample_laws foreign hi hi_msg false name 3
      (with_socket web)
      hi
      4
      (with_socket half)
unfolding Maps.get
send_message-Delivered_example =
    send_message-Delivered sample sample_laws foreign hi hi_msg false name 3 (with_socket web) hi 4
      (with_socket half) hi_msg-IsMessage refl
