-- ===== src/Examples/Messages.antt =====
-- Examples of the messages of the control protocol and of the UDP handshake.
use riperf.Base.{
  ℕ, ◌≡◌, ◌↔◌, ◌≤◌, refl, true, false, List, [], ◌∷◌, ◌++◌, map, none, some, pos, negsuc, Bytes,
  codes, word32, get_or, length, arith, Option,
}
use riperf.Base.Float.{whole}
use riperf.Errors.Runtime.{connection_refused}
use riperf.Protocol.State.{TestState}
use riperf.Protocol.Params.{default_params}
use riperf.Protocol.Framing.{Connection, data_in, value}
use riperf.Protocol.Framing.Segments.{content}
use riperf.Protocol.JsonText.{json_first_value, normalize_cjson_whitespace, strip_bom}
use riperf.Protocol.JsonText.Pieces.{
  Piece, outside, text, plain, escape, written, blanked, normalize_cjson_whitespace-written,
}
use riperf.Protocol.Messages.{
  send_server_error_errno, recv_state, state, read_server_error_payload, send_params, recv_params,
  send_results, recv_test_results,
}
use riperf.Protocol.Messages.Results.{
  half_omitted, TestResults, StreamResult, valid, resolve_peer_omitted, de_retransmit_sentinel,
  visit_u64,
}
use riperf.Protocol.Messages.RoundTrip.{
  IsText, read_server_error_payload-send_server_error_errno, recv_params-send_params,
  recv_test_results-send_results,
}
use riperf.Protocol.UdpConnect.{
  transient_udp_handshake_error, Pass, datagram, socket_error, connected, udp_connect_client,
  udp_connect_total_timeout,
}
use riperf.Protocol.UdpConnect.Resends.{udp_connect_client_resends}
use riperf.Protocol.UdpConnect.Answered.{answered, udp_connect_client-answered}

-- {<0x0b>"<0x0b>\""}: the first control byte is outside of the string
abbrev pieces : List Piece
pieces = outside b'{' ∷ outside 0x0b ∷ text (plain 0x0b ∷ escape b'"' ∷ []) ∷ outside b'}' ∷ []

normalize_cjson_whitespace-written_example :
    normalize_cjson_whitespace (written pieces) ≡ written (map blanked pieces)
normalize_cjson_whitespace-written_example =
    normalize_cjson_whitespace-written pieces (refl, (refl, (((refl, refl), (tt, tt)), (refl, tt))))

one_blank :
    normalize_cjson_whitespace (b'{' ∷ 0x0b ∷ b'"' ∷ 0x0b ∷ b'"' ∷ b'}' ∷ [])
    ≡ b'{' ∷ b' ' ∷ b'"' ∷ 0x0b ∷ b'"' ∷ b'}' ∷ []
unfolding normalize_cjson_whitespace
one_blank = refl

bom_stripped : strip_bom (0xEF ∷ 0xBB ∷ 0xBF ∷ b'1' ∷ []) ≡ b'1' ∷ []
unfolding strip_bom
bom_stripped = refl

unavailable : de_retransmit_sentinel (visit_u64 18446744073709551615) ≡ negsuc 0
unfolding de_retransmit_sentinel
unavailable = refl

-- The state byte and a part of the payload, then the rest with a byte behind it.
abbrev relayed : Connection
relayed = data_in (254 ∷ 0 ∷ 0 ∷ []) ∷ data_in (0 ∷ 27 ∷ 0 ∷ 0 ∷ 0 ∷ 104 ∷ 9 ∷ []) ∷ []

relayed_bytes : content relayed ≡ send_server_error_errno 27 104 ++ 9 ∷ []
unfolding send_server_error_errno
relayed_bytes = refl

read_server_error_payload-send_server_error_errno_example :
    (c1 : Connection) × (c2 : Connection) × (recv_state relayed
      ≡ (state TestState.server_error, c1))
    × (read_server_error_payload c1 ≡ (some (27, 104), c2))
    × (content c2 ≡ 9 ∷ [])
read_server_error_payload-send_server_error_errno_example =
    read_server_error_payload-send_server_error_errno 27 104 (9 ∷ []) relayed (omega arith)
      (omega arith) (ground arith, (ground arith, tt)) relayed_bytes

-- A JSON value is its text.
abbrev object : Bytes
object = codes "{}"

abbrev next_value : Bytes → Option (Option Bytes)
next_value b = some (some b)

object-IsText : IsText Bytes next_value (λ b. some b) some object object
unfolding strip_bom
object-IsText = record {
  printed = refl;
  some_bytes = omega arith;
  fits = omega arith;
  clean = refl;
  unmarked = refl;
  parsed = refl;
}

abbrev arriving : Connection
arriving = data_in (0 ∷ 0 ∷ 0 ∷ 2 ∷ b'{' ∷ []) ∷ data_in (b'}' ∷ 9 ∷ []) ∷ []

params_sent :
    send_params Bytes some (λ p. some object) default_params ≡ some (0 ∷ 0 ∷ 0 ∷ 2 ∷ object)
unfolding send_params
params_sent = refl

recv_params-send_params_example :
    (c : Connection) × (recv_params Bytes
        (json_first_value Bytes next_value (λ b. some b))
        (λ b. true)
        (λ b. some default_params)
        arriving
      ≡ (value default_params, c))
    × (content c ≡ 9 ∷ [])
recv_params-send_params_example =
    recv_params-send_params Bytes next_value (λ b. some b) some (λ p. some object) (λ b. true)
      (λ b. some default_params) default_params object object (0 ∷ 0 ∷ 0 ∷ 2 ∷ object) (9 ∷ [])
      arriving refl refl refl object-IsText (omega arith) params_sent
      (ground arith, (ground arith, tt)) refl

abbrev stream : StreamResult whole
stream = record {
  id = pos 1;
  bytes = 1000;
  retransmits = pos 0;
  jitter = pos 0;
  errors = pos 3;
  omitted_errors = some (pos 1);
  packets = pos 10;
  omitted_packets = some (pos 2);
  start_time = pos 0;
  end_time = pos 10;
}

abbrev two_halves : TestResults whole Bytes
two_halves = record {
  cpu_util_total = pos 1;
  cpu_util_user = pos 1;
  cpu_util_system = pos 0;
  sender_has_retransmits = pos 1;
  congestion_used = none;
  server_output_text = none;
  server_output_json = none;
  streams = stream ∷ record stream { omitted_errors = none; omitted_packets = none } ∷ [];
}

old_peer : resolve_peer_omitted (record stream { omitted_errors = none }) (pos 5) ≡ (pos 0, pos 5)
unfolding resolve_peer_omitted
old_peer = refl

results_sent : send_results Bytes some (λ r. some object) two_halves ≡ some (0 ∷ 0 ∷ 0 ∷ 2 ∷ object)
unfolding send_results
results_sent = refl

both_counts : half_omitted two_halves.streams ≡ false
unfolding half_omitted
both_counts = refl

recv_test_results-send_results_example :
    (c : Connection) × (recv_test_results Bytes
        (json_first_value Bytes next_value (λ b. some b))
        (λ b. some two_halves)
        arriving
      ≡ (valid two_halves, c))
    × (content c ≡ 9 ∷ [])
recv_test_results-send_results_example =
    recv_test_results-send_results Bytes next_value (λ b. some b) some (λ r. some object)
      (λ b. some two_halves) two_halves object object (0 ∷ 0 ∷ 0 ∷ 2 ∷ object) (9 ∷ []) arriving
      refl refl both_counts object-IsText results_sent (ground arith, (ground arith, tt)) refl

abbrev little_endian : Bytes → ℕ
little_endian b = word32 (get_or b 3 0) (get_or b 2 0) (get_or b 1 0) (get_or b 0 0)

-- The first datagram bounces, a stray one comes, and then the reply, behind a second send.
abbrev passes : List Pass
passes =
    record {
      checked = 0;
      due = 1;
      sent = none;
      sent_at = 2;
      heard = socket_error (record { kind = connection_refused; text = [] });
    }
    ∷ record { checked = 10; due = 11; sent = none; sent_at = 11; heard = datagram (1 ∷ 2 ∷ []) }
    ∷ record {
      checked = 600000000;
      due = 600000001;
      sent = none;
      sent_at = 600000002;
      heard = datagram (0x36 ∷ 0x37 ∷ 0x38 ∷ 0x39 ∷ []);
    }
    ∷ []

connects : udp_connect_client little_endian 0 0 passes ≡ (connected, 1 ∷ 600000001 ∷ [])
unfolding udp_connect_client
connects = refl

udp_connect_client_resends_example : length (udp_connect_client little_endian 0 0 passes).1 ≤ 61
udp_connect_client_resends_example =
    udp_connect_client_resends little_endian 0 0 passes (omega arith) (omega arith)

udp_connect_client-answered_example :
    ((udp_connect_client little_endian 0 0 passes).0 ≡ connected)
    ↔ (answered little_endian udp_connect_total_timeout passes ≡ true)
unfolding transient_udp_handshake_error
udp_connect_client-answered_example =
    udp_connect_client-answered little_endian 0 0 passes (omega arith)
      (tt, refl, (tt, tt, (tt, tt, tt)))
