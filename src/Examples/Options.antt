-- ===== src/Examples/Options.antt =====
-- Examples of the command line: numbers with a unit, and a client built from options.
use riperf.Base.{
  ◌∷◌, arith, map_opt, Bytes, Option, ℤ, ◌+ℤ◌, ◌*ℤ◌, ◌≡◌, refl, false, true, none, some, pos,
  negsuc, codes, ◌++◌, ◌^◌, ◌-ℤ◌, ◌≤◌, ◌+◌, is_some, pos_part,
}
use riperf.Base.Decimal.{parse_unsigned}
use riperf.Errors.{ok, err, invalid_value}
use riperf.Utils.Suffixed.Keepalive.{part_text, parse_keepalive-part_text}
use riperf.Utils.Suffixed.{parse_kmg, parse_rate, parse_bitrate, parse_keepalive}
use riperf.Base.Float.{whole}
use riperf.Base.Decimal.{show_ℕ}
use riperf.Client.Types.{Client, ClientBuilder, default_builder}
use riperf.Client.Builder.{assemble}
use riperf.Client.Valid.{Valid}
use riperf.Cli.{atoi_like_bytes, debug_level_like_os}
use riperf.Server.Builder.{BuiltServer, default_server, installed}
use riperf.Cli.BuildServer.{build_server}
use riperf.Cli.Double.{Double, unit_suffix_scaled, unit_atoi_like_bytes, c_double_to_u64}
use riperf.Cli.Double.Units.{kilo, minus, unit_suffix_scaled-show_ℕ}
use riperf.Cli.Options.{
  Cli, first_client_only_violation, first_server_only_violation, end_conditions_conflict,
}
use riperf.Cli.Parsed.{done}
use riperf.Cli.BuildClient.{build_client}
use riperf.Cli.BuildClient.OneEnd.{given, build_client_one_end}
use riperf.Examples.Setup.{linux}

abbrev doubles : Double whole
unfolding atoi_like_bytes
doubles = record {
  parse = λ text. atoi_like_bytes text;
  powi = λ b e. pos (pos_part b ^ pos_part e);
  neg = λ v. pos 0 -ℤ v;
  infinity = pos (2 ^ 64);
  nan = pos 0;
  is_nan = λ v. false;
  to_i64 = λ v. v;
  to_i32 = λ v. v;
}

-- `riperf3 -c host -n 10K -i 1`
abbrev options : Cli whole
options = record {
  client = some (codes "host");
  port = none;
  format = none;
  interval = some (pos 1);
  verbose = false;
  json = false;
  forceflush = false;
  timestamps = none;
  one_off = false;
  daemon = false;
  idle_timeout = none;
  server_bitrate_limit = none;
  server_max_duration = none;
  udp = false;
  time = none;
  bytes = some (codes "10K");
  blockcount = none;
  length = none;
  parallel = none;
  reverse = false;
  bidir = false;
  window = none;
  congestion = none;
  mss = none;
  no_delay = false;
  bitrate = none;
  tos = none;
  omit = none;
  title = none;
  extra_data = none;
  connect_timeout = none;
  get_server_output = false;
  udp_counters_64bit = false;
  repeating_payload = false;
  dont_fragment = false;
  cport = none;
  pacing_timer = none;
  version4 = false;
  version6 = false;
  bind = none;
  bind_dev = none;
  fq_rate = none;
  flowlabel = none;
  dscp = none;
  mptcp = false;
  zerocopy = false;
  skip_rx_copy = false;
  rcv_timeout = none;
  snd_timeout = none;
  file = none;
  affinity = none;
  json_stream = false;
  json_stream_full_output = false;
  gsro = false;
  sendmmsg = false;
  cntl_ka = none;
  username = none;
  rsa_public_key_path = none;
  rsa_private_key_path = none;
  authorized_users_path = none;
  time_skew_threshold = none;
  use_pkcs1_padding = false;
}

hexadecimal : unit_atoi_like_bytes doubles (codes "0x10") ≡ some (pos 16)
unfolding unit_atoi_like_bytes ◌+ℤ◌ ◌*ℤ◌
hexadecimal = refl

no_exponent : unit_atoi_like_bytes doubles (codes "1e") ≡ none
unfolding unit_atoi_like_bytes
no_exponent = refl

negative_wraps : c_double_to_u64 doubles (negsuc 4) ≡ 18446744073709551611
unfolding c_double_to_u64 doubles
negative_wraps = refl

client_only : first_client_only_violation options ≡ some (codes "-n/--bytes")
unfolding first_client_only_violation
client_only = refl

not_server_only : first_server_only_violation options ≡ none
unfolding first_server_only_violation
not_server_only = refl

two_ends : end_conditions_conflict doubles (record options { time = some (pos 10) }) ≡ true
unfolding end_conditions_conflict unit_atoi_like_bytes c_double_to_u64 doubles ◌*ℤ◌
two_ends = refl

unit_suffix_scaled-show_ℕ_example :
    unit_suffix_scaled doubles (pos 1024) (codes " " ++ (codes "-" ++ (show_ℕ 10 ++ codes "Kx")))
    ≡ some (negsuc 10239)
unfolding atoi_like_bytes show_ℕ doubles ◌*ℤ◌
unit_suffix_scaled-show_ℕ_example =
    unit_suffix_scaled-show_ℕ doubles (pos 1024) (codes " ") minus 10 (kilo true (codes "x"))
      (refl, tt) tt

abbrev asked : ClientBuilder linux
unfolding default_builder
asked = record (default_builder linux) {
  host = some (codes "host");
  emit_output = true;
  interval = some (pos 1);
  bytes_to_send = some 10240;
}

abbrev made : Client linux
unfolding assemble asked
made = assemble linux asked (codes "host") (pos 0) none

command_line_run : build_client doubles (λ text. text) options none ≡ done made
unfolding build_client made asked doubles unit_atoi_like_bytes c_double_to_u64 ◌*ℤ◌
command_line_run = refl

build_client_one_end_example :
    Valid made
    × (given false + given (is_some made.bytes_to_send) + given (is_some made.blocks_to_send) ≤ 1)
build_client_one_end_example =
    build_client_one_end doubles (λ text. text) options none made command_line_run

-- `riperf3 -s -1 --server-bitrate-limit 10M/0`
abbrev serving : BuiltServer linux
unfolding installed default_server
serving = installed (record (default_server linux) {
  emit_output = true;
  one_off = true;
  server_bitrate_limit = some 10000000;
})

server_run :
    build_server doubles
      (λ text. text)
      true
      (record options {
        client = none;
        one_off = true;
        server_bitrate_limit = some (codes "10M/0");
      })
    ≡ done serving
unfolding build_server serving installed default_server doubles ◌+ℤ◌ ◌*ℤ◌
server_run = refl

debug_levels :
    (debug_level_like_os (codes "-1") ≡ pos 4) × (debug_level_like_os (codes "3x") ≡ pos 3)
unfolding debug_level_like_os
debug_levels = (refl, refl)

abbrev plain_number : Bytes → Option ℤ
unfolding parse_unsigned
plain_number text = map_opt pos (parse_unsigned 10 1000000 text)

sizes_and_rates :
    (parse_kmg whole plain_number (codes "128K") ≡ ok 131072)
    × (parse_rate whole plain_number (codes " 1m ") ≡ ok 1000000)
    × (parse_bitrate whole plain_number (codes "100M/10") ≡ ok (100000000, 10))
    × (parse_bitrate whole plain_number (codes "100M/0")
        ≡ err
            (invalid_value (codes "burst count") (codes "invalid burst count (maximum = 1000): 0")))
    × (parse_kmg whole plain_number (codes "K") ≡ err (invalid_value (codes "number") (codes "K")))
unfolding parse_kmg parse_rate parse_bitrate plain_number ◌*ℤ◌
sizes_and_rates = (refl, refl, refl, refl, refl)

keepalive_values : parse_keepalive (codes "10/ 5/x/7") ≡ (some 10, (some 5, none))
unfolding parse_keepalive
keepalive_values = refl

parse_keepalive-part_text_example :
    parse_keepalive
      (part_text (some 10) ++ (b'/' ∷ (part_text none ++ (b'/' ∷ part_text (some 3)))))
    ≡ (some 10, (none, some 3))
parse_keepalive-part_text_example =
    parse_keepalive-part_text (some 10) none (some 3) (omega arith) tt (omega arith)
