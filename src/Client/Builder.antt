-- ===== src/Client/Builder.antt =====
-- `ClientBuilder::build` of riperf3/src/client.rs: the checks in their order, then the client.
use riperf.Base.{
  ℕ, Bool, true, false, not, ◌&&◌, ◌||◌, Option, none, some, ℤ, pos, Bytes, eqb_ℤ, leb_ℤ,
  if◌then◌else◌, ◌==◌, leb, codes, [], ◌∷◌, ◌++◌, unwrap_or, is_some, filter_opt, map_opt,
}
use riperf.Base.Decimal.{show_ℕ, show_ℤ}
use riperf.Errors.{
  Configured, ok, err, missing_field, invalid_value, unsupported, guard, ◌>>=◌, ◌>>◌,
}
use riperf.Utils.Limits.{
  default_port, default_udp_blksize, default_tcp_blksize, default_pacing_timer_us, default_udp_rate,
  max_burst, min_udp_blksize, max_udp_blksize, max_blocksize,
}
use riperf.Utils.Tos.{parse_dscp}
use riperf.Protocol.Params.{TransportProtocol}
use riperf.Client.Types.{Env, IpFamily, v4, v6, ClientBuilder, Client}

-- `split('%').next()`
zone_free : Bytes → Bytes
zone_free [] = []
zone_free (c ∷ s) = let rest = zone_free s in if c == b'%' then [] else c ∷ rest

family_clash : ℕ → IpFamily → Bool
family_clash v v6 = v == 4
family_clash v v4 = v == 6

unfoldable pub default_blksize : TransportProtocol → ℕ
default_blksize TransportProtocol.tcp = default_tcp_blksize
default_blksize TransportProtocol.udp = default_udp_blksize

unfoldable pub default_rate : TransportProtocol → ℕ
default_rate TransportProtocol.tcp = 0
default_rate TransportProtocol.udp = default_udp_rate

-- The bound on a requested block size
unfoldable pub check_blksize : TransportProtocol → Option ℕ → Configured (Unit {0})
check_blksize protocol none = ok tt
check_blksize TransportProtocol.tcp (some b) = guard (leb b max_blocksize) (
    invalid_value (codes "len")
      (codes "block size too large (maximum = 1048576 bytes): " ++ show_ℕ b))
check_blksize TransportProtocol.udp (some b) =
    guard (leb min_udp_blksize b && leb b max_udp_blksize) (
      invalid_value (codes "len")
        (codes "block size invalid (minimum = 16 bytes, maximum = 65507 bytes): " ++ show_ℕ b))

unfoldable pub check_duration : ℕ → Configured (Unit {0})
check_duration duration = guard (leb duration 86400) (
    invalid_value (codes "duration")
      (show_ℕ duration ++ codes " exceeds the valid range 0 to 86400 seconds"))

unfoldable pub check_omit : ℕ → Configured (Unit {0})
check_omit omit = guard (leb omit 600) (
    invalid_value (codes "omit")
      (codes "bogus value for --omit (maximum = 600 seconds): " ++ show_ℕ omit))

unfoldable pub check_tos : ℤ → Configured (Unit {0})
check_tos tos = guard (leb_ℤ (pos 0) tos && leb_ℤ tos (pos 255)) (
    invalid_value (codes "tos")
      (codes "bad TOS value (must be between 0 and 255 inclusive): " ++ show_ℤ tos))

unfoldable pub check_burst : ℕ → Configured (Unit {0})
check_burst burst = guard (leb burst max_burst) (
    invalid_value (codes "burst count")
      (codes "invalid burst count (maximum = 1000): " ++ show_ℕ burst))

module _ (E : Env) where
  open E use {f64, show_f64, parse_ip, unix, can_bind_dev, can_sendmmsg}

  -- A bind address whose family is not the one that `-4` or `-6` asks for.
  unfoldable pub bind_conflict : Option ℕ → Option Bytes → Bool
  unfolding zone_free family_clash
  bind_conflict none addr = false
  bind_conflict (some v) none = false
  bind_conflict (some v) (some addr) = elim (parse_ip (zone_free addr)) [
    | none ↦ false
    | some family ↦ family_clash v family
  ]

  unfoldable pub bind_message : Option ℕ → Option Bytes → Bytes
  unfolding zone_free
  bind_message version addr =
      codes "-"
      ++ show_ℕ (unwrap_or version 0)
      ++ codes " conflicts with bind address "
      ++ zone_free (unwrap_or addr [])

  -- The report interval is 0, or from 0.1 to 60 seconds: a tenth is `1.0 / 10.0`, rounded as the
  -- literal is.
  unfoldable pub interval_valid : Option f64.Carrier → Bool
  interval_valid none = true
  interval_valid (some i) =
      (f64.le i (f64.of_ℕ 0) && f64.le (f64.of_ℕ 0) i)
      || (f64.le (f64.div (f64.of_ℕ 1) (f64.of_ℕ 10)) i && f64.le i (f64.of_ℕ 60))

  unfoldable pub requested_tos : ClientBuilder E → Configured ℤ
  requested_tos b = elim b.dscp [ some dscp ↦ parse_dscp dscp | none ↦ ok b.tos ]

  -- The checks on the platform
  check_platform : ClientBuilder E → Configured (Unit {0})
  check_platform b = do
    guard (unix || not b.zerocopy) (unsupported (codes "this OS does not support sendfile"))
    guard (unix || not (is_some b.congestion))
        (unsupported (codes "TCP congestion control is not supported on this platform"))
    guard (can_bind_dev || not (is_some b.bind_dev))
        (unsupported (codes "--bind-dev is not supported on this platform"))
    guard (can_sendmmsg || not b.sendmmsg)
        (unsupported (codes "sendmmsg is only supported on Linux, FreeBSD, and NetBSD"))

  -- The checks before the TOS byte
  unfoldable pub check_options : ClientBuilder E → Configured (Unit {0})
  unfolding bind_conflict bind_message interval_valid check_duration check_omit check_platform
  check_options b = do
    check_duration b.duration
    guard (not (bind_conflict b.ip_version b.bind_address))
        (invalid_value (codes "bind_address") (bind_message b.ip_version b.bind_address))
    check_omit b.omit
    guard (interval_valid b.interval) (
        invalid_value (codes "interval") (
          codes "invalid report interval (min = 0.1, max = 60 seconds): "
          ++ unwrap_or (map_opt show_f64 b.interval) []))
    check_platform b

  unfoldable pub check_host : Option Bytes → Configured Bytes
  check_host none = err (missing_field (codes "host"))
  check_host (some host) = ok host

  -- The client that the checked values make.
  unfoldable pub assemble : ClientBuilder E → Bytes → ℤ → Option ℕ → Client E
  unfolding default_blksize default_rate
  assemble b host tos blksize_req = record {
    host = host;
    port = unwrap_or b.port default_port;
    protocol = b.protocol;
    duration = b.duration;
    num_streams = b.num_streams;
    blksize = unwrap_or blksize_req (default_blksize b.protocol);
    blksize_explicit = is_some blksize_req;
    reverse = b.reverse;
    bidir = b.bidir;
    omit = b.omit;
    no_delay = b.no_delay;
    mss = b.mss;
    window = filter_opt (λ w. not (eqb_ℤ w (pos 0))) b.window;
    bandwidth = unwrap_or b.bandwidth (default_rate b.protocol);
    burst = b.burst;
    pacing_timer = if b.pacing_timer == 0 then default_pacing_timer_us else b.pacing_timer;
    tos = tos;
    congestion = b.congestion;
    udp_counters_64bit = b.udp_counters_64bit;
    connect_timeout = b.connect_timeout;
    title = b.title;
    extra_data = b.extra_data;
    verbose = b.verbose;
    json_output = b.json_output;
    emit_output = b.emit_output;
    json_stream = b.json_stream;
    interrupt = b.interrupt;
    json_stream_full_output = b.json_stream_full_output;
    bytes_to_send = filter_opt (λ n. not (n == 0)) b.bytes_to_send;
    blocks_to_send = filter_opt (λ n. not (n == 0)) b.blocks_to_send;
    repeating_payload = b.repeating_payload;
    zerocopy = b.zerocopy;
    gsro = b.gsro;
    sendmmsg = b.sendmmsg;
    dont_fragment = b.dont_fragment;
    cport = b.cport;
    get_server_output = b.get_server_output;
    forceflush = b.forceflush;
    timestamps = b.timestamps;
    bind_address = b.bind_address;
    bind_dev = b.bind_dev;
    fq_rate = b.fq_rate;
    flowlabel = b.flowlabel;
    ip_version = b.ip_version;
    mptcp = b.mptcp;
    skip_rx_copy = b.skip_rx_copy;
    rcv_timeout = b.rcv_timeout;
    snd_timeout = b.snd_timeout;
    file = b.file;
    format_char = b.format_char;
    interval = b.interval;
    cntl_ka = b.cntl_ka;
    username = b.username;
    password = b.password;
    rsa_public_key_path = b.rsa_public_key_path;
    use_pkcs1_padding = b.use_pkcs1_padding;
  }

  unfoldable pub build : ClientBuilder E → Configured (Client E)
  unfolding check_host check_options requested_tos check_tos check_burst check_blksize assemble
  build b = do
    host ← check_host b.host
    check_options b
    tos ← requested_tos b
    check_tos tos
    check_burst b.burst
    let blksize_req = filter_opt (λ n. not (n == 0)) b.blksize
    check_blksize b.protocol blksize_req
    ok (assemble b host tos blksize_req)
