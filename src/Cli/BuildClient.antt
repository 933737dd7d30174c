-- ===== src/Cli/BuildClient.antt =====
-- `Cli::build_client` of riperf3-cli/src/cli.rs: the client that a command line asks for.
pub mod OneEnd
use riperf.Base.{
  ◌≡◌, refl, ℕ, ◌+◌, Bool, true, false, not, ◌&&◌, ◌||◌, List, [], ◌∷◌, ◌++◌, Option, none, some,
  map_opt, unwrap_or, or_else, ℤ, pos, negsuc, Bytes, codes, leb, ltb_ℤ, if◌then◌else◌, is_some,
  as_u32, ltb, ◌*◌,
}
use riperf.Errors.{ConfigError, Configured}
use riperf.Utils.Tos.{parse_tos}
use riperf.Protocol.Params.{TransportProtocol}
use riperf.Client.Types.{Env, ClientBuilder, Client, default_builder}
use riperf.Client.Builder.{build}
use riperf.Base.Float.{Float}
use riperf.Cli.{truncate_i32, atoi_like_bytes, split_rate_interval, c_u64_to_int, parse_format_char}
use riperf.Cli.Parsed.{
  CliError, message, configuration, Parsed, done, refused, ◌>>=◌, configured, bind_done,
  configured_done, done_injective, optional, fits_or, u16_max, u32_max, u64_max,
}
use riperf.Cli.Double.{Double, unit_atoi_like_bytes, unit_atof_rate_like_bytes, c_double_to_u64}
use riperf.Cli.Options.{Cli, end_conditions_conflict}

unfoldable pub invalid_unit : (Bytes → Bytes) → Bytes → CliError
invalid_unit lossy s = message (codes "invalid unit value or suffix: '" ++ (lossy s ++ codes "'"))

-- What is not positive keeps the default.
unfoldable pub pacing_timer_of : ℕ → Option ℤ → ℕ
pacing_timer_of unset none = unset
pacing_timer_of unset (some v) = if ltb_ℤ (pos 0) v then as_u32 v else unset

-- 0 keeps the default of the protocol.
unfoldable pub blksize_of : Option ℤ → Parsed (Option ℕ)
blksize_of none = done none
blksize_of (some (pos n)) = done (if ltb 0 n then some n else none)
blksize_of (some (negsuc n)) =
    refused (message (codes "block size too large (maximum = 1048576 bytes)"))

-- In milliseconds; a negative one is none.
unfoldable pub connect_timeout_of : Option ℤ → Option ℕ
connect_timeout_of none = none
connect_timeout_of (some (pos n)) = some (n * 1000000)
connect_timeout_of (some (negsuc n)) = none

unfoldable pub host_of : Option Bytes → Parsed Bytes
host_of none = refused (message (codes "client mode requires a host (-c <host>)"))
host_of (some h) = done h

unfoldable pub one_end : Bool → Parsed (Unit {0})
one_end true = refused (message (codes "only one test end condition (-t, -n, -k) may be specified"))
one_end false = done tt

-- `to_string_lossy`, and what the double conversions take from the platform.
module _ {F : Float} (D : Double F) (lossy : Bytes → Bytes) where
  unfoldable pub unit_atoi_os : Bytes → Parsed F.Carrier
  unfolding invalid_unit
  unit_atoi_os s = elim (unit_atoi_like_bytes D s) [
    | none ↦ refused (invalid_unit lossy s)
    | some n ↦ done n
  ]

  unfoldable pub unit_rate : Bytes → Parsed ℕ
  unfolding unit_atof_rate_like_bytes invalid_unit c_double_to_u64
  unit_rate s = elim (unit_atof_rate_like_bytes D s) [
    | none ↦ refused (invalid_unit lossy s)
    | some n ↦ done (c_double_to_u64 D n)
  ]

  unfoldable pub unit_size : Bytes → Parsed ℕ
  unfolding unit_atoi_os
  unit_size s = do n ← unit_atoi_os s; done (c_double_to_u64 D n)

  unfoldable pub unit_int : Bytes → Parsed ℤ
  unfolding unit_size c_u64_to_int
  unit_int s = do n ← unit_size s; done (c_u64_to_int n)

  -- `rate[/burst]`
  unfoldable pub bitrate_of : Bytes → Parsed (ℕ × Option ℕ)
  unfolding unit_rate split_rate_interval atoi_like_bytes
  bitrate_of s =
      let (rate, burst) = split_rate_interval s in
      do
        bps ← unit_rate rate
        done (bps, map_opt (λ b. fits_or u32_max 0 (atoi_like_bytes b)) burst)

  -- The values that may be refused, in the order in which they are read.
  pub record Values : Type 0 where
    pub pacing : Option ℤ
    pub bytes : Option ℕ
    pub blocks : Option ℕ
    pub blksize : Option ℕ
    pub window : Option F.Carrier
    pub rate : Option (ℕ × Option ℕ)
    pub tos : Option ℤ
    pub connect_timeout : Option ℤ
    pub fq_rate : Option ℕ

  unfoldable pub values : Cli F → Parsed Values
  unfolding optional unit_int unit_size blksize_of unit_atoi_os bitrate_of configured unit_rate
  values c = do
    pacing ← optional unit_int c.pacing_timer
    bytes ← optional unit_size c.bytes
    blocks ← optional unit_size c.blockcount
    len ← optional unit_int c.length
    blksize ← blksize_of len
    window ← optional unit_atoi_os c.window
    rate ← optional bitrate_of c.bitrate
    tos ← optional (λ s. configured (parse_tos s)) c.tos
    connect_timeout ← optional unit_int c.connect_timeout
    fq_rate ← optional unit_rate c.fq_rate
    done (record {
      pacing = pacing;
      bytes = bytes;
      blocks = blocks;
      blksize = blksize;
      window = window;
      rate = rate;
      tos = tos;
      connect_timeout = connect_timeout;
      fq_rate = fq_rate;
    })

abbrev burst_of : Option (ℕ × Option ℕ) → Option ℕ
burst_of none = none
burst_of (some r) = r.1

module _ {E : Env} (D : Double E.f64) (lossy : Bytes → Bytes) where
  -- The builder when `build` is called
  unfoldable pub requested : Cli E.f64 → Option Bytes → Bytes → Values D lossy → ClientBuilder E
  unfolding default_builder pacing_timer_of connect_timeout_of parse_format_char
  requested c auth_password host v =
      let d = default_builder E in
      record d {
        host = some host;
        emit_output = true;
        format_char =
            unwrap_or (elim c.format [ none ↦ none | some f ↦ parse_format_char f ]) d.format_char;
        port = or_else (map_opt (λ p. fits_or u16_max u16_max p) c.port) d.port;
        protocol = if c.udp then TransportProtocol.udp else d.protocol;
        duration = unwrap_or (map_opt (λ t. fits_or u32_max u32_max t) c.time) d.duration;
        pacing_timer = pacing_timer_of d.pacing_timer v.pacing;
        bytes_to_send = v.bytes;
        blocks_to_send = v.blocks;
        blksize = v.blksize;
        num_streams = unwrap_or (map_opt (λ n. fits_or u32_max 0 n) c.parallel) d.num_streams;
        reverse = c.reverse;
        bidir = c.bidir;
        window = map_opt D.to_i32 v.window;
        congestion = c.congestion;
        mss = map_opt truncate_i32 c.mss;
        no_delay = c.no_delay;
        bandwidth = map_opt (λ r. r.0) v.rate;
        burst = unwrap_or (burst_of v.rate) d.burst;
        tos = unwrap_or v.tos d.tos;
        omit = unwrap_or (map_opt (λ o. fits_or u32_max u32_max o) c.omit) d.omit;
        interval = c.interval;
        title = c.title;
        extra_data = c.extra_data;
        connect_timeout = connect_timeout_of v.connect_timeout;
        verbose = c.verbose;
        json_output = c.json;
        json_stream = c.json_stream;
        json_stream_full_output = c.json_stream_full_output;
        udp_counters_64bit = c.udp_counters_64bit;
        repeating_payload = c.repeating_payload;
        zerocopy = c.zerocopy;
        gsro = c.gsro;
        sendmmsg = c.sendmmsg;
        dont_fragment = c.dont_fragment;
        cport = map_opt (λ p. fits_or u16_max u16_max p) c.cport;
        get_server_output = c.get_server_output;
        forceflush = c.forceflush;
        timestamps = c.timestamps;
        bind_address = c.bind;
        bind_dev = c.bind_dev;
        fq_rate = v.fq_rate;
        flowlabel = c.flowlabel;
        ip_version = if c.version6 then some 6 else if c.version4 then some 4 else none;
        mptcp = c.mptcp;
        skip_rx_copy = c.skip_rx_copy;
        rcv_timeout = map_opt (λ ms. fits_or u64_max 0 ms) c.rcv_timeout;
        snd_timeout = map_opt (λ ms. fits_or u64_max 0 ms) c.snd_timeout;
        file = c.file;
        dscp = c.dscp;
        cntl_ka = map_opt lossy c.cntl_ka;
        username = c.username;
        password = auth_password;
        rsa_public_key_path = c.rsa_public_key_path;
      }

  unfoldable pub build_client : Cli E.f64 → Option Bytes → Parsed (Client E)
  unfolding host_of one_end end_conditions_conflict values requested configured build
  build_client c auth_password = do
    host ← host_of c.client
    alone ← one_end (end_conditions_conflict D c)
    v ← values D lossy c
    configured (build E (requested c auth_password host v))
