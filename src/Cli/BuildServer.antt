-- ===== src/Cli/BuildServer.antt =====
-- `Cli::build_server` of riperf3-cli/src/cli.rs: the server that a command line asks for.
pub mod Settings
use riperf.Base.{
  ℕ, Bool, true, false, not, ◌&&◌, Option, none, some, map_opt, unwrap_or, or_else, filter_opt,
  Bytes, if◌then◌else◌,
}
use riperf.Base.Float.{Float}
use riperf.Client.Types.{Env}
use riperf.Server.Builder.{ServerBuilder, default_server, BuiltServer, build}
use riperf.Cli.{split_rate_interval, parse_format_char}
use riperf.Cli.Double.{Double, atof_like_bytes}
use riperf.Cli.Options.{Cli}
use riperf.Cli.Parsed.{Parsed, done, ◌>>=◌, configured, fits_or, u16_max, u32_max, u64_max}
use riperf.Cli.BuildClient.{unit_rate}

-- `iv != 0.0`
abbrev pub nonzero : (F : Float) → F.Carrier → Bool
nonzero F iv = not (F.le iv (F.of_ℕ 0) && F.le (F.of_ℕ 0) iv)

module _ {F : Float} (D : Double F) (lossy : Bytes → Bytes) where
  -- `--server-bitrate-limit rate[/interval]`; an interval of 0 is the default one.
  unfoldable pub bitrate_limit_of : Option Bytes → Parsed (Option ℕ × Option F.Carrier)
  unfolding split_rate_interval unit_rate atof_like_bytes
  bitrate_limit_of none = done (none, none)
  bitrate_limit_of (some s) =
      let (rate, interval) = split_rate_interval s in
      do
        n ← unit_rate D lossy rate
        done (some n, filter_opt (nonzero F) (map_opt (atof_like_bytes D) interval))

module _ {E : Env} (D : Double E.f64) (lossy : Bytes → Bytes) (linux : Bool) where
  -- The builder when `build` is called, with what `--server-bitrate-limit` comes to.
  unfoldable pub configuration_of : Cli E.f64 → Option ℕ × Option E.f64.Carrier → ServerBuilder E
  unfolding default_server parse_format_char
  configuration_of c limit =
      let d = default_server E in
      record d {
        emit_output = true;
        format_char =
            unwrap_or (elim c.format [ none ↦ none | some f ↦ parse_format_char f ]) d.format_char;
        port = or_else (map_opt (λ p. fits_or u16_max u16_max p) c.port) d.port;
        one_off = c.one_off;
        verbose = c.verbose;
        json_output = c.json;
        json_stream = c.json_stream;
        json_stream_full_output = c.json_stream_full_output;
        idle_timeout = map_opt (λ s. fits_or u32_max u32_max s) c.idle_timeout;
        server_bitrate_limit = limit.0;
        server_bitrate_limit_interval = limit.1;
        server_max_duration = map_opt (λ s. fits_or u32_max u32_max s) c.server_max_duration;
        rcv_timeout = map_opt (λ ms. fits_or u64_max 0 ms) c.rcv_timeout;
        forceflush = c.forceflush;
        bind_address = c.bind;
        bind_dev = c.bind_dev;
        ip_version = if c.version4 then some 4 else if c.version6 then some 6 else none;
        timestamps = c.timestamps;
        rsa_private_key_path = c.rsa_private_key_path;
        authorized_users_path = c.authorized_users_path;
        time_skew_threshold =
            unwrap_or (map_opt (λ s. fits_or u32_max 0 s) c.time_skew_threshold)
              d.time_skew_threshold;
        use_pkcs1_padding = c.use_pkcs1_padding;
      }

  unfoldable pub build_server : Cli E.f64 → Parsed (BuiltServer E)
  unfolding bitrate_limit_of configuration_of configured build
  build_server c = do
    limit ← bitrate_limit_of D lossy c.server_bitrate_limit
    configured (build E linux (configuration_of c limit))
