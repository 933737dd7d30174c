-- ===== src/Cli/Options.antt =====
-- The options of riperf3-cli/src/cli.rs (`Cli`), and the checks on what goes together. A text is its bytes; the
-- options that only `main` reads are left out.
use riperf.Base.{
  Bool, false, not, ◌&&◌, ◌||◌, List, [], ◌∷◌, Option, none, some, ℤ, Bytes, codes, any, is_some,
  ◌==◌, if◌then◌else◌,
}
use riperf.Base.Float.{Float}
use riperf.Cli.Double.{Double, unit_atoi_like_bytes, c_double_to_u64}

pub record Cli (F : Float) : Type 0 where
  pub client : Option Bytes
  pub port : Option ℤ
  pub format : Option Bytes
  pub interval : Option F.Carrier
  pub verbose : Bool
  pub json : Bool
  pub forceflush : Bool
  pub timestamps : Option Bytes
  pub one_off : Bool
  pub daemon : Bool
  pub idle_timeout : Option ℤ
  pub server_bitrate_limit : Option Bytes
  pub server_max_duration : Option ℤ
  pub udp : Bool
  pub time : Option ℤ
  pub bytes : Option Bytes
  pub blockcount : Option Bytes
  pub length : Option Bytes
  pub parallel : Option ℤ
  pub reverse : Bool
  pub bidir : Bool
  pub window : Option Bytes
  pub congestion : Option Bytes
  pub mss : Option ℤ
  pub no_delay : Bool
  pub bitrate : Option Bytes
  pub tos : Option Bytes
  pub omit : Option ℤ
  pub title : Option Bytes
  pub extra_data : Option Bytes
  pub connect_timeout : Option Bytes
  pub get_server_output : Bool
  pub udp_counters_64bit : Bool
  pub repeating_payload : Bool
  pub dont_fragment : Bool
  pub cport : Option ℤ
  pub pacing_timer : Option Bytes
  pub version4 : Bool
  pub version6 : Bool
  pub bind : Option Bytes
  pub bind_dev : Option Bytes
  pub fq_rate : Option Bytes
  pub flowlabel : Option ℤ
  pub dscp : Option Bytes
  pub mptcp : Bool
  pub zerocopy : Bool
  pub skip_rx_copy : Bool
  pub rcv_timeout : Option ℤ
  pub snd_timeout : Option ℤ
  pub file : Option Bytes
  pub affinity : Option Bytes
  pub json_stream : Bool
  pub json_stream_full_output : Bool
  pub gsro : Bool
  pub sendmmsg : Bool
  pub cntl_ka : Option Bytes
  pub username : Option Bytes
  pub rsa_public_key_path : Option Bytes
  pub rsa_private_key_path : Option Bytes
  pub authorized_users_path : Option Bytes
  pub time_skew_threshold : Option ℤ
  pub use_pkcs1_padding : Bool

-- The name of the first option that was given
unfoldable pub first_set : List (Bool × Bytes) → Option Bytes
first_set [] = none
first_set ((set, name) ∷ checks) = let rest = first_set checks in if set then some name else rest

module _ {F : Float} where
  -- `-A n,m`: with a comma, the first number is the client's.
  unfoldable pub affinity_client_only : Cli F → Bool
  affinity_client_only c = elim c.affinity [ none ↦ false | some spec ↦ any (λ b. b == b',') spec ]

  unfoldable pub first_client_only_violation : Cli F → Option Bytes
  unfolding first_set affinity_client_only
  first_client_only_violation c = first_set (
      (c.udp, codes "-u/--udp")
      ∷ (is_some c.time, codes "-t/--time")
      ∷ (is_some c.bytes, codes "-n/--bytes")
      ∷ (is_some c.blockcount, codes "-k/--blockcount")
      ∷ (is_some c.length, codes "-l/--length")
      ∷ (is_some c.parallel, codes "-P/--parallel")
      ∷ (c.reverse, codes "-R/--reverse")
      ∷ (c.bidir, codes "--bidir")
      ∷ (is_some c.window, codes "-w/--window")
      ∷ (is_some c.congestion, codes "-C/--congestion")
      ∷ (is_some c.mss, codes "-M/--set-mss")
      ∷ (c.no_delay, codes "-N/--no-delay")
      ∷ (is_some c.bitrate, codes "-b/--bitrate")
      ∷ (is_some c.tos, codes "-S/--tos")
      ∷ (is_some c.omit, codes "-O/--omit")
      ∷ (is_some c.title, codes "-T/--title")
      ∷ (is_some c.extra_data, codes "--extra-data")
      ∷ (is_some c.connect_timeout, codes "--connect-timeout")
      ∷ (c.get_server_output, codes "--get-server-output")
      ∷ (c.udp_counters_64bit, codes "--udp-counters-64bit")
      ∷ (c.repeating_payload, codes "--repeating-payload")
      ∷ (c.dont_fragment, codes "--dont-fragment")
      ∷ (is_some c.pacing_timer, codes "--pacing-timer")
      ∷ (c.zerocopy, codes "-Z/--zerocopy")
      ∷ (c.skip_rx_copy, codes "--skip-rx-copy")
      ∷ (is_some c.fq_rate, codes "--fq-rate")
      ∷ (is_some c.flowlabel, codes "-L/--flowlabel")
      ∷ (is_some c.dscp, codes "--dscp")
      ∷ (affinity_client_only c, codes "-A/--affinity")
      ∷ (is_some c.username, codes "--username")
      ∷ (is_some c.rsa_public_key_path, codes "--rsa-public-key-path")
      ∷ (c.gsro, codes "--gsro")
      ∷ (c.sendmmsg, codes "--sendmmsg")
      ∷ [])

  unfoldable pub first_server_only_violation : Cli F → Option Bytes
  unfolding first_set
  first_server_only_violation c = first_set (
      (c.daemon, codes "-D/--daemon")
      ∷ (c.one_off, codes "-1/--one-off")
      ∷ (is_some c.server_bitrate_limit, codes "--server-bitrate-limit")
      ∷ (is_some c.idle_timeout, codes "--idle-timeout")
      ∷ (is_some c.server_max_duration, codes "--server-max-duration")
      ∷ (is_some c.rsa_private_key_path, codes "--rsa-private-key-path")
      ∷ (is_some c.time_skew_threshold, codes "--time-skew-threshold")
      ∷ (c.use_pkcs1_padding, codes "--use-pkcs1-padding")
      ∷ [])

-- A value that does not parse counts as not set.
module _ {F : Float} (D : Double F) where
  unfoldable pub end_condition_set : Option Bytes → Bool
  end_condition_set none = false
  end_condition_set (some s) = elim (unit_atoi_like_bytes D s) [
    | none ↦ false
    | some n ↦ not (c_double_to_u64 D n == 0)
  ]

  unfoldable pub end_conditions_conflict : Cli F → Bool
  unfolding end_condition_set
  end_conditions_conflict c =
      let bytes_set = end_condition_set c.bytes in
      let blocks_set = end_condition_set c.blockcount in
      is_some c.time && (bytes_set || blocks_set) || bytes_set && blocks_set
