-- ===== src/Server/Negotiate.antt =====
-- The end of `negotiate_test` of riperf3/src/server.rs: what the server makes of the parameters that
-- it received, up to the refusals.
use riperf.Base.{
  ℕ, ◌+◌, ◌-◌, ◌*◌, ◌^◌, Bool, false, ◌||◌, Option, none, some, ltb, ◌==◌, if◌then◌else◌, min,
  unwrap_or, filter_opt,
}
use riperf.Errors.{ConfigError, ok, err}
use riperf.Protocol.Params.{TestParams, normalize_unlimited}
use riperf.Server.Config.{TestConfig, from_params}

-- `--server-max-duration` and `--server-bitrate-limit`
pub record Limits : Type 0 where
  pub server_max_duration : Option ℕ  -- u32
  pub server_bitrate_limit : Option ℕ  -- u64

-- The number is the error code that follows the SERVER_ERROR state.
pub data NegotiateOutcome : Type 0 where
  malformed : ConfigError → NegotiateOutcome
  refused : ℕ → Option ℕ → NegotiateOutcome
  proceed : TestParams → TestConfig → NegotiateOutcome

abbrev pub saturating_add_u32 : ℕ → ℕ → ℕ
saturating_add_u32 a b = min (a + b) (2 ^ 32 - 1)

abbrev pub saturating_mul_u64 : ℕ → ℕ → ℕ
saturating_mul_u64 a b = min (a * b) (2 ^ 64 - 1)

unfoldable pub duration_violated : Option ℕ → TestConfig → Bool
duration_violated none cfg = false
duration_violated (some max) cfg =
    if max == 0
    then false
    else ltb max (saturating_add_u32 cfg.duration cfg.omit) || cfg.duration == 0

unfoldable pub rate_violated : Option ℕ → TestConfig → Option ℕ → Bool
rate_violated none cfg fqrate = false
rate_violated (some limit) cfg fqrate =
    if limit == 0
    then false
    else (let mult = cfg.num_streams * (if cfg.bidir then 2 else 1) in
        ltb limit (saturating_mul_u64 cfg.bandwidth mult)
        || ltb limit (saturating_mul_u64 (unwrap_or fqrate 0) mult))

unfoldable pub check_limits : Limits → TestParams → TestConfig → NegotiateOutcome
unfolding duration_violated rate_violated
check_limits limits params cfg =
    let refused_rate = filter_opt (λ b. ltb 0 b) params.bandwidth in
    if rate_violated limits.server_bitrate_limit cfg params.fqrate
    then refused 27 refused_rate
    else if duration_violated limits.server_max_duration cfg
    then refused 37 refused_rate
    else proceed params cfg

unfoldable pub negotiate : Limits → TestParams → NegotiateOutcome
unfolding check_limits
negotiate limits received =
    let params = normalize_unlimited received in
    elim (from_params params) [ err e ↦ malformed e | ok cfg ↦ check_limits limits params cfg ]
