-- ===== src/Server/Refusal.antt =====
-- Which tests the server's limits refuse, and with which error code.
use riperf.Base.{
  ℕ, ◌+◌, ◌*◌, ◌-◌, ◌^◌, ◌≤◌, ◌<◌, ◌≡◌, ◌≢◌, ◌↔◌, ◌⊎◌, refl, Bool, true, false, Option, none, some,
  arith, unwrap_or, if◌then◌else◌, filter_opt, ltb,
}
use riperf.Errors.{ok}
use riperf.Protocol.Params.{TestParams, normalize_unlimited}
use riperf.Server.Config.{TestConfig, from_params}
use riperf.Server.Negotiate.{
  Limits, NegotiateOutcome, refused, proceed, negotiate, check_limits, duration_violated,
  rate_violated, saturating_add_u32, saturating_mul_u64,
}

-- A limit of zero is none. Else the requested time is bounded, and with the omitted seconds within
-- the limit.
abbrev pub DurationAllowed : Option ℕ → TestConfig → Type 0
DurationAllowed none cfg = Unit
DurationAllowed (some most) cfg =
    (most ≡ 0) ⊎ ((cfg.duration ≢ 0) × (cfg.duration + cfg.omit ≤ most))

-- The number of flows of data: a bidirectional test has two for each stream.
abbrev pub flows : TestConfig → ℕ
flows cfg = cfg.num_streams * (if cfg.bidir then 2 else 1)

-- A limit of zero is none. Else the bit rate and the fair-queueing rate of all flows together are
-- within the limit.
abbrev pub RateAllowed : Option ℕ → TestConfig → Option ℕ → Type 0
RateAllowed none cfg fqrate = Unit
RateAllowed (some most) cfg fqrate =
    (most ≡ 0) ⊎ ((cfg.bandwidth * flows cfg ≤ most) × (unwrap_or fqrate 0 * flows cfg ≤ most))

saturated_add :
    (a b max : ℕ) → max < 2 ^ 32 - 1 → ltb max (saturating_add_u32 a b) ≡ ltb max (a + b)
saturated_add a b max h = ground arith

saturated_mul :
    (a b max : ℕ) → max < 2 ^ 64 - 1 → ltb max (saturating_mul_u64 a b) ≡ ltb max (a * b)
saturated_mul a b max h = ground arith

duration_decided :
    (max : Option ℕ) (cfg : TestConfig)
    → unwrap_or max 0 < 2 ^ 32 - 1
    → (duration_violated max cfg ≡ false) ↔ DurationAllowed max cfg
unfolding duration_violated
duration_decided none cfg small = (λ h. tt, λ h. refl)
duration_decided (some max) cfg small =
    let exact = saturated_add cfg.duration cfg.omit max small in
    (λ h. ground (arith, exact), λ h. ground (arith, exact))

rate_decided :
    (limit : Option ℕ) (cfg : TestConfig) (fqrate : Option ℕ)
    → unwrap_or limit 0 < 2 ^ 64 - 1
    → (rate_violated limit cfg fqrate ≡ false) ↔ RateAllowed limit cfg fqrate
unfolding rate_violated
rate_decided none cfg fqrate small = (λ h. tt, λ h. refl)
rate_decided (some limit) cfg fqrate small =
    let exact = saturated_mul cfg.bandwidth (flows cfg) limit small in
    let exact_fq = saturated_mul (unwrap_or fqrate 0) (flows cfg) limit small in
    (λ h. ground (arith, exact, exact_fq), λ h. ground (arith, exact, exact_fq))

decided :
    (rate time : Bool) (target : Option ℕ) (params : TestParams) (cfg : TestConfig)
    (RateOk TimeOk : Type 0)
    → (rate ≡ false) ↔ RateOk
    → (time ≡ false) ↔ TimeOk
    → let outcome : NegotiateOutcome =
        if rate
        then refused 27 target
        else if time
        then refused 37 target
        else proceed params cfg in
      ((outcome ≡ proceed params cfg) ↔ (RateOk × TimeOk))
      × ((outcome ≡ refused 27 target) ↔ (¬ RateOk))
      × ((outcome ≡ refused 37 target) ↔ (RateOk × (¬ TimeOk)))
decided true time target params cfg R T r t = ground arith
decided false true target params cfg R T r t = ground arith
decided false false target params cfg R T r t = ground arith

-- When the parameters are well formed and the limits are below the largest u32 and u64, the server
-- goes on exactly when both the total rate and the duration are allowed; it refuses with code 27
-- exactly when the rate is not, and with code 37 exactly when the rate is but the duration is not. A
-- refusal carries the client's nonzero bit rate.
pub negotiate-decides :
    (limits : Limits) (received : TestParams) (cfg : TestConfig)
    → from_params (normalize_unlimited received) ≡ ok cfg
    → unwrap_or limits.server_max_duration 0 < 2 ^ 32 - 1
    → unwrap_or limits.server_bitrate_limit 0 < 2 ^ 64 - 1
    → let rate = RateAllowed limits.server_bitrate_limit cfg received.fqrate in
      let time = DurationAllowed limits.server_max_duration cfg in
      let outcome = negotiate limits received in
      let target = filter_opt (λ b. ltb 0 b) received.bandwidth in
      ((outcome ≡ proceed (normalize_unlimited received) cfg) ↔ (rate × time))
      × ((outcome ≡ refused 27 target) ↔ (¬ rate))
      × ((outcome ≡ refused 37 target) ↔ (rate × (¬ time)))
unfolding negotiate check_limits normalize_unlimited
negotiate-decides limits received cfg h small_time small_rate =
    rw (negotiate, h)
      (decided (rate_violated limits.server_bitrate_limit cfg received.fqrate)
        (duration_violated limits.server_max_duration cfg)
        (filter_opt (λ b. ltb 0 b) received.bandwidth) (normalize_unlimited received) cfg _ _
        (rate_decided limits.server_bitrate_limit cfg received.fqrate small_rate)
        (duration_decided limits.server_max_duration cfg small_time))
