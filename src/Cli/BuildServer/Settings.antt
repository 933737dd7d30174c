-- ===== src/Cli/BuildServer/Settings.antt =====
-- What every server that the command line gives satisfies.
use riperf.Base.{
  ℕ, ◌≤◌, ◌≡◌, refl, Bool, true, false, not, ◌||◌, Option, none, some, ℤ, pos, negsuc, map_opt,
  or_else, unwrap_or, filter_opt, Bytes, is_some, arith, if◌then◌else◌,
}
use mathlib.Core.Path.{subst}
use riperf.Base.Float.{Float}
use riperf.Errors.{ok, guard, bind_ok, guard_ok, ok_injective}
use riperf.Client.Types.{Env}
use riperf.Client.Builder.{bind_conflict}
use riperf.Server.Builder.{BuiltServer, installed, build, default_server}
use riperf.Cli.{split_rate_interval}
use riperf.Cli.Double.{Double, atof_like_bytes}
use riperf.Cli.Options.{Cli}
use riperf.Cli.Parsed.{bind_done, configured_done, done_injective, done, fits_or, u16_max, u32_max}
use riperf.Cli.BuildClient.{unit_rate}
use riperf.Cli.BuildServer.{nonzero, bitrate_limit_of, configuration_of, build_server}

abbrev pub AtMost : ℕ → Option ℕ → Type 0
AtMost most none = Unit
AtMost most (some n) = n ≤ most

-- An averaging interval is not zero, and comes with a limit.
abbrev pub Averaged : (F : Float) → Option ℕ → Option F.Carrier → Type 0
Averaged F limit none = Unit
Averaged F none (some iv) = ⊥
Averaged F (some n) (some iv) = nonzero F iv ≡ true

pub record Settled {E : Env} (linux : Bool) (s : BuiltServer E) : Type 0 where
  pub port : s.port ≤ 65535
  pub idle_timeout : AtMost u32_max s.idle_timeout
  pub max_duration : AtMost u32_max s.server_max_duration
  pub skew : s.time_skew_threshold ≤ u32_max
  pub limit : Averaged E.f64 s.server_bitrate_limit s.server_bitrate_limit_interval
  pub family : bind_conflict E s.ip_version s.bind_address ≡ false
  pub device : (linux || not (is_some s.bind_dev)) ≡ true

fits_or_bound : (most other : ℕ) (v : ℤ) → other ≤ most → fits_or most other v ≤ most
fits_or_bound most other (pos n) h = ground (arith, h)
fits_or_bound most other (negsuc n) h = h

port_bound :
    (o : Option ℤ)
    → unwrap_or (or_else (map_opt (λ p. fits_or u16_max u16_max p) o) (some 5201)) 5201 ≤ 65535
port_bound none = ground arith
port_bound (some v) = fits_or_bound u16_max u16_max v (omega arith)

seconds_bound : (o : Option ℤ) → AtMost u32_max (map_opt (λ s. fits_or u32_max u32_max s) o)
seconds_bound none = tt
seconds_bound (some v) = fits_or_bound u32_max u32_max v (omega arith)

skew_bound : (o : Option ℤ) → unwrap_or (map_opt (λ s. fits_or u32_max 0 s) o) 10 ≤ u32_max
skew_bound none = ground arith
skew_bound (some v) = fits_or_bound u32_max 0 v (omega arith)

tested :
    (F : Float) (n : ℕ) (iv : F.Carrier) (b : Bool)
    → nonzero F iv ≡ b
    → Averaged F (some n) (if b then some iv else none)
tested F n iv true h = h
tested F n iv false h = tt

averaged :
    (F : Float) (n : ℕ) (o : Option F.Carrier) → Averaged F (some n) (filter_opt (nonzero F) o)
averaged F n none = tt
averaged F n (some iv) = tested F n iv (nonzero F iv) refl

limit_averaged :
    {F : Float} (D : Double F) (lossy : Bytes → Bytes) (o : Option Bytes)
    (l : Option ℕ × Option F.Carrier)
    → bitrate_limit_of D lossy o ≡ done l
    → Averaged F l.0 l.1
unfolding bitrate_limit_of
limit_averaged {F = F} D lossy none l h = subst (λ r. Averaged F r.0 r.1) (done_injective h) tt
limit_averaged {F = F} D lossy (some s) l h =
    let (rate, interval) = split_rate_interval s in
    let (n, _, made) =
      bind_done (unit_rate D lossy rate)
        (λ n. done (some n, filter_opt (nonzero F) (map_opt (atof_like_bytes D) interval))) l h in
    subst (λ r. Averaged F r.0 r.1) (done_injective made)
      (averaged F n (map_opt (atof_like_bytes D) interval))

refuted_test : (b : Bool) → not b ≡ true → b ≡ false
refuted_test true h = absurd (cc h)
refuted_test false h = refl

module _ {E : Env} (D : Double E.f64) (lossy : Bytes → Bytes) (linux : Bool) where
  -- A server that the command line gives has a port that a u16 holds, and times that a u32 holds. Its averaging
  -- interval is not zero and comes with a limit of the rate, its bind address is not of the family that it
  -- excludes, and only on Linux it is bound to a device.
  pub build_server-Settled :
      (c : Cli E.f64) (s : BuiltServer E) → build_server D lossy linux c ≡ done s → Settled linux s
  unfolding build_server build configuration_of installed default_server
  build_server-Settled c s h =
      let (l, limit, h1) = bind_done (bitrate_limit_of D lossy c.server_bitrate_limit) _ s h in
      let b = configuration_of D lossy linux c l in
      let built = configured_done (build E linux b) s h1 in
      let (u, device, h2) = bind_ok (guard (linux || not (is_some b.bind_dev)) _) _ s built in
      let (u', family, made) =
        bind_ok (guard (not (bind_conflict E b.ip_version b.bind_address)) _)
          (λ u. ok (installed b)) s h2 in
      let settled : Settled linux (installed b) = record {
        port = port_bound c.port;
        idle_timeout = seconds_bound c.idle_timeout;
        max_duration = seconds_bound c.server_max_duration;
        skew = skew_bound c.time_skew_threshold;
        limit = limit_averaged D lossy c.server_bitrate_limit l limit;
        family = refuted_test _ (guard_ok _ _ u' family);
        device = guard_ok _ _ u device;
      } in
      subst (Settled linux) (ok_injective made) settled
