-- ===== src/Stream/Pacing.antt =====
-- The pacing of the senders of riperf3/src/stream.rs: `RateLimiter`, `udp_pacing_batch` and
-- `make_byte_budget`. A `Duration` is its nanoseconds.
pub mod Throttle
pub mod Bursts
use riperf.Base.{
  ℕ, zero, suc, ◌+◌, ◌-◌, ◌*◌, ◌%◌, ◌^◌, Bool, true, false, List, [], ◌∷◌, Option, none, some, ltb,
  ◌==◌, if◌then◌else◌, min, max, filter_opt, map_opt, or_else, not,
}
use riperf.Base.Float.{Float}
use riperf.Utils.Limits.{default_pacing_timer_us}

-- Floats with the conversions of `Duration`
pub record Clock : Type 1 where
  pub f64 : Float
  pub from_secs_f64 : f64.Carrier → ℕ
  pub as_secs_f64 : ℕ → f64.Carrier

-- 100 ms
abbrev pub slice : ℕ
slice = 100000000

-- `i64::try_from(n).unwrap_or(i64::MAX)`
abbrev clamp_i64 : ℕ → ℕ
clamp_i64 n = min n 9223372036854775807

unfoldable pub make_byte_budget : Option ℕ → Option ℕ → ℕ → Option ℕ
make_byte_budget bytes blocks blksize = map_opt clamp_i64 (
    or_else (filter_opt (λ n. ltb 0 n) bytes)
      (map_opt (λ k. min (k * blksize) (2 ^ 64 - 1)) (filter_opt (λ k. ltb 0 k) blocks)))

-- How a wait for the green light ends; `waiting` is where the readings given end before it does.
pub data Acquired : Type 0 where
  green interrupted waiting : Acquired

module _ (K : Clock) where
  open K use {f64}
  open f64 use {Carrier, sub, mul, div, of_ℕ, le, floor, to_u64}

  -- Less the start, which the readings are taken from.
  pub record RateLimiter : Type 0 where
    pub rate_bytes_per_sec : Carrier
    pub pacing : ℕ
    pub sent : ℕ
    pub burst : ℕ
    pub in_burst : ℕ

  abbrev pacing_us : ℕ → ℕ
  pacing_us us = if us == 0 then default_pacing_timer_us else us

  unfoldable pub new : ℕ → ℕ → ℕ → RateLimiter
  new rate_bits_per_sec pacing_timer_us burst = record {
    rate_bytes_per_sec = div (of_ℕ rate_bits_per_sec) (of_ℕ 8);
    pacing = pacing_us pacing_timer_us * 1000;
    sent = 0;
    burst = burst;
    in_burst = 0;
  }

  -- What a round of the loop reads: the seconds elapsed, and whether the test is done.
  pub record Reading : Type 0 where
    pub elapsed : Carrier
    pub done : Bool

  unfoldable pub behind : RateLimiter → Carrier → Carrier
  behind l elapsed = sub (of_ℕ l.sent) (mul elapsed l.rate_bytes_per_sec)

  -- The loop, with the sleeps that it makes.
  unfoldable pub wait_for_green : RateLimiter → List Reading → Acquired × List ℕ
  unfolding behind
  wait_for_green l [] = (waiting, [])
  wait_for_green l (r ∷ rs) =
      let debt = behind l r.elapsed in
      let to_green = K.from_secs_f64 (div debt l.rate_bytes_per_sec) in
      let (result, sleeps) = wait_for_green l rs in
      if le debt (of_ℕ 0)
      then (green, [])
      else if r.done
      then (interrupted, [])
      else (result, min (max to_green l.pacing) slice ∷ sleeps)

  account : ℕ → RateLimiter → Acquired → RateLimiter
  account bytes l green = record l { sent = (l.sent + bytes) % 2 ^ 64; in_burst = l.burst - 1 }
  account bytes l interrupted = l
  account bytes l waiting = l

  unfoldable pub acquire : ℕ → List Reading → RateLimiter → (Acquired × List ℕ) × RateLimiter
  unfolding wait_for_green account
  acquire bytes readings l =
      let (result, sleeps) = wait_for_green l readings in
      if ltb 0 l.in_burst
      then ((green, []), record l { in_burst = l.in_burst - 1; sent = (l.sent + bytes) % 2 ^ 64 })
      else ((result, sleeps), account bytes l result)

  -- `as u32` saturates; `clamp(1, max_batch)` for a maximum of at least 1
  unfoldable pub udp_pacing_batch : ℕ → ℕ → ℕ → ℕ → ℕ → ℕ
  udp_pacing_batch rate_bits_per_sec blksize pacing_timer_us max_batch burst =
      if ltb 0 burst
      then burst
      else if rate_bits_per_sec == 0
      then max_batch
      else (let rate_bytes = div (of_ℕ rate_bits_per_sec) (of_ℕ 8) in
          let quantum = K.as_secs_f64 (pacing_us pacing_timer_us * 1000) in
          let per_quantum =
            min (to_u64 (floor (div (mul quantum rate_bytes) (of_ℕ (max blksize 1)))))
              (2 ^ 32 - 1) in
          min (max per_quantum 1) max_batch)
