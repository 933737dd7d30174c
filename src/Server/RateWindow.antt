-- ===== src/Server/RateWindow.antt =====
-- `RateLimitWindow` of riperf3/src/server.rs: a ring of the last interval byte counts. Its operations
-- on u64 wrap where the source's would panic in a debug build.
pub mod Average
use riperf.Base.{
  ℕ, suc, ◌+◌, ◌*◌, ◌%◌, ◌^◌, Bool, true, false, ◌&&◌, List, [], ◌∷◌, Option, none, some, ltb,
  if◌then◌else◌, length, set, replicate, sum, min,
}
use riperf.Base.Float.{Float}

pub record RateLimitWindow : Type 0 where
  pub ring : List ℕ
  pub idx : ℕ
  pub count : ℕ

module _ (F : Float) where
  open F use {Carrier, mul, div, of_ℕ, to_u64, lt, le, is_finite, round}

  -- The number of samples for an interval in seconds
  samples : Carrier → ℕ
  samples interval =
      let interval' = if is_finite interval && lt (of_ℕ 0) interval then interval else of_ℕ 5 in
      if le interval' (of_ℕ 1) then 1 else min (to_u64 (round interval')) 86400

  unfoldable pub from_interval_secs : Carrier → RateLimitWindow
  unfolding samples
  from_interval_secs interval = record { ring = replicate (samples interval) 0; idx = 0; count = 0 }

  -- `(total as f64 * 8.0 / len as f64) as u64`
  unfoldable pub average : ℕ → ℕ → ℕ
  average total len = to_u64 (div (mul (of_ℕ total) (of_ℕ 8)) (of_ℕ len))

  unfoldable pub push : RateLimitWindow → ℕ → Option ℕ × RateLimitWindow
  unfolding average
  push w interval_bytes =
      let n = length w.ring in
      let idx = (w.idx + 1) % n in
      let ring = set w.ring idx interval_bytes in
      let count = (w.count + 1) % 2 ^ 64 in
      let result = if ltb count n then none else some (average (sum ring % 2 ^ 64) n) in
      (result, record { ring = ring; idx = idx; count = count })

  -- The window after some intervals, the last one first.
  unfoldable pub pushed : RateLimitWindow → List ℕ → RateLimitWindow
  unfolding push
  pushed w [] = w
  pushed w (v ∷ earlier) = (push (pushed w earlier) v).1
