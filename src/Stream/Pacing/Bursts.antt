-- ===== src/Stream/Pacing/Bursts.antt =====
-- How often the rate limiter of riperf3/src/stream.rs looks at the rate.
use riperf.Base.{
  ℕ, suc, ◌+◌, ◌-◌, ◌^◌, ◌≤◌, ◌<◌, ◌≡◌, refl, sym, ◌∙◌, ap, List, [], ◌∷◌, arith, All, min, map,
  sum, length,
}
use riperf.Stream.Pacing.{
  Clock, RateLimiter, Reading, Acquired, green, wait_for_green, account, acquire,
}
use riperf.Stream.Pacing.Throttle.{Paid, wait_sleeps, wait_green}

-- The blocks to come, each with what the loop would read for it.
abbrev pub Blocks : Clock → Type 0
Blocks K = List (ℕ × List (Reading K))

module _ (K : Clock) where
  -- One acquire for each block.
  unfoldable pub acquires : Blocks K → RateLimiter K → List (Acquired × List ℕ) × RateLimiter K
  unfolding acquire
  acquires [] l = ([], l)
  acquires ((bytes, readings) ∷ more) l =
      let (one, l1) = acquire K bytes readings l in
      let (rest, l2) = acquires more l1 in (one ∷ rest, l2)

  -- How a limiter stands behind `bytes` more, outside of a burst.
  pub record Idle (l : RateLimiter K) (bytes : ℕ) (l' : RateLimiter K) : Type 0 where
    pub used_up : l'.in_burst ≡ 0
    pub accounted : l'.sent ≡ l.sent + bytes
    pub burst_kept : l'.burst ≡ l.burst
    pub rate_kept : l'.rate_bytes_per_sec ≡ l.rate_bytes_per_sec

  abbrev pub block_bytes : Blocks K → ℕ
  block_bytes blocks = sum (map (λ b. b.0) blocks)

  in_burst_block :
      (bytes n : ℕ) (readings : List (Reading K)) (l : RateLimiter K)
      → l.in_burst ≡ suc n
      → l.sent + bytes < 2 ^ 64
      → acquire K bytes readings l ≡ ((green, []), record l { in_burst = n; sent = l.sent + bytes })
  unfolding acquire
  in_burst_block bytes n readings l h f = ground (arith, h, f)

  in_burst_blocks :
      (blocks : Blocks K) (l : RateLimiter K)
      → l.in_burst ≡ length blocks
      → l.sent + block_bytes blocks < 2 ^ 64
      → All (λ x. x ≡ (green, [])) (acquires blocks l).0
        × Idle l (block_bytes blocks) (acquires blocks l).1
  unfolding acquires
  in_burst_blocks [] l h f =
      (tt, record { used_up = h; accounted = omega arith; burst_kept = refl; rate_kept = refl })
  in_burst_blocks ((bytes, readings) ∷ more) l h f =
      let l1 = record l { in_burst = length more; sent = l.sent + bytes } in
      let (out, idle) = in_burst_blocks more l1 refl (omega (arith, f)) in
      rw (in_burst_block bytes (length more) readings l h (omega (arith, f))) (
        (refl, out),
        record {
          used_up = idle.used_up;
          accounted = omega (arith, idle.accounted);
          burst_kept = idle.burst_kept;
          rate_kept = idle.rate_kept;
        },
      )

  -- What an acquire comes to outside of a burst.
  opened_gate :
      (bytes : ℕ) (readings : List (Reading K)) (l : RateLimiter K)
      → l.in_burst ≡ 0
      → acquire K bytes readings l
        ≡ (wait_for_green K l readings, account K bytes l (wait_for_green K l readings).0)
  unfolding acquire
  opened_gate bytes readings l h = rw h refl

  let_through :
      (bytes : ℕ) (l : RateLimiter K) (a : Acquired)
      → a ≡ green
      → l.sent + bytes < 2 ^ 64
      → account K bytes l a ≡ record l { sent = l.sent + bytes; in_burst = l.burst - 1 }
  unfolding account
  let_through bytes l a h f = ground (arith, h, f)

  -- Outside of a burst, a block is let through only where a reading found the bytes accounted at or below
  -- the elapsed time's share of the rate; it sleeps for at most 100 ms at a time, and for at least the
  -- pacing quantum or 100 ms, whichever is less. The other blocks of its burst then go through at once,
  -- whatever the clock shows; behind the last one the limiter is outside of a burst again, and has
  -- accounted the bytes of all of them, as long as these stay below 2^64.
  pub acquires-burst :
      (bytes : ℕ) (readings : List (Reading K)) (more : Blocks K) (l : RateLimiter K)
      → l.in_burst ≡ 0
      → length more ≡ l.burst - 1
      → l.sent + bytes + block_bytes more < 2 ^ 64
      → (acquire K bytes readings l).0.0 ≡ green
      → Paid K l readings
        × All (λ s. (s ≤ 100000000) × (min l.pacing 100000000 ≤ s)) (acquire K bytes readings l).0.1
        × All (λ x. x ≡ (green, [])) (acquires more (acquire K bytes readings l).1).0
        × Idle l (bytes + block_bytes more) (acquires more (acquire K bytes readings l).1).1
  acquires-burst bytes readings more l h n f g =
      let gate = opened_gate bytes readings l h in
      let passed : (wait_for_green K l readings).0 ≡ green = sym (ap (λ x. x.0.0) gate) ∙ g in
      let l1 = record l { sent = l.sent + bytes; in_burst = l.burst - 1 } in
      let (out, idle) = in_burst_blocks more l1 (sym n) (omega (arith, f)) in
      rw (gate, let_through bytes l _ passed (omega (arith, f)))
        (
          wait_green K l readings passed,
          wait_sleeps K l readings,
          out,
          record {
            used_up = idle.used_up;
            accounted = omega (arith, idle.accounted);
            burst_kept = idle.burst_kept;
            rate_kept = idle.rate_kept;
          },
        )
