-- ===== src/Stream/Pacing/Throttle.antt =====
-- What the senders' pacing guarantees.
use riperf.Base.{
  ℕ, ◌-◌, ◌*◌, ◌^◌, ◌≤◌, ◌≡◌, refl, true, List, [], ◌∷◌, Option, none, some, unwrap_or, arith, All,
  min, ltb, Bool-cases, inl, inr, if◌then◌else◌,
}
use riperf.Stream.Pacing.{
  Clock, make_byte_budget, RateLimiter, Reading, green, behind, wait_for_green,
}

-- Some reading found the debt paid.
pub data Paid (K : Clock) (l : RateLimiter K) : List (Reading K) → Type 0 where
  now :
      {r : Reading K} {rs : List (Reading K)}
      → K.f64.le
          (K.f64.sub (K.f64.of_ℕ l.sent) (K.f64.mul r.elapsed l.rate_bytes_per_sec))
          (K.f64.of_ℕ 0)
        ≡ true
      → Paid K l (r ∷ rs)
  later : {r : Reading K} {rs : List (Reading K)} → Paid K l rs → Paid K l (r ∷ rs)

module _ (K : Clock) where
  pub wait_sleeps :
      (l : RateLimiter K) (rs : List (Reading K))
      → All (λ s. (s ≤ 100000000) × (min l.pacing 100000000 ≤ s)) (wait_for_green K l rs).1
  unfolding wait_for_green
  wait_sleeps l [] = tt
  wait_sleeps l (r ∷ rs) = elim (Bool-cases (K.f64.le (behind K l r.elapsed) (K.f64.of_ℕ 0))) [
    | inl e ↦ rw e tt
    | inr e ↦ elim (Bool-cases r.done) [
      | inl d ↦ rw (e, d) tt
      | inr d ↦ rw (e, d) ((omega arith, omega arith), wait_sleeps l rs)
    ]
  ]

  pub wait_green :
      (l : RateLimiter K) (rs : List (Reading K)) → (wait_for_green K l rs).0 ≡ green → Paid K l rs
  unfolding wait_for_green behind
  wait_green l [] h = absurd (ground arith)
  wait_green l (r ∷ rs) h = elim (Bool-cases (K.f64.le (behind K l r.elapsed) (K.f64.of_ℕ 0))) [
    | inl e ↦ now e
    | inr e ↦ elim (Bool-cases r.done) [
      | inl d ↦ absurd (ground (arith, e, d))
      | inr d ↦ later (wait_green l rs (ground (arith, e, d)))
    ]
  ]

-- The budget of `-n` and `-k`: a positive byte limit counts before a positive block limit, which
-- counts as its blocks' bytes; what an i64 does not hold is its largest value, and without a positive
-- limit there is no budget.
pub make_byte_budget-value :
    (bytes blocks : Option ℕ) (blksize : ℕ)
    → let n = unwrap_or bytes 0 in
      let k = unwrap_or blocks 0 in
      make_byte_budget bytes blocks blksize ≡ (
        if ltb 0 n
        then some (min n (2 ^ 63 - 1))
        else if ltb 0 k
        then some (min (k * blksize) (2 ^ 63 - 1))
        else none)
unfolding make_byte_budget
make_byte_budget-value none none blksize = refl
make_byte_budget-value none (some k) blksize = ground arith
make_byte_budget-value (some n) none blksize = ground arith
make_byte_budget-value (some n) (some k) blksize = ground arith
