-- ===== src/Stream/Counters/Interleaving.antt =====
-- `record_sent` in the data task beside `take_sent_interval` in the reporter: each atomic operation
-- is a step, and the steps of the two interleave in any way.
use riperf.Base.{ℕ, zero, suc, ◌+◌, ◌^◌, ◌<◌, ◌≡◌, refl, List, [], ◌∷◌, arith, sum, replicate}
use riperf.Stream.Counters.{StreamCounters, new, add_sent, add_sent_interval, take_sent_interval}

pub data Atomic : Type 0 where
  total : ℕ → Atomic
  interval : ℕ → Atomic
  take : Atomic

-- The steps of `record_sent`, once for each batch.
abbrev pub sender : List ℕ → List Atomic
sender [] = []
sender (n ∷ ns) = total n ∷ interval n ∷ sender ns

-- `Interleaved xs ys zs`: zs runs the steps of xs and of ys, each in its own order.
pub data Interleaved : List Atomic → List Atomic → List Atomic → Type 0 where
  done : Interleaved [] [] []
  left :
      {x : Atomic} {xs ys zs : List Atomic}
      → Interleaved xs ys zs
      → Interleaved (x ∷ xs) ys (x ∷ zs)
  right :
      {y : Atomic} {xs ys zs : List Atomic}
      → Interleaved xs ys zs
      → Interleaved xs (y ∷ ys) (y ∷ zs)

module _ {S : Type 0} where
  -- The counters after the steps, and the sum of what the reporter took.
  unfoldable pub run : StreamCounters S → List Atomic → ℕ × StreamCounters S
  unfolding add_sent add_sent_interval take_sent_interval
  run c [] = (0, c)
  run c (total n ∷ r) = run (add_sent n c) r
  run c (interval n ∷ r) = run (add_sent_interval n c) r
  run c (take ∷ r) = let (v, c') = take_sent_interval c in let (t, d) = run c' r in (v + t, d)

abbrev pub totals : List Atomic → ℕ
totals [] = 0
totals (total n ∷ r) = n + totals r
totals (interval n ∷ r) = totals r
totals (take ∷ r) = totals r

abbrev pub intervals : List Atomic → ℕ
intervals [] = 0
intervals (total n ∷ r) = intervals r
intervals (interval n ∷ r) = n + intervals r
intervals (take ∷ r) = intervals r

sums-sender : (ns : List ℕ) → (totals (sender ns) ≡ sum ns) × (intervals (sender ns) ≡ sum ns)
sums-sender [] = (refl, refl)
sums-sender (n ∷ ns) = omega (arith, sums-sender ns)

sums-replicate : (k : ℕ) → (totals (replicate k take) ≡ 0) × (intervals (replicate k take) ≡ 0)
sums-replicate zero = (refl, refl)
sums-replicate (suc k) = sums-replicate k

sums-Interleaved :
    {xs ys zs : List Atomic}
    → Interleaved xs ys zs
    → (totals zs ≡ totals xs + totals ys) × (intervals zs ≡ intervals xs + intervals ys)
sums-Interleaved done = omega arith
sums-Interleaved (left {x = total n} i) = omega (arith, sums-Interleaved i)
sums-Interleaved (left {x = interval n} i) = omega (arith, sums-Interleaved i)
sums-Interleaved (left {x = take} i) = omega (arith, sums-Interleaved i)
sums-Interleaved (right {y = total n} i) = omega (arith, sums-Interleaved i)
sums-Interleaved (right {y = interval n} i) = omega (arith, sums-Interleaved i)
sums-Interleaved (right {y = take} i) = omega (arith, sums-Interleaved i)

module _ {S : Type 0} where
  run_sums :
      (c : StreamCounters S) (zs : List Atomic)
      → c.bytes_sent + totals zs < 2 ^ 64
      → c.bytes_sent_interval + intervals zs < 2 ^ 64
      → ((run c zs).1.bytes_sent ≡ c.bytes_sent + totals zs)
        × ((run c zs).0 + (run c zs).1.bytes_sent_interval ≡ c.bytes_sent_interval + intervals zs)
  unfolding run
  run_sums c [] p q = omega arith
  run_sums c (total n ∷ r) p q = omega (arith, run_sums (add_sent n c) r (omega arith) q)
  run_sums c (interval n ∷ r) p q =
      omega (arith, run_sums (add_sent_interval n c) r p (omega arith))
  run_sums c (take ∷ r) p q = omega (arith, run_sums (take_sent_interval c).1 r p (omega arith))

-- However the reporter's readings interleave with the two additions of each `record_sent`, once the
-- sender is done the intervals taken and the rest that is still to be taken make up exactly the
-- bytes sent, as long as these stay below 2^64: no byte is lost between two intervals or counted in
-- both.
pub run-Interleaved :
    (S : Type 0) (ns : List ℕ) (k : ℕ) (zs : List Atomic)
    → Interleaved (sender ns) (replicate k take) zs
    → sum ns < 2 ^ 64
    → let (taken, c) = run (new S) zs in
      (c.bytes_sent ≡ sum ns) × (taken + c.bytes_sent_interval ≡ sum ns)
unfolding new
run-Interleaved S ns k zs i h =
    omega (arith, run_sums (new S) zs, sums-Interleaved i, sums-sender ns, sums-replicate k)
