-- ===== src/Stream/RecvStats/Loss.antt =====
-- What the loss count says of traffic in which no datagram arrives twice.
use riperf.Base.{
  ℕ, ◌+◌, ◌^◌, ◌-◌, ◌≤◌, ◌<◌, ◌≡◌, refl, inl, inr, List, [], ◌∷◌, arith, pos, signed64, length, max,
}
use riperf.Base.Distinct.{Distinct, InRange, InRange-mono, length-le_of_Distinct}
use riperf.Base.Float.{Float}
use riperf.Stream.Header.{UdpHeader}
use riperf.Stream.RecvStats.{Counts, UdpRecvStats, count_packet, new, update, updates}
use riperf.Stream.RecvStats.Tally.{tally, count_packet_lem}

abbrev pub maximum : List ℕ → ℕ
maximum [] = 0
maximum (x ∷ xs) = max x (maximum xs)

-- The counts once the datagrams numbered `seen` have arrived: the highest number is the sum of the
-- losses and the arrivals.
record Accounts (c : Counts) (seen : List ℕ) : Type 0 where
  top : ℕ
  errors : ℕ
  reordered : ℕ
  as_tally : c ≡ tally top errors reordered
  balance : errors + length seen ≡ top
  below : InRange top seen
  highest : maximum seen ≡ top

count_packet-Accounts :
    (p e o : ℕ) (seen : List ℕ) (n : ℕ)
    → 0 < n
    → n < 2 ^ 63
    → Distinct (n ∷ seen)
    → e + length seen ≡ p
    → InRange p seen
    → maximum seen ≡ p
    → Accounts (count_packet (tally p e o) (signed64 n)) (n ∷ seen)
count_packet-Accounts p e o seen n low fits d b r m = elim (count_packet_lem p e o n) [
  | inl (ahead, f, s) ↦ record {
    top = n;
    errors = e + (n - 1 - p);
    reordered = o;
    as_tally = s;
    balance = omega arith;
    below = ((low, omega arith), InRange-mono p n seen (omega arith) r);
    highest = omega arith;
  }
  | inr (old, s) ↦
      let old' : n ≤ p = omega arith in
      record {
        top = p;
        errors = e - 1;
        reordered = o + 1;
        as_tally = s;
        balance = omega (arith, length-le_of_Distinct p (n ∷ seen) d ((low, old'), r));
        below = ((low, old'), r);
        highest = omega arith;
      }
]

-- The sequence numbers of the datagrams, the last to arrive first.
abbrev pub arrived {ℓ} : {T : Type ℓ} → List ℕ → List (UdpHeader × T) → List ℕ
arrived seen [] = seen
arrived seen ((h, t) ∷ r) = arrived (h.seq ∷ seen) r

Distinct-arrived {ℓ} :
    {T : Type ℓ} (ds : List (UdpHeader × T)) (seen : List ℕ)
    → Distinct (arrived seen ds)
    → Distinct seen
Distinct-arrived [] seen d = d
Distinct-arrived ((h, t) ∷ r) seen d = (Distinct-arrived r (h.seq ∷ seen) d).1

InRange-arrived {ℓ} :
    {T : Type ℓ} (p : ℕ) (ds : List (UdpHeader × T)) (seen : List ℕ)
    → InRange p (arrived seen ds)
    → InRange p seen
InRange-arrived p [] seen r = r
InRange-arrived p ((h, t) ∷ ds) seen r = (InRange-arrived p ds (h.seq ∷ seen) r).1

module _ (F : Float) where
  updates-Accounts :
      (s : UdpRecvStats F) (ds : List (UdpHeader × F.Carrier)) (seen : List ℕ)
      → Distinct (arrived seen ds)
      → InRange (2 ^ 63 - 1) (arrived seen ds)
      → Accounts s.counts seen
      → Accounts (updates F s ds).counts (arrived seen ds)
  unfolding updates update
  updates-Accounts s [] seen d r v = v
  updates-Accounts s ((h, t) ∷ ds) seen d r v =
      let new_range = InRange-arrived (2 ^ 63 - 1) ds (h.seq ∷ seen) r in
      updates-Accounts (update F s h t) ds (h.seq ∷ seen) d r (
        rw v.as_tally (
          count_packet-Accounts v.top v.errors v.reordered seen h.seq new_range.0.0 (omega arith)
            (Distinct-arrived ds (h.seq ∷ seen) d) v.balance v.below v.highest))

  -- When every datagram carries another sequence number, from 1 to 2^63 - 1, then in whatever order
  -- they arrive the packet count is the highest number, and the losses counted are exactly the
  -- numbers up to it that did not arrive.
  pub new-updates-cnt_error :
      (ds : List (UdpHeader × F.Carrier))
      → Distinct (arrived [] ds)
      → InRange (2 ^ 63 - 1) (arrived [] ds)
      → let c = (updates F (new F) ds).counts in
        (c.packet_count ≡ pos (maximum (arrived [] ds)))
        × (c.cnt_error ≡ pos (maximum (arrived [] ds) - length (arrived [] ds)))
        × (length (arrived [] ds) ≤ maximum (arrived [] ds))
  unfolding new
  new-updates-cnt_error ds d r =
      let v = updates-Accounts (new F) ds [] d r (record {
        top = 0;
        errors = 0;
        reordered = 0;
        as_tally = refl;
        balance = omega arith;
        below = tt;
        highest = omega arith;
      }) in
      let e : v.errors ≡ maximum (arrived [] ds) - length (arrived [] ds) = omega (arith, v) in
      (rw (v.as_tally, v.highest) refl, rw (v.as_tally, e) refl, omega (arith, v))
