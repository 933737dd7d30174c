-- ===== src/Stream/RecvStats/Bounds.antt =====
-- The packet counts stay in order and inside an i64, so their arithmetic never overflows.
use riperf.Base.{
  ℕ, suc, ◌+◌, ◌^◌, ◌-◌, ◌≤◌, ◌<◌, ◌≡◌, refl, inl, inr, List, [], ◌∷◌, arith, signed64, length,
}
use riperf.Base.Float.{Float}
use riperf.Stream.Header.{UdpHeader}
use riperf.Stream.RecvStats.{Counts, UdpRecvStats, count_packet, new, update, updates}
use riperf.Stream.RecvStats.Tally.{tally, count_packet_lem}

-- The counts after `received` datagrams: the losses are neither negative nor more than the highest
-- sequence number, which fits an i64, and no more datagrams count as reordered than arrived.
pub record InBounds (c : Counts) (received : ℕ) : Type 0 where
  pub top : ℕ
  pub errors : ℕ
  pub reordered : ℕ
  pub as_tally : c ≡ tally top errors reordered
  pub errors_le : errors ≤ top
  pub top_fits : top < 2 ^ 63
  pub reordered_le : reordered ≤ received

count_packet-InBounds :
    (p e o n seq : ℕ)
    → e ≤ p
    → p < 2 ^ 63
    → o ≤ n
    → InBounds (count_packet (tally p e o) (signed64 seq)) (suc n)
count_packet-InBounds p e o n seq ep fits on = elim (count_packet_lem p e o seq) [
  | inl (ahead, f, s) ↦ record {
    top = seq;
    errors = e + (seq - 1 - p);
    reordered = o;
    as_tally = s;
    errors_le = omega arith;
    top_fits = f;
    reordered_le = omega arith;
  }
  | inr (_, s) ↦ record {
    top = p;
    errors = e - 1;
    reordered = o + 1;
    as_tally = s;
    errors_le = omega arith;
    top_fits = fits;
    reordered_le = omega arith;
  }
]

module _ (F : Float) where
  updates-InBounds :
      (s : UdpRecvStats F) (ds : List (UdpHeader × F.Carrier)) (n m : ℕ)
      → n + length ds ≡ m
      → InBounds s.counts n
      → InBounds (updates F s ds).counts m
  unfolding updates update
  updates-InBounds s [] n m e v = record {
    top = v.top;
    errors = v.errors;
    reordered = v.reordered;
    as_tally = v.as_tally;
    errors_le = v.errors_le;
    top_fits = v.top_fits;
    reordered_le = omega arith;
  }
  updates-InBounds s ((h, t) ∷ r) n m e v =
      updates-InBounds (update F s h t) r (suc n) m (omega arith) (
        rw v.as_tally (
          count_packet-InBounds v.top v.errors v.reordered n h.seq v.errors_le v.top_fits
            v.reordered_le))

  -- Whatever datagrams arrive, in whatever order, the counts stay within these bounds.
  pub new-updates-InBounds :
      (ds : List (UdpHeader × F.Carrier)) → InBounds (updates F (new F) ds).counts (length ds)
  unfolding new
  new-updates-InBounds ds = updates-InBounds (new F) ds 0 (length ds) (omega arith) (record {
    top = 0;
    errors = 0;
    reordered = 0;
    as_tally = refl;
    errors_le = omega arith;
    top_fits = omega arith;
    reordered_le = omega arith;
  })
