-- ===== src/Stream/RecvStats/Tally.antt =====
-- The packet counts as natural numbers, and one step of them.
use riperf.Base.{
  ℕ, ◌+◌, ◌-◌, ◌^◌, ◌≤◌, ◌<◌, ◌≡◌, ◌⊎◌, inl, inr, arith, pos, negsuc, signed64, ltb, Bool-cases,
}
use riperf.Stream.RecvStats.{Counts, count_packet}

abbrev pub tally : ℕ → ℕ → ℕ → Counts
tally top errors reordered = record {
  packet_count = pos top;
  cnt_error = pos errors;
  outoforder_packets = pos reordered;
}

count_packet_ahead :
    (p e o n : ℕ) → p < n → count_packet (tally p e o) (pos n) ≡ tally n (e + (n - 1 - p)) o
unfolding count_packet
count_packet_ahead p e o n h = ground arith

count_packet_old :
    (p e o n : ℕ) → n ≤ p → count_packet (tally p e o) (pos n) ≡ tally p (e - 1) (o + 1)
unfolding count_packet
count_packet_old p e o n h = ground arith

count_packet_negative :
    (p e o m : ℕ) → count_packet (tally p e o) (negsuc m) ≡ tally p (e - 1) (o + 1)
unfolding count_packet
count_packet_negative p e o m = ground arith

signed64_cases :
    (w : ℕ)
    → ((w < 2 ^ 63) × (signed64 w ≡ pos w)) ⊎ ((m : ℕ) × (2 ^ 63 ≤ w) × (signed64 w ≡ negsuc m))
signed64_cases w = elim (Bool-cases (ltb w (2 ^ 63))) [
  | inl h ↦ inl (ground arith, rw h)
  | inr h ↦ inr (2 ^ 64 - w - 1, ground arith, rw h)
]

-- A sequence number above the highest so far moves it, and the gap counts as lost; any other
-- number counts as reordered, and takes one loss back.
pub count_packet_lem :
    (p e o seq : ℕ)
    → ((p < seq)
        × (seq < 2 ^ 63)
        × (count_packet (tally p e o) (signed64 seq) ≡ tally seq (e + (seq - 1 - p)) o))
      ⊎ (((seq ≤ p) ⊎ (2 ^ 63 ≤ seq))
          × (count_packet (tally p e o) (signed64 seq) ≡ tally p (e - 1) (o + 1)))
count_packet_lem p e o seq = elim (signed64_cases seq) [
  | inl (fits, s) ↦ elim (Bool-cases (ltb p seq)) [
    | inl ahead ↦ inl (ground arith, fits, rw s (count_packet_ahead p e o seq (ground arith)))
    | inr old ↦ inr (inl (ground arith), rw s (count_packet_old p e o seq (ground arith)))
  ]
  | inr (m, big, s) ↦ inr (inr big, rw s (count_packet_negative p e o m))
]
