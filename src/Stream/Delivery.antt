-- ===== src/Stream/Delivery.antt =====
-- From the UDP sender's loop (`udp_send_loop`) to the receiver's statistics (`UdpRecvStats`), both of
-- riperf3/src/stream.rs, over a network that may lose and reorder datagrams.
use mathlib.Core.Path.{subst}
use mathlib.Core.List.{Memᴰ}
use mathlib.Core.List.Memᴰ
use riperf.Base.{
  ℕ, zero, suc, ◌+◌, ◌-◌, ◌^◌, ◌≤◌, ◌<◌, ◌≡◌, List, [], ◌∷◌, Option, length, arith, inl, inr, All,
  pos,
}
use riperf.Base.Distinct.{Distinct, InRange, InRange-mono}
use riperf.Base.Float.{Float}
use riperf.Stream.Header.{UdpHeader}
use riperf.Stream.RecvStats.{new, updates}
use riperf.Stream.RecvStats.Loss.{maximum, arrived, new-updates-cnt_error}
use riperf.Stream.Sender.{Round, fresh, udp_send_loop}
use riperf.Stream.Sender.Sequence.{seqs, following, room, udp_send_loop-numbers, udp_send_loop-room}

-- Each number is one of the headers sent.
abbrev pub AllSent : List UdpHeader → List ℕ → Type 0
AllSent sent = All (λ n. Memᴰ n (seqs sent))

member_of_following : (n k a : ℕ) → Memᴰ a (following n k) → (n < a) × (a ≤ n + k)
member_of_following n zero a m = absurd (Memᴰ.not-nil m)
member_of_following n (suc k) a m = elim (Memᴰ.cases_cons m) [
  | inl e ↦ (omega arith, omega arith)
  | inr m' ↦ let b = member_of_following (suc n) k a m' in (omega (arith, b), omega (arith, b))
]

AllSent-InRange :
    (sent : List UdpHeader) (k : ℕ) (ns : List ℕ)
    → seqs sent ≡ following 0 k
    → AllSent sent ns
    → InRange k ns
AllSent-InRange sent k [] e h = tt
AllSent-InRange sent k (n ∷ ns) e h =
    let b = member_of_following 0 k n (subst (Memᴰ n) e h.0) in
    ((b.0, omega (arith, b)), AllSent-InRange sent k ns e h.1)

maximum-InRange : (k : ℕ) (ns : List ℕ) → InRange k ns → maximum ns ≤ k
maximum-InRange k [] r = omega arith
maximum-InRange k (n ∷ ns) r = ground (arith, r.0, maximum-InRange k ns r.1)

member_le_maximum : (a : ℕ) (ns : List ℕ) → Memᴰ a ns → a ≤ maximum ns
member_le_maximum a [] m = absurd (Memᴰ.not-nil m)
member_le_maximum a (n ∷ ns) m = elim (Memᴰ.cases_cons m) [
  | inl e ↦ ground arith
  | inr m' ↦ ground (arith, member_le_maximum a ns m')
]

-- Behind a loop with room for fewer than 2^63 datagrams: when the network invents and duplicates none,
-- then in whatever order they arrive, as long as the last one is among them, the packet count of the
-- receiver is the datagram counter of the sender, and the losses counted are exactly the datagrams that
-- were sent and did not arrive.
pub updates-udp_send_loop :
    (S : Type 0) (size : ℕ) (pacing deadline : Option ℕ) (start : ℕ) (rs : List Round) (F : Float)
    (ds : List (UdpHeader × F.Carrier))
    → let f = udp_send_loop size pacing deadline (fresh S start) rs in
      let sent = f.counters.datagrams_sent in
      let c = (updates F (new F) ds).counts in
      room size rs < 2 ^ 63
      → Distinct (arrived [] ds)
      → AllSent f.headers (arrived [] ds)
      → Memᴰ sent (arrived [] ds)
      → (c.packet_count ≡ pos sent)
        × (c.cnt_error ≡ pos (sent - length (arrived [] ds)))
        × (length (arrived [] ds) ≤ sent)
updates-udp_send_loop S size pacing deadline start rs F ds h d a last =
    let f = udp_send_loop size pacing deadline (fresh S start) rs in
    let (numbers, counted) = udp_send_loop-numbers S size pacing deadline start rs (omega arith) in
    let bound = udp_send_loop-room S size pacing deadline start rs (omega arith) in
    let range = AllSent-InRange f.headers f.seq (arrived [] ds) numbers a in
    let top : maximum (arrived [] ds) ≡ f.counters.datagrams_sent = omega (
      arith,
      counted,
      maximum-InRange f.seq (arrived [] ds) range,
      member_le_maximum f.counters.datagrams_sent (arrived [] ds) last,
    ) in
    let loss =
      new-updates-cnt_error F ds d
        (InRange-mono f.seq (2 ^ 63 - 1) (arrived [] ds) (omega (arith, bound)) range) in
    rw (← top) loss
