-- ===== src/Stream/Walk/Train.antt =====
-- A train of datagrams is accounted datagram by datagram.
use riperf.Base.{
  ℕ, zero, suc, ◌+◌, ◌^◌, ◌≤◌, ◌<◌, ◌≡◌, refl, Bool, true, false, List, [], ◌∷◌, ◌++◌, some, Bytes,
  ltb, if◌then◌else◌, length, drop, max, arith, All, length-append, drop-append, append_assoc, sym,
}
use riperf.Base.Float.{Float}
use riperf.Stream.Header.{UdpHeader, wire_size, read_from}
use riperf.Stream.Header.RoundTrip.{header_bytes}
use riperf.Stream.RecvStats.{UdpRecvStats, update, updates}
use riperf.Stream.Walk.{walk_from, walk_udp_headers}

-- A header whose fields fit the words of its form.
abbrev pub Fits : Bool → UdpHeader → Type 0
Fits use_64bit h =
    (h.sec < 2 ^ 32) × (h.usec < 2 ^ 32) × (h.seq < (if use_64bit then 2 ^ 64 else 2 ^ 32))

-- The datagrams of one read: each a header and its payload.
abbrev pub train : Bool → List (UdpHeader × Bytes) → Bytes
train use_64bit [] = []
train use_64bit ((h, payload) ∷ r) = (header_bytes h use_64bit ++ payload) ++ train use_64bit r

-- The headers with the times at which the rounds read the clock.
abbrev pub stamped : {T : Type 0} → (ℕ → T) → ℕ → List (UdpHeader × Bytes) → List (UdpHeader × T)
stamped clock i [] = []
stamped clock i ((h, payload) ∷ r) = (h, clock i) ∷ stamped clock (suc i) r

length-header_bytes : (h : UdpHeader) (b : Bool) → length (header_bytes h b) ≡ wire_size b
length-header_bytes h true = refl
length-header_bytes h false = refl

read_front :
    (h : UdpHeader) (b : Bool) (rest : Bytes)
    → Fits b h
    → read_from (header_bytes h b ++ rest) b ≡ some h
unfolding read_from
read_front h true rest f = ground arith
read_front h false rest f = ground arith

some_size : (b : Bool) → 1 ≤ wire_size b
some_size true = omega arith
some_size false = omega arith

module _ (F : Float) where
  walk_train :
      (fuel stride : ℕ) (b : Bool) (clock : ℕ → F.Carrier) (i : ℕ) (ds : List (UdpHeader × Bytes))
      (stats : UdpRecvStats F)
      → length (train b ds) < fuel
      → All (λ d. Fits b d.0 × (wire_size b + length d.1 ≡ stride)) ds
      → walk_from F fuel stride b clock i (train b ds) stats ≡ updates F stats (stamped clock i ds)
  unfolding walk_from updates
  walk_train zero stride b clock i ds stats h a = absurd (omega arith)
  walk_train (suc fuel) stride true clock i [] stats h a = refl
  walk_train (suc fuel) stride false clock i [] stats h a = refl
  walk_train (suc fuel) stride b clock i ((hd, payload) ∷ r) stats h a =
      let ((fits, size), others) = a in
      let dgram = header_bytes hd b ++ payload in
      let size_dgram : length dgram ≡ stride =
        omega (arith, length-append (header_bytes hd b) payload, length-header_bytes hd b) in
      let whole = length-append dgram (train b r) in
      let front : read_from (dgram ++ train b r) b ≡ some hd =
        rw (append_assoc (header_bytes hd b) payload (train b r))
          (read_front hd b (payload ++ train b r) fits) in
      let rest : drop stride (dgram ++ train b r) ≡ train b r =
        rw (sym size_dgram) (drop-append dgram (train b r)) in
      let long : ltb (length (dgram ++ train b r)) (wire_size b) ≡ false = ground arith in
      let tail = walk_train fuel stride b clock (suc i) r (update F stats hd (clock i)) in
      rw (long, front, rest) (tail (omega (arith, whole, size_dgram, some_size b)) others)

-- A read that holds datagrams of the block size, each with a header that fits, updates the
-- statistics once for each of them, in their order, with the time at which its round reads the clock.
pub walk_udp_headers-train :
    (F : Float) (blksize : ℕ) (b : Bool) (clock : ℕ → F.Carrier) (ds : List (UdpHeader × Bytes))
    (stats : UdpRecvStats F)
    → All (λ d. Fits b d.0 × (wire_size b + length d.1 ≡ blksize)) ds
    → walk_udp_headers F (train b ds) blksize b clock stats ≡ updates F stats (stamped clock 0 ds)
unfolding walk_udp_headers updates
walk_udp_headers-train F blksize true clock [] stats a = refl
walk_udp_headers-train F blksize false clock [] stats a = refl
walk_udp_headers-train F blksize b clock (d ∷ ds) stats a =
    let stride : max blksize (wire_size b) ≡ blksize = omega (arith, a.0.1) in
    rw stride (
      walk_train F (suc (length (train b (d ∷ ds)))) blksize b clock 0 (d ∷ ds) stats (omega arith)
        a)
