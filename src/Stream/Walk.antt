-- ===== src/Stream/Walk.antt =====
-- `walk_udp_headers` of riperf3/src/stream.rs: the headers of one read, which may hold several
-- datagrams that the kernel has joined. Off a buffer is its rest from there, and the fuel is the
-- number of its bytes: each round consumes at least the header.
pub mod Train
use riperf.Base.{
  ℕ, zero, suc, ◌+◌, Bool, true, false, List, [], ◌∷◌, Option, none, some, Bytes, ltb,
  if◌then◌else◌, length, drop, max,
}
use riperf.Base.Float.{Float}
use riperf.Stream.Header.{UdpHeader, wire_size, read_from}
use riperf.Stream.RecvStats.{UdpRecvStats, update}

module _ (F : Float) where
  unfoldable pub account : Option UdpHeader → F.Carrier → UdpRecvStats F → UdpRecvStats F
  account none arrival stats = stats
  account (some header) arrival stats = update F stats header arrival

  -- `clock i` is the time that the i-th round reads.
  unfoldable pub walk_from :
      ℕ → ℕ → Bool → (ℕ → F.Carrier) → ℕ → Bytes → UdpRecvStats F → UdpRecvStats F
  unfolding account
  walk_from zero stride use_64bit clock i buf stats = stats
  walk_from (suc fuel) stride use_64bit clock i buf stats =
      let next = account (read_from buf use_64bit) (clock i) stats in
      let rest = walk_from fuel stride use_64bit clock (suc i) (drop stride buf) next in
      if ltb (length buf) (wire_size use_64bit) then stats else rest

  unfoldable pub walk_udp_headers :
      Bytes → ℕ → Bool → (ℕ → F.Carrier) → UdpRecvStats F → UdpRecvStats F
  unfolding walk_from
  walk_udp_headers buf blksize use_64bit clock stats =
      walk_from (suc (length buf)) (max blksize (wire_size use_64bit)) use_64bit clock 0 buf stats
