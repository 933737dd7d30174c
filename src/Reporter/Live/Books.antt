-- ===== src/Reporter/Live/Books.antt =====
-- The bytes in the intervals against the counters of the streams.
use riperf.Base.{ℕ, ◌+◌, ◌^◌, ◌≤◌, ◌<◌, ◌≡◌, Bool, true, false, Option, arith, if◌then◌else◌}
use riperf.Base.Float.{Float}
use riperf.Stream.Counters.{
  StreamCounters, bytes_sent_net, bytes_received_net, record_sent, record_received,
  take_sent_interval, take_received_interval, snapshot_omit, set_omit_retransmits,
  peek_sent_interval, peek_received_interval,
}
use riperf.Reporter.Reading.{
  TcpInfoSnapshot, Slot, take_bytes, peek_bytes, sampled, read_tcp, read_udp, read_stream,
}
use riperf.Reporter.Live.{reset}
use riperf.Reporter.Live.Task.{on_counters, on_stats}
use riperf.Stream.RecvStats.{UdpRecvStats}

-- The bytes in the intervals so far are h: none of the warm-up, and behind it all that was counted
-- since the boundary and is not waiting.
abbrev pub Balance : Bool → Bool → StreamCounters TcpInfoSnapshot → ℕ → Type 0
Balance sends true c h = (h ≡ 0) × (c.bytes_sent_omit ≡ 0) × (c.bytes_received_omit ≡ 0)
Balance true false c h = h + c.bytes_sent_interval + c.bytes_sent_omit ≡ c.bytes_sent
Balance false false c h = h + c.bytes_received_interval + c.bytes_received_omit ≡ c.bytes_received

module _ {F : Float} where
  -- Reading a stream drains its own interval counter, and leaves the other counters as they are.
  pub read_stream-drains :
      (b : Bool) (s : Slot F)
      → ((read_stream b s).0.bytes ≡ peek_bytes s)
        × ((read_stream b s).1.counters ≡ (take_bytes s).1.counters)
        × ((read_stream b s).1.is_sender ≡ s.is_sender)
  unfolding read_stream take_bytes read_tcp read_udp sampled peek_bytes peek_sent_interval
      peek_received_interval take_sent_interval take_received_interval
  read_stream-drains b s = ground arith

  pub record Booked (warm : Bool) (h room : ℕ) (s : Slot F) : Type 0 where
    pub sent : s.counters.bytes_sent + room < 2 ^ 64
    pub received : s.counters.bytes_received + room < 2 ^ 64
    pub sent_interval : s.counters.bytes_sent_interval ≤ s.counters.bytes_sent
    pub received_interval : s.counters.bytes_received_interval ≤ s.counters.bytes_received
    pub balance : Balance s.is_sender warm s.counters h

  pub Booked-sent :
      {warm : Bool} {h room : ℕ} (n : ℕ) (s : Slot F)
      → Booked warm h (n + room) s
      → Booked warm h room (on_counters (record_sent n) s)
  unfolding record_sent
  Booked-sent n s b = ground arith

  pub Booked-received :
      {warm : Bool} {h room : ℕ} (n : ℕ) (s : Slot F)
      → Booked warm h (n + room) s
      → Booked warm h room (on_counters (record_received n) s)
  unfolding record_received
  Booked-received n s b = ground arith

  pub Booked-reset :
      {h room : ℕ} (retransmits : Bool) (s : Slot F)
      → Booked true h room s
      → Booked false h room (reset retransmits s)
  unfolding reset take_sent_interval take_received_interval snapshot_omit set_omit_retransmits
  Booked-reset retransmits s b = ground arith

  pub Booked-read :
      {warm : Bool} {h room : ℕ} (retransmits : Bool) (s : Slot F)
      → Booked warm h room s
      → Booked warm
          (if warm then h else h + (read_stream retransmits s).0.bytes)
          room
          (read_stream retransmits s).1
  unfolding take_bytes take_sent_interval take_received_interval peek_bytes peek_sent_interval
      peek_received_interval
  Booked-read retransmits s b = ground (arith, read_stream-drains retransmits s)

  pub Booked-on_stats :
      {warm : Bool} {h room : ℕ} (f : UdpRecvStats F → UdpRecvStats F) (s : Slot F)
      → Booked warm h room s
      → Booked warm h room (on_stats f s)
  Booked-on_stats f s b = ground arith

  pub Booked-samples :
      {warm : Bool} {h room : ℕ} (info : Option TcpInfoSnapshot) (s : Slot F)
      → Booked warm h room s
      → Booked warm h room (record s { tcp_info = info })
  Booked-samples info s b = ground arith

  -- What is booked bounds the room that is left from below.
  pub Booked-shrink :
      {warm : Bool} {h room : ℕ} (n : ℕ) (s : Slot F)
      → Booked warm h (n + room) s
      → Booked warm h room s
  Booked-shrink n s b = ground arith

  -- The own counter of a stream since the boundary
  abbrev pub net_bytes : Slot F → ℕ
  net_bytes s = if s.is_sender then bytes_sent_net s.counters else bytes_received_net s.counters

  pub Booked-net :
      {h room : ℕ} (s : Slot F) → Booked false h room s → h + peek_bytes s ≡ net_bytes s
  unfolding bytes_sent_net bytes_received_net peek_bytes peek_sent_interval peek_received_interval
  Booked-net s b = ground arith
