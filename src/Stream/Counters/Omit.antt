-- ===== src/Stream/Counters/Omit.antt =====
-- The net counters cover what is recorded after the omit boundary.
use riperf.Base.{ℕ, ◌+◌, ◌%◌, ◌^◌, ◌<◌, ◌≡◌, List, [], ◌∷◌, arith}
use riperf.Stream.Counters.{
  StreamCounters, snapshot_omit, bytes_sent_net, bytes_received_net, datagrams_sent_net,
  record_sent, record_datagrams_sent, record_received,
}

-- What a data task records between two readings.
pub data Event : Type 0 where
  sends : ℕ → ℕ → Event
  receives : ℕ → Event

module _ {S : Type 0} where
  -- A batch of datagrams is recorded with its bytes.
  unfoldable pub apply : StreamCounters S → Event → StreamCounters S
  unfolding record_sent record_datagrams_sent record_received
  apply c (sends bytes packets) = record_datagrams_sent packets (record_sent bytes c)
  apply c (receives bytes) = record_received bytes c

  unfoldable pub apply_all : StreamCounters S → List Event → StreamCounters S
  apply_all c [] = c
  apply_all c (e ∷ es) = apply_all (apply c e) es

abbrev pub sent_of : List Event → ℕ
sent_of [] = 0
sent_of (sends b p ∷ es) = b + sent_of es
sent_of (receives b ∷ es) = sent_of es

abbrev pub packets_of : List Event → ℕ
packets_of [] = 0
packets_of (sends b p ∷ es) = p + packets_of es
packets_of (receives b ∷ es) = packets_of es

abbrev pub received_of : List Event → ℕ
received_of [] = 0
received_of (sends b p ∷ es) = received_of es
received_of (receives b ∷ es) = b + received_of es

module _ {S : Type 0} where
  record Sums (c d : StreamCounters S) (es : List Event) : Type 0 where
    sent : d.bytes_sent ≡ (c.bytes_sent + sent_of es) % 2 ^ 64
    packets : d.datagrams_sent ≡ (c.datagrams_sent + packets_of es) % 2 ^ 64
    received : d.bytes_received ≡ (c.bytes_received + received_of es) % 2 ^ 64
    sent_omit : d.bytes_sent_omit ≡ c.bytes_sent_omit
    packets_omit : d.datagrams_sent_omit ≡ c.datagrams_sent_omit
    received_omit : d.bytes_received_omit ≡ c.bytes_received_omit

  apply_all-Sums :
      (c : StreamCounters S) (es : List Event)
      → c.bytes_sent < 2 ^ 64
      → c.datagrams_sent < 2 ^ 64
      → c.bytes_received < 2 ^ 64
      → Sums c (apply_all c es) es
  unfolding apply_all apply
  apply_all-Sums c [] p q r = omega arith
  apply_all-Sums c (sends b n ∷ es) p q r =
      omega (arith, apply_all-Sums (apply c (sends b n)) es (omega arith) (omega arith) r)
  apply_all-Sums c (receives b ∷ es) p q r =
      omega (arith, apply_all-Sums (apply c (receives b)) es p q (omega arith))

  -- After the boundary, whatever batches are sent and received while no counter wraps, the net
  -- counts are the sums of those batches: what was counted before the boundary does not show.
  pub net-snapshot_omit :
      (c : StreamCounters S) (es : List Event)
      → c.bytes_sent + sent_of es < 2 ^ 64
      → c.datagrams_sent + packets_of es < 2 ^ 64
      → c.bytes_received + received_of es < 2 ^ 64
      → let d = apply_all (snapshot_omit c) es in
        (bytes_sent_net d ≡ sent_of es)
        × (datagrams_sent_net d ≡ packets_of es)
        × (bytes_received_net d ≡ received_of es)
  unfolding snapshot_omit bytes_sent_net datagrams_sent_net bytes_received_net
  net-snapshot_omit c es p q r =
      omega (arith, apply_all-Sums (snapshot_omit c) es (omega arith) (omega arith) (omega arith))
