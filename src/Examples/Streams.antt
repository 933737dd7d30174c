-- ===== src/Examples/Streams.antt =====
-- Examples of the data streams and of the number conversions.
use riperf.Base.{
  ◌-ℤ◌, ◌*ℤ◌, ℕ, ◌+◌, ◌-◌, ◌≤◌, ◌≡◌, refl, true, false, List, [], ◌∷◌, none, some, ℤ, pos, negsuc,
  Bytes, length, arith, replicate, All, min,
}
use riperf.Base.Float.{whole}
use riperf.Stream.Header.{UdpHeader, write_to, read_from}
use riperf.Stream.Header.RoundTrip.{read_from-write_to}
use riperf.Stream.RecvStats.{new, updates}
use riperf.Stream.RecvStats.Loss.{new-updates-cnt_error}
use riperf.Stream.Counters.{StreamCounters, new as new_counters}
use riperf.Stream.Counters.Interleaving.{
  Atomic, total, interval, done, left, right, run, run-Interleaved,
}
use riperf.Stream.Sender.{Round, Sender, accepted, would_block, send_error, udp_send_loop, fresh}
use mathlib.Core.List.{Memᴰ}
use riperf.Stream.Delivery.{updates-udp_send_loop}
use riperf.Stream.Sender.Sequence.{seqs, following, udp_send_loop-numbers}
use riperf.Stream.Walk.{walk_udp_headers}
use riperf.Stream.Walk.Train.{train, walk_udp_headers-train}
use riperf.Stream.Pacing.{Clock, RateLimiter, Reading, green, acquire}
use riperf.Stream.Pacing.Throttle.{Paid}
use riperf.Stream.Pacing.Bursts.{Blocks, acquires, Idle, acquires-burst}
use riperf.Server.RateWindow.{from_interval_secs, push, pushed, average}
use riperf.Server.RateWindow.Average.{push-average}

abbrev header : ℕ → UdpHeader
header n = record { sec = 5; usec = 250000; seq = n }

read_from-write_to_example :
    (out : Bytes) × (write_to (header 4294967301) (replicate 20 7) false ≡ some out)
    × (length out ≡ 20)
    × (read_from out false ≡ some (header 5))
read_from-write_to_example =
    read_from-write_to (header 4294967301) (replicate 20 7) false (omega arith) (omega arith)
      (omega arith) (omega arith)

-- The third datagram overtakes the second, and the fourth is lost.
abbrev datagrams : List (UdpHeader × ℤ)
datagrams = (header 1, pos 6) ∷ (header 3, pos 8) ∷ (header 2, pos 8) ∷ (header 5, pos 9) ∷ []

new-updates-cnt_error_example :
    ((updates whole (new whole) datagrams).counts.packet_count ≡ pos 5)
    × ((updates whole (new whole) datagrams).counts.cnt_error ≡ pos (5 - 4))
    × (4 ≤ 5)
new-updates-cnt_error_example = new-updates-cnt_error whole datagrams (ground arith) (ground arith)

abbrev counted : StreamCounters (Unit {0})
counted = record {
  bytes_sent = 100;
  bytes_received = 50;
  bytes_sent_interval = 0;
  bytes_received_interval = 0;
  bytes_sent_omit = 0;
  bytes_received_omit = 0;
  datagrams_sent = 2;
  datagrams_sent_omit = 0;
  final_retransmits = negsuc 0;
  omit_retransmits = pos 0;
  final_tcp_sample = none;
}

-- The reporter reads between the two additions of the first batch.
abbrev steps : List Atomic
steps = total 10 ∷ Atomic.take ∷ interval 10 ∷ total 4 ∷ interval 4 ∷ Atomic.take ∷ []

run-Interleaved_example :
    let (taken, c) = run (new_counters (Unit {0})) steps in
    (c.bytes_sent ≡ 14) × (taken + c.bytes_sent_interval ≡ 14)
run-Interleaved_example =
    run-Interleaved (Unit {0}) (10 ∷ 4 ∷ []) 2 steps
      (left (right (left (left (left (right done)))))) (omega arith)

abbrev joined : List (UdpHeader × Bytes)
joined = (header 1, 1 ∷ 2 ∷ []) ∷ (header 2, 3 ∷ 4 ∷ []) ∷ []

walk_udp_headers-train_example :
    walk_udp_headers whole (train true joined) 18 true (λ i. pos (i + 6)) (new whole)
    ≡ updates whole (new whole) ((header 1, pos 6) ∷ (header 2, pos 7) ∷ [])
walk_udp_headers-train_example =
    walk_udp_headers-train whole 18 true (λ i. pos (i + 6)) joined (new whole) (ground arith)

abbrev seconds : Clock
seconds = record { f64 = whole; from_secs_f64 = λ s. 1000000000; as_secs_f64 = λ n. pos n }

abbrev limiter : RateLimiter seconds
limiter = record {
  rate_bytes_per_sec = pos 10;
  pacing = 1000000;
  sent = 25;
  burst = 3;
  in_burst = 0;
}

abbrev readings : List (Reading seconds)
readings = record { elapsed = pos 2; done = false } ∷ record { elapsed = pos 3; done = false } ∷ []

-- Of its burst of two, the second block finds no reading and needs none.
abbrev calls : Blocks seconds
calls = (5, []) ∷ []

abbrev bursting : RateLimiter seconds
bursting = record limiter { burst = 2 }

acquires-burst_example :
    Paid seconds bursting readings
    × All
        (λ s. (s ≤ 100000000) × (min bursting.pacing 100000000 ≤ s))
        (acquire seconds 5 readings bursting).0.1
    × All (λ x. x ≡ (green, [])) (acquires seconds calls (acquire seconds 5 readings bursting).1).0
    × Idle seconds bursting
        (5 + 5)
        (acquires seconds calls (acquire seconds 5 readings bursting).1).1
unfolding acquire ◌-ℤ◌ ◌*ℤ◌
acquires-burst_example =
    acquires-burst seconds 5 readings calls bursting refl refl (omega arith) refl

push-average_example :
    (push whole (pushed whole (from_interval_secs whole (pos 2)) (30 ∷ 20 ∷ 10 ∷ [])) 40).0
    ≡ some (average whole (40 + 30) 2)
unfolding from_interval_secs
push-average_example =
    push-average whole (pos 2) 40 (30 ∷ 20 ∷ 10 ∷ []) (omega arith) (omega arith) (omega arith)

-- Two rounds of three: in the first the third send would block, in the second the second one fails.
abbrev rounds : List Round
rounds =
    record {
      done = false;
      now = 0;
      sec = 5;
      usec = 0;
      results = accepted 1200 ∷ accepted 1200 ∷ would_block ∷ [];
      pace = record { now = 1000000; done = false } ∷ [];
    }
    ∷ record {
      done = false;
      now = 1000000;
      sec = 5;
      usec = 1000;
      results = accepted 1200 ∷ send_error ∷ [];
      pace = record { now = 2000000; done = false } ∷ [];
    }
    ∷ []

abbrev after_rounds : Sender ℕ
after_rounds = udp_send_loop 3 (some 1000000) none (fresh ℕ 0) rounds

three_sent : (after_rounds.seq ≡ 3) × (after_rounds.counters.bytes_sent ≡ 3600)
unfolding udp_send_loop fresh
three_sent = (refl, refl)

udp_send_loop-numbers_example :
    (seqs after_rounds.headers ≡ following 0 after_rounds.seq)
    × (after_rounds.counters.datagrams_sent ≡ after_rounds.seq)
udp_send_loop-numbers_example = udp_send_loop-numbers ℕ 3 (some 1000000) none 0 rounds (omega arith)

-- The second datagram is lost, and the third overtakes the first.
abbrev delivered : List (UdpHeader × ℤ)
delivered = (header 3, pos 8) ∷ (header 1, pos 9) ∷ []

updates-udp_send_loop_example :
    ((updates whole (new whole) delivered).counts.packet_count
      ≡ pos after_rounds.counters.datagrams_sent)
    × ((updates whole (new whole) delivered).counts.cnt_error
        ≡ pos (after_rounds.counters.datagrams_sent - 2))
    × (2 ≤ after_rounds.counters.datagrams_sent)
unfolding udp_send_loop fresh
updates-udp_send_loop_example =
    updates-udp_send_loop ℕ 3 (some 1000000) none 0 rounds whole delivered (omega arith)
      (ground arith) (Memᴰ.head refl, (Memᴰ.tail (Memᴰ.tail (Memᴰ.head refl)), tt))
      (Memᴰ.tail (Memᴰ.head refl))
