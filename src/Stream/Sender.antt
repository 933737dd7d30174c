-- ===== src/Stream/Sender.antt =====
-- `udp_send_loop` and `pace_until` of riperf3/src/stream.rs. An `Instant` is its nanoseconds. What the
-- loop reads of the clocks, the flag and the socket is given round by round.
pub mod Sequence
use riperf.Base.{
  ℕ, zero, suc, ◌+◌, ◌-◌, ◌*◌, ◌%◌, ◌^◌, Bool, true, false, ◌||◌, List, [], ◌∷◌, ◌++◌, Option, none,
  some, ltb, leb, ◌==◌, if◌then◌else◌, min, unwrap_or,
}
use riperf.Stream.Header.{UdpHeader}
use riperf.Stream.Counters.{StreamCounters, new, record_sent, record_datagrams_sent}

-- What a call of `send` or `send_to` answers.
pub data SendResult : Type 0 where
  accepted : ℕ → SendResult
  would_block : SendResult
  send_error : SendResult

-- A batch: the sequence number it ends with, the bytes and the packets, the headers sent.
pub record Batch : Type 0 where
  pub seq : ℕ
  pub bytes : ℕ
  pub packets : ℕ
  pub headers : List UdpHeader

-- A batch that sends nothing.
abbrev pub empty : ℕ → Batch
empty seq = record { seq = seq; bytes = 0; packets = 0; headers = [] }

-- The datagrams of a batch, at most as many as its size. Where the results end, so does the batch.
unfoldable pub send_batch : ℕ → ℕ → ℕ → ℕ → List SendResult → Batch
send_batch sec usec zero seq rs = empty seq
send_batch sec usec (suc n) seq [] = empty seq
send_batch sec usec (suc n) seq (would_block ∷ rs) = empty seq
send_batch sec usec (suc n) seq (send_error ∷ rs) = empty seq
send_batch sec usec (suc n) seq (accepted b ∷ rs) =
    let next = (seq + 1) % 2 ^ 64 in
    let rest = send_batch sec usec n next rs in
    record rest {
      bytes = (b + rest.bytes) % 2 ^ 64;
      packets = (1 + rest.packets) % 2 ^ 64;
      headers = record { sec = sec; usec = usec; seq = next } ∷ rest.headers;
    }

-- What a round of `pace_until` reads: the time, and whether the test is done.
pub record PaceReading : Type 0 where
  pub now : ℕ
  pub done : Bool

-- Whether the deadline has come.
unfoldable pub expired : Option ℕ → ℕ → Bool
expired none now = false
expired (some deadline) now = leb deadline now

-- Its answer, and its sleeps: `none` where the readings end first. Within 50 µs it spins until the
-- time has come.
unfoldable pub pace_until : ℕ → Option ℕ → List PaceReading → Option Bool × List ℕ
unfolding expired
pace_until next_send deadline [] = (none, [])
pace_until next_send deadline (r ∷ rs) =
    let (answer, sleeps) = pace_until next_send deadline rs in
    let remaining = next_send - r.now in
    if leb next_send r.now
    then (some true, [])
    else if r.done || expired deadline r.now
    then (some false, [])
    else if leb remaining 50000
    then (some true, [])
    else (answer, min (remaining - 20000) 100000000 ∷ sleeps)

-- A round of the sending loop.
pub record Round : Type 0 where
  pub done : Bool
  pub now : ℕ
  pub sec : ℕ
  pub usec : ℕ
  pub results : List SendResult
  pub pace : List PaceReading

-- Whether the loop goes on behind a round, with the interval between batches if there is one.
unfoldable pub goes_on : Option ℕ → Option ℕ → ℕ → List PaceReading → Bool
unfolding pace_until
goes_on none deadline next_send readings = true
goes_on (some interval) deadline next_send readings =
    let (answer, sleeps) = pace_until next_send deadline readings in
    elim answer [ some true ↦ true | some false ↦ false | none ↦ false ]

-- The state of the loop, with the headers of the datagrams sent.
pub record Sender (S : Type 0) : Type 0 where
  pub seq : ℕ
  pub next_send : ℕ
  pub counters : StreamCounters S
  pub headers : List UdpHeader

-- The state in which the loop starts.
unfoldable pub fresh : (S : Type 0) → ℕ → Sender S
unfolding new
fresh S start = record { seq = 0; next_send = start; counters = new S; headers = [] }

module _ {S : Type 0} where
  -- A batch and its accounting.
  unfoldable pub send_round : ℕ → ℕ → Sender S → Round → Sender S
  unfolding send_batch record_sent record_datagrams_sent
  send_round batch_size interval s r =
      let b = send_batch r.sec r.usec batch_size s.seq r.results in
      record {
        seq = b.seq;
        next_send = s.next_send + interval;
        counters = record_datagrams_sent b.packets (record_sent b.bytes s.counters);
        headers = s.headers ++ b.headers;
      }

  unfoldable pub udp_send_loop : ℕ → Option ℕ → Option ℕ → Sender S → List Round → Sender S
  unfolding send_round goes_on expired
  udp_send_loop batch_size pacing deadline s [] = s
  udp_send_loop batch_size pacing deadline s (r ∷ rs) =
      let interval = unwrap_or pacing 0 in
      let s' = send_round batch_size interval s r in
      let rest = udp_send_loop batch_size pacing deadline s' rs in
      if r.done || expired deadline r.now
      then s
      else if goes_on pacing deadline s'.next_send r.pace
      then rest
      else s'
