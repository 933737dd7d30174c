-- ===== src/Stream/Sender/Sequence.antt =====
-- What the UDP sender puts on the wire.
use riperf.Base.{
  ℕ, zero, suc, ◌+◌, ◌%◌, ◌^◌, ◌≤◌, ◌<◌, ◌≡◌, refl, ◌∙◌, ap, ◌||◌, List, [], ◌∷◌, ◌++◌, Option,
  arith, Bool-cases, inl, inr, unwrap_or,
}
use riperf.Stream.Header.{UdpHeader}
use riperf.Stream.Counters.{record_sent, record_datagrams_sent}
use riperf.Stream.Sender.{
  SendResult, empty, accepted, would_block, send_error, Batch, send_batch, Round, Sender,
  send_round, goes_on, expired, udp_send_loop, fresh,
}

-- The sequence numbers of headers
abbrev pub seqs : List UdpHeader → List ℕ
seqs [] = []
seqs (h ∷ hs) = h.seq ∷ seqs hs

-- The k numbers behind n
abbrev pub following : ℕ → ℕ → List ℕ
following n zero = []
following n (suc k) = suc n ∷ following (suc n) k

n_zero : (n : ℕ) → n + 0 ≡ n
n_zero n = omega arith

zero_n : (n : ℕ) → n ≡ 0 + n
zero_n n = omega arith

following-append : (n j k : ℕ) → following n j ++ following (n + j) k ≡ following n (j + k)
following-append n zero k = ap (λ m. following m k) (n_zero n) ∙ ap (following n) (zero_n k)
following-append n (suc j) k =
    let next : n + suc j ≡ suc n + j = omega arith in
    let total : suc j + k ≡ suc (j + k) = omega arith in
    rw (next, total) (ap (◌∷◌ (suc n)) (following-append (suc n) j k))

from_zero : (j k : ℕ) → following 0 j ++ following j k ≡ following 0 (j + k)
from_zero j k = ap (λ m. following 0 j ++ following m k) (zero_n j) ∙ following-append 0 j k

seqs-append : (a b : List UdpHeader) → seqs (a ++ b) ≡ seqs a ++ seqs b
seqs-append [] b = refl
seqs-append (h ∷ a) b = ap (◌∷◌ h.seq) (seqs-append a b)

-- A batch of k datagrams, as long as no number wraps.
record Numbered (seq : ℕ) (size : ℕ) (b : Batch) : Type 0 where
  k : ℕ
  at_most : k ≤ size
  ends : b.seq ≡ seq + k
  packets : b.packets ≡ k
  numbers : seqs b.headers ≡ following seq k

sends_none : (seq n : ℕ) → Numbered seq n (empty seq)
sends_none seq n = record {
  k = 0;
  at_most = omega arith;
  ends = omega arith;
  packets = refl;
  numbers = refl;
}

send_batch-Numbered :
    (sec usec n seq : ℕ) (rs : List SendResult)
    → seq + n < 2 ^ 64
    → Numbered seq n (send_batch sec usec n seq rs)
unfolding send_batch
send_batch-Numbered sec usec zero seq rs h = sends_none seq _
send_batch-Numbered sec usec (suc n) seq [] h = sends_none seq _
send_batch-Numbered sec usec (suc n) seq (would_block ∷ rs) h = sends_none seq _
send_batch-Numbered sec usec (suc n) seq (send_error ∷ rs) h = sends_none seq _
send_batch-Numbered sec usec (suc n) seq (accepted b ∷ rs) h =
    let next : (seq + 1) % 2 ^ 64 ≡ suc seq = omega arith in
    let rest = send_batch-Numbered sec usec n (suc seq) rs (omega arith) in
    rw next (record {
      k = suc rest.k;
      at_most = omega (arith, rest.at_most);
      ends = omega (arith, rest.ends);
      packets = omega (arith, rest.packets, rest.at_most);
      numbers = ap (◌∷◌ (suc seq)) rest.numbers;
    })

-- The datagrams that the rounds have room for
abbrev pub room : ℕ → List Round → ℕ
room size [] = 0
room size (r ∷ rs) = size + room size rs

-- What holds between rounds.
record InStep {S : Type 0} (s : Sender S) : Type 0 where
  counted : s.counters.datagrams_sent ≡ s.seq
  numbered : seqs s.headers ≡ following 0 s.seq

module _ {S : Type 0} where
  send_round-InStep :
      (size interval : ℕ) (s : Sender S) (r : Round)
      → s.seq + size < 2 ^ 64
      → InStep s
      → InStep (send_round size interval s r) × ((send_round size interval s r).seq ≤ s.seq + size)
  unfolding send_round record_datagrams_sent record_sent
  send_round-InStep size interval s r h v =
      let b = send_batch-Numbered r.sec r.usec size s.seq r.results h in
      let batch = send_batch r.sec r.usec size s.seq r.results in
      (
        record {
          counted = omega (arith, v.counted, b.packets, b.ends, b.at_most);
          numbered =
              seqs-append s.headers batch.headers
              ∙ rw (v.numbered, b.numbers, b.ends) (from_zero s.seq b.k);
        },
        omega (arith, b.ends, b.at_most),
      )

  loop-InStep :
      (size : ℕ) (pacing deadline : Option ℕ) (s : Sender S) (rs : List Round)
      → s.seq + room size rs < 2 ^ 64
      → InStep s
      → InStep (udp_send_loop size pacing deadline s rs)
        × ((udp_send_loop size pacing deadline s rs).seq ≤ s.seq + room size rs)
  unfolding udp_send_loop
  loop-InStep size pacing deadline s [] h v = (v, omega arith)
  loop-InStep size pacing deadline s (r ∷ rs) h v =
      let interval = unwrap_or pacing 0 in
      let s' = send_round size interval s r in
      let (v', le) = send_round-InStep size interval s r (omega arith) v in
      elim (Bool-cases (r.done || expired deadline r.now)) [
        | inl e ↦ rw e (v, omega arith)
        | inr e ↦ elim (Bool-cases (goes_on pacing deadline s'.next_send r.pace)) [
          | inl g ↦
              let rest = loop-InStep size pacing deadline s' rs (omega arith) v' in
              rw (e, g) (rest.0, omega (arith, rest.1, le))
          | inr g ↦ rw (e, g) (v', omega (arith, le))
        ]
      ]

module _ (S : Type 0) (size : ℕ) (pacing deadline : Option ℕ) (start : ℕ) (rs : List Round)
    (h : room size rs < 2 ^ 64) where
  from_fresh :
      let f = udp_send_loop size pacing deadline (fresh S start) rs in
      InStep f × (f.seq ≤ room size rs)
  unfolding fresh
  from_fresh =
      let v : InStep (fresh S start) = record { counted = refl; numbered = refl } in
      let (w, le) = loop-InStep size pacing deadline (fresh S start) rs (omega arith) v in
      (w, omega (arith, le))

  -- From a fresh start, whatever sends fail or block, whenever the loop stops: as long as no 64-bit
  -- number wraps, the datagrams sent carry the numbers 1, 2, 3, … with no gap and no repetition, and the
  -- datagram counter is their number.
  pub udp_send_loop-numbers :
      let f = udp_send_loop size pacing deadline (fresh S start) rs in
      (seqs f.headers ≡ following 0 f.seq) × (f.counters.datagrams_sent ≡ f.seq)
  udp_send_loop-numbers = (from_fresh.0.numbered, from_fresh.0.counted)

  pub udp_send_loop-room :
      (udp_send_loop size pacing deadline (fresh S start) rs).seq ≤ room size rs
  udp_send_loop-room = from_fresh.1
