-- ===== src/Reporter/Live/Conservation.antt =====
-- The intervals of a whole run against the counters.
use mathlib.Core.Path.{subst}
use riperf.Base.{
  All, ◌&&◌, ℕ, zero, suc, ◌+◌, ◌^◌, ◌≤◌, ◌<◌, ◌≡◌, refl, sym, ap, Bool, true, false, List, [], ◌∷◌,
  Option, some, get_elem?, map, arith, if◌then◌else◌, Bool-cases, inl, inr, ℤ, ltb,
}
use riperf.Base.Float.{Float}
use riperf.Stream.Counters.{new, peek_sent_interval, peek_received_interval}
use riperf.Stream.RecvStats.{UdpRecvStats, update}
use riperf.Reporter.Reading.{TcpInfoSnapshot, Slot, peek_bytes, read_stream}
use riperf.Reporter.Interval.{
  IntervalReporterConfig, Span, IntervalStream, interval_stream, interval,
}
use riperf.Reporter.Live.{
  Reporter, fwd_is_sender, has_retransmits, keeps, reset, emit_interval, omit_boundary, hand_over,
  flushes, finish, tick,
}
use riperf.Reporter.Live.Task.{
  ReporterEvent, sends, receives, arrives, samples, ticks, abandoned, omit_deadline, finishes,
  modify, on_stats, react, live, spawned,
}
use riperf.Reporter.Live.Books.{
  Booked, Booked-sent, Booked-received, Booked-reset, Booked-on_stats, Booked-samples,
  Booked-shrink, net_bytes, Booked-net,
}
use riperf.Reporter.Live.Slots.{
  At, At-map, At-modify, history, history-append, waiting, waiting-modify, waiting-map, peek_reset,
  peek_record_sent, peek_record_received, peek_on_stats, peek_samples, emptied, waiting-emptied,
  row_bytes, Booked-emptied,
}

module _ {F : Float} where
  pub record Holds (i : ℕ) (room : ℕ) (r : Reporter F) : Type 0 where
    pub booked : At (Booked r.in_warmup (history i r.collected) room) (get_elem? r.slots i)
    pub waits : waiting r.slots + room < 2 ^ 64

  -- The rows of an emission
  rows_of : IntervalReporterConfig F → Span F → Reporter F → List (IntervalStream F)
  rows_of cfg span r =
      map (interval_stream cfg span) (map (read_stream (has_retransmits cfg r.slots)) r.slots)

  pub emit-slots :
      (cfg : IntervalReporterConfig F) (span : Span F) (r : Reporter F)
      → (emit_interval cfg span r).slots ≡ emptied (has_retransmits cfg r.slots) r.slots
  unfolding emit_interval
  emit-slots cfg span r = refl

  emit-in_warmup :
      (cfg : IntervalReporterConfig F) (span : Span F) (r : Reporter F)
      → (emit_interval cfg span r).in_warmup ≡ r.in_warmup
  unfolding emit_interval
  emit-in_warmup cfg span r = refl

  emit-history :
      (cfg : IntervalReporterConfig F) (span : Span F) (i : ℕ) (r : Reporter F)
      → keeps cfg ≡ true
      → history i (emit_interval cfg span r).collected
        ≡ history i r.collected + row_bytes i (rows_of cfg span r)
  unfolding emit_interval interval row_bytes rows_of
  emit-history cfg span i r k =
      let b = has_retransmits cfg r.slots in
      let iv = interval cfg b span (map (read_stream b) r.slots) (fwd_is_sender r.slots) in
      rw k (history-append i r.collected iv)

  emit-Holds :
      (cfg : IntervalReporterConfig F) (span : Span F) (i room : ℕ) (r : Reporter F)
      → keeps cfg ≡ true
      → span.omitted ≡ r.in_warmup
      → Holds i room r
      → Holds i room (emit_interval cfg span r)
  unfolding rows_of
  emit-Holds cfg span i room r k o h =
      let b = has_retransmits cfg r.slots in
      let start : At (Booked span.omitted (history i r.collected) room) (get_elem? r.slots i) =
        rw o h.booked in
      let booked = Booked-emptied cfg span b (history i r.collected) room i r.slots start in
      let none_waits = waiting-emptied b r.slots in
      record {
        booked =
            rw
              (emit-slots cfg span r, emit-in_warmup cfg span r, emit-history cfg span i r k, sym o)
              booked;
        waits = rw (emit-slots cfg span r) (omega (arith, none_waits, h.waits));
      }

  tick-Holds :
      (cfg : IntervalReporterConfig F) (i room : ℕ) (r : Reporter F)
      → keeps cfg ≡ true
      → Holds i room r
      → Holds i room (tick cfg r)
  unfolding tick
  tick-Holds cfg i room r k h =
      emit-Holds cfg _ i room (record r { interval_num = suc r.interval_num }) k refl
        (record { booked = h.booked; waits = h.waits })

  boundary-Holds :
      (cfg : IntervalReporterConfig F) (i room : ℕ) (r : Reporter F)
      → r.in_warmup ≡ true
      → Holds i room r
      → Holds i room (omit_boundary cfg r)
  unfolding omit_boundary
  boundary-Holds cfg i room r w h =
      let b = has_retransmits cfg r.slots in
      let warm : At (Booked true (history i r.collected) room) (get_elem? r.slots i) =
        rw (sym w) h.booked in
      let less = waiting-map (reset b) (λ s. omega (arith, peek_reset b s)) r.slots in
      record {
        booked = At-map _ _ (reset b) (Booked-reset b) r.slots i warm;
        waits = omega (arith, less, h.waits);
      }

  hand_over-Holds :
      (cfg : IntervalReporterConfig F) (i room : ℕ) (r : Reporter F)
      → Holds i room r
      → Holds i room (hand_over cfg r)
  unfolding hand_over
  hand_over-Holds cfg i room r h = record { booked = h.booked; waits = h.waits }

  pub finish-Holds :
      (cfg : IntervalReporterConfig F) (end_secs : F.Carrier) (i room : ℕ) (r : Reporter F)
      → keeps cfg ≡ true
      → Holds i room r
      → Holds i room (finish cfg end_secs r)
  unfolding finish
  finish-Holds cfg end_secs i room r k h = elim (Bool-cases (flushes cfg end_secs r)) [
    | inl e ↦ rw e (hand_over-Holds cfg i room _ (emit-Holds cfg _ i room r k refl h))
    | inr e ↦ rw e (hand_over-Holds cfg i room r h)
  ]

  either-Holds :
      {i room : ℕ} (b : Bool) (x y : Reporter F)
      → (b ≡ true → Holds i room x)
      → Holds i room y
      → Holds i room (if b then x else y)
  either-Holds true x y hx hy = hx refl
  either-Holds false x y hx hy = hy

  -- A step of a data task, or of the kernel
  data-Holds :
      (f : Slot F → Slot F) (n i j before room : ℕ) (r : Reporter F)
      → ((s : Slot F)
          → Booked r.in_warmup (history i r.collected) before s
          → Booked r.in_warmup (history i r.collected) room (f s))
      → ((s : Slot F)
          → Booked r.in_warmup (history i r.collected) before s
          → Booked r.in_warmup (history i r.collected) room s)
      → ((s : Slot F) → peek_bytes (f s) ≤ peek_bytes s + n)
      → n + room ≡ before
      → Holds i before r
      → Holds i room (record r { slots = modify r.slots j f })
  data-Holds f n i j before room r step stay grows e h =
      let more = waiting-modify f n grows r.slots j in
      record {
        booked = At-modify _ _ f step stay r.slots j i h.booked;
        waits = omega (arith, more, h.waits, e);
      }

  -- The bytes that the data tasks count.
  abbrev pub traffic : List (ReporterEvent F) → ℕ
  traffic [] = 0
  traffic (sends i n ∷ es) = n + traffic es
  traffic (receives i n ∷ es) = n + traffic es
  traffic (_ ∷ es) = traffic es

  react-Holds :
      (cfg : IntervalReporterConfig F) (i : ℕ) (r : Reporter F) (e : ReporterEvent F)
      (es : List (ReporterEvent F))
      → keeps cfg ≡ true
      → Holds i (traffic (e ∷ es)) r
      → Holds i (traffic es) (react cfg r e)
  unfolding react
  react-Holds cfg i r (sends j n) es k h =
      data-Holds _ n i j _ _ r (Booked-sent n) (Booked-shrink n) (peek_record_sent n) refl h
  react-Holds cfg i r (receives j n) es k h =
      data-Holds _ n i j _ _ r (Booked-received n) (Booked-shrink n) (peek_record_received n) refl h
  react-Holds cfg i r (arrives j d t) es k h =
      let f : UdpRecvStats F → UdpRecvStats F = λ st. update F st d t in
      data-Holds (on_stats f) 0 i j _ _ r (Booked-on_stats f) (λ s b. b) (peek_on_stats f)
        (omega arith) h
  react-Holds cfg i r (samples j info) es k h =
      data-Holds _ 0 i j _ _ r (Booked-samples info) (λ s b. b) (peek_samples info) (omega arith) h
  react-Holds cfg i r ticks es k h =
      either-Holds r.running (tick cfg r) r (λ e. tick-Holds cfg i _ r k h) h
  react-Holds cfg i r abandoned es k h =
      either-Holds r.running (hand_over cfg r) r (λ e. hand_over-Holds cfg i _ r h) h
  react-Holds cfg i r omit_deadline es k h =
      either-Holds (r.running && r.in_warmup) (omit_boundary cfg r) r
        (λ e. boundary-Holds cfg i _ r (ground (arith, e)) h) h
  react-Holds cfg i r (finishes end_secs) es k h =
      either-Holds r.running (finish cfg end_secs r) r (λ e. finish-Holds cfg end_secs i _ r k h) h

  pub live-Holds :
      (cfg : IntervalReporterConfig F) (i : ℕ) (r : Reporter F) (es : List (ReporterEvent F))
      → keeps cfg ≡ true
      → Holds i (traffic es) r
      → Holds i 0 (live cfg r es)
  unfolding live
  live-Holds cfg i r [] k h = h
  live-Holds cfg i r (e ∷ es) k h =
      live-Holds cfg i (react cfg r e) es k (react-Holds cfg i r e es k h)

  -- A stream that has counted nothing yet.
  unfoldable pub IsFresh : Slot F → Type 0
  IsFresh s = (s.counters ≡ new TcpInfoSnapshot)

  waiting-IsFresh : (slots : List (Slot F)) → All IsFresh slots → waiting slots ≡ 0
  unfolding IsFresh new peek_bytes peek_sent_interval peek_received_interval
  waiting-IsFresh [] f = refl
  waiting-IsFresh (s ∷ ss) (f, fs) =
      let rest = waiting-IsFresh ss fs in
      let a = ap (λ c. c.bytes_sent_interval) f in
      let b = ap (λ c. c.bytes_received_interval) f in ground (arith, rest, a, b)

  Booked-IsFresh :
      (warm : Bool) (room : ℕ) (s : Slot F) → room < 2 ^ 64 → IsFresh s → Booked warm 0 room s
  unfolding IsFresh new
  Booked-IsFresh warm room s lt f =
      let a = ap (λ c. c.bytes_sent_interval) f in
      let b = ap (λ c. c.bytes_received_interval) f in
      let a1 = ap (λ c. c.bytes_sent) f in
      let b1 = ap (λ c. c.bytes_received) f in
      let a2 = ap (λ c. c.bytes_sent_omit) f in
      let b2 = ap (λ c. c.bytes_received_omit) f in ground (arith, a, b, a1, b1, a2, b2)

  At-All :
      (P Q : Slot F → Type 0)
      → ((s : Slot F) → P s → Q s)
      → (slots : List (Slot F)) (i : ℕ) → All P slots
      → At Q (get_elem? slots i)
  At-All P Q f [] i a = tt
  At-All P Q f (s ∷ ss) zero a = f s a.0
  At-All P Q f (s ∷ ss) (suc i) a = At-All P Q f ss i a.1

  pub spawned-Holds :
      (cfg : IntervalReporterConfig F) (slots : List (Slot F)) (byte_budget : Option (ℤ × ℤ))
      (boundary_passed : Option Bool) (i room : ℕ)
      → All IsFresh slots
      → room < 2 ^ 64
      → Holds i room (spawned cfg slots byte_budget boundary_passed)
  unfolding spawned
  spawned-Holds cfg slots byte_budget boundary_passed i room f lt = record {
    booked = At-All _ _ (λ s. Booked-IsFresh (ltb 0 cfg.omit_secs) room s lt) slots i f;
    waits = omega (arith, waiting-IsFresh slots f, lt);
  }

  -- Whatever happens to the reporter, in whatever order, as long as the bytes that all streams count are
  -- below 2^64 and the intervals are kept: behind the warm-up, the bytes of a stream in the intervals,
  -- without those of the warm-up, and its bytes that wait for the next interval are together the bytes
  -- that it has counted since the boundary.
  pub live-bytes :
      (cfg : IntervalReporterConfig F) (slots : List (Slot F)) (byte_budget : Option (ℤ × ℤ))
      (boundary_passed : Option Bool) (es : List (ReporterEvent F)) (i : ℕ) (r : Reporter F)
      (s : Slot F)
      → keeps cfg ≡ true
      → All IsFresh slots
      → traffic es < 2 ^ 64
      → live cfg (spawned cfg slots byte_budget boundary_passed) es ≡ r
      → r.in_warmup ≡ false
      → get_elem? r.slots i ≡ some s
      → history i r.collected + peek_bytes s ≡ net_bytes s
  live-bytes cfg slots byte_budget boundary_passed es i r s k f lt e w at =
      let start = spawned cfg slots byte_budget boundary_passed in
      let fresh = spawned-Holds cfg slots byte_budget boundary_passed i (traffic es) f lt in
      let held : Holds i 0 r = rw (sym e) (live-Holds cfg i start es k fresh) in
      let there : At (Booked r.in_warmup (history i r.collected) 0) (some s) =
        subst (At (Booked r.in_warmup (history i r.collected) 0)) at held.booked in
      let booked : Booked false (history i r.collected) 0 s = rw (sym w) there in
      Booked-net s booked
