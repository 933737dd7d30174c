-- ===== src/Reporter/Live.antt =====
-- The interval reporter itself: `spawn_interval_reporter` of riperf3/src/reporter.rs, with `ReporterEnd` and `OmitBoundary`.
-- Its task is a state, and each turn of its loop an event; between them the data tasks count and the
-- kernel answers. The formats of the lines are not modelled.
pub mod Task
pub mod Books
pub mod Slots
pub mod Conservation
pub mod Final
pub mod Timeline
use riperf.Base.{
  ℕ, suc, ◌-◌, ◌%◌, ◌^◌, Bool, true, false, ◌&&◌, not, List, [], ◌∷◌, ◌++◌, map, sum, Option, none,
  some, ℤ, pos, ltb, if◌then◌else◌, is_some, any,
}
use riperf.Base.Float.{Float}
use riperf.Protocol.Params.{TransportProtocol}
use riperf.Stream.Counters.{
  take_sent_interval, take_received_interval, set_omit_retransmits, snapshot_omit,
}
use riperf.Stream.RecvStats
use riperf.Reporter.Reading.{
  TcpInfoSnapshot, StreamExtremes, finished, Slot, Shared, Reading, has_stats, peek_bytes,
  read_stream,
}
use riperf.Reporter.Interval.{
  no_streams, IntervalReporterConfig, Span, StreamInterval, Interval, DirAcc, is_udp,
  keep_final_interval, accumulate, direction_rows, interval,
}

pub data UdpHeaderMode : Type 0 where
  sender receiver : UdpHeaderMode

-- What the reporter prints: the header with its UDP form, the separator, a row, a JSON event; and its
-- flushes.
pub data Printed (F : Float) : Type 0 where
  header : UdpHeaderMode → Printed F
  separator flush : Printed F
  row : StreamInterval F → Printed F
  interval_event : Interval F → Printed F

pub record CollectedIntervals (F : Float) : Type 0 where
  pub intervals : List (Interval F)
  pub extremes : List StreamExtremes

pub record Reporter (F : Float) : Type 0 where
  pub slots : List (Slot F)
  pub interval_num : ℕ
  pub first_tick : Bool
  pub header_printed : Bool
  pub in_warmup : Bool
  pub collected : List (Interval F)
  pub printed : List (Printed F)
  -- the shared budget of the senders with the limit that it is filled up to
  pub byte_budget : Option (ℤ × ℤ)
  -- the flag of `OmitBoundary`
  pub boundary_passed : Option Bool
  -- what the task hands over when it ends
  pub handed : Option (CollectedIntervals F)
  pub running : Bool

module _ {F : Float} where
  open F use {Carrier, sub, mul, of_ℕ, lt}

  unfoldable pub has_retransmits : IntervalReporterConfig F → List (Slot F) → Bool
  has_retransmits cfg slots =
      cfg.has_retransmit_info && not (is_udp cfg.protocol) && any (λ s. s.is_sender) slots

  -- The direction of the first stream
  abbrev pub fwd_is_sender : List (Slot F) → Bool
  fwd_is_sender [] = true
  fwd_is_sender (s ∷ ss) = s.is_sender

  abbrev multi_stream : DirAcc F × DirAcc F → Bool
  multi_stream (fwd, rev) = if ltb 1 fwd.count then true else ltb 1 rev.count

  -- The text of an interval, when text is printed.
  unfoldable pub text :
      IntervalReporterConfig F → Reporter F → Span F → List (Reading F × Slot F) → List (Printed F)
  unfolding accumulate direction_rows has_retransmits
  text cfg r span rs =
      let fwd = fwd_is_sender r.slots in
      let retransmits = has_retransmits cfg r.slots in
      let accs = accumulate fwd (no_streams, no_streams) rs in
      let mode = if any has_stats r.slots then receiver else sender in
      (if r.header_printed then [] else header mode ∷ [])
      ++ (if not r.first_tick && multi_stream accs then separator ∷ [] else [])
      ++ map row (direction_rows cfg retransmits span rs accs.0 fwd)
      ++ map row (direction_rows cfg retransmits span rs accs.1 (not fwd))

  -- What one interval prints.
  unfoldable pub shown :
      IntervalReporterConfig F → Reporter F → Span F → List (Reading F × Slot F) → List (Printed F)
  unfolding text interval has_retransmits
  shown cfg r span rs =
      let gathered = interval cfg (has_retransmits cfg r.slots) span rs (fwd_is_sender r.slots) in
      (if cfg.print && not cfg.json_stream then text cfg r span rs else [])
      ++ (if cfg.collecting && cfg.json_stream && not cfg.output_quiet
          then interval_event gathered ∷ []
          else [])
      ++ (if cfg.print && (if cfg.forceflush then true else cfg.json_stream)
          then flush ∷ []
          else [])

  -- Whether the intervals are kept for the report.
  abbrev pub keeps : IntervalReporterConfig F → Bool
  keeps cfg = cfg.collecting && (if cfg.json_stream then cfg.keep_intervals else true)

  unfoldable pub emit_interval : IntervalReporterConfig F → Span F → Reporter F → Reporter F
  unfolding read_stream shown interval has_retransmits
  emit_interval cfg span r =
      let retransmits = has_retransmits cfg r.slots in
      let rs = map (read_stream retransmits) r.slots in
      let texts = cfg.print && not cfg.json_stream in
      record r {
        slots = map (λ x. x.1) rs;
        first_tick = if texts then false else r.first_tick;
        header_printed = if texts then true else r.header_printed;
        collected =
            if keeps cfg
            then r.collected ++ interval cfg retransmits span rs (fwd_is_sender r.slots) ∷ []
            else r.collected;
        printed = r.printed ++ shown cfg r span rs;
      }

  -- The retransmits of a stream at the omit boundary
  unfoldable pub boundary_retransmits : Bool → Slot F → ℕ
  boundary_retransmits retransmits s =
      if retransmits && s.is_sender && is_some s.raw_fd
      then elim s.tcp_info [ none ↦ s.prev_retransmits | some info ↦ info.total_retransmits ]
      else s.prev_retransmits

  -- A stream at the omit boundary: the interval counters drained, the baselines taken.
  unfoldable pub reset : Bool → Slot F → Slot F
  unfolding boundary_retransmits take_sent_interval take_received_interval snapshot_omit
      set_omit_retransmits RecvStats.snapshot_omit
  reset retransmits s =
      let counters = snapshot_omit (take_received_interval (take_sent_interval s.counters).1).1 in
      let prev = boundary_retransmits retransmits s in
      let drained = record s {
        counters =
            if retransmits && s.is_sender
            then set_omit_retransmits (pos prev) counters
            else counters;
        prev_retransmits = prev;
        omit_retransmits = prev;
      } in
      elim s.udp_recv_stats [
        | Shared.absent ↦ drained
        | Shared.poisoned ↦ drained
        | Shared.stats st ↦ record drained {
          udp_recv_stats = Shared.stats (RecvStats.snapshot_omit F st);
          prev_cnt_error = st.cnt_error;
          prev_packet_count = st.packet_count;
        }
      ]

  -- The omit boundary: every stream, then the budget, then the signal; the timeline starts again.
  unfoldable pub omit_boundary : IntervalReporterConfig F → Reporter F → Reporter F
  unfolding reset has_retransmits
  omit_boundary cfg r = record r {
    slots = map (reset (has_retransmits cfg r.slots)) r.slots;
    byte_budget = elim r.byte_budget [ none ↦ none | some b ↦ some (b.1, b.1) ];
    boundary_passed = elim r.boundary_passed [ none ↦ none | some b ↦ some true ];
    in_warmup = false;
    interval_num = 0;
  }

  -- The task ends, and hands over what it has collected.
  unfoldable pub hand_over : IntervalReporterConfig F → Reporter F → Reporter F
  unfolding finished
  hand_over cfg r = record r {
    handed =
        if cfg.collecting
        then some (record {
          intervals = r.collected;
          extremes = map (λ s. finished s.omit_retransmits s.extremes) r.slots;
        })
        else none;
    running = false;
  }

  unfoldable pub boundary_at : IntervalReporterConfig F → ℕ → Carrier
  boundary_at cfg n = mul (of_ℕ n) cfg.interval_secs

  unfoldable pub residual_bytes : Reporter F → ℕ
  unfolding peek_bytes
  residual_bytes r = sum (map peek_bytes r.slots) % 2 ^ 64

  -- Whether there is a last interval when the run ends at `end_secs`.
  unfoldable pub flushes : IntervalReporterConfig F → Carrier → Reporter F → Bool
  unfolding boundary_at keep_final_interval residual_bytes
  flushes cfg end_secs r =
      let len = sub end_secs (boundary_at cfg r.interval_num) in
      lt (of_ℕ 0) len && keep_final_interval F len cfg.interval_secs (residual_bytes r)

  unfoldable pub finish : IntervalReporterConfig F → Carrier → Reporter F → Reporter F
  unfolding emit_interval flushes boundary_at hand_over
  finish cfg end_secs r =
      let last : Span F = record {
        start = boundary_at cfg r.interval_num;
        end = end_secs;
        omitted = r.in_warmup;
      } in
      hand_over cfg (if flushes cfg end_secs r then emit_interval cfg last r else r)

  unfoldable pub tick : IntervalReporterConfig F → Reporter F → Reporter F
  unfolding emit_interval boundary_at
  tick cfg r =
      let next = record r { interval_num = suc r.interval_num } in
      let span : Span F = record {
        start = boundary_at cfg r.interval_num;
        end = boundary_at cfg (suc r.interval_num);
        omitted = r.in_warmup;
      } in
      emit_interval cfg span next
