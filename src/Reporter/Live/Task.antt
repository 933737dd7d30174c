-- ===== src/Reporter/Live/Task.antt =====
-- The turns of the interval reporter's loop in riperf3/src/reporter.rs, and what the data tasks do beside it.
use riperf.Base.{
  ℕ, zero, suc, Bool, true, false, ◌&&◌, List, [], ◌∷◌, Option, none, some, ℤ, pos, ltb,
  if◌then◌else◌,
}
use riperf.Base.Float.{Float}
use riperf.Stream.Header.{UdpHeader}
use riperf.Stream.Counters.{StreamCounters, new, record_sent, record_received}
use riperf.Stream.RecvStats.{UdpRecvStats, update}
use riperf.Reporter.Reading.{TcpInfoSnapshot, no_extremes, Slot, Shared}
use riperf.Reporter.Interval.{IntervalReporterConfig}
use riperf.Reporter.Live.{Reporter, tick, omit_boundary, hand_over, finish}

-- What happens to the reporter, and beside it.
pub data ReporterEvent (F : Float) : Type 0 where
  -- the data task of a stream counts, and a datagram updates its statistics; the kernel's answer changes
  sends receives : ℕ → ℕ → ReporterEvent F
  arrives : ℕ → UdpHeader → F.Carrier → ReporterEvent F
  samples : ℕ → Option TcpInfoSnapshot → ReporterEvent F
  -- a tick before the end; one behind `done` with no end signalled within 2 s; the end; the omit deadline
  ticks abandoned omit_deadline : ReporterEvent F
  finishes : F.Carrier → ReporterEvent F

-- A change of one element.
abbrev pub modify {ℓ} : {A : Type ℓ} → List A → ℕ → (A → A) → List A
modify [] i f = []
modify (x ∷ xs) zero f = f x ∷ xs
modify (x ∷ xs) (suc i) f = x ∷ modify xs i f

module _ {F : Float} where
  abbrev pub on_counters :
      (StreamCounters TcpInfoSnapshot → StreamCounters TcpInfoSnapshot) → Slot F → Slot F
  on_counters f s = record s { counters = f s.counters }

  abbrev pub on_stats : (UdpRecvStats F → UdpRecvStats F) → Slot F → Slot F
  on_stats f s = elim s.udp_recv_stats [
    | Shared.absent ↦ s
    | Shared.poisoned ↦ s
    | Shared.stats st ↦ record s { udp_recv_stats = Shared.stats (f st) }
  ]

  abbrev on_slot : ℕ → (Slot F → Slot F) → Reporter F → Reporter F
  on_slot i f r = record r { slots = modify r.slots i f }

  unfoldable pub react : IntervalReporterConfig F → Reporter F → ReporterEvent F → Reporter F
  unfolding record_sent record_received update tick omit_boundary hand_over finish
  react cfg r (sends i n) = on_slot i (on_counters (record_sent n)) r
  react cfg r (receives i n) = on_slot i (on_counters (record_received n)) r
  react cfg r (arrives i h t) = on_slot i (on_stats (λ st. update F st h t)) r
  react cfg r (samples i info) = on_slot i (λ s. record s { tcp_info = info }) r
  react cfg r ticks = if r.running then tick cfg r else r
  react cfg r abandoned = if r.running then hand_over cfg r else r
  react cfg r omit_deadline = if r.running && r.in_warmup then omit_boundary cfg r else r
  react cfg r (finishes end_secs) = if r.running then finish cfg end_secs r else r

  unfoldable pub live : IntervalReporterConfig F → Reporter F → List (ReporterEvent F) → Reporter F
  unfolding react
  live cfg r [] = r
  live cfg r (e ∷ es) = live cfg (react cfg r e) es

  unfoldable pub slot : ℤ → Bool → Option ℕ → Shared F → Slot F
  unfolding no_extremes new
  slot id is_sender raw_fd udp_recv_stats = record {
    id = id;
    is_sender = is_sender;
    raw_fd = raw_fd;
    counters = new TcpInfoSnapshot;
    udp_recv_stats = udp_recv_stats;
    tcp_info = none;
    prev_retransmits = 0;
    prev_cnt_error = pos 0;
    prev_packet_count = pos 0;
    omit_retransmits = 0;
    last_tcp = none;
    extremes = no_extremes id;
  }

  -- The task when it starts.
  unfoldable pub spawned :
      IntervalReporterConfig F → List (Slot F) → Option (ℤ × ℤ) → Option Bool → Reporter F
  spawned cfg slots byte_budget boundary_passed = record {
    slots = slots;
    interval_num = 0;
    first_tick = true;
    header_printed = false;
    in_warmup = ltb 0 cfg.omit_secs;
    collected = [];
    printed = [];
    byte_budget = byte_budget;
    boundary_passed = boundary_passed;
    handed = none;
    running = true;
  }

  -- There is a task unless the interval is negative.
  unfoldable pub spawn_interval_reporter :
      IntervalReporterConfig F → List (Slot F) → Option (ℤ × ℤ) → Option Bool → Option (Reporter F)
  unfolding spawned
  spawn_interval_reporter cfg slots byte_budget boundary_passed =
      if F.lt cfg.interval_secs (F.of_ℕ 0)
      then none
      else some (spawned cfg slots byte_budget boundary_passed)
