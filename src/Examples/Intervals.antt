-- ===== src/Examples/Intervals.antt =====
-- A run of the interval reporter.
use riperf.Base.{
  ℕ, ◌≡◌, refl, true, false, List, [], ◌∷◌, ◌++◌, Option, none, some, map_opt, pos, ◌-ℤ◌, ◌*ℤ◌,
  arith, get_elem?,
}
use riperf.Base.Float.{whole}
use riperf.Protocol.Params.{TransportProtocol}
use riperf.Reporter.Reading.{Slot, Shared}
use riperf.Reporter.Interval.{IntervalReporterConfig}
use riperf.Reporter.Live.{Reporter}
use riperf.Reporter.Live.Task.{
  ReporterEvent, sends, receives, ticks, omit_deadline, finishes, react, live, slot, spawned,
}
use riperf.Reporter.Live.Books.{net_bytes}
use riperf.Reporter.Live.Slots.{history}
use riperf.Reporter.Live.Conservation.{IsFresh}
use riperf.Reporter.Live.Final.{finishes-bytes}
use riperf.Reporter.Live.Timeline.{spans, expected}
use riperf.Reporter.Live.Timeline.Ended.{last_span, finishes-timeline}

abbrev each_second : IntervalReporterConfig whole
each_second = record {
  interval_secs = pos 1;
  protocol = TransportProtocol.tcp;
  omit_secs = 1;
  forceflush = false;
  json_stream = false;
  print = true;
  blksize = 1000;
  keep_intervals = false;
  bidir = true;
  is_server = false;
  collecting = true;
  output_quiet = false;
  has_retransmit_info = true;
}

abbrev two_streams : List (Slot whole)
two_streams =
    slot (pos 1) true (some 5) Shared.absent ∷ slot (pos 3) false (some 6) Shared.absent ∷ []

abbrev second_three : List (ReporterEvent whole)
second_three =
    sends 0 100
    ∷ receives 1 40
    ∷ ticks
    ∷ sends 0 30
    ∷ omit_deadline
    ∷ sends 0 50
    ∷ ticks
    ∷ sends 0 7
    ∷ receives 1 9
    ∷ []

abbrev before : Reporter whole
before = live each_second (spawned each_second two_streams none none) second_three

abbrev after : Reporter whole
after = react each_second before (finishes (pos 2))

abbrev slot_of : Option (Slot whole) → Slot whole
slot_of none = slot (pos 0) true none Shared.absent
slot_of (some s) = s

finishes-bytes_example :
    map_opt (λ c. history 0 c.intervals) after.handed
    ≡ some (net_bytes (slot_of (get_elem? after.slots 0)))
unfolding live react spawned slot IsFresh ◌-ℤ◌ ◌*ℤ◌
finishes-bytes_example =
    finishes-bytes each_second two_streams none none second_three (pos 2) 0 before after
      (slot_of (get_elem? after.slots 0)) refl (refl, (refl, tt)) (omega arith) refl refl refl refl
      refl refl

finishes-timeline_example :
    (w : ℕ) × (map_opt (λ c. spans c.intervals) (react each_second before (finishes (pos 2))).handed
      ≡ some (
          expected each_second before.in_warmup w before.interval_num
          ++ last_span each_second (pos 2) before))
unfolding live react spawned slot
finishes-timeline_example =
    finishes-timeline each_second two_streams none none second_three (pos 2) before refl refl refl
