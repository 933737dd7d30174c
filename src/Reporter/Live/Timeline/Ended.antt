-- ===== src/Reporter/Live/Timeline/Ended.antt =====
-- The intervals that a run hands over, on their timelines.
use mathlib.Core.Path.{subst}
use riperf.Base.{
  ℕ, ◌≡◌, refl, sym, ◌∙◌, ap, Bool, true, false, ◌&&◌, List, [], ◌∷◌, ◌++◌, Option, some,
  append-nil, if◌then◌else◌, map_opt, Bool-cases, inl, inr, ℤ, arith, ltb,
}
use riperf.Base.Float.{Float}
use riperf.Reporter.Reading.{Slot}
use riperf.Reporter.Interval.{IntervalReporterConfig, Span}
use riperf.Reporter.Live.{
  Reporter, keeps, omit_boundary, hand_over, boundary_at, flushes, finish, tick,
}
use riperf.Reporter.Live.Task.{
  ReporterEvent, sends, receives, arrives, samples, ticks, abandoned, omit_deadline, finishes,
  react, live, spawned,
}
use riperf.Reporter.Live.Final.{map_opt_both, finish-handed}
use riperf.Reporter.Live.Timeline.{
  spans, expected, OnTime, emit-spans, tick-OnTime, boundary-OnTime,
}

module _ {F : Float} where
  -- While the task runs.
  abbrev pub Guarded : IntervalReporterConfig F → Bool → Reporter F → Type 0
  Guarded cfg true r = OnTime cfg r
  Guarded cfg false r = Unit

  Guarded-slots :
      (cfg : IntervalReporterConfig F) (b : Bool) (r : Reporter F) (slots : List (Slot F))
      → Guarded cfg b r
      → Guarded cfg b (record r { slots = slots })
  Guarded-slots cfg true r slots g = record { warm_ticks = g.warm_ticks; kept = g.kept }
  Guarded-slots cfg false r slots g = tt

  -- A turn of the loop, or none
  Guarded-turn :
      (cfg : IntervalReporterConfig F) (b : Bool) (r x : Reporter F)
      → (b ≡ true → Guarded cfg x.running x)
      → Guarded cfg r.running r
      → Guarded cfg (if b then x else r).running (if b then x else r)
  Guarded-turn cfg true r x step g = step refl
  Guarded-turn cfg false r x step g = g

  Guarded-OnTime :
      (cfg : IntervalReporterConfig F) (r : Reporter F)
      → r.running ≡ true
      → Guarded cfg r.running r
      → OnTime cfg r
  Guarded-OnTime cfg r e g = subst (λ b. Guarded cfg b r) e g

  OnTime-Guarded :
      (cfg : IntervalReporterConfig F) (b : Bool) (r : Reporter F) → OnTime cfg r → Guarded cfg b r
  OnTime-Guarded cfg true r t = t
  OnTime-Guarded cfg false r t = tt

  react-Guarded :
      (cfg : IntervalReporterConfig F) (r : Reporter F) (e : ReporterEvent F)
      → keeps cfg ≡ true
      → Guarded cfg r.running r
      → Guarded cfg (react cfg r e).running (react cfg r e)
  unfolding react finish hand_over
  react-Guarded cfg r (sends i n) k g = Guarded-slots cfg r.running r _ g
  react-Guarded cfg r (receives i n) k g = Guarded-slots cfg r.running r _ g
  react-Guarded cfg r (arrives i h t) k g = Guarded-slots cfg r.running r _ g
  react-Guarded cfg r (samples i info) k g = Guarded-slots cfg r.running r _ g
  react-Guarded cfg r ticks k g =
      Guarded-turn cfg r.running r (tick cfg r)
        (λ e. OnTime-Guarded cfg _ (tick cfg r) (tick-OnTime cfg r k (Guarded-OnTime cfg r e g))) g
  react-Guarded cfg r abandoned k g = Guarded-turn cfg r.running r (hand_over cfg r) (λ e. tt) g
  react-Guarded cfg r omit_deadline k g =
      Guarded-turn cfg (r.running && r.in_warmup) r (omit_boundary cfg r)
        (λ e.
          OnTime-Guarded cfg _ (omit_boundary cfg r) (
            boundary-OnTime cfg r (ground (arith, e)) (Guarded-OnTime cfg r (ground (arith, e)) g)))
        g
  react-Guarded cfg r (finishes end_secs) k g =
      Guarded-turn cfg r.running r (finish cfg end_secs r) (λ e. tt) g

  live-Guarded :
      (cfg : IntervalReporterConfig F) (r : Reporter F) (es : List (ReporterEvent F))
      → keeps cfg ≡ true
      → Guarded cfg r.running r
      → Guarded cfg (live cfg r es).running (live cfg r es)
  unfolding live
  live-Guarded cfg r [] k g = g
  live-Guarded cfg r (e ∷ es) k g =
      live-Guarded cfg (react cfg r e) es k (react-Guarded cfg r e k g)

  spawned-OnTime :
      (cfg : IntervalReporterConfig F) (slots : List (Slot F)) (byte_budget : Option (ℤ × ℤ))
      (boundary_passed : Option Bool)
      → OnTime cfg (spawned cfg slots byte_budget boundary_passed)
  unfolding spawned
  spawned-OnTime cfg slots byte_budget boundary_passed = record {
    warm_ticks = 0;
    kept = nothing (ltb 0 cfg.omit_secs);
  }
    where
      nothing : (b : Bool) → [] ≡ expected cfg b 0 0
      nothing true = refl
      nothing false = refl

  -- The interval that the end adds.
  abbrev pub last_span : IntervalReporterConfig F → F.Carrier → Reporter F → List (Span F)
  last_span cfg end_secs r =
      if flushes cfg end_secs r
      then record { start = boundary_at cfg r.interval_num; end = end_secs; omitted = r.in_warmup }
        ∷ []
      else []

  finish-spans :
      (cfg : IntervalReporterConfig F) (end_secs : F.Carrier) (r : Reporter F)
      → keeps cfg ≡ true
      → spans (finish cfg end_secs r).collected ≡ spans r.collected ++ last_span cfg end_secs r
  unfolding finish hand_over
  finish-spans cfg end_secs r k = elim (Bool-cases (flushes cfg end_secs r)) [
    | inl e ↦ rw e (emit-spans cfg _ r k)
    | inr e ↦ rw e (sym (append-nil _))
  ]

  -- Whatever happens to the reporter, when a run ends while the task runs, and the intervals are kept, the
  -- intervals handed over are on time: a timeline of omitted intervals from 0, each beginning where
  -- the one before it ends; behind the omit boundary a timeline from 0 again, of intervals that are not
  -- omitted; and at most one more, from the last boundary to the end.
  pub finishes-timeline :
      (cfg : IntervalReporterConfig F) (slots : List (Slot F)) (byte_budget : Option (ℤ × ℤ))
      (boundary_passed : Option Bool) (es : List (ReporterEvent F)) (end_secs : F.Carrier)
      (r : Reporter F)
      → keeps cfg ≡ true
      → live cfg (spawned cfg slots byte_budget boundary_passed) es ≡ r
      → r.running ≡ true
      → (w : ℕ) × (map_opt (λ c. spans c.intervals) (react cfg r (finishes end_secs)).handed
          ≡ some (expected cfg r.in_warmup w r.interval_num ++ last_span cfg end_secs r))
  unfolding react
  finishes-timeline cfg slots byte_budget boundary_passed es end_secs r k e run =
      let start = spawned cfg slots byte_budget boundary_passed in
      let guarded =
        live-Guarded cfg start es k
          (OnTime-Guarded cfg _ start (spawned-OnTime cfg slots byte_budget boundary_passed)) in
      let there : Guarded cfg r.running r = subst (λ x. Guarded cfg x.running x) e guarded in
      let t = Guarded-OnTime cfg r run there in
      let ended : react cfg r (finishes end_secs) ≡ finish cfg end_secs r = rw run refl in
      let last = last_span cfg end_secs r in
      (
        t.warm_ticks,
        ap (λ x. map_opt (λ c. spans c.intervals) x.handed) ended
            ∙ map_opt_both (λ c. c.intervals) spans (finish cfg end_secs r).handed
            ∙ ap (map_opt spans) (finish-handed cfg end_secs r k)
            ∙ ap some (finish-spans cfg end_secs r k ∙ ap (λ l. l ++ last) t.kept),
      )
