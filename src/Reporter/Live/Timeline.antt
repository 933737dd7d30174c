-- ===== src/Reporter/Live/Timeline.antt =====
-- When the intervals of a run begin and end.
pub mod Ended
use mathlib.Core.Path.{subst}
use riperf.Base.{
  ℕ, zero, suc, ◌≡◌, refl, sym, ◌∙◌, ap, Bool, true, false, ◌&&◌, List, [], ◌∷◌, ◌++◌, Option, none,
  some, map, append_assoc, append-nil, if◌then◌else◌, map_opt, Bool-cases, inl, inr, ℤ, arith, ltb,
}
use riperf.Base.Float.{Float}
use riperf.Reporter.Reading.{Slot, read_stream}
use riperf.Reporter.Interval.{
  IntervalReporterConfig, Span, Interval, interval, direction_interval_sum,
}
use riperf.Reporter.Live.{
  Reporter, fwd_is_sender, has_retransmits, keeps, emit_interval, omit_boundary, hand_over,
  boundary_at, flushes, finish, tick,
}
use riperf.Reporter.Live.Task.{
  ReporterEvent, sends, receives, arrives, samples, ticks, abandoned, omit_deadline, finishes,
  react, live, spawned,
}
use riperf.Reporter.Live.Final.{map_opt_both, finish-handed}

module _ {F : Float} where
  abbrev pub spans : List (Interval F) → List (Span F)
  spans ivs = map (λ iv. iv.sum.span) ivs

  -- The n-th interval of a timeline
  abbrev pub tick_span : IntervalReporterConfig F → Bool → ℕ → Span F
  tick_span cfg omitted n = record {
    start = boundary_at cfg n;
    end = boundary_at cfg (suc n);
    omitted = omitted;
  }

  abbrev pub timeline : IntervalReporterConfig F → Bool → ℕ → List (Span F)
  timeline cfg omitted zero = []
  timeline cfg omitted (suc n) = timeline cfg omitted n ++ tick_span cfg omitted n ∷ []

  -- The spans so far: `w` intervals of the warm-up, and the timeline that runs.
  abbrev pub expected : IntervalReporterConfig F → Bool → ℕ → ℕ → List (Span F)
  expected cfg true w n = timeline cfg true n
  expected cfg false w n = timeline cfg true w ++ timeline cfg false n

  spans-append :
      (ivs : List (Interval F)) (iv : Interval F)
      → spans (ivs ++ iv ∷ []) ≡ spans ivs ++ iv.sum.span ∷ []
  spans-append [] iv = refl
  spans-append (j ∷ ivs) iv = ap (◌∷◌ j.sum.span) (spans-append ivs iv)

  pub expected-suc :
      (cfg : IntervalReporterConfig F) (warm : Bool) (w n : ℕ)
      → expected cfg warm w (suc n) ≡ expected cfg warm w n ++ tick_span cfg warm n ∷ []
  expected-suc cfg true w n = refl
  expected-suc cfg false w n = sym (append_assoc (timeline cfg true w) (timeline cfg false n) _)

  pub emit-spans :
      (cfg : IntervalReporterConfig F) (span : Span F) (r : Reporter F)
      → keeps cfg ≡ true
      → spans (emit_interval cfg span r).collected ≡ spans r.collected ++ span ∷ []
  unfolding emit_interval interval direction_interval_sum
  emit-spans cfg span r k =
      let b = has_retransmits cfg r.slots in
      let iv = interval cfg b span (map (read_stream b) r.slots) (fwd_is_sender r.slots) in
      rw k (spans-append r.collected iv)

  -- What the reporter has kept so far.
  pub record OnTime (cfg : IntervalReporterConfig F) (r : Reporter F) : Type 0 where
    pub warm_ticks : ℕ
    pub kept : spans r.collected ≡ expected cfg r.in_warmup warm_ticks r.interval_num

  tick-spans :
      (cfg : IntervalReporterConfig F) (r : Reporter F)
      → keeps cfg ≡ true
      → spans (tick cfg r).collected
        ≡ spans r.collected ++ tick_span cfg r.in_warmup r.interval_num ∷ []
  unfolding tick
  tick-spans cfg r k =
      emit-spans cfg (tick_span cfg r.in_warmup r.interval_num)
        (record r { interval_num = suc r.interval_num }) k

  tick_moves :
      (cfg : IntervalReporterConfig F) (r : Reporter F)
      → ((tick cfg r).in_warmup ≡ r.in_warmup)
        × ((tick cfg r).interval_num ≡ suc r.interval_num)
        × ((tick cfg r).running ≡ r.running)
  unfolding tick emit_interval
  tick_moves cfg r = (refl, refl, refl)

  pub tick-OnTime :
      (cfg : IntervalReporterConfig F) (r : Reporter F)
      → keeps cfg ≡ true
      → OnTime cfg r
      → OnTime cfg (tick cfg r)
  tick-OnTime cfg r k t =
      let (warm, num, going) = tick_moves cfg r in
      let next = expected-suc cfg r.in_warmup t.warm_ticks r.interval_num in
      record {
        warm_ticks = t.warm_ticks;
        kept =
            rw (warm, num)
              (tick-spans cfg r k
                ∙ ap (λ l. l ++ tick_span cfg r.in_warmup r.interval_num ∷ []) t.kept
                ∙ sym next);
      }

  pub boundary-OnTime :
      (cfg : IntervalReporterConfig F) (r : Reporter F)
      → r.in_warmup ≡ true
      → OnTime cfg r
      → OnTime cfg (omit_boundary cfg r)
  unfolding omit_boundary
  boundary-OnTime cfg r w t = record {
    warm_ticks = r.interval_num;
    kept =
        subst (λ b. spans r.collected ≡ expected cfg b t.warm_ticks r.interval_num) w t.kept
        ∙ sym (append-nil _);
  }
