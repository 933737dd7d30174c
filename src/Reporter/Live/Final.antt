-- ===== src/Reporter/Live/Final.antt =====
-- The intervals that a run hands over at its end.
use riperf.Base.{
  All, ℕ, zero, suc, ◌^◌, ◌≤◌, ◌<◌, ◌≡◌, refl, sym, ◌∙◌, ap, Bool, true, false, List, [], ◌∷◌,
  Option, none, some, get_elem?, arith, map_opt, Bool-cases, inl, inr, ℤ,
}
use riperf.Base.Float.{Float}
use riperf.Reporter.Reading.{Slot, peek_bytes}
use riperf.Reporter.Interval.{IntervalReporterConfig, keep_final_interval}
use riperf.Reporter.Live.{
  Reporter, has_retransmits, keeps, emit_interval, hand_over, boundary_at, residual_bytes, flushes,
  finish,
}
use riperf.Reporter.Live.Task.{ReporterEvent, finishes, react, live, spawned}
use riperf.Reporter.Live.Books.{Booked, net_bytes, Booked-net}
use riperf.Reporter.Live.Slots.{At, history, waiting, waiting-emptied}
use riperf.Reporter.Live.Conservation.{
  Holds, emit-slots, finish-Holds, live-Holds, spawned-Holds, traffic, IsFresh,
}
use mathlib.Core.Path.{subst}

pub map_opt_both {ℓ} :
    {A B C : Type ℓ} (f : A → B) (g : B → C) (o : Option A)
    → map_opt (λ a. g (f a)) o ≡ map_opt g (map_opt f o)
map_opt_both f g none = refl
map_opt_both f g (some a) = refl

module _ {F : Float} where
  peek-waiting :
      (slots : List (Slot F)) (i : ℕ) (s : Slot F)
      → get_elem? slots i ≡ some s
      → peek_bytes s ≤ waiting slots
  peek-waiting [] i s e = absurd (ground (arith, e))
  peek-waiting (t ∷ ss) zero s e =
      let same = ap {B = ℕ} (λ o. elim o [ none ↦ 0 | some x ↦ peek_bytes x ]) e in
      omega (arith, same)
  peek-waiting (t ∷ ss) (suc i) s e = omega (arith, peek-waiting ss i s e)

  -- What is not flushed was empty.
  unflushed :
      (cfg : IntervalReporterConfig F) (end_secs : F.Carrier) (r : Reporter F)
      → waiting r.slots < 2 ^ 64
      → F.lt (F.of_ℕ 0) (F.sub end_secs (boundary_at cfg r.interval_num)) ≡ true
      → flushes cfg end_secs r ≡ false
      → waiting r.slots ≡ 0
  unfolding flushes keep_final_interval residual_bytes
  unflushed cfg end_secs r fits later e = ground (arith, later, e)

  -- Behind the last interval nothing waits, whether it is flushed or not.
  finish-waiting :
      (cfg : IntervalReporterConfig F) (end_secs : F.Carrier) (r : Reporter F)
      → waiting r.slots < 2 ^ 64
      → F.lt (F.of_ℕ 0) (F.sub end_secs (boundary_at cfg r.interval_num)) ≡ true
      → waiting (finish cfg end_secs r).slots ≡ 0
  unfolding finish hand_over
  finish-waiting cfg end_secs r fits later = elim (Bool-cases (flushes cfg end_secs r)) [
    | inl e ↦ rw (e, emit-slots cfg _ r) (waiting-emptied (has_retransmits cfg r.slots) r.slots)
    | inr e ↦ rw e (unflushed cfg end_secs r fits later e)
  ]

  finish-in_warmup :
      (cfg : IntervalReporterConfig F) (end_secs : F.Carrier) (r : Reporter F)
      → (finish cfg end_secs r).in_warmup ≡ r.in_warmup
  unfolding finish hand_over emit_interval
  finish-in_warmup cfg end_secs r = elim (Bool-cases (flushes cfg end_secs r)) [
    | inl e ↦ rw e refl
    | inr e ↦ rw e refl
  ]

  pub finish-handed :
      (cfg : IntervalReporterConfig F) (end_secs : F.Carrier) (r : Reporter F)
      → keeps cfg ≡ true
      → map_opt (λ c. c.intervals) (finish cfg end_secs r).handed
        ≡ some (finish cfg end_secs r).collected
  unfolding finish hand_over
  finish-handed cfg end_secs r k =
      let collects : cfg.collecting ≡ true = ground (arith, k) in rw collects refl

  -- When a run ends behind the warm-up and later than the last boundary, whatever came before, as long as
  -- the bytes that all streams count are below 2^64 and the intervals are kept: the intervals handed
  -- over, without those of the warm-up, hold exactly the bytes that each stream has counted since the
  -- omit boundary, with the last interval or, where it is left out, without it.
  pub finishes-bytes :
      (cfg : IntervalReporterConfig F) (slots : List (Slot F)) (byte_budget : Option (ℤ × ℤ))
      (boundary_passed : Option Bool) (es : List (ReporterEvent F)) (end_secs : F.Carrier) (i : ℕ)
      (r d : Reporter F) (s : Slot F)
      → keeps cfg ≡ true
      → All IsFresh slots
      → traffic es < 2 ^ 64
      → live cfg (spawned cfg slots byte_budget boundary_passed) es ≡ r
      → r.running ≡ true
      → r.in_warmup ≡ false
      → F.lt (F.of_ℕ 0) (F.sub end_secs (boundary_at cfg r.interval_num)) ≡ true
      → react cfg r (finishes end_secs) ≡ d
      → get_elem? d.slots i ≡ some s
      → map_opt (λ c. history i c.intervals) d.handed ≡ some (net_bytes s)
  unfolding react
  finishes-bytes cfg slots byte_budget boundary_passed es end_secs i r d s k f lt e run w later g
        at =
      let fresh = spawned-Holds cfg slots byte_budget boundary_passed i (traffic es) f lt in
      let start = spawned cfg slots byte_budget boundary_passed in
      let before : Holds i 0 r = rw (sym e) (live-Holds cfg i start es k fresh) in
      let ended : finish cfg end_secs r ≡ d = sym (rw run refl) ∙ g in
      let held : Holds i 0 d = rw (sym ended) (finish-Holds cfg end_secs i 0 r k before) in
      let warm : d.in_warmup ≡ false = rw (sym ended) (finish-in_warmup cfg end_secs r ∙ w) in
      let empty : waiting d.slots ≡ 0 =
        rw (sym ended) (finish-waiting cfg end_secs r (omega (arith, before.waits)) later) in
      let there : At (Booked d.in_warmup (history i d.collected) 0) (some s) =
        subst (At (Booked d.in_warmup (history i d.collected) 0)) at held.booked in
      let booked : Booked false (history i d.collected) 0 s = rw (sym warm) there in
      let net : history i d.collected ≡ net_bytes s =
        omega (arith, Booked-net s booked, peek-waiting d.slots i s at, empty) in
      let handed : map_opt (λ c. c.intervals) d.handed ≡ some d.collected =
        rw (sym ended) (finish-handed cfg end_secs r k) in
      map_opt_both (λ c. c.intervals) (history i) d.handed
      ∙ ap (map_opt (history i)) handed
      ∙ ap some net
