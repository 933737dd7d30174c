-- ===== src/Server/Round/Marking.antt =====
-- What the phases of a served test leave in the context: one ending, and at most one farewell.
use riperf.Base.{
  ℕ, ◌-◌, ◌*◌, ◌≡◌, refl, sym, ◌∙◌, ap, ◌⊎◌, inl, inr, true, false, List, [], ◌∷◌, ◌++◌, Option,
  none, some, append-nil, Bool-cases, ltb, leb,
}
use riperf.Base.Float.{Float}
use riperf.Errors.Runtime.{RiperfError}
use riperf.Protocol.State.{TestState}
use riperf.Client.Drive.{Received, got, lost}
use riperf.Server.Round.{
  Server, Marks, no_marks, Frame, state, relay, TestRunCtx, Phase, over, pending, broken,
  send_ignoring, mark,
}
use riperf.Server.Round.DataPhase.{
  PhaseEvent, Watch, Woken, watching, ends, fails, on_control, on_stray, self_terminate, judged,
  on_rate_tick, on_idle_tick, on_clock, woken, watched, go_on, idle_bound, watchdog_secs,
  bitrate_limit, idle_armed, received_bytes, total_bytes,
}
use riperf.Server.Round.Exchange.{exchanges}
use riperf.Server.Round.Endings.{
  Expiry, over_rate, idle, out_of_time, code, text, Ending, clean, early, terminated, stray, closed,
  signalled, expired, marks_of, farewell,
}

module _ {F : Float} {R : Type 0} where
  -- What no phase touches.
  pub record Same (ctx out : TestRunCtx F R) : Type 0 where
    pub shown : out.shown ≡ ctx.shown
    pub streams : out.streams ≡ ctx.streams
    pub capture : out.capture ≡ ctx.capture

  -- A context behind `said` and the farewell of an ending.
  pub record Ended (ctx out : TestRunCtx F R) (said : List (Frame R)) (ending : Ending)
      : Type 0 where
    pub marked : out.marks ≡ marks_of ending
    pub last : List (Frame R)
    pub tells : (last ≡ []) ⊎ (last ≡ farewell ending)
    pub sent : out.sent ≡ (ctx.sent ++ said) ++ last
    pub same : Same ctx out

  pub unchanged : (ctx : TestRunCtx F R) → Same ctx ctx
  unchanged ctx = record { shown = refl; streams = refl; capture = refl }

  -- An ending behind a farewell whose failure is ignored.
  pub ignoring-Ended :
      (ctx told : TestRunCtx F R) (said : List (Frame R)) (m : Frame R) (e : Option RiperfError)
      (marks : Marks) (ending : Ending)
      → told.sent ≡ ctx.sent ++ said
      → Same ctx told
      → marks ≡ marks_of ending
      → farewell ending ≡ m ∷ []
      → Ended ctx (mark (send_ignoring told m e) marks) said ending
  unfolding send_ignoring
  ignoring-Ended ctx told said m none marks ending sent same h f = record {
    marked = h;
    last = m ∷ [];
    tells = inr (sym f);
    sent = ap (λ l. l ++ m ∷ []) sent;
    same = record { shown = same.shown; streams = same.streams; capture = same.capture };
  }
  ignoring-Ended ctx told said m (some e) marks ending sent same h f = record {
    marked = h;
    last = [];
    tells = inl refl;
    sent = sent ∙ sym (append-nil _);
    same = record { shown = same.shown; streams = same.streams; capture = same.capture };
  }

  -- An ending that nothing tells of.
  pub silent-Ended :
      (ctx told : TestRunCtx F R) (said : List (Frame R)) (marks : Marks) (ending : Ending)
      → told.sent ≡ ctx.sent ++ said
      → Same ctx told
      → marks ≡ marks_of ending
      → Ended ctx (mark told marks) said ending
  silent-Ended ctx told said marks ending sent same h = record {
    marked = h;
    last = [];
    tells = inl refl;
    sent = sent ∙ sym (append-nil _);
    same = record { shown = same.shown; streams = same.streams; capture = same.capture };
  }

  -- What the data phase leaves.
  abbrev pub Came : TestRunCtx F R → TestRunCtx F R × Phase → Type 0
  Came ctx (out, over) =
      (e : Ending) × Ended ctx out [] e × ((e ≡ clean) ⊎ (exchanges (marks_of e) ≡ false))
  Came ctx (out, pending) = out ≡ ctx
  Came ctx (out, broken e) = out ≡ ctx

  abbrev Woke : TestRunCtx F R → Woken F R → Type 0
  Woke ctx (watching w) = Unit {0}
  Woke ctx (ends out) = Came ctx (out, over)
  Woke ctx (fails out e) = Came ctx (out, broken e)

module _ {F : Float} {R : Type 0} (ctx : TestRunCtx F R) (h : ctx.marks ≡ no_marks) where
  on_stray-Woke : (e : Option RiperfError) → Woke ctx (on_stray ctx e)
  unfolding on_stray marks_of farewell exchanges
  on_stray-Woke e = (
    (stray true),
    ignoring-Ended ctx ctx [] (relay 110 0) e _ (stray true) (sym (append-nil _)) (unchanged ctx)
        (ap {A = Marks} {B = Marks} (λ m. record m { unknown_message = true; bare_end = true }) h)
        refl,
    inr refl,
  )

  on_control-Woke :
      (w : Watch) (e : Option RiperfError) (answer : Received)
      → Woke ctx (on_control ctx w e answer)
  unfolding on_control marks_of farewell exchanges
  on_control-Woke w e (got TestState.test_end) = (
    clean,
    silent-Ended ctx ctx [] ctx.marks clean (sym (append-nil _)) (unchanged ctx) h,
    inl refl,
  )
  on_control-Woke w e (got TestState.client_terminate) = (
    terminated,
    ignoring-Ended ctx ctx [] (relay 119 0) e _ terminated (sym (append-nil _)) (unchanged ctx)
        (ap {A = Marks} {B = Marks} (λ m. record m { client_terminated = true }) h) refl,
    inr refl,
  )
  on_control-Woke w e (got TestState.test_start) = tt
  on_control-Woke w e (got TestState.iperf_done) = (
    early,
    silent-Ended ctx ctx [] _ early (sym (append-nil _)) (unchanged ctx)
        (ap {A = Marks} {B = Marks} (λ m. record m { early_done = true; bare_end = true }) h),
    inr refl,
  )
  on_control-Woke w e (got other) = on_stray-Woke e
  on_control-Woke w e (lost RiperfError.unknown_control_message) = on_stray-Woke e
  on_control-Woke w e (lost RiperfError.peer_disconnected) = (
    (closed true),
    ignoring-Ended ctx ctx [] (relay 109 0) e _ (closed true) (sym (append-nil _)) (unchanged ctx)
        (ap {A = Marks} {B = Marks} (λ m. record m { ctrl_closed = true; bare_end = true }) h) refl,
    inr refl,
  )
  on_control-Woke w e (lost error) = refl

  self_terminate-Woke :
      (x : Expiry) (e : Option RiperfError) → Woke ctx (self_terminate ctx (code x) (text x) e)
  unfolding self_terminate marks_of farewell exchanges send_ignoring
  self_terminate-Woke x none = (
    (expired x),
    ignoring-Ended ctx ctx [] (relay (code x) 0) none _ (expired x) (sym (append-nil _))
        (unchanged ctx)
        (ap {A = Marks} {B = Marks}
          (λ m. record m { server_error = some (text x); bare_end = true }) h)
        refl,
    inr refl,
  )
  self_terminate-Woke x (some e) = refl

  judged-Woke :
      (w : Watch) (e : Option RiperfError) (limit : ℕ) (verdict : Option ℕ)
      → Woke ctx (judged ctx w e limit verdict)
  unfolding judged text code
  judged-Woke w e limit none = tt
  judged-Woke w e limit (some bits) = elim (Bool-cases (ltb limit bits)) [
    | inl b ↦ rw b (self_terminate-Woke over_rate e)
    | inr b ↦ rw b tt
  ]

  on_rate_tick-Woke :
      (w : Watch) (e : Option RiperfError) (total : ℕ) (limit : Option ℕ)
      → Woke ctx (on_rate_tick ctx w e total limit)
  unfolding on_rate_tick
  on_rate_tick-Woke w e total none = tt
  on_rate_tick-Woke w e total (some limit) = judged-Woke _ e limit _

  on_idle_tick-Woke :
      (s : Server F) (w : Watch) (e : Option RiperfError) (rx now : ℕ)
      → Woke ctx (on_idle_tick s ctx w e rx now)
  unfolding on_idle_tick marks_of farewell exchanges text code
  on_idle_tick-Woke s w e rx now = elim (Bool-cases (ltb w.idle_last_rx rx)) [
    | inl b ↦ rw b tt
    | inr b ↦ rw b (elim (Bool-cases (leb (idle_bound s) (now - w.idle_last_at))) [
      | inl c ↦ rw c (
          (
            (expired idle),
            ignoring-Ended ctx ctx [] (relay 144 0) e _ (expired idle) (sym (append-nil _))
                (unchanged ctx)
                (ap {A = Marks} {B = Marks}
                  (λ m. record m { server_error = some (text idle); bare_end = true }) h)
                refl,
            inr refl,
          ))
      | inr c ↦ rw c tt
    ])
  ]

  on_clock-Woke : (w : Watch) (e : Option RiperfError) (now : ℕ) → Woke ctx (on_clock ctx w e now)
  unfolding on_clock text code
  on_clock-Woke w e now = elim (Bool-cases (ltb 0 (watchdog_secs ctx.cfg))) [
    | inl b ↦ rw b (elim (Bool-cases (leb (watchdog_secs ctx.cfg * 1000000000) now)) [
      | inl c ↦ rw c (self_terminate-Woke out_of_time e)
      | inr c ↦ rw c tt
    ])
    | inr b ↦ rw b tt
  ]

  woken-Woke :
      {S : Type 0} (s : Server F) (w : Watch) (e : Option RiperfError) (event : PhaseEvent S)
      → Woke ctx (woken s ctx w e event)
  unfolding woken marks_of farewell exchanges
  woken-Woke s w e (PhaseEvent.control answer) = on_control-Woke w e answer
  woken-Woke s w e (PhaseEvent.signalled msg) = (
    (signalled msg),
    ignoring-Ended ctx ctx [] (state TestState.server_terminate) e _ (signalled msg)
        (sym (append-nil _)) (unchanged ctx)
        (ap {A = Marks} {B = Marks} (λ m. record m { interrupted = some msg }) h) refl,
    inr refl,
  )
  woken-Woke s w e (PhaseEvent.rate_tick streams) =
      on_rate_tick-Woke w e (total_bytes streams) (bitrate_limit s)
  woken-Woke s w e (PhaseEvent.idle_tick streams now) = elim (Bool-cases (idle_armed ctx.cfg)) [
    | inl b ↦ rw b (on_idle_tick-Woke s w e (received_bytes streams) now)
    | inr b ↦ rw b tt
  ]
  woken-Woke s w e (PhaseEvent.clock now) = on_clock-Woke w e now

  pub watched-Came :
      {S : Type 0} (s : Server F) (w : Watch) (e : Option RiperfError)
      (events : List (PhaseEvent S))
      → Came ctx (watched s ctx w e events)
  unfolding watched
  watched-Came s w e [] = refl
  watched-Came s w e (event ∷ r) =
      elim (woken s ctx w e event)
          as (λ x. Woke ctx x → Came ctx (go_on x (λ w'. watched s ctx w' e r))) [
            | watching w' ↦ λ k. watched-Came s w' e r
            | ends out ↦ λ k. k
            | fails out error ↦ λ k. k
          ]
        (woken-Woke s w e event)
