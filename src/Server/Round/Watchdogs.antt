-- ===== src/Server/Round/Watchdogs.antt =====
-- The watchdogs of the data phase, in `await_test_end` of riperf3/src/server.rs: they end it.
use riperf.Base.{
  ℕ, ◌+◌, ◌^◌, ◌<◌, ◌-◌, ◌*◌, ◌≤◌, ◌≡◌, ◌≢◌, ◌⊎◌, refl, sym, ◌∙◌, inl, inr, true, false, List, [],
  ◌∷◌, ◌++◌, Option, none, some, arith, ltb, leb, Bool-cases, le→leb, All,
}
use mathlib.Core.Path.{subst}
use riperf.Base.Float.{Float}
use riperf.Errors.Runtime.{RiperfError}
use riperf.Protocol.State.{TestState}
use riperf.Client.Drive.{Received, got, lost}
use riperf.Stream.Counters.{StreamCounters}
use riperf.Server.Config.{TestConfig}
use riperf.Server.Round.{Server, TestRunCtx, Phase, pending}
use riperf.Server.Round.DataPhase.{
  PhaseEvent, clock, idle_tick, Watch, Woken, watching, ends, fails, go_on, on_control, on_stray,
  on_clock, on_idle_tick, on_rate_tick, judged, self_terminate, woken, watched, idle_bound,
  watchdog_secs, idle_armed, received_bytes, total_bytes, bitrate_limit,
}

-- A tick that finds no more than `rx` bytes received; every other event is quiet.
abbrev pub Quiet : {S : Type 0} → ℕ → PhaseEvent S → Type 0
Quiet rx (PhaseEvent.idle_tick streams now) = received_bytes streams ≤ rx
Quiet rx other = Unit {0}

le→not-ltb : (a b : ℕ) → a ≤ b → ltb b a ≡ false
le→not-ltb a b h = ground arith

watchdog_secs-armed : (cfg : TestConfig) → cfg.duration ≢ 0 → ltb 0 (watchdog_secs cfg) ≡ true
unfolding watchdog_secs
watchdog_secs-armed cfg d = ground arith

watchdog_secs-value :
    (cfg : TestConfig)
    → 0 < cfg.duration
    → cfg.duration + cfg.omit < 2 ^ 64
    → watchdog_secs cfg ≡ cfg.duration + cfg.omit + 40
unfolding watchdog_secs
watchdog_secs-value cfg d h = ground (arith, d, h)

lt→not-leb : (a b : ℕ) → b < a → leb a b ≡ false
lt→not-leb a b h = ground arith

module _ {F : Float} {R : Type 0} where
  -- The loop goes on with the same idle clock, or not at all.
  abbrev Kept : Watch → Woken F R → Type 0
  Kept w (watching w') = (w'.idle_last_rx ≡ w.idle_last_rx) × (w'.idle_last_at ≡ w.idle_last_at)
  Kept w (ends out) = Unit {0}
  Kept w (fails out e) = Unit {0}

  -- The loop does not go on.
  abbrev Stopped : Woken F R → Type 0
  Stopped (watching w) = ⊥
  Stopped (ends out) = Unit {0}
  Stopped (fails out e) = Unit {0}

  module _ (ctx : TestRunCtx F R) where
    self_terminate-Stopped :
        (n : ℕ) (msg : List ℕ) (e : Option RiperfError) → Stopped (self_terminate ctx n msg e)
    unfolding self_terminate
    self_terminate-Stopped n msg none = tt
    self_terminate-Stopped n msg (some e) = tt

    self_terminate-Kept :
        (w : Watch) (n : ℕ) (msg : List ℕ) (e : Option RiperfError)
        → Kept w (self_terminate ctx n msg e)
    unfolding self_terminate
    self_terminate-Kept w n msg none = tt
    self_terminate-Kept w n msg (some e) = tt

    on_control-Kept :
        (w : Watch) (e : Option RiperfError) (answer : Received)
        → Kept w (on_control ctx w e answer)
    unfolding on_control on_stray
    on_control-Kept w e (got TestState.test_start) = (refl, refl)
    on_control-Kept w e (got TestState.test_end) = tt
    on_control-Kept w e (got TestState.client_terminate) = tt
    on_control-Kept w e (got TestState.iperf_done) = tt
    on_control-Kept w e (got other) = tt
    on_control-Kept w e (lost RiperfError.unknown_control_message) = tt
    on_control-Kept w e (lost RiperfError.peer_disconnected) = tt
    on_control-Kept w e (lost error) = tt

    judged-Kept :
        (w v : Watch) (e : Option RiperfError) (limit : ℕ) (verdict : Option ℕ)
        → (v.idle_last_rx ≡ w.idle_last_rx) × (v.idle_last_at ≡ w.idle_last_at)
        → Kept w (judged ctx v e limit verdict)
    unfolding judged
    judged-Kept w v e limit none k = k
    judged-Kept w v e limit (some bits) k = elim (Bool-cases (ltb limit bits)) [
      | inl b ↦ rw b (self_terminate-Kept w _ _ e)
      | inr b ↦ rw b k
    ]

    on_rate_tick-Kept :
        (w : Watch) (e : Option RiperfError) (total : ℕ) (limit : Option ℕ)
        → Kept w (on_rate_tick ctx w e total limit)
    unfolding on_rate_tick
    on_rate_tick-Kept w e total none = (refl, refl)
    on_rate_tick-Kept w e total (some limit) = judged-Kept w _ e limit _ (refl, refl)

    on_clock-Kept : (w : Watch) (e : Option RiperfError) (now : ℕ) → Kept w (on_clock ctx w e now)
    unfolding on_clock
    on_clock-Kept w e now = elim (Bool-cases (ltb 0 (watchdog_secs ctx.cfg))) [
      | inl b ↦ rw b (elim (Bool-cases (leb (watchdog_secs ctx.cfg * 1000000000) now)) [
        | inl c ↦ rw c (self_terminate-Kept w _ _ e)
        | inr c ↦ rw c (refl, refl)
      ])
      | inr b ↦ rw b (refl, refl)
    ]

    on_idle_tick-Kept :
        (s : Server F) (w : Watch) (e : Option RiperfError) (rx now : ℕ)
        → rx ≤ w.idle_last_rx
        → Kept w (on_idle_tick s ctx w e rx now)
    unfolding on_idle_tick
    on_idle_tick-Kept s w e rx now h =
        rw (le→not-ltb rx w.idle_last_rx h)
          (elim (Bool-cases (leb (idle_bound s) (now - w.idle_last_at))) [
            | inl c ↦ rw c tt
            | inr c ↦ rw c (refl, refl)
          ])

    woken-Kept :
        {S : Type 0} (s : Server F) (w : Watch) (e : Option RiperfError) (event : PhaseEvent S)
        → Quiet w.idle_last_rx event
        → Kept w (woken s ctx w e event)
    unfolding woken
    woken-Kept s w e (PhaseEvent.control answer) q = on_control-Kept w e answer
    woken-Kept s w e (PhaseEvent.signalled msg) q = tt
    woken-Kept s w e (PhaseEvent.rate_tick streams) q =
        on_rate_tick-Kept w e (total_bytes streams) (bitrate_limit s)
    woken-Kept s w e (PhaseEvent.idle_tick streams now) q = elim (Bool-cases (idle_armed ctx.cfg)) [
      | inl b ↦ rw b (on_idle_tick-Kept s w e (received_bytes streams) now q)
      | inr b ↦ rw b (refl, refl)
    ]
    woken-Kept s w e (PhaseEvent.clock now) q = on_clock-Kept w e now

  -- A loop behind an event on which it stops.
  Stopped-over :
      (x : Woken F R) (k : Watch → TestRunCtx F R × Phase) → Stopped x → (go_on x k).1 ≢ pending
  Stopped-over (watching w) k h = absurd h
  Stopped-over (ends out) k h = λ q. absurd (cc q)
  Stopped-over (fails out error) k h = λ q. absurd (cc q)

  module _ {S : Type 0} (s : Server F) (ctx : TestRunCtx F R) (e : Option RiperfError) where
    clock_due :
        (w : Watch) (earlier later : List (PhaseEvent S)) (now : ℕ)
        → ctx.cfg.duration ≢ 0
        → watchdog_secs ctx.cfg * 1000000000 ≤ now
        → (watched s ctx w e (earlier ++ clock now ∷ later)).1 ≢ pending
    unfolding watched woken on_clock
    clock_due w [] later now d h =
        Stopped-over (on_clock ctx w e now) (λ v. watched s ctx v e later)
          (rw (watchdog_secs-armed ctx.cfg d, le→leb _ now h) (self_terminate-Stopped ctx _ _ e))
    clock_due w (event ∷ r) later now d h =
        elim (woken s ctx w e event)
          as (λ x. (go_on x (λ v. watched s ctx v e (r ++ clock now ∷ later))).1 ≢ pending) [
            | watching v ↦ clock_due v r later now d h
            | ends out ↦ λ q. absurd (cc q)
            | fails out error ↦ λ q. absurd (cc q)
          ]

    clock_early :
        (w : Watch) (earlier later : List (PhaseEvent S)) (now : ℕ)
        → now < watchdog_secs ctx.cfg * 1000000000
        → watched s ctx w e (earlier ++ clock now ∷ later) ≡ watched s ctx w e (earlier ++ later)
    unfolding watched woken on_clock
    clock_early w [] later now h = elim (Bool-cases (ltb 0 (watchdog_secs ctx.cfg))) [
      | inl b ↦ rw (b, lt→not-leb _ now h) refl
      | inr b ↦ rw b refl
    ]
    clock_early w (event ∷ r) later now h =
        elim (woken s ctx w e event)
          as (λ x.
            go_on x (λ v. watched s ctx v e (r ++ clock now ∷ later))
            ≡ go_on x (λ v. watched s ctx v e (r ++ later))) [
              | watching v ↦ clock_early v r later now h
              | ends out ↦ refl
              | fails out error ↦ refl
            ]

    -- The watchdog of the duration, where the client asked for a test by time whose duration and omitted
    -- time fit in a u64 together: wherever the loop stands and whatever comes before, the data phase is
    -- over at the latest when the clock shows the duration, the omitted time and 40 s; and a look at the
    -- clock before that changes nothing.
    pub watched-clock :
        (w : Watch) (earlier later : List (PhaseEvent S)) (now : ℕ)
        → 0 < ctx.cfg.duration
        → ctx.cfg.duration + ctx.cfg.omit < 2 ^ 64
        → (((ctx.cfg.duration + ctx.cfg.omit + 40) * 1000000000 ≤ now)
            × ((watched s ctx w e (earlier ++ clock now ∷ later)).1 ≢ pending))
          ⊎ ((now < (ctx.cfg.duration + ctx.cfg.omit + 40) * 1000000000)
              × (watched s ctx w e (earlier ++ clock now ∷ later)
                  ≡ watched s ctx w e (earlier ++ later)))
    watched-clock w earlier later now d f =
        let deadline = (ctx.cfg.duration + ctx.cfg.omit + 40) * 1000000000 in
        elim (Bool-cases (leb deadline now)) [
          | inl b ↦
              let due : deadline ≤ now = ground (arith, b) in
              inl (
                due,
                clock_due w earlier later now (λ z. omega (arith, d, z))
                    (omega (arith, watchdog_secs-value ctx.cfg d f, due)),
              )
          | inr b ↦
              let early : now < deadline = ground (arith, b) in
              inr (
                early,
                clock_early w earlier later now
                    (omega (arith, watchdog_secs-value ctx.cfg d f, early)),
              )
        ]

    idle_tick-Stopped :
        (w : Watch) (streams : List (StreamCounters S)) (now : ℕ)
        → idle_armed ctx.cfg ≡ true
        → received_bytes streams ≤ w.idle_last_rx
        → idle_bound s ≤ now - w.idle_last_at
        → Stopped (woken s ctx w e (idle_tick streams now))
    unfolding woken on_idle_tick
    idle_tick-Stopped w streams now a b h =
        rw (a, le→not-ltb _ _ b, le→leb (idle_bound s) (now - w.idle_last_at) h) tt

    idle_over :
        (rx at now : ℕ) (w : Watch) (earlier later : List (PhaseEvent S))
        (streams : List (StreamCounters S))
        → w.idle_last_rx ≡ rx
        → w.idle_last_at ≡ at
        → idle_armed ctx.cfg ≡ true
        → All (Quiet rx) earlier
        → received_bytes streams ≤ rx
        → idle_bound s ≤ now - at
        → (watched s ctx w e (earlier ++ idle_tick streams now ∷ later)).1 ≢ pending
    unfolding watched
    idle_over rx at now w [] later streams r t a q b h =
        Stopped-over (woken s ctx w e (idle_tick streams now)) (λ v. watched s ctx v e later)
          (idle_tick-Stopped w streams now a (subst (λ x. received_bytes streams ≤ x) (sym r) b)
            (subst (λ x. idle_bound s ≤ now - x) (sym t) h))
    idle_over rx at now w (event ∷ events) later streams r t a q b h =
        elim (woken s ctx w e event)
            as (λ x.
              Kept w x
              → (go_on x (λ v. watched s ctx v e (events ++ idle_tick streams now ∷ later))).1
                ≢ pending) [
                  | watching v ↦
                      λ k. idle_over rx at now v events later streams (k.0 ∙ r) (k.1 ∙ t) a q.1 b h
                  | ends out ↦ λ k z. absurd (cc z)
                  | fails out error ↦ λ k z. absurd (cc z)
                ]
          (woken-Kept ctx s w e event (subst (λ x. Quiet x event) (sym r) q.0))

    -- The watchdog of the data: wherever the loop stands, in a test in which the server receives, the
    -- data phase is over at the latest at the tick that is the idle time behind the last bytes, if no
    -- tick up to it finds more bytes received.
    pub watched-idle :
        (w : Watch) (earlier later : List (PhaseEvent S)) (streams : List (StreamCounters S))
        (now : ℕ)
        → idle_armed ctx.cfg ≡ true
        → All (Quiet w.idle_last_rx) earlier
        → received_bytes streams ≤ w.idle_last_rx
        → idle_bound s ≤ now - w.idle_last_at
        → (watched s ctx w e (earlier ++ idle_tick streams now ∷ later)).1 ≢ pending
    watched-idle w earlier later streams now a q b h =
        idle_over w.idle_last_rx w.idle_last_at now w earlier later streams refl refl a q b h
