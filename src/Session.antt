-- ===== src/Session.antt =====
-- A whole test between the client of riperf3/src/client.rs and the server of riperf3/src/server.rs: what
-- one sends is what the other reads.
use riperf.Base.{ℕ, ◌≡◌, refl, sym, ◌∙◌, ap, true, List, [], ◌∷◌, ◌++◌, Option, none, some, or_else}
use mathlib.Core.Path.{subst}
use riperf.Base.Float.{Float}
use riperf.Errors.Runtime.{RiperfError}
use riperf.Outcome.{Termination, RunOutcome}
use riperf.Protocol.State.{TestState}
use riperf.Client.Types.{Env, Client}
use riperf.Client.Context.{Message}
use riperf.Client.Drive.{got, drive}
use riperf.Client.Handlers.{Calls, Round, received, results}
use riperf.Client.Run.{Finished, outcome, run}
use riperf.Client.Run.Clean.{Scenario, clean_rounds, clean_report, run_clean}
use riperf.Server.Round.{Server, no_marks, RoundReport, Frame, TestRunCtx, over, pending, send}
use riperf.Server.Round.DataPhase.{
  PhaseEvent, Watch, watching, ends, fails, go_on, woken, watch, watched, on_control,
  await_test_end,
}
use riperf.Server.Round.Exchange.{
  answered, exchanges, exchange_results_phase, send_kept, answered_with, await_done,
}
use riperf.Server.Round.Served.{
  Inputs, frozen_error, late_error, termination, was_captured, finish_server_output, final_report,
  resolve, completed, reap, send_state, start_test, shutdown_and_flush, tested, served,
}
use riperf.Server.Round.Endings.{clean, marks_of, key, signal_text, late_error-key}
use riperf.Server.Round.Talk.{no_marks-exchanges}
use riperf.Server.Round.Conversation.{
  conversation, opening, finish_server_output-kept, emit_final_output-kept, final_report-Named,
}

-- The states that the server sends before the test: of the negotiation and of the setup.
abbrev pub setup : List TestState
setup = TestState.param_exchange ∷ TestState.create_streams ∷ []

-- The states among the frames, which are what a run of the client wakes up for.
abbrev pub states : {R : Type 0} → List (Frame R) → List TestState
states [] = []
states (Frame.state s ∷ r) = s ∷ states r
states (Frame.relay i os ∷ r) = TestState.server_error ∷ states r
states (Frame.results x ∷ r) = states r

module _ {F : Float} {S R : Type 0} where
  -- What the server reads when nothing fails: the events before the end of the test, then the messages
  -- of the client.
  abbrev pub inputs : R → List (PhaseEvent S) → F.Carrier → TestState → R → TestState → Inputs F S R
  inputs own events measured a theirs b = record {
    test_start_error = none;
    test_running_error = none;
    started_at = 0;
    events = events ++ PhaseEvent.control (got a) ∷ [];
    farewell_error = none;
    measured_elapsed = measured;
    own = own;
    exchange = record {
      announce_error = none;
      results_error = none;
      display_error = none;
      farewell_error = none;
      answer = some (results theirs);
      tail = answered (got b) ∷ [];
    };
  }

module _ {E : Env} {S R : Type 0} where
  -- What a server reads of the messages that a client sends.
  abbrev pub heard :
      R → List (PhaseEvent S) → E.f64.Carrier → List (Message E R) → Option (Inputs E.f64 S R)
  heard own events measured
        (Message.params p ∷ Message.state a ∷ Message.results theirs ∷ Message.state b ∷ []) =
      some (inputs own events measured a theirs b)
  heard own events measured other = none

module _ {F : Float} {S R : Type 0} (s : Server F) where
  -- TEST_END ends a data phase that has not ended before.
  watched-test_end :
      (ctx : TestRunCtx F R) (w : Watch) (e : Option RiperfError)
      (events later : List (PhaseEvent S))
      → (watched s ctx w e events).1 ≡ pending
      → watched s ctx w e (events ++ PhaseEvent.control (got TestState.test_end) ∷ later)
        ≡ (ctx, over)
  unfolding watched woken on_control
  watched-test_end ctx w e [] later h = refl
  watched-test_end ctx w e (event ∷ events) later h =
      elim (woken s ctx w e event)
          as (λ x.
            (go_on x (λ v. watched s ctx v e events)).1 ≡ pending
            → go_on x (λ v.
              watched s ctx v e (events ++ PhaseEvent.control (got TestState.test_end) ∷ later))
              ≡ (ctx, over)) [
                | watching v ↦ λ k. watched-test_end ctx v e events later k
                | ends out ↦ λ k. absurd (cc k)
                | fails out error ↦ λ k. absurd (cc k)
              ]
        h

module _ {F : Float} {R : Type 0} where
  -- A round that completes, with no error, and says the whole conversation.
  abbrev pub Completes : R → TestRunCtx F R × Finished (RoundReport F) → Type 0
  Completes own (out, answer) =
      (o : RunOutcome (RoundReport F)) × (answer ≡ outcome o)
      × (o.termination ≡ Termination.completed)
      × (o.report.error ≡ none)
      × (out.sent ≡ conversation own)

  -- The context behind the opening of a test.
  abbrev pub begun : TestRunCtx F R → TestRunCtx F R
  begun ctx =
      send (send (record ctx { start = true }) (Frame.state TestState.test_start))
        (Frame.state TestState.test_running)

  -- An exchange in which nothing fails.
  exchanged_clean :
      (ctx : TestRunCtx F R) (own theirs : R)
      → ctx.marks ≡ no_marks
      → exchange_results_phase ctx own (record {
        announce_error = none;
        results_error = none;
        display_error = none;
        farewell_error = none;
        answer = some (results theirs);
        tail = answered (got TestState.iperf_done) ∷ [];
      })
        ≡ (
          send
              (send (send ctx (Frame.state TestState.exchange_results)) (Frame.results own))
              (Frame.state TestState.display_results),
          over,
        )
  unfolding exchange_results_phase send_kept answered_with await_done
  exchanged_clean ctx own theirs h = rw (ap exchanges h ∙ no_marks-exchanges) refl

module _ {F : Float} {S R : Type 0} (s : Server F) where
  tested_clean :
      (ran : TestRunCtx F R) (own theirs : R) (events : List (PhaseEvent S)) (measured : F.Carrier)
      → ran.marks ≡ no_marks
      → ran.sent ≡ opening
      → Completes own (
          tested s
            (inputs own events measured TestState.test_end theirs TestState.iperf_done)
            (ran, over))
  unfolding tested shutdown_and_flush completed reap marks_of key termination signal_text
  tested_clean ran own theirs events measured m h =
      let (stopped, end) = shutdown_and_flush ran measured in
      let (finished, source) = finish_server_output s stopped end in
      let kept = finish_server_output-kept s stopped end refl in
      let told =
        send (send (send finished (Frame.state TestState.exchange_results)) (Frame.results own))
          (Frame.state TestState.display_results) in
      let resolved = resolve end told.marks in
      let report = final_report told resolved source in
      let named =
        final_report-Named told end ran.marks source clean (kept.0 ∙ m) refl kept.3
          (ap (λ n. or_else (frozen_error n) (late_error (marks_of clean))) m
            ∙ late_error-key clean)
          (ap (λ n. n.bare_end) m) in
      subst (λ x. Completes own (completed s end source (was_captured stopped) x))
        (sym (exchanged_clean finished own theirs (kept.0 ∙ m)))
        (
          record { report = report; termination = termination told.marks },
          refl,
          ap termination (kept.0 ∙ m),
          named.0,
          (emit_final_output-kept s told resolved report (was_captured stopped)).1
              ∙ ap
                  (λ l.
                    ((l ++ Frame.state TestState.exchange_results ∷ []) ++ Frame.results own ∷ [])
                    ++ Frame.state TestState.display_results ∷ [])
                  (kept.1 ∙ h),
        )

  served_clean :
      (ctx : TestRunCtx F R) (own theirs : R) (events : List (PhaseEvent S)) (measured : F.Carrier)
      → ctx.marks ≡ no_marks
      → ctx.sent ≡ []
      → (await_test_end s (begun ctx) 0 none events).1 ≡ pending
      → Completes own
          (served s (inputs own events measured TestState.test_end theirs TestState.iperf_done) ctx)
  unfolding served start_test send_state await_test_end
  served_clean ctx own theirs events measured m h w =
      subst
        (λ x.
          Completes own (
            tested s (inputs own events measured TestState.test_end theirs TestState.iperf_done) x))
        (sym (watched-test_end s (begun ctx) (watch s 0) none events [] w))
        (tested_clean (begun ctx) own theirs events measured m (
          ap
            (λ l.
              (l ++ Frame.state TestState.test_start ∷ [])
              ++ Frame.state TestState.test_running ∷ [])
            h))

module _ {E : Env} {S R : Type 0} where
  -- The states that wake the rounds of a client's run.
  abbrev pub wakes : List (Round E S R) → List TestState
  wakes [] = []
  wakes (r ∷ rs) = elim r.wake [ some (received (got st)) ↦ st ∷ wakes rs | other ↦ wakes rs ]

  -- A client whose data phase ends by itself and a server whose data phase has not ended before
  -- TEST_END comes complete together, when no operation fails: the client's run completes; the server
  -- reads what the client sent, completes with no error in its report, and says the whole conversation;
  -- and the states that it sends, with those of the setup, are the ones that wake the client, in order.
  pub run-served :
      (calls : Calls E S R) (c : Client E) (s : Server E.f64) (blksize : ℕ) (n : Scenario E S R)
      (secs measured : E.f64.Carrier) (ctx : TestRunCtx E.f64 R) (events : List (PhaseEvent S))
      → drive E S c blksize n.events ≡ some (secs, none)
      → ctx.marks ≡ no_marks
      → ctx.sent ≡ []
      → (await_test_end s (begun ctx) 0 none events).1 ≡ pending
      → let (told, answer) = run calls c blksize (clean_rounds n) in
        (answer
          ≡ outcome (record {
            report = clean_report n blksize secs;
            termination = Termination.completed;
          }))
        × (i : Inputs E.f64 S R) × (heard n.theirs events measured told.sent ≡ some i)
        × Completes n.theirs (served s i ctx)
        × (setup ++ states (served s i ctx).0.sent ≡ wakes (clean_rounds n))
  run-served calls c s blksize n secs measured ctx events d m h w =
      let (ended, said, reaped) = run_clean calls c blksize n secs d in
      let own = calls.build_results n.tasks (some n.began) secs in
      let complete = served_clean s ctx n.theirs own events measured m h w in
      (
        ended,
        inputs n.theirs events measured TestState.test_end own TestState.iperf_done,
        ap (heard n.theirs events measured) said,
        complete,
        ap (λ l. setup ++ states l) complete.4,
      )
