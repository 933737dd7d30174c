-- ===== src/Client/Run/Clean.antt =====
-- A client's run against a server that goes through the phases of a test.
use riperf.Base.{
  ℕ, suc, ◌≡◌, refl, ◌∙◌, ap, List, [], ◌∷◌, ◌++◌, Option, none, some, false, ℤ, All, arith,
}
use riperf.Outcome.{Termination}
use riperf.Protocol.State.{TestState}
use riperf.Client.Types.{Env, Client}
use riperf.Client.Context.{Report, Message, started}
use riperf.Client.Drive.{
  got, watch_control, DriveEvent, timer, control, polled, drive, duration, end_condition,
}
use riperf.Client.Handlers.{received, Round, Calls, results, created}
use riperf.Client.Run.{outcome, run}

module _ {E : Env} {S : Type 0} where
  -- A state that the watch of the data phase ignores
  abbrev pub Stray : DriveEvent E S → Type 0
  Stray (control answer elapsed) = watch_control answer ≡ none
  Stray other = ⊥

  -- The deadline ends a test by time, whatever stray states come before it.
  drive-timer :
      (c : Client E) (blksize d : ℕ) (strays later : List (DriveEvent E S))
      → end_condition c ≡ duration (suc d)
      → All Stray strays
      → drive E S c blksize (strays ++ timer ∷ later) ≡ some (E.f64.of_ℕ (suc d), none)
  unfolding drive
  drive-timer c blksize d [] later e h = ground arith
  drive-timer c blksize d (control answer elapsed ∷ strays) later e h =
      ground (arith, drive-timer c blksize d strays later e h.1)
  drive-timer c blksize d (timer ∷ strays) later e h = absurd h.0
  drive-timer c blksize d (polled p x ∷ strays) later e h = absurd h.0
  drive-timer c blksize d (DriveEvent.signalled m x ∷ strays) later e h = absurd h.0

module _ (E : Env) (S R : Type 0) where
  -- What a run without failures reads: the times of its rounds, the tasks, the budget, and what the
  -- server answers.
  pub record Scenario : Type 0 where
    pub connected : ℕ
    pub set_up : ℕ
    pub began : ℕ
    pub tasks : List ℕ
    pub budget : Option ℤ
    pub events : List (DriveEvent E S)
    pub theirs : R

module _ {E : Env} {S R : Type 0} where
  -- A round in which a state comes and nothing fails.
  abbrev on_state : Scenario E S R → ℕ → TestState → Round E S R
  on_state n now s = record {
    wake = some (received (got s));
    now = now;
    send_error = none;
    farewell_error = none;
    spawned = n.tasks;
    creation = created n.budget;
    drive_events = n.events;
    exchange = results n.theirs;
    relay = none;
  }

  -- The phases of a test, in the server's order.
  abbrev pub clean_rounds : Scenario E S R → List (Round E S R)
  clean_rounds n =
      on_state n n.connected TestState.param_exchange
      ∷ on_state n n.set_up TestState.create_streams
      ∷ on_state n n.began TestState.test_start
      ∷ on_state n n.began TestState.test_running
      ∷ on_state n n.began TestState.exchange_results
      ∷ on_state n n.began TestState.display_results
      ∷ []

  abbrev pub clean_report : Scenario E S R → ℕ → E.f64.Carrier → Report E R
  clean_report n blksize secs = record {
    streams = n.tasks;
    cpu_start = some n.began;
    server_results = some n.theirs;
    blksize = blksize;
    stage = started n.began;
    bare_end = false;
    secs = secs;
    error = none;
  }

  -- A run in which the data phase ends by itself at `secs`.
  pub run_clean :
      (calls : Calls E S R) (c : Client E) (blksize : ℕ) (n : Scenario E S R) (secs : E.f64.Carrier)
      → drive E S c blksize n.events ≡ some (secs, none)
      → let (ctx, answer) = run calls c blksize (clean_rounds n) in
        (answer
          ≡ outcome (record {
            report = clean_report n blksize secs;
            termination = Termination.completed;
          }))
        × (ctx.sent
            ≡ Message.params (calls.build_params blksize)
              ∷ Message.state TestState.test_end
              ∷ Message.results (calls.build_results n.tasks (some n.began) secs)
              ∷ Message.state TestState.iperf_done
              ∷ [])
        × (ctx.reaped ≡ n.tasks)
  unfolding run
  run_clean calls c blksize n secs h = rw h (refl, refl, refl)

  -- When the server goes through the phases of a test in order and no operation fails, a test by time
  -- completes at its deadline, whatever stray states the server sends before it: the report holds both
  -- halves, and the run has sent the parameters, TEST_END, its own results and IPERF_DONE, in this order
  -- and nothing else, and has aborted and joined every task.
  pub run_timed :
      (calls : Calls E S R) (c : Client E) (blksize d : ℕ) (n : Scenario E S R)
      (strays later : List (DriveEvent E S))
      → end_condition c ≡ duration (suc d)
      → n.events ≡ strays ++ timer ∷ later
      → All Stray strays
      → let (ctx, answer) = run calls c blksize (clean_rounds n) in
        let secs = E.f64.of_ℕ (suc d) in
        (answer
          ≡ outcome (record {
            report = clean_report n blksize secs;
            termination = Termination.completed;
          }))
        × (ctx.sent
            ≡ Message.params (calls.build_params blksize)
              ∷ Message.state TestState.test_end
              ∷ Message.results (calls.build_results n.tasks (some n.began) secs)
              ∷ Message.state TestState.iperf_done
              ∷ [])
        × (ctx.reaped ≡ n.tasks)
  run_timed calls c blksize d n strays later e events h =
      run_clean calls c blksize n (E.f64.of_ℕ (suc d))
        (ap (drive E S c blksize) events ∙ drive-timer c blksize d strays later e h)
