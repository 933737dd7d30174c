-- ===== src/Examples/Runs.antt =====
-- Runs of a client.
use riperf.Base.{ℕ, ◌≡◌, ◌≢◌, refl, List, [], ◌∷◌, ◌++◌, none, some, pos, codes}
use riperf.Outcome.{Termination}
use riperf.Protocol.State.{TestState}
use riperf.Client.Types.{Client}
use riperf.Client.Context.{Message}
use riperf.Client.Drive.{DriveEvent, timer, control, got, drive, end_condition, watch_control}
use riperf.Client.Handlers.{Calls, Round, received, signalled, created, results}
use riperf.Client.Run.{outcome, unfinished, fresh, run}
use riperf.Client.Run.Teardown.{Closed, Completed, spawned, run-Closed, run-Completed}
use riperf.Client.Run.Clean.{Scenario, clean_rounds, clean_report, run_timed}
use riperf.Examples.Setup.{linux, client, sent}

abbrev pub ten_seconds : Client linux
ten_seconds = record client { bytes_to_send = none; blocks_to_send = none; duration = 10 }

abbrev pub calls : Calls linux ℕ ℕ
calls = record {
  build_params = λ blksize. sent;
  build_results = λ streams began secs. 100;
  os_text = λ errno. codes "error";
}

-- The server repeats TEST_RUNNING before the deadline.
abbrev strays : List (DriveEvent linux ℕ)
strays = control (got TestState.test_running) (pos 1) ∷ []

abbrev pub scenario : Scenario linux ℕ ℕ
scenario = record {
  connected = 1000;
  set_up = 1010;
  began = 1020;
  tasks = 5 ∷ 7 ∷ [];
  budget = none;
  events = strays ++ timer ∷ [];
  theirs = 200;
}

run_timed_example :
    let (ctx, answer) = run calls ten_seconds 1200 (clean_rounds scenario) in
    (answer
      ≡ outcome (record {
        report = clean_report scenario 1200 (pos 10);
        termination = Termination.completed;
      }))
    × (ctx.sent
        ≡ Message.params sent
          ∷ Message.state TestState.test_end
          ∷ Message.results 100
          ∷ Message.state TestState.iperf_done
          ∷ [])
    × (ctx.reaped ≡ 5 ∷ 7 ∷ [])
unfolding end_condition watch_control
run_timed_example = run_timed calls ten_seconds 1200 9 scenario strays [] refl refl (refl, tt)

-- A signal comes while the results are awaited.
abbrev signalled_rounds : List (Round linux ℕ ℕ)
signalled_rounds =
    record {
      wake = some (received (got TestState.create_streams));
      now = 1000;
      send_error = none;
      farewell_error = none;
      spawned = 5 ∷ 7 ∷ [];
      creation = created none;
      drive_events = [];
      exchange = results 200;
      relay = none;
    }
    ∷ record {
      wake = some (signalled (codes "interrupt"));
      now = 1010;
      send_error = none;
      farewell_error = none;
      spawned = [];
      creation = created none;
      drive_events = [];
      exchange = results 200;
      relay = none;
    }
    ∷ []

not_unfinished : (run calls ten_seconds 1200 signalled_rounds).1 ≢ unfinished
unfolding run
not_unfinished h = cc h

run-Closed_example :
    Closed calls ten_seconds
      (run calls ten_seconds 1200 signalled_rounds).0
      (spawned calls ten_seconds (fresh linux ℕ ten_seconds 1200) signalled_rounds)
run-Closed_example = run-Closed calls ten_seconds 1200 signalled_rounds not_unfinished

clean_answer :
    (run calls ten_seconds 1200 (clean_rounds scenario)).1
    ≡ outcome (record {
      report = clean_report scenario 1200 (pos 10);
      termination = Termination.completed;
    })
unfolding run drive
clean_answer = refl

run-Completed_example :
    Completed calls ten_seconds
      (run calls ten_seconds 1200 (clean_rounds scenario)).0
      (clean_report scenario 1200 (pos 10))
run-Completed_example =
    run-Completed calls ten_seconds 1200 (clean_rounds scenario)
      (clean_report scenario 1200 (pos 10)) clean_answer
