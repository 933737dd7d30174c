-- ===== src/Examples/Rounds.antt =====
-- Tests that a server serves.
use riperf.Base.{
  ℕ, ◌+◌, ◌*◌, ◌≤◌, ◌<◌, ◌⊎◌, ◌≡◌, ◌≢◌, refl, false, List, [], ◌∷◌, ◌++◌, none, some, pos, arith,
}
use riperf.Base.Float.{whole}
use riperf.Outcome.{Termination}
use riperf.Protocol.State.{TestState}
use riperf.Protocol.Params.{TransportProtocol}
use riperf.Stream.Counters.{StreamCounters, new}
use riperf.Client.Drive.{drive, got, end_condition, watch_control}
use riperf.Client.Handlers.{results}
use riperf.Client.Run.{outcome, run}
use riperf.Client.Run.Clean.{clean_rounds, clean_report}
use riperf.Server.Config.{TestConfig}
use riperf.Server.RateWindow.{from_interval_secs}
use riperf.Server.Round.{Server, TestRunCtx, no_marks, pending}
use riperf.Server.Round.DataPhase.{
  PhaseEvent, clock, idle_tick, control, Watch, watched, watch, woken, await_test_end, idle_armed,
  idle_bound, received_bytes, on_control, on_idle_tick,
}
use riperf.Server.Round.Exchange.{answered}
use riperf.Server.Round.Served.{Inputs, served}
use riperf.Server.Round.Conversation.{Concluded}
use riperf.Server.Round.Spoken.{served-Concluded}
use riperf.Server.Round.Watchdogs.{watched-clock, watched-idle}
use riperf.Session.{Completes, heard, setup, states, wakes, run-served}
use riperf.Examples.Setup.{sent}
use riperf.Examples.Runs.{calls, ten_seconds, scenario}

abbrev server : Server whole
server = record {
  rcv_timeout = some 3000;
  server_bitrate_limit = none;
  server_bitrate_limit_interval = none;
  json_output = false;
  json_stream = false;
}

abbrev pub config : TestConfig
config = record {
  protocol = TransportProtocol.tcp;
  duration = 10;
  num_streams = 2;
  blksize = 1200;
  reverse = false;
  bidir = false;
  omit = 0;
  no_delay = false;
  mss = none;
  window = none;
  bandwidth = 0;
  burst = 0;
  fq_rate = 0;
  gso = false;
  gso_dg_size = pos 0;
  gro = false;
  pacing_timer = 1000;
  tos = pos 0;
  congestion = none;
  udp_counters_64bit = false;
  repeating_payload = false;
  dont_fragment = false;
}

abbrev context : TestRunCtx whole ℕ
context = record {
  params = sent;
  cfg = config;
  want_server_output = false;
  capture = false;
  done = false;
  start = false;
  streams = 5 ∷ 7 ∷ [];
  marks = no_marks;
  sent = [];
  shown = [];
  aborted = [];
  reaped = [];
}

-- A client that sends nothing: the tick 3 s behind the start ends the test.
abbrev silent : StreamCounters ℕ
unfolding new
silent = new ℕ

abbrev silence : List (PhaseEvent ℕ)
silence = control (got TestState.test_start) ∷ idle_tick (silent ∷ []) 1000000000 ∷ []

abbrev idle_test : Inputs whole ℕ ℕ
idle_test = record {
  test_start_error = none;
  test_running_error = none;
  started_at = 0;
  events = silence ++ idle_tick (silent ∷ []) 3000000000 ∷ [];
  farewell_error = none;
  measured_elapsed = pos 3;
  own = 100;
  exchange = record {
    announce_error = none;
    results_error = none;
    display_error = none;
    farewell_error = none;
    answer = some (results 200);
    tail = answered (got TestState.iperf_done) ∷ [];
  };
}

served-Concluded_example : Concluded 100 (5 ∷ 7 ∷ []) (served server idle_test context)
served-Concluded_example = served-Concluded server idle_test context refl refl

abbrev at_start : Watch
unfolding from_interval_secs
at_start = record {
  rate_window = from_interval_secs whole (pos 5);
  rate_prev_total = 0;
  idle_last_rx = 0;
  idle_last_at = 0;
}

watched-clock_example :
    (((10 + 0 + 40) * 1000000000 ≤ 50000000000)
      × ((watched server context at_start none (silence ++ clock 50000000000 ∷ [])).1 ≢ pending))
    ⊎ ((50000000000 < (10 + 0 + 40) * 1000000000)
        × (watched server context at_start none (silence ++ clock 50000000000 ∷ [])
            ≡ watched server context at_start none (silence ++ [])))
watched-clock_example =
    watched-clock server context none at_start silence [] 50000000000 (omega arith) (omega arith)

watched-idle_example :
    (watched server context at_start none (silence ++ idle_tick (silent ∷ []) 3000000000 ∷ [])).1
    ≢ pending
unfolding idle_armed idle_bound received_bytes new at_start
watched-idle_example =
    watched-idle server context none at_start silence [] (silent ∷ []) 3000000000 refl
      (tt, (omega arith, tt)) (omega arith) (omega arith)

run-served_example :
    let (told, answer) = run calls ten_seconds 1200 (clean_rounds scenario) in
    (answer
      ≡ outcome (record {
        report = clean_report scenario 1200 (pos 10);
        termination = Termination.completed;
      }))
    × (i : Inputs whole ℕ ℕ) × (heard 200 silence (pos 10) told.sent ≡ some i)
    × Completes 200 (served server i context)
    × (setup ++ states (served server i context).0.sent ≡ wakes (clean_rounds scenario))
unfolding drive end_condition watch_control await_test_end watched woken watch on_control
    on_idle_tick idle_armed received_bytes new idle_bound
run-served_example =
    run-served calls ten_seconds server 1200 scenario (pos 10) (pos 10) context silence refl refl
      refl refl
