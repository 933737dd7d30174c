-- ===== src/Server/Serve/Loop.antt =====
-- A whole round of the server, and the accept loop of `Server::run` in riperf3/src/server.rs.
use riperf.Base.{
  ℕ, suc, Bool, true, false, List, [], ◌∷◌, ◌++◌, Option, none, some, Bytes, bytes_eq, codes,
  if◌then◌else◌, ◌||◌,
}
use riperf.Errors.Runtime.{
  RiperfError, IoError, access_denied, aborted, control_socket_closed, recv_results_failed,
  recv_cookie_failed, recv_data_cookie_failed, recv_params_failed, send_control_failed,
  accept_failed, stream_connect_failed, set_no_delay_failed, data_idle_timeout,
  unknown_control_message, client_terminated,
}
use riperf.Errors.Display.{to_string}
use riperf.Outcome.{Termination}
use riperf.Auth.Token.{Crypto}
use riperf.Protocol.Params.{TestParams}
use riperf.Client.Run.{Finished, outcome, failed, unfinished}
use riperf.Server.Config.{TestConfig}
use riperf.Server.Round.Setup.{SetupFlow, SetupResult, flow, err}
use riperf.Server.Accept.{Daemon, Said, banner, ParkEvent, park_refused_round}
use riperf.Server.Serve.{
  RoundEnd, reported, unreported, round_failed, waiting, Opened, closed, admitted, Arrival,
  json_mode, text_line, emit_pretest_error_doc, emit_pretest_error, opened,
}

-- The end of a round that parks, and of the one that ends here unless an interrupt comes first.
unfoldable pub parked_end : RiperfError → Option (Option Bytes) → RoundEnd
parked_end e none = waiting
parked_end e (some none) = round_failed e
parked_end e (some (some msg)) = unreported

unfoldable pub done_end : Option (Option Bytes) → RoundEnd
done_end none = waiting
done_end (some msg) = unreported

-- What the setup of the streams and the test come to.
unfoldable pub tested_end : {Rep : Type 0} → List ParkEvent → SetupResult → Finished Rep → RoundEnd
unfolding parked_end done_end park_refused_round
tested_end park (err e) f = parked_end e (park_refused_round park)
tested_end park (flow SetupFlow.client_done) f = done_end (park_refused_round park)
tested_end park (flow SetupFlow.proceed) (outcome o) = reported o.termination
tested_end park (flow SetupFlow.proceed) (failed e) = round_failed e
tested_end park (flow SetupFlow.proceed) unfinished = waiting

module _ (d : Daemon) where
  -- The line of a round with a report
  unfoldable pub reported_line : Termination → List Said
  unfolding to_string
  reported_line Termination.client_terminated = text_line d (to_string client_terminated)
  reported_line Termination.control_closed =
      text_line d (codes "the client has unexpectedly closed the connection")
  reported_line Termination.unknown_message =
      text_line d (codes "error - " ++ to_string unknown_control_message)
  reported_line Termination.recv_results_failed =
      text_line d (codes "error - " ++ to_string recv_results_failed ++ codes ": ")
  reported_line (Termination.send_failed msg) = text_line d (codes "error - " ++ msg)
  reported_line (Termination.recv_message_failed msg) = text_line d (codes "error - " ++ msg)
  reported_line t = []

  -- The residual errors
  unfoldable pub generic_error : RiperfError → List Said
  unfolding emit_pretest_error_doc to_string
  generic_error e =
      if json_mode d
      then emit_pretest_error_doc d (codes "error - " ++ to_string e) none
      else text_line d (codes "error - " ++ to_string e)

  -- What the loop says of an error, and whether it is the silent restart.
  unfoldable pub failed_line : RiperfError → List Said × Bool
  unfolding to_string emit_pretest_error generic_error
  failed_line (aborted msg) =
      if bytes_eq msg (codes "idle timeout")
      then ([], true)
      else (generic_error (aborted msg), false)
  failed_line control_socket_closed =
      (text_line d (codes "the client has unexpectedly closed the connection"), false)
  failed_line client_terminated = (text_line d (to_string client_terminated), false)
  failed_line unknown_control_message =
      (text_line d (codes "error - " ++ to_string unknown_control_message), false)
  failed_line data_idle_timeout =
      (text_line d (codes "error - " ++ to_string data_idle_timeout), false)
  failed_line (stream_connect_failed e) =
      (text_line d (codes "error - " ++ to_string (stream_connect_failed e)), false)
  failed_line recv_data_cookie_failed =
      (text_line d (codes "error - " ++ to_string recv_data_cookie_failed ++ codes ": "), false)
  failed_line recv_cookie_failed = (emit_pretest_error d recv_cookie_failed, false)
  failed_line recv_params_failed = (emit_pretest_error d recv_params_failed, false)
  failed_line (send_control_failed e) = (emit_pretest_error d (send_control_failed e), false)
  failed_line (accept_failed e) = (emit_pretest_error d (accept_failed e), false)
  failed_line (set_no_delay_failed e) = (emit_pretest_error d (set_no_delay_failed e), false)
  failed_line access_denied = (text_line d (codes "error - no error"), false)
  failed_line e = (generic_error e, false)

  -- Nothing while the round goes on.
  unfoldable pub end_line : RoundEnd → Option (List Said × Bool)
  unfolding reported_line failed_line
  end_line (reported t) = some (reported_line t, false)
  end_line unreported = some ([], false)
  end_line (round_failed e) = some (failed_line e)
  end_line waiting = none

  abbrev pub listening : ℕ → List Said
  listening n = if json_mode d || d.output_quiet then [] else banner n ∷ []

-- How far the loop has come: still serving, or it has returned.
pub data Serving : Type 0 where
  serving returned : Serving

-- Behind a round: the loop returns, or goes on with the number of the next test.
unfoldable pub follow :
    Daemon
    → ℕ
    → List Said
    → Bool
    → Option (List Said × Bool)
    → (ℕ → List Said × ℕ × Serving)
    → List Said × ℕ × Serving
follow d n said fired none go_on = (said, n, serving)
follow d n said fired (some (told, idle_restart)) go_on =
    let next = if idle_restart then n else suc n in
    let rest = go_on next in
    if fired || d.one_off
    then (said ++ told, n, returned)
    else (said ++ told ++ (if idle_restart then [] else listening d next) ++ rest.0, rest.1, rest.2)

-- The loop behind the rounds' ends, each with what the round itself has said and whether the interrupt
-- has fired by then. The number is that of the test to come.
unfoldable pub serve : Daemon → ℕ → List (List Said × RoundEnd × Bool) → List Said × ℕ × Serving
unfolding end_line follow
serve d n [] = ([], n, serving)
serve d n ((said, end, fired) ∷ rs) =
    follow d n said fired (end_line d end) (λ next. serve d next rs)

-- The listening banner, and the loop.
unfoldable pub run : Daemon → List (List Said × RoundEnd × Bool) → List Said × ℕ × Serving
unfolding serve
run d rs = let served = serve d 1 rs in (listening d 1 ++ served.0, served.1, served.2)

module _ (C : Crypto) (read_file : Bytes → Option Bytes) (raw_os_error : IoError → ℕ) (d : Daemon)
    {Rep : Type 0} where
  unfoldable pub opened_end :
      List ParkEvent → (TestParams → TestConfig → SetupResult × Finished Rep) → Opened → RoundEnd
  unfolding tested_end
  opened_end park test (closed end) = end
  opened_end park test (admitted params cfg) =
      let (setup, rest) = test params cfg in tested_end park setup rest

  unfoldable pub handle_one_test :
      Arrival → (TestParams → TestConfig → SetupResult × Finished Rep) → List Said × RoundEnd
  unfolding opened opened_end
  handle_one_test a test =
      let far = opened C read_file raw_os_error d {R = Unit {0}} a in
      (far.1, opened_end a.park test far.2)
