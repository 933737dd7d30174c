-- ===== src/Client/Run.antt =====
-- `Client::run` of riperf3/src/client.rs, from the connected control socket on: the loop over the states
-- that the server sends, the teardown of the streams, and the outcome.
pub mod Handled
pub mod Steps
pub mod Teardown
pub mod Clean
use riperf.Base.{
  ℕ, Bool, true, false, List, [], ◌∷◌, ◌++◌, Option, none, some, ℤ, Bytes, codes, if◌then◌else◌,
}
use riperf.Errors.Runtime.{
  RiperfError, control_socket_closed, peer_disconnected, server_busy, protocol,
}
use riperf.Outcome.{Termination, RunOutcome}
use riperf.Protocol.State.{TestState}
use riperf.Client.Types.{Env, Client}
use riperf.Client.Context.{RunStage, pre_test_start, Report, RunCtx, StepFlow}
use riperf.Client.Drive.{Received, got, lost}
use riperf.Client.Handlers.{
  Wake, received, signalled, Round, Calls, on_interrupted_wait, on_param_exchange,
  on_create_streams, on_test_start, on_test_running, on_exchange_results, on_display_results,
  on_server_terminate, on_server_error_relay, on_ctrl_lost,
}

pub data Finished (Rep : Type 0) : Type 0 where
  outcome : RunOutcome Rep → Finished Rep
  failed : RiperfError → Finished Rep
  unfinished : Finished Rep

-- The context of a run that has connected.
unfoldable pub fresh : (E : Env) (R : Type 0) → Client E → ℕ → RunCtx E R
fresh E R c blksize = record {
  blksize = blksize;
  done = false;
  start = false;
  streams = [];
  byte_budget = none;
  cpu_start = none;
  server_results = none;
  final_report = none;
  measured_secs = E.f64.of_ℕ c.duration;
  stage = pre_test_start 0;
  prev_state = TestState.iperf_start;
  guarded = [];
  sent = [];
  dumped = [];
  reaped = [];
}

module _ {E : Env} {S R : Type 0} (calls : Calls E S R) (c : Client E) where
  -- The arm of a state.
  unfoldable pub dispatch : TestState → RunCtx E R → Round E S R → RunCtx E R × StepFlow E R
  unfolding on_param_exchange on_create_streams on_test_start on_test_running on_exchange_results
      on_display_results on_server_terminate on_server_error_relay
  dispatch TestState.param_exchange ctx r = on_param_exchange calls c ctx r
  dispatch TestState.create_streams ctx r = on_create_streams calls c ctx r
  dispatch TestState.test_start ctx r = (on_test_start calls c ctx r, StepFlow.continue)
  dispatch TestState.test_running ctx r = on_test_running calls c ctx r
  dispatch TestState.exchange_results ctx r = on_exchange_results calls c ctx r
  dispatch TestState.display_results ctx r = on_display_results calls c ctx r
  dispatch TestState.iperf_done ctx r = (ctx, StepFlow.stop)
  dispatch TestState.access_denied ctx r = (ctx, StepFlow.fail server_busy)
  dispatch TestState.server_error ctx r =
      let (told, report, msg) = on_server_error_relay calls c ctx r in
      (told, StepFlow.leave report (Termination.server_error msg))
  dispatch TestState.server_terminate ctx r =
      let (told, report) = on_server_terminate calls c ctx in
      (told, StepFlow.leave report Termination.server_terminated)
  dispatch TestState.test_end ctx r = (ctx, StepFlow.continue)
  dispatch TestState.client_terminate ctx r = (ctx, StepFlow.continue)
  dispatch TestState.iperf_start ctx r = (ctx, StepFlow.continue)

  -- The cursor of the table moves on behind a state whose arm goes on.
  unfoldable pub advance : TestState → RunCtx E R × StepFlow E R → RunCtx E R × StepFlow E R
  advance s (ctx, StepFlow.continue) = (record ctx { prev_state = s }, StepFlow.continue)
  advance s (ctx, StepFlow.stop) = (ctx, StepFlow.stop)
  advance s (ctx, StepFlow.leave report t) = (ctx, StepFlow.leave report t)
  advance s (ctx, StepFlow.fail e) = (ctx, StepFlow.fail e)
  advance s (ctx, StepFlow.waiting) = (ctx, StepFlow.waiting)

  -- A failed wait: the losses of the connection are folded into one error.
  unfoldable pub on_lost : RiperfError → RunCtx E R → RunCtx E R × StepFlow E R
  unfolding on_ctrl_lost
  on_lost peer_disconnected ctx = (on_ctrl_lost calls c ctx, StepFlow.fail control_socket_closed)
  on_lost control_socket_closed ctx =
      (on_ctrl_lost calls c ctx, StepFlow.fail control_socket_closed)
  on_lost e ctx = (ctx, StepFlow.fail e)

  unfoldable pub woken : RunCtx E R → Round E S R → Option Wake → RunCtx E R × StepFlow E R
  unfolding dispatch advance on_lost on_interrupted_wait
  woken ctx r none = (ctx, StepFlow.waiting)
  woken ctx r (some (signalled msg)) =
      let (told, report) = on_interrupted_wait calls c ctx r msg in
      (told, StepFlow.leave report Termination.interrupted)
  woken ctx r (some (received (lost e))) = on_lost e ctx
  woken ctx r (some (received (got s))) = advance s (dispatch s ctx r)

  unfoldable pub step : RunCtx E R → Round E S R → RunCtx E R × StepFlow E R
  unfolding woken
  step ctx r = woken ctx r r.wake

  -- Goes on behind a round, or ends.
  abbrev pub follow :
      RunCtx E R × StepFlow E R
      → (RunCtx E R → RunCtx E R × StepFlow E R)
      → RunCtx E R × StepFlow E R
  follow (ctx, StepFlow.continue) k = k ctx
  follow (ctx, StepFlow.stop) k = (ctx, StepFlow.stop)
  follow (ctx, StepFlow.leave report t) k = (ctx, StepFlow.leave report t)
  follow (ctx, StepFlow.fail e) k = (ctx, StepFlow.fail e)
  follow (ctx, StepFlow.waiting) k = (ctx, StepFlow.waiting)

  unfoldable pub loop : RunCtx E R → List (Round E S R) → RunCtx E R × StepFlow E R
  unfolding step
  loop ctx [] = (ctx, StepFlow.waiting)
  loop ctx (r ∷ rs) = follow (step ctx r) (λ next. loop next rs)

  -- Every stream task is aborted and joined, and the guard disarmed.
  unfoldable pub teardown : RunCtx E R → RunCtx E R
  teardown ctx = record ctx { done = true; streams = []; guarded = []; reaped = ctx.streams }

  -- What `run` answers behind a clean end of the loop.
  unfoldable pub completion : Option R → Option (Report E R) → Finished (Report E R)
  completion none report = failed (protocol (codes "missing server results in control exchange"))
  completion (some theirs) none =
      failed (protocol (codes "results not displayed before IPERF_DONE"))
  completion (some theirs) (some report) =
      outcome (record { report = report; termination = Termination.completed })

  -- The context left behind, and the answer, if the loop has ended.
  unfoldable pub conclude : RunCtx E R × StepFlow E R → RunCtx E R × Finished (Report E R)
  unfolding teardown completion
  conclude (ctx, StepFlow.leave report t) =
      (teardown ctx, outcome (record { report = report; termination = t }))
  conclude (ctx, StepFlow.fail e) = (teardown ctx, failed e)
  conclude (ctx, StepFlow.stop) = (teardown ctx, completion ctx.server_results ctx.final_report)
  conclude (ctx, StepFlow.waiting) = (ctx, unfinished)
  conclude (ctx, StepFlow.continue) = (ctx, unfinished)

  unfoldable pub run : ℕ → List (Round E S R) → RunCtx E R × Finished (Report E R)
  unfolding loop conclude fresh
  run blksize rounds = conclude (loop (fresh E R c blksize) rounds)
