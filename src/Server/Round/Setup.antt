-- ===== src/Server/Round/Setup.antt =====
-- The control bytes that come while the streams of a test are set up: `dispatch_setup_ctrl_byte` of
-- riperf3/src/server.rs. Rendered documents are their kind; the quiet guard is a flag.
use riperf.Base.{◌≡◌, refl, Bool, true, [], ◌∷◌, ◌++◌, Option, Bytes, codes, if◌then◌else◌}
use riperf.Base.Float.{Float}
use riperf.Errors.Runtime.{
  RiperfError, unknown_control_message, peer_disconnected, control_socket_closed,
}
use riperf.Errors.Display.{to_string}
use riperf.Protocol.State.{TestState}
use riperf.Client.Drive.{Received, got, lost}
use riperf.Server.Round.{
  Server, Shown, setup_error_events, setup_error, terminate_events, setup_terminate,
  terminate_skeleton, done_events, setup_done, relay, TestRunCtx, send_ignoring,
}

pub data SetupFlow : Type 0 where
  proceed client_done : SetupFlow

-- `Result<SetupFlow>`
pub data SetupResult : Type 0 where
  flow : SetupFlow → SetupResult
  err : RiperfError → SetupResult

module _ {F : Float} {R : Type 0} where
  -- Every task is aborted and joined.
  unfoldable pub abort_setup_streams : TestRunCtx F R → TestRunCtx F R
  abort_setup_streams ctx = record ctx {
    done = true;
    aborted = ctx.streams;
    streams = [];
    reaped = ctx.streams;
  }

module _ {F : Float} {R : Type 0} (s : Server F) (output_quiet : Bool) where
  abbrev show : TestRunCtx F R → Shown F → TestRunCtx F R
  show ctx x = record ctx { shown = ctx.shown ++ x ∷ [] }

  unfoldable pub emit_setup_phase_error : TestRunCtx F R → Bytes → TestRunCtx F R
  emit_setup_phase_error ctx doc_error =
      if output_quiet
      then ctx
      else if s.json_stream
      then show ctx (setup_error_events doc_error)
      else if s.json_output
      then show ctx (setup_error doc_error)
      else ctx

  unfoldable pub emit_setup_phase_terminate : TestRunCtx F R → TestRunCtx F R
  emit_setup_phase_terminate ctx =
      if output_quiet
      then ctx
      else if s.json_stream
      then show ctx terminate_events
      else if s.json_output
      then show ctx setup_terminate
      else show ctx terminate_skeleton

  unfoldable pub emit_setup_phase_done : TestRunCtx F R → TestRunCtx F R
  emit_setup_phase_done ctx =
      if output_quiet
      then ctx
      else if s.json_stream
      then show ctx done_events
      else if s.json_output
      then show ctx setup_done
      else ctx

  -- A byte that has no arm.
  unfoldable pub setup_stray : TestRunCtx F R → Option RiperfError → TestRunCtx F R × SetupResult
  unfolding abort_setup_streams send_ignoring emit_setup_phase_error to_string
  setup_stray ctx e = (
    emit_setup_phase_error (send_ignoring (abort_setup_streams ctx) (relay 110 0) e)
        (codes "error - " ++ to_string unknown_control_message),
    err unknown_control_message,
  )

  -- `e` is the error of the relay.
  unfoldable pub dispatch_setup_ctrl_byte :
      TestRunCtx F R → Option RiperfError → Received → TestRunCtx F R × SetupResult
  unfolding abort_setup_streams send_ignoring emit_setup_phase_error emit_setup_phase_terminate
      emit_setup_phase_done setup_stray
  dispatch_setup_ctrl_byte ctx e (got TestState.test_start) = (ctx, flow proceed)
  dispatch_setup_ctrl_byte ctx e (got TestState.client_terminate) = (
    emit_setup_phase_terminate (send_ignoring (abort_setup_streams ctx) (relay 119 0) e),
    err RiperfError.client_terminated,
  )
  dispatch_setup_ctrl_byte ctx e (got TestState.iperf_done) =
      (emit_setup_phase_done (abort_setup_streams ctx), flow client_done)
  dispatch_setup_ctrl_byte ctx e (got other) = setup_stray ctx e
  dispatch_setup_ctrl_byte ctx e (lost unknown_control_message) = setup_stray ctx e
  dispatch_setup_ctrl_byte ctx e (lost peer_disconnected) = (
    emit_setup_phase_error (send_ignoring (abort_setup_streams ctx) (relay 109 0) e)
        (codes "the client has unexpectedly closed the connection"),
    err control_socket_closed,
  )
  dispatch_setup_ctrl_byte ctx e (lost error) = (ctx, err error)

module _ {F : Float} {R : Type 0} (s : Server F) (output_quiet : Bool) where
  -- The setup goes on only behind a TEST_START, which changes nothing.
  pub dispatch_setup_ctrl_byte-proceed :
      (ctx : TestRunCtx F R) (e : Option RiperfError) (answer : Received)
      → (dispatch_setup_ctrl_byte s output_quiet ctx e answer).1 ≡ flow proceed
      → (answer ≡ got TestState.test_start)
        × ((dispatch_setup_ctrl_byte s output_quiet ctx e answer).0 ≡ ctx)
  unfolding dispatch_setup_ctrl_byte setup_stray
  dispatch_setup_ctrl_byte-proceed ctx e (got TestState.test_start) h = (refl, refl)
  dispatch_setup_ctrl_byte-proceed ctx e (got TestState.client_terminate) h = absurd (cc h)
  dispatch_setup_ctrl_byte-proceed ctx e (got TestState.iperf_done) h = absurd (cc h)
  dispatch_setup_ctrl_byte-proceed ctx e (got other) h = absurd (cc h)
  dispatch_setup_ctrl_byte-proceed ctx e (lost unknown_control_message) h = absurd (cc h)
  dispatch_setup_ctrl_byte-proceed ctx e (lost peer_disconnected) h = absurd (cc h)
  dispatch_setup_ctrl_byte-proceed ctx e (lost error) h = absurd (cc h)
