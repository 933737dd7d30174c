-- ===== src/Server/Round/Served.antt =====
-- A served test from its start on, in riperf3/src/server.rs: `start_test`, `shutdown_and_flush`,
-- `finish_server_output`, `emit_final_output` and the end of `handle_one_test`.
use riperf.Base.{
  ℕ, Bool, true, false, not, ◌&&◌, ◌||◌, List, [], ◌∷◌, ◌++◌, Option, none, some, Bytes, codes,
  if◌then◌else◌, is_some, map_opt, or_else,
}
use riperf.Base.Float.{Float}
use riperf.Errors.Runtime.{RiperfError, unknown_control_message, recv_results_failed}
use riperf.Errors.Display.{to_string}
use riperf.Outcome.{Termination}
use riperf.Protocol.State.{TestState}
use riperf.Client.Run.{Finished, outcome, failed, unfinished}
use riperf.Server.Round.{
  Server, Marks, EndState, RoundReport, Shown, error_event, end_event, document, summary, state,
  TestRunCtx, Phase, over, pending, broken, send, and_then,
}
use riperf.Server.Round.DataPhase.{PhaseEvent, await_test_end}
use riperf.Server.Round.Exchange.{Exchanging, exchange_results_phase}

-- What a round reads.
pub record Inputs (F : Float) (S R : Type 0) : Type 0 where
  pub test_start_error : Option RiperfError
  pub test_running_error : Option RiperfError
  pub started_at : ℕ
  pub events : List (PhaseEvent S)
  pub farewell_error : Option RiperfError
  pub measured_elapsed : F.Carrier
  pub own : R
  pub exchange : Exchanging R

-- Where the report stands behind `finish_server_output`.
pub data ReportSource (F : Float) : Type 0 where
  built : RoundReport F → ReportSource F
  pending_report : ReportSource F

-- Whether `shutdown_and_flush` aborts the stream tasks at once.
unfoldable pub aborts : Marks → Bool
aborts m =
    is_some m.server_error
    || is_some m.interrupted
    || m.unknown_message
    || m.client_terminated
    || m.ctrl_closed
    || m.early_done

-- The error that the end of the data phase leaves for the report.
unfoldable pub frozen_error : Marks → Option Bytes
frozen_error m = elim m.interrupted [
  | some msg ↦ some msg
  | none ↦
      if m.client_terminated
      then some (codes "the client has terminated")
      else map_opt (λ msg. codes "error - " ++ msg) m.server_error
]

-- The error behind the exchange, where the data phase left none.
unfoldable pub late_error : Marks → Option Bytes
unfolding to_string
late_error m = elim m.interrupted [
  | some msg ↦ some msg
  | none ↦
      if m.client_terminated
      then some (codes "the client has terminated")
      else if m.unknown_message
      then some (codes "error - " ++ to_string unknown_control_message)
      else if m.ctrl_closed
      then some (codes "the client has unexpectedly closed the connection")
      else if m.exchange_recv_failed
      then some (codes "error - " ++ to_string recv_results_failed ++ codes ": ")
      else (elim m.exchange_send_error [
        | some e ↦ some (codes "error - " ++ to_string e)
        | none ↦ map_opt (λ e. codes "error - " ++ to_string e) m.exchange_recv_message_error
      ])
]

unfoldable pub termination : Marks → Termination
termination m = elim m.interrupted [
  | some msg ↦ Termination.interrupted
  | none ↦ if m.client_terminated then Termination.client_terminated else (elim m.server_error [
    | some msg ↦ Termination.self_terminated msg
    | none ↦
        if m.unknown_message
        then Termination.unknown_message
        else if m.ctrl_closed
        then Termination.control_closed
        else if m.exchange_recv_failed
        then Termination.recv_results_failed
        else (elim m.exchange_send_error [
          | some e ↦ Termination.send_failed (to_string e)
          | none ↦ elim m.exchange_recv_message_error [
            | some e ↦ Termination.recv_message_failed (to_string e)
            | none ↦ Termination.completed
          ]
        ])
  ])
]

-- `max(0.0)`
abbrev pub clamped : (F : Float) → F.Carrier → F.Carrier
clamped F x = if F.lt (F.of_ℕ 0) x then x else F.of_ℕ 0

module _ {F : Float} where
  abbrev error_events : Option Bytes → List (Shown F)
  error_events none = []
  error_events (some e) = error_event e ∷ []

  unfoldable pub resolve : EndState F → Marks → EndState F
  unfolding late_error
  resolve end m = record end { report_error = or_else end.report_error (late_error m) }

module _ {F : Float} {R : Type 0} where
  -- A state whose failed send is the round's.
  unfoldable pub send_state :
      TestRunCtx F R → TestState → Option RiperfError → TestRunCtx F R × Phase
  send_state ctx st none = (send ctx (state st), over)
  send_state ctx st (some e) = (ctx, broken e)

  unfoldable pub test_duration : TestRunCtx F R → F.Carrier → F.Carrier
  test_duration ctx measured =
      if is_some ctx.params.num
        || is_some ctx.params.blockcount
        || ctx.marks.client_terminated
        || is_some ctx.marks.interrupted
        || is_some ctx.marks.server_error
      then clamped F (F.sub measured (F.of_ℕ ctx.cfg.omit))
      else F.of_ℕ ctx.cfg.duration

  unfoldable pub shutdown_and_flush : TestRunCtx F R → F.Carrier → TestRunCtx F R × EndState F
  unfolding aborts frozen_error test_duration
  shutdown_and_flush ctx measured = (
    record ctx { done = true; aborted = if aborts ctx.marks then ctx.streams else ctx.aborted },
    record { report_error = frozen_error ctx.marks; test_duration = test_duration ctx measured },
  )

  unfoldable pub build_ctx_report : TestRunCtx F R → EndState F → RoundReport F
  build_ctx_report ctx end = record {
    streams = ctx.streams;
    bare_end = ctx.marks.bare_end;
    secs = end.test_duration;
    error = end.report_error;
  }

  -- Whether the captured text renders the summary.
  abbrev pub was_captured : TestRunCtx F R → Bool
  was_captured ctx = ctx.capture && not ctx.marks.bare_end

  -- The report, with the error of the exchange.
  unfoldable pub final_report : TestRunCtx F R → EndState F → ReportSource F → RoundReport F
  unfolding build_ctx_report
  final_report ctx end (built report) = record report {
    error = or_else report.error end.report_error;
  }
  final_report ctx end pending_report = build_ctx_report ctx end

  -- Every stream task is aborted and joined.
  unfoldable pub reap : TestRunCtx F R → TestRunCtx F R
  reap ctx = record ctx { done = true; aborted = ctx.streams; streams = []; reaped = ctx.streams }

module _ {F : Float} {R : Type 0} (s : Server F) where
  unfoldable pub finish_server_output :
      TestRunCtx F R → EndState F → TestRunCtx F R × ReportSource F
  unfolding build_ctx_report
  finish_server_output ctx end =
      let taken = record ctx { capture = false } in
      if was_captured ctx
      then (record taken { shown = ctx.shown ++ summary end.test_duration ∷ [] }, pending_report)
      else if ctx.want_server_output && (s.json_output || s.json_stream)
      then (taken, built (build_ctx_report ctx end))
      else (taken, pending_report)

  unfoldable pub emit_final_output :
      TestRunCtx F R → EndState F → RoundReport F → Bool → TestRunCtx F R
  emit_final_output ctx end report captured =
      if s.json_stream
      then record ctx {
        shown = ctx.shown ++ error_events end.report_error ++ end_event report ∷ [];
      }
      else if s.json_output
      then record ctx { shown = ctx.shown ++ document report ∷ [] }
      else if not captured && not (is_some ctx.marks.server_error) && not ctx.marks.bare_end
      then record ctx { shown = ctx.shown ++ summary end.test_duration ∷ [] }
      else ctx

  -- Behind the exchange.
  unfoldable pub completed :
      EndState F
      → ReportSource F
      → Bool
      → TestRunCtx F R × Phase
      → TestRunCtx F R × Finished (RoundReport F)
  unfolding reap resolve final_report emit_final_output termination
  completed end source captured (ctx, pending) = (ctx, unfinished)
  completed end source captured (ctx, broken e) = (reap ctx, failed e)
  completed end source captured (ctx, over) =
      let resolved = resolve end ctx.marks in
      let report = final_report ctx resolved source in
      (
        reap (emit_final_output ctx resolved report captured),
        outcome (record { report = report; termination = termination ctx.marks }),
      )

module _ {F : Float} {S R : Type 0} (s : Server F) (i : Inputs F S R) where
  -- The senders are let go first.
  unfoldable pub start_test : TestRunCtx F R → TestRunCtx F R × Phase
  unfolding send_state
  start_test ctx =
      and_then (send_state (record ctx { start = true }) TestState.test_start i.test_start_error)
        (λ told. send_state told TestState.test_running i.test_running_error)

  -- Behind the data phase.
  unfoldable pub tested : TestRunCtx F R × Phase → TestRunCtx F R × Finished (RoundReport F)
  unfolding reap shutdown_and_flush finish_server_output exchange_results_phase completed
  tested (ctx, pending) = (ctx, unfinished)
  tested (ctx, broken e) = (reap ctx, failed e)
  tested (ctx, over) =
      let (stopped, end) = shutdown_and_flush ctx i.measured_elapsed in
      let (finished, source) = finish_server_output s stopped end in
      completed s end source (was_captured stopped)
        (exchange_results_phase finished i.own i.exchange)

  unfoldable pub served : TestRunCtx F R → TestRunCtx F R × Finished (RoundReport F)
  unfolding start_test await_test_end tested
  served ctx = tested (
      and_then (start_test ctx)
        (λ begun. await_test_end s begun i.started_at i.farewell_error i.events))
