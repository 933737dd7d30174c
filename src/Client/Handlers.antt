-- ===== src/Client/Handlers.antt =====
-- The handlers of the states of a client's run, in riperf3/src/client.rs. What a handler reads of the
-- clock, the sockets and the tasks is a round of the run. Printed text is left out; a JSON document is
-- the report that is dumped.
use riperf.Base.{ℕ, true, false, List, ◌++◌, Option, none, some, ℤ, Bytes, codes, if◌then◌else◌}
use riperf.Errors.Runtime.{RiperfError, control_socket_closed, recv_results_failed, iperf3_strerror}
use riperf.Outcome.{Termination}
use riperf.Protocol.State.{TestState}
use riperf.Protocol.Params.{TestParams}
use riperf.Client.Types.{Env, Client}
use riperf.Client.Context.{
  pre_test_start, started, has_started, Report, Message, RunCtx, StepFlow, partial_report,
  emit_results, send, json_sink,
}
use riperf.Client.Drive.{
  Received, ControlEvent, interrupted, terminated, server_errored, closed, DriveEvent, drive,
}

-- What a wait for the control connection or a signal wakes up with.
pub data Wake : Type 0 where
  received : Received → Wake
  signalled : Bytes → Wake

-- What the setup of the streams answers: the byte budget, or an error.
pub data Created : Type 0 where
  created : Option ℤ → Created
  not_created : RiperfError → Created

module _ (R : Type 0) where
  -- What the exchange of the results wakes up with.
  pub data Exchanged : Type 0 where
    results : R → Exchanged
    unreadable : Exchanged
    signal : Bytes → Exchanged

module _ (E : Env) (S R : Type 0) where
  -- What one round of the run reads; `wake` is `none` where nothing comes.
  pub record Round : Type 0 where
    pub wake : Option Wake
    pub now : ℕ
    pub send_error : Option RiperfError
    -- that of the CLIENT_TERMINATE that a signal has the run send
    pub farewell_error : Option RiperfError
    pub spawned : List ℕ
    pub creation : Created
    pub drive_events : List (DriveEvent E S)
    pub exchange : Exchanged R
    pub relay : Option (ℕ × ℕ)

  -- The code that the handlers call: `build_params` at a block size, `build_results`, and the system's
  -- error texts.
  pub record Calls : Type 0 where
    pub build_params : ℕ → TestParams
    pub build_results : List ℕ → Option ℕ → E.f64.Carrier → R
    pub os_text : ℕ → Bytes

module _ {E : Env} {S R : Type 0} (calls : Calls E S R) (c : Client E) where
  -- A message that the send may lose to an error.
  unfoldable pub try_send :
      RunCtx E R → Message E R → Option RiperfError → StepFlow E R → RunCtx E R × StepFlow E R
  try_send ctx m none flow = (send ctx m, flow)
  try_send ctx m (some e) flow = (ctx, StepFlow.fail e)

  -- A message whose errors are ignored.
  unfoldable pub send_ignoring : RunCtx E R → Message E R → Option RiperfError → RunCtx E R
  send_ignoring ctx m none = send ctx m
  send_ignoring ctx m (some e) = ctx

  unfoldable pub on_interrupted_wait : RunCtx E R → Round E S R → Bytes → RunCtx E R × Report E R
  unfolding send_ignoring partial_report emit_results has_started
  on_interrupted_wait ctx r msg =
      let told = send_ignoring ctx (Message.state TestState.client_terminate) r.farewell_error in
      let secs = if has_started ctx.stage then ctx.measured_secs else E.f64.of_ℕ 0 in
      let report = partial_report told told.server_results false secs (some msg) in
      (emit_results told report, report)

  unfoldable pub params_sent :
      RunCtx E R → Round E S R → Option RiperfError → RunCtx E R × StepFlow E R
  unfolding has_started
  params_sent ctx r (some e) = (ctx, StepFlow.fail e)
  params_sent ctx r none =
      let sent = send ctx (Message.params (calls.build_params ctx.blksize)) in
      (
        record sent { stage = if has_started ctx.stage then ctx.stage else pre_test_start r.now },
        StepFlow.continue,
      )

  unfoldable pub on_param_exchange : RunCtx E R → Round E S R → RunCtx E R × StepFlow E R
  unfolding params_sent
  on_param_exchange ctx r = params_sent ctx r r.send_error

  unfoldable pub streams_created : RunCtx E R → Created → RunCtx E R × StepFlow E R
  streams_created ctx (not_created e) = (ctx, StepFlow.fail e)
  streams_created ctx (created budget) = (record ctx { byte_budget = budget }, StepFlow.continue)

  -- Each stream enters the context and the abort guard as it is spawned.
  unfoldable pub on_create_streams : RunCtx E R → Round E S R → RunCtx E R × StepFlow E R
  unfolding streams_created
  on_create_streams ctx r =
      let spawned = record ctx {
        streams = ctx.streams ++ r.spawned;
        guarded = ctx.guarded ++ r.spawned;
      } in
      streams_created spawned r.creation

  unfoldable pub on_test_start : RunCtx E R → Round E S R → RunCtx E R
  on_test_start ctx r = record ctx { start = true; cpu_start = some r.now; stage = started r.now }

  unfoldable pub on_server_terminate : RunCtx E R → RunCtx E R × Report E R
  unfolding partial_report emit_results
  on_server_terminate ctx =
      let report =
        partial_report ctx none false ctx.measured_secs
          (some (codes "the server has terminated")) in
      (emit_results ctx report, report)

  unfoldable pub on_server_error_relay : RunCtx E R → Round E S R → RunCtx E R × Report E R × Bytes
  unfolding partial_report emit_results
  on_server_error_relay ctx r =
      let msg = elim r.relay as (λ x. Bytes) [
        | some (i_errno, os_errno) ↦ iperf3_strerror calls.os_text i_errno os_errno
        | none ↦ codes "server error"
      ] in
      let report = partial_report ctx none true ctx.measured_secs (some msg) in
      (if json_sink c then emit_results ctx report else ctx, report, msg)

  -- Its error is always `control_socket_closed`.
  unfoldable pub on_ctrl_lost : RunCtx E R → RunCtx E R
  unfolding partial_report emit_results
  on_ctrl_lost ctx =
      let text = codes "control socket has closed unexpectedly" in
      if json_sink c
      then emit_results ctx (partial_report ctx none true ctx.measured_secs (some text))
      else ctx

  -- Its error is always `recv_results_failed`.
  unfoldable pub on_recv_results_failed : RunCtx E R → RunCtx E R
  unfolding partial_report emit_results
  on_recv_results_failed ctx =
      let text = codes "unable to receive results: " in
      if json_sink c
      then emit_results ctx (partial_report ctx none true ctx.measured_secs (some text))
      else ctx

  -- Behind the data phase, which ended at `secs` with the event, if one ended it.
  unfoldable pub test_ended :
      RunCtx E R → Round E S R → E.f64.Carrier → Option ControlEvent → RunCtx E R × StepFlow E R
  unfolding on_server_terminate on_server_error_relay on_ctrl_lost try_send send_ignoring
      partial_report emit_results
  test_ended ctx r secs none =
      try_send (record ctx { done = true; measured_secs = secs }) (Message.state TestState.test_end)
        r.send_error StepFlow.continue
  test_ended ctx r secs (some closed) =
      (on_ctrl_lost (record ctx { done = true }), StepFlow.fail control_socket_closed)
  test_ended ctx r secs (some terminated) =
      let (told, report) = on_server_terminate (record ctx { done = true; measured_secs = secs }) in
      (told, StepFlow.leave report Termination.server_terminated)
  test_ended ctx r secs (some (interrupted msg)) =
      let ran = record ctx { done = true; measured_secs = secs } in
      let told = send_ignoring ran (Message.state TestState.client_terminate) r.farewell_error in
      let report = partial_report told none false secs (some msg) in
      (emit_results told report, StepFlow.leave report Termination.interrupted)
  test_ended ctx r secs (some server_errored) =
      let (told, report, msg) =
        on_server_error_relay (record ctx { done = true; measured_secs = secs }) r in
      (told, StepFlow.leave report (Termination.server_error msg))

  unfoldable pub test_driven :
      RunCtx E R
      → Round E S R
      → Option (E.f64.Carrier × Option ControlEvent)
      → RunCtx E R × StepFlow E R
  unfolding test_ended
  test_driven ctx r none = (ctx, StepFlow.waiting)
  test_driven ctx r (some (secs, event)) = test_ended ctx r secs event

  unfoldable pub on_test_running : RunCtx E R → Round E S R → RunCtx E R × StepFlow E R
  unfolding test_driven
  on_test_running ctx r = test_driven ctx r (drive E S c ctx.blksize r.drive_events)

  unfoldable pub results_exchanged :
      RunCtx E R → Round E S R → Exchanged R → RunCtx E R × StepFlow E R
  unfolding on_interrupted_wait on_recv_results_failed
  results_exchanged ctx r (results theirs) =
      (record ctx { server_results = some theirs }, StepFlow.continue)
  results_exchanged ctx r unreadable =
      (on_recv_results_failed ctx, StepFlow.fail recv_results_failed)
  results_exchanged ctx r (signal msg) =
      let (told, report) = on_interrupted_wait ctx r msg in
      (told, StepFlow.leave report Termination.interrupted)

  unfoldable pub results_sent :
      RunCtx E R → Round E S R → Option RiperfError → RunCtx E R × StepFlow E R
  unfolding results_exchanged
  results_sent ctx r (some e) = (ctx, StepFlow.fail e)
  results_sent ctx r none =
      let own = calls.build_results ctx.streams ctx.cpu_start ctx.measured_secs in
      results_exchanged (send ctx (Message.results own)) r r.exchange

  unfoldable pub on_exchange_results : RunCtx E R → Round E S R → RunCtx E R × StepFlow E R
  unfolding results_sent
  on_exchange_results ctx r = results_sent ctx r r.send_error

  unfoldable pub on_display_results : RunCtx E R → Round E S R → RunCtx E R × StepFlow E R
  unfolding partial_report emit_results try_send
  on_display_results ctx r =
      let report = partial_report ctx ctx.server_results false ctx.measured_secs none in
      let shown = record (emit_results ctx report) { final_report = some report } in
      try_send shown (Message.state TestState.iperf_done) r.send_error StepFlow.stop
