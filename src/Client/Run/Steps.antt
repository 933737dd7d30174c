-- ===== src/Client/Run/Steps.antt =====
-- What one round of a client's run changes, whatever it reads.
use riperf.Base.{ℕ, refl, inl, inr, false, List, [], Option, none, some, arith}
use riperf.Client.Run.{dispatch, advance, on_lost, woken, step}
use riperf.Errors.Runtime.{RiperfError, peer_disconnected, control_socket_closed}
use riperf.Protocol.State.{TestState}
use riperf.Client.Types.{Env, Client}
use riperf.Client.Context.{Message, RunCtx, StepFlow, send, emit_results, partial_report}
use riperf.Client.Drive.{got, lost}
use riperf.Client.Handlers.{
  Wake, received, signalled, Round, Calls, Exchanged, try_send, results_exchanged, results_sent,
  results, unreadable, signal,
}
use riperf.Client.Run.Handled.{
  Handled, idle, emit_once, params_sent-Handled, streams_created-Handled, on_ctrl_lost-Handled,
  on_recv_results_failed-Handled, on_interrupted_wait-Handled, on_server_terminate-Handled,
  relay-Handled, test_driven-Handled,
}

module _ {E : Env} {S R : Type 0} (calls : Calls E S R) (c : Client E) where
  sent-Handled :
      (ctx : RunCtx E R) (m : Message E R) (own : List ℕ) (out : RunCtx E R) (e : RiperfError)
      → Handled (send ctx m) own (out, StepFlow.fail e)
      → Handled ctx own (out, StepFlow.fail e)
  sent-Handled ctx m own out e h = record { grown = h.grown; covered = h.covered; flows = h.flows }

  results_sent-Handled :
      (ctx : RunCtx E R) (r : Round E S R) (x : Exchanged R) (m : Message E R)
      → Handled ctx [] (results_exchanged calls c (send ctx m) r x)
  unfolding results_exchanged
  results_sent-Handled ctx r (results theirs) m = idle ctx _ _ refl refl (refl, refl)
  results_sent-Handled ctx r unreadable m =
      sent-Handled ctx m _ _ _ (on_recv_results_failed-Handled calls c (send ctx m) _)
  results_sent-Handled ctx r (signal msg) m =
      let h = on_interrupted_wait-Handled calls c (send ctx m) r msg in
      record { grown = h.grown; covered = h.covered; flows = h.flows }

  on_exchange_results-Handled :
      (ctx : RunCtx E R) (r : Round E S R) (e : Option RiperfError)
      → Handled ctx [] (results_sent calls c ctx r e)
  unfolding results_sent
  on_exchange_results-Handled ctx r none = results_sent-Handled ctx r r.exchange _
  on_exchange_results-Handled ctx r (some e) = idle ctx _ _ refl refl (omega arith)

  display-Handled :
      (ctx : RunCtx E R) (e : Option RiperfError)
      → let report = partial_report ctx ctx.server_results false ctx.measured_secs none in
        let shown = record (emit_results ctx report) { final_report = some report } in
        Handled ctx [] (try_send calls c shown (Message.state TestState.iperf_done) e StepFlow.stop)
  unfolding try_send emit_results partial_report
  display-Handled ctx none = idle ctx _ _ refl refl (
      inr (record {
        report = partial_report ctx ctx.server_results false ctx.measured_secs none;
        kept = refl;
        shown = refl;
        last = refl;
        theirs = (refl, refl);
        whole = (refl, refl, refl);
      }))
  display-Handled ctx (some e) = idle ctx _ _ refl refl (emit_once ctx _)

  -- The tasks that a state has a round spawn.
  abbrev pub own : TestState → Round E S R → List ℕ
  own TestState.create_streams r = r.spawned
  own TestState.param_exchange r = []
  own TestState.test_start r = []
  own TestState.test_running r = []
  own TestState.test_end r = []
  own TestState.server_terminate r = []
  own TestState.client_terminate r = []
  own TestState.exchange_results r = []
  own TestState.display_results r = []
  own TestState.iperf_start r = []
  own TestState.iperf_done r = []
  own TestState.access_denied r = []
  own TestState.server_error r = []

  unchanged : (ctx : RunCtx E R) → Handled ctx [] (ctx, StepFlow.continue)
  unchanged ctx = idle ctx ctx StepFlow.continue refl refl (refl, refl)

  dispatch-Handled :
      (s : TestState) (ctx : RunCtx E R) (r : Round E S R)
      → Handled ctx (own s r) (dispatch calls c s ctx r)
  unfolding dispatch
  dispatch-Handled TestState.param_exchange ctx r = params_sent-Handled calls c ctx r r.send_error
  dispatch-Handled TestState.create_streams ctx r = streams_created-Handled calls c ctx r
  dispatch-Handled TestState.test_start ctx r = idle ctx _ _ refl refl (refl, refl)
  dispatch-Handled TestState.test_running ctx r = test_driven-Handled calls c ctx r _
  dispatch-Handled TestState.exchange_results ctx r = on_exchange_results-Handled ctx r r.send_error
  dispatch-Handled TestState.display_results ctx r = display-Handled ctx r.send_error
  dispatch-Handled TestState.iperf_done ctx r = idle ctx ctx _ refl refl (inl (refl, refl))
  dispatch-Handled TestState.access_denied ctx r = idle ctx ctx _ refl refl (omega arith)
  dispatch-Handled TestState.server_error ctx r = relay-Handled calls c ctx r
  dispatch-Handled TestState.server_terminate ctx r = on_server_terminate-Handled calls c ctx
  dispatch-Handled TestState.test_end ctx r = unchanged ctx
  dispatch-Handled TestState.client_terminate ctx r = unchanged ctx
  dispatch-Handled TestState.iperf_start ctx r = unchanged ctx

  advance-Handled :
      (s : TestState) (ctx : RunCtx E R) (tasks : List ℕ) (after : RunCtx E R × StepFlow E R)
      → Handled ctx tasks after
      → Handled ctx tasks (advance calls c s after)
  unfolding advance
  advance-Handled s ctx tasks (out, StepFlow.continue) h = record {
    grown = h.grown;
    covered = h.covered;
    flows = h.flows;
  }
  advance-Handled s ctx tasks (out, StepFlow.stop) h = h
  advance-Handled s ctx tasks (out, StepFlow.leave report t) h = h
  advance-Handled s ctx tasks (out, StepFlow.fail e) h = h
  advance-Handled s ctx tasks (out, StepFlow.waiting) h = h

  abbrev pub own_of : Option Wake → Round E S R → List ℕ
  own_of (some (received (got s))) r = own s r
  own_of (some (received (lost e))) r = []
  own_of (some (signalled msg)) r = []
  own_of none r = []

  on_lost-Handled : (e : RiperfError) (ctx : RunCtx E R) → Handled ctx [] (on_lost calls c e ctx)
  unfolding on_lost
  on_lost-Handled peer_disconnected ctx = on_ctrl_lost-Handled calls c ctx control_socket_closed
  on_lost-Handled control_socket_closed ctx = on_ctrl_lost-Handled calls c ctx control_socket_closed
  on_lost-Handled e ctx = idle ctx ctx (StepFlow.fail e) refl refl (omega arith)

  woken-Handled :
      (ctx : RunCtx E R) (r : Round E S R) (w : Option Wake)
      → Handled ctx (own_of w r) (woken calls c ctx r w)
  unfolding woken
  woken-Handled ctx r none = idle ctx ctx _ refl refl (refl, refl)
  woken-Handled ctx r (some (signalled msg)) = on_interrupted_wait-Handled calls c ctx r msg
  woken-Handled ctx r (some (received (lost e))) = on_lost-Handled e ctx
  woken-Handled ctx r (some (received (got s))) =
      advance-Handled s ctx (own s r) _ (dispatch-Handled s ctx r)

  pub step-Handled :
      (ctx : RunCtx E R) (r : Round E S R) → Handled ctx (own_of r.wake r) (step calls c ctx r)
  unfolding step
  step-Handled ctx r = woken-Handled ctx r r.wake
