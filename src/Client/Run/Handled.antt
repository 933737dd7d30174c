-- ===== src/Client/Run/Handled.antt =====
-- What the handlers of a client's run change, whatever they read.
use riperf.Base.{
  ℕ, suc, ◌≤◌, ◌≡◌, refl, sym, ◌∙◌, ap, ◌⊎◌, inl, inr, ◌≢◌, true, false, List, [], ◌∷◌, ◌++◌,
  Option, none, some, length, arith, append-nil, Bool-cases, length-append, Bytes,
}
use riperf.Errors.Runtime.{RiperfError, control_socket_closed}
use riperf.Outcome.{Termination}
use riperf.Protocol.State.{TestState}
use riperf.Client.Types.{Env, Client}
use riperf.Client.Context.{Report, Message, RunCtx, StepFlow, json_sink, emit_results}
use riperf.Client.Drive.{ControlEvent, closed, terminated, interrupted, server_errored}
use riperf.Client.Handlers.{
  Round, Calls, on_interrupted_wait, on_create_streams, on_server_terminate, on_server_error_relay,
  on_ctrl_lost, on_recv_results_failed, try_send, params_sent, streams_created, created,
  not_created, test_ended, test_driven, send_ignoring,
}

module _ {E : Env} {R : Type 0} where
  -- The report of the display is the run's, and IPERF_DONE is the last thing sent.
  pub record Displayed (ctx out : RunCtx E R) : Type 0 where
    pub report : Report E R
    pub kept : out.final_report ≡ some report
    pub shown : out.dumped ≡ ctx.dumped ++ report ∷ []
    pub last : out.sent ≡ ctx.sent ++ Message.state TestState.iperf_done ∷ []
    pub theirs :
        (report.server_results ≡ ctx.server_results) × (out.server_results ≡ ctx.server_results)
    pub whole : (report.bare_end ≡ false) × (report.error ≡ none) × (report.streams ≡ out.streams)

  -- Nothing shown, nothing kept.
  abbrev pub Quiet : RunCtx E R → RunCtx E R → Type 0
  Quiet ctx out = (out.dumped ≡ ctx.dumped) × (out.final_report ≡ ctx.final_report)

  abbrev pub AtMostOne : RunCtx E R → RunCtx E R → Type 0
  AtMostOne ctx out = length out.dumped ≤ suc (length ctx.dumped)

  -- What a flow says of the contexts before and behind a round.
  abbrev pub Flows : RunCtx E R → RunCtx E R → StepFlow E R → Type 0
  Flows ctx out StepFlow.continue = Quiet ctx out
  Flows ctx out StepFlow.stop = Quiet ctx out ⊎ Displayed ctx out
  Flows ctx out (StepFlow.leave report t) = (t ≢ Termination.completed) × AtMostOne ctx out
  Flows ctx out (StepFlow.fail e) = AtMostOne ctx out
  Flows ctx out StepFlow.waiting = Quiet ctx out

  -- A round that spawns the tasks `own`.
  pub record Handled (ctx : RunCtx E R) (own : List ℕ) (after : RunCtx E R × StepFlow E R)
      : Type 0 where
    pub grown : after.0.streams ≡ ctx.streams ++ own
    pub covered : ctx.guarded ≡ ctx.streams → after.0.guarded ≡ after.0.streams
    pub flows : Flows ctx after.0 after.1

  -- A round that leaves the streams alone.
  pub idle :
      (ctx out : RunCtx E R) (flow : StepFlow E R)
      → out.streams ≡ ctx.streams
      → out.guarded ≡ ctx.guarded
      → Flows ctx out flow
      → Handled ctx [] (out, flow)
  idle ctx out flow s g f = record {
    grown = s ∙ sym (append-nil ctx.streams);
    covered = λ h. g ∙ h ∙ sym s;
    flows = f;
  }

  pub emit_once : (ctx : RunCtx E R) (report : Report E R) → AtMostOne ctx (emit_results ctx report)
  unfolding emit_results
  emit_once ctx report = omega (arith, length-append {0} ctx.dumped (report ∷ []))

module _ {E : Env} {S R : Type 0} (calls : Calls E S R) (c : Client E) where
  pub params_sent-Handled :
      (ctx : RunCtx E R) (r : Round E S R) (e : Option RiperfError)
      → Handled ctx [] (params_sent calls c ctx r e)
  unfolding params_sent
  params_sent-Handled ctx r none = idle ctx _ _ refl refl (refl, refl)
  params_sent-Handled ctx r (some e) = idle ctx _ _ refl refl (omega arith)

  pub streams_created-Handled :
      (ctx : RunCtx E R) (r : Round E S R) → Handled ctx r.spawned (on_create_streams calls c ctx r)
  unfolding on_create_streams
  streams_created-Handled ctx r =
      elim r.creation
        as (λ x. Handled ctx r.spawned (
          streams_created calls c
            (record ctx { streams = ctx.streams ++ r.spawned; guarded = ctx.guarded ++ r.spawned })
            x)) [
              | created b ↦ record {
                grown = refl;
                covered = λ h. ap (λ l. l ++ r.spawned) h;
                flows = (refl, refl);
              }
              | not_created e ↦ record {
                grown = refl;
                covered = λ h. ap (λ l. l ++ r.spawned) h;
                flows = omega arith;
              }
            ]

  pub on_server_error_relay-Handled :
      (ctx : RunCtx E R) (r : Round E S R)
      → let out = (on_server_error_relay calls c ctx r).0 in
        (out.streams ≡ ctx.streams) × (out.guarded ≡ ctx.guarded) × AtMostOne ctx out
  unfolding on_server_error_relay
  on_server_error_relay-Handled ctx r = elim (Bool-cases (json_sink c)) [
    | inl e ↦ rw e (refl, refl, emit_once ctx _)
    | inr e ↦ rw e (refl, refl, omega arith)
  ]

  pub on_ctrl_lost-Handled :
      (ctx : RunCtx E R) (e : RiperfError)
      → Handled ctx [] (on_ctrl_lost calls c ctx, StepFlow.fail e)
  unfolding on_ctrl_lost
  on_ctrl_lost-Handled ctx e = elim (Bool-cases (json_sink c)) [
    | inl j ↦ rw j (idle ctx _ _ refl refl (emit_once ctx _))
    | inr j ↦ rw j (idle ctx _ _ refl refl (omega arith))
  ]

  pub on_recv_results_failed-Handled :
      (ctx : RunCtx E R) (e : RiperfError)
      → Handled ctx [] (on_recv_results_failed calls c ctx, StepFlow.fail e)
  unfolding on_recv_results_failed
  on_recv_results_failed-Handled ctx e = elim (Bool-cases (json_sink c)) [
    | inl j ↦ rw j (idle ctx _ _ refl refl (emit_once ctx _))
    | inr j ↦ rw j (idle ctx _ _ refl refl (omega arith))
  ]

  -- A run that leaves with a report that is dumped at most once.
  pub leaves :
      (ctx out : RunCtx E R) (report : Report E R) (t : Termination)
      → out.streams ≡ ctx.streams
      → out.guarded ≡ ctx.guarded
      → t ≢ Termination.completed
      → AtMostOne ctx out
      → Handled ctx [] (out, StepFlow.leave report t)
  leaves ctx out report t s g n o = idle ctx out _ s g (n, o)

  pub send_ignoring_same :
      (ctx : RunCtx E R) (m : Message E R) (e : Option RiperfError)
      → let out = send_ignoring calls c ctx m e in
        (out.streams ≡ ctx.streams) × (out.guarded ≡ ctx.guarded) × (out.dumped ≡ ctx.dumped)
  unfolding send_ignoring
  send_ignoring_same ctx m none = (refl, refl, refl)
  send_ignoring_same ctx m (some e) = (refl, refl, refl)

  -- A dump behind a message that may get lost.
  pub told_once :
      (ctx : RunCtx E R) (m : Message E R) (e : Option RiperfError) (report : Report E R)
      (t : Termination)
      → t ≢ Termination.completed
      → Handled ctx []
          (emit_results (send_ignoring calls c ctx m e) report, StepFlow.leave report t)
  unfolding emit_results
  told_once ctx m e report t n =
      let told = send_ignoring calls c ctx m e in
      let (s, g, d) = send_ignoring_same ctx m e in
      let once : AtMostOne ctx (emit_results told report) =
        omega (arith, emit_once told report, ap length d) in
      leaves ctx _ report t s g n once

  pub interrupted_ne : Termination.interrupted ≢ Termination.completed
  interrupted_ne h = cc h

  pub on_interrupted_wait-Handled :
      (ctx : RunCtx E R) (r : Round E S R) (msg : Bytes)
      → let (told, report) = on_interrupted_wait calls c ctx r msg in
        Handled ctx [] (told, StepFlow.leave report Termination.interrupted)
  unfolding on_interrupted_wait
  on_interrupted_wait-Handled ctx r msg = told_once ctx _ r.farewell_error _ _ interrupted_ne

  pub server_error_ne : (msg : Bytes) → Termination.server_error msg ≢ Termination.completed
  server_error_ne msg h = cc h

  pub server_terminated_ne : Termination.server_terminated ≢ Termination.completed
  server_terminated_ne h = cc h

  pub on_server_terminate-Handled :
      (ctx : RunCtx E R)
      → let (told, report) = on_server_terminate calls c ctx in
        Handled ctx [] (told, StepFlow.leave report Termination.server_terminated)
  unfolding on_server_terminate
  on_server_terminate-Handled ctx =
      leaves ctx _ _ _ refl refl server_terminated_ne (emit_once ctx _)

  pub relay-Handled :
      (ctx : RunCtx E R) (r : Round E S R)
      → let (told, report, msg) = on_server_error_relay calls c ctx r in
        Handled ctx [] (told, StepFlow.leave report (Termination.server_error msg))
  relay-Handled ctx r =
      let (s, g, o) = on_server_error_relay-Handled ctx r in
      leaves ctx _ _ _ s g (server_error_ne _) o

  pub try_send-Handled :
      (ctx : RunCtx E R) (m : Message E R) (e : Option RiperfError)
      → Handled ctx [] (try_send calls c ctx m e StepFlow.continue)
  unfolding try_send
  try_send-Handled ctx m none = idle ctx _ _ refl refl (refl, refl)
  try_send-Handled ctx m (some e) = idle ctx _ _ refl refl (omega arith)

  -- The streams, the dumps and the report kept are what the flags leave alone.
  pub ran-Handled :
      (ctx : RunCtx E R) (secs : E.f64.Carrier) (after : RunCtx E R × StepFlow E R)
      → Handled (record ctx { done = true; measured_secs = secs }) [] after
      → Handled ctx [] after
  ran-Handled ctx secs (out, StepFlow.continue) h = record {
    grown = h.grown;
    covered = h.covered;
    flows = h.flows;
  }
  ran-Handled ctx secs (out, StepFlow.stop) h = elim h.flows [
    | inl q ↦ record { grown = h.grown; covered = h.covered; flows = inl q }
    | inr d ↦ record {
      grown = h.grown;
      covered = h.covered;
      flows = inr (record {
        report = d.report;
        kept = d.kept;
        shown = d.shown;
        last = d.last;
        theirs = d.theirs;
        whole = d.whole;
      });
    }
  ]
  ran-Handled ctx secs (out, StepFlow.leave report t) h = record {
    grown = h.grown;
    covered = h.covered;
    flows = h.flows;
  }
  ran-Handled ctx secs (out, StepFlow.fail e) h = record {
    grown = h.grown;
    covered = h.covered;
    flows = h.flows;
  }
  ran-Handled ctx secs (out, StepFlow.waiting) h = record {
    grown = h.grown;
    covered = h.covered;
    flows = h.flows;
  }

  pub test_ended-Handled :
      (ctx : RunCtx E R) (r : Round E S R) (secs : E.f64.Carrier) (event : Option ControlEvent)
      → Handled ctx [] (test_ended calls c ctx r secs event)
  unfolding test_ended
  test_ended-Handled ctx r secs none = ran-Handled ctx secs _ (try_send-Handled _ _ r.send_error)
  test_ended-Handled ctx r secs (some closed) =
      let h = on_ctrl_lost-Handled (record ctx { done = true }) control_socket_closed in
      record { grown = h.grown; covered = h.covered; flows = h.flows }
  test_ended-Handled ctx r secs (some terminated) =
      ran-Handled ctx secs _ (on_server_terminate-Handled _)
  test_ended-Handled ctx r secs (some (interrupted msg)) =
      ran-Handled ctx secs _ (told_once _ _ r.farewell_error _ _ interrupted_ne)
  test_ended-Handled ctx r secs (some server_errored) = ran-Handled ctx secs _ (relay-Handled _ r)

  pub test_driven-Handled :
      (ctx : RunCtx E R) (r : Round E S R) (d : Option (E.f64.Carrier × Option ControlEvent))
      → Handled ctx [] (test_driven calls c ctx r d)
  unfolding test_driven
  test_driven-Handled ctx r none = idle ctx _ _ refl refl (refl, refl)
  test_driven-Handled ctx r (some (secs, event)) = test_ended-Handled ctx r secs event
