-- ===== src/Client/Context.antt =====
-- The state of a client's run (`RunCtx`, `RunStage`, `StepFlow` and `StartMeta` of
-- riperf3/src/client.rs) and its dumps. A stream task is its number; a report is what it is made of. The
-- context also notes what the run has sent, dumped and aborted.
use riperf.Base.{ℕ, Bool, true, false, List, [], ◌∷◌, ◌++◌, Option, ℤ, Bytes, ◌||◌}
use riperf.Errors.Runtime.{RiperfError}
use riperf.Outcome.{Termination}
use riperf.Protocol.State.{TestState}
use riperf.Protocol.Params.{TestParams}
use riperf.Client.Types.{Env, Client}

pub data RunStage : Type 0 where
  pre_test_start : ℕ → RunStage
  started : ℕ → RunStage

unfoldable pub has_started : RunStage → Bool
has_started (pre_test_start connect_millis) = false
has_started (started start_millis) = true

unfoldable pub timestamp_millis : RunStage → ℕ
timestamp_millis (pre_test_start connect_millis) = connect_millis
timestamp_millis (started start_millis) = start_millis

module _ (E : Env) (R : Type 0) where
  -- What `render_results` and `build_report_input` are given.
  pub record Report : Type 0 where
    pub streams : List ℕ
    pub cpu_start : Option ℕ
    pub server_results : Option R
    pub blksize : ℕ
    pub stage : RunStage
    pub bare_end : Bool
    pub secs : E.f64.Carrier
    pub error : Option Bytes

  -- What the run sends over the control connection.
  pub data Message : Type 0 where
    state : TestState → Message
    params : TestParams → Message
    results : R → Message

  pub record RunCtx : Type 0 where
    pub blksize : ℕ
    pub done : Bool
    pub start : Bool
    pub streams : List ℕ
    pub byte_budget : Option ℤ
    pub cpu_start : Option ℕ
    pub server_results : Option R
    pub final_report : Option Report
    pub measured_secs : E.f64.Carrier
    pub stage : RunStage
    pub prev_state : TestState
    -- the handles of the abort guard
    pub guarded : List ℕ
    pub sent : List Message
    pub dumped : List Report
    pub reaped : List ℕ

  pub data StepFlow : Type 0 where
    continue : StepFlow
    stop : StepFlow
    leave : Report → Termination → StepFlow
    fail : RiperfError → StepFlow
    -- what the run reads has not come yet
    waiting : StepFlow

module _ {E : Env} {R : Type 0} where
  unfoldable pub partial_report :
      RunCtx E R → Option R → Bool → E.f64.Carrier → Option Bytes → Report E R
  partial_report ctx server_results bare_end secs error = record {
    streams = ctx.streams;
    cpu_start = ctx.cpu_start;
    server_results = server_results;
    blksize = ctx.blksize;
    stage = ctx.stage;
    bare_end = bare_end;
    secs = secs;
    error = error;
  }

  abbrev pub send : RunCtx E R → Message E R → RunCtx E R
  send ctx m = record ctx { sent = ctx.sent ++ m ∷ [] }

  -- `emit_results` renders the report that it returns.
  unfoldable pub emit_results : RunCtx E R → Report E R → RunCtx E R
  emit_results ctx report = record ctx { dumped = ctx.dumped ++ report ∷ [] }

-- The machine-readable sinks.
abbrev pub json_sink : {E : Env} → Client E → Bool
json_sink c = c.json_output || c.json_stream
