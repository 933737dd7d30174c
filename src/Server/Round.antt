-- ===== src/Server/Round.antt =====
-- The state of a served test (`TestRunCtx` and `EndState` of riperf3/src/server.rs). The flags that say
-- how it ended are a record of their own; the context also notes what the server has sent, shown and
-- reaped. A stream task is its number.
pub mod Setup
pub mod DataPhase
pub mod Exchange
pub mod Served
pub mod Endings
pub mod Marking
pub mod Talk
pub mod Conversation
pub mod Spoken
pub mod Watchdogs
use riperf.Base.{ℕ, Bool, false, List, [], ◌∷◌, ◌++◌, Option, none, some, Bytes}
use riperf.Base.Float.{Float}
use riperf.Errors.Runtime.{RiperfError}
use riperf.Protocol.State.{TestState}
use riperf.Protocol.Params.{TestParams}
use riperf.Server.Config.{TestConfig}

-- The options of a server that a round reads.
pub record Server (F : Float) : Type 0 where
  pub rcv_timeout : Option ℕ  -- milliseconds
  pub server_bitrate_limit : Option ℕ  -- u64
  pub server_bitrate_limit_interval : Option F.Carrier
  pub json_output : Bool
  pub json_stream : Bool

-- How the test ended.
pub record Marks : Type 0 where
  pub server_error : Option Bytes
  pub client_terminated : Bool
  pub unknown_message : Bool
  pub bare_end : Bool
  pub ctrl_closed : Bool
  pub exchange_recv_failed : Bool
  pub exchange_recv_message_error : Option RiperfError
  pub exchange_send_error : Option RiperfError
  pub early_done : Bool
  pub interrupted : Option Bytes

abbrev pub no_marks : Marks
no_marks = record {
  server_error = none;
  client_terminated = false;
  unknown_message = false;
  bare_end = false;
  ctrl_closed = false;
  exchange_recv_failed = false;
  exchange_recv_message_error = none;
  exchange_send_error = none;
  early_done = false;
  interrupted = none;
}

pub record EndState (F : Float) : Type 0 where
  pub report_error : Option Bytes
  pub test_duration : F.Carrier

-- What a report is built from besides the streams.
pub record RoundReport (F : Float) : Type 0 where
  pub streams : List ℕ
  pub bare_end : Bool
  pub secs : F.Carrier
  pub error : Option Bytes

-- What the round puts out at its end: the JSON lines of an error and of the end, the JSON document, or
-- the summary as text.
pub data Shown (F : Float) : Type 0 where
  error_event : Bytes → Shown F
  end_event document : RoundReport F → Shown F
  summary : F.Carrier → Shown F
  -- of a round that ends before its test
  setup_error_events setup_error : Bytes → Shown F
  terminate_events setup_terminate terminate_skeleton done_events setup_done : Shown F

-- What is sent over the control connection: a state, SERVER_ERROR with its two words, or the results.
pub data Frame (R : Type 0) : Type 0 where
  state : TestState → Frame R
  relay : ℕ → ℕ → Frame R
  results : R → Frame R

pub record TestRunCtx (F : Float) (R : Type 0) : Type 0 where
  pub params : TestParams
  pub cfg : TestConfig
  pub want_server_output : Bool
  -- whether the text is captured for the client
  pub capture : Bool
  pub done : Bool
  pub start : Bool
  pub streams : List ℕ
  pub marks : Marks
  pub sent : List (Frame R)
  pub shown : List (Shown F)
  pub aborted : List ℕ
  pub reaped : List ℕ

-- How far a phase has come.
pub data Phase : Type 0 where
  over pending : Phase
  broken : RiperfError → Phase

module _ {F : Float} {R : Type 0} where
  abbrev pub send : TestRunCtx F R → Frame R → TestRunCtx F R
  send ctx m = record ctx { sent = ctx.sent ++ m ∷ [] }

  -- A frame whose errors are ignored.
  unfoldable pub send_ignoring : TestRunCtx F R → Frame R → Option RiperfError → TestRunCtx F R
  send_ignoring ctx m none = send ctx m
  send_ignoring ctx m (some e) = ctx

  abbrev pub mark : TestRunCtx F R → Marks → TestRunCtx F R
  mark ctx m = record ctx { marks = m }

  -- Goes on behind a phase that is over.
  abbrev pub and_then :
      TestRunCtx F R × Phase → (TestRunCtx F R → TestRunCtx F R × Phase) → TestRunCtx F R × Phase
  and_then (ctx, over) k = k ctx
  and_then (ctx, pending) k = (ctx, pending)
  and_then (ctx, broken e) k = (ctx, broken e)
