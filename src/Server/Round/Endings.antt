-- ===== src/Server/Round/Endings.antt =====
-- How a served test may end, one at a time: what each ending sets in the context, what it tells the
-- client, and what it is called in the report and in the outcome.
use riperf.Base.{
  ℕ, ◌≡◌, refl, ◌++◌, Bool, true, List, [], ◌∷◌, Option, none, some, Bytes, codes, or_else,
}
use riperf.Errors.Runtime.{RiperfError, unknown_control_message, recv_results_failed}
use riperf.Errors.Display.{to_string}
use riperf.Outcome.{Termination}
use riperf.Protocol.State.{TestState}
use riperf.Server.Round.{Marks, no_marks, Frame, state, relay}
use riperf.Server.Round.Served.{frozen_error, late_error, termination}

-- How the server ends a test itself.
pub data Expiry : Type 0 where
  over_rate idle out_of_time : Expiry

-- The code that is relayed, and the text for the report.
unfoldable pub code : Expiry → ℕ
code over_rate = 27
code idle = 144
code out_of_time = 160

unfoldable pub text : Expiry → Bytes
text over_rate = codes "total required bandwidth is larger than server limit"
text idle = codes "idle timeout for receiving data"
text out_of_time = codes "server test duration expired - test is terminated by the server"

-- `stray` and `closed` tell whether the data phase was still on.
pub data Ending : Type 0 where
  clean early terminated unreadable : Ending
  stray closed : Bool → Ending
  signalled : Bytes → Ending
  expired : Expiry → Ending
  unsent lost : RiperfError → Ending

unfoldable pub marks_of : Ending → Marks
unfolding text
marks_of clean = no_marks
marks_of early = record no_marks { early_done = true; bare_end = true }
marks_of terminated = record no_marks { client_terminated = true }
marks_of unreadable = record no_marks { exchange_recv_failed = true }
marks_of (stray mid) = record no_marks { unknown_message = true; bare_end = mid }
marks_of (closed mid) = record no_marks { ctrl_closed = true; bare_end = mid }
marks_of (signalled msg) = record no_marks { interrupted = some msg }
marks_of (expired x) = record no_marks { server_error = some (text x); bare_end = true }
marks_of (unsent e) = record no_marks { exchange_send_error = some e }
marks_of (lost e) = record no_marks { exchange_recv_message_error = some e }

-- What tells the client of an ending.
unfoldable pub farewell : {R : Type 0} → Ending → List (Frame R)
unfolding code
farewell terminated = relay 119 0 ∷ []
farewell unreadable = relay 117 0 ∷ []
farewell (stray mid) = relay 110 0 ∷ []
farewell (closed mid) = relay 109 0 ∷ []
farewell (signalled msg) = state TestState.server_terminate ∷ []
farewell (expired x) = relay (code x) 0 ∷ []
farewell clean = []
farewell early = []
farewell (unsent e) = []
farewell (lost e) = []

-- The error key of the report for a termination; `msg` is the text of the signal.
unfoldable pub key : Bytes → Termination → Option Bytes
unfolding to_string
key msg Termination.interrupted = some msg
key msg Termination.client_terminated = some (codes "the client has terminated")
key msg (Termination.self_terminated why) = some (codes "error - " ++ why)
key msg Termination.unknown_message = some (codes "error - " ++ to_string unknown_control_message)
key msg Termination.control_closed =
    some (codes "the client has unexpectedly closed the connection")
key msg Termination.recv_results_failed =
    some (codes "error - " ++ to_string recv_results_failed ++ codes ": ")
key msg (Termination.send_failed why) = some (codes "error - " ++ why)
key msg (Termination.recv_message_failed why) = some (codes "error - " ++ why)
key msg Termination.completed = none
key msg Termination.server_terminated = none
key msg (Termination.server_error why) = none

unfoldable pub signal_text : Ending → Bytes
signal_text (signalled msg) = msg
signal_text other = []

-- Whichever ending is set, the report names what the outcome calls it.
pub late_error-key :
    (e : Ending)
    → or_else (frozen_error (marks_of e)) (late_error (marks_of e))
      ≡ key (signal_text e) (termination (marks_of e))
unfolding marks_of frozen_error late_error termination key signal_text
late_error-key clean = refl
late_error-key early = refl
late_error-key terminated = refl
late_error-key unreadable = refl
late_error-key (stray mid) = refl
late_error-key (closed mid) = refl
late_error-key (signalled msg) = refl
late_error-key (expired x) = refl
late_error-key (unsent e) = refl
late_error-key (lost e) = refl
