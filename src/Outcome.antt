-- ===== src/Outcome.antt =====
-- How a run ends (riperf3/src/outcome.rs).
use riperf.Base.{Bytes, codes, Option, none, some}

pub data Termination : Type 0 where
  completed interrupted server_terminated : Termination
  server_error : Bytes → Termination
  client_terminated control_closed unknown_message recv_results_failed : Termination
  send_failed recv_message_failed self_terminated : Bytes → Termination

unfoldable pub errexit_message : Termination → Option Bytes
errexit_message server_terminated = some (codes "the server has terminated")
errexit_message (server_error msg) = some msg
errexit_message completed = none
errexit_message interrupted = none
errexit_message client_terminated = none
errexit_message control_closed = none
errexit_message unknown_message = none
errexit_message recv_results_failed = none
errexit_message (send_failed msg) = none
errexit_message (recv_message_failed msg) = none
errexit_message (self_terminated msg) = none

pub record RunOutcome (R : Type 0) : Type 0 where
  pub report : R
  pub termination : Termination
