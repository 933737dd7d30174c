-- ===== src/Errors/Runtime.antt =====
-- `RiperfError` of riperf3/src/error.rs with its texts, and `iperf3_strerror`. An I/O error is its kind
-- and its text; the text of an operating system's error number is a parameter.
use riperf.Base.{ℕ, ◌++◌, Bool, true, false, Bytes, codes, ltb, ◌==◌, if◌then◌else◌}
use riperf.Base.Decimal.{show_ℕ}
use riperf.Errors.{ConfigError}

-- The kinds that the code tells apart.
pub data ErrorKind : Type 0 where
  would_block broken_pipe connection_reset connection_refused timed_out other_kind : ErrorKind

pub record IoError : Type 0 where
  pub kind : ErrorKind
  pub text : Bytes

pub data RiperfError : Type 0 where
  config : ConfigError → RiperfError
  io : IoError → RiperfError
  json : Bytes → RiperfError
  cookie_mismatch access_denied server_busy connection_timeout : RiperfError
  protocol aborted : Bytes → RiperfError
  control_socket_closed recv_results_failed recv_cookie_failed : RiperfError
  recv_data_cookie_failed recv_params_failed : RiperfError
  send_control_failed exchange_send_message_failed : IoError → RiperfError
  exchange_send_results_failed exchange_recv_message_failed : IoError → RiperfError
  accept_failed stream_connect_failed set_no_delay_failed : IoError → RiperfError
  data_idle_timeout unknown_control_message client_terminated peer_disconnected : RiperfError

-- The base text of a relayed error and whether it takes the suffix.
unfoldable pub relayed_text : ℕ → Bytes × Bool
relayed_text i_errno =
    if i_errno == 27
    then (codes "total required bandwidth is larger than server limit", false)
    else if i_errno == 37
    then (codes "client's requested duration exceeds the server's maximum permitted limit", false)
    else if i_errno == 120
    then (codes "the server has terminated", false)
    else if i_errno == 160
    then (codes "server test duration expired", true)
    else (codes "int_errno=" ++ show_ℕ i_errno, true)

unfoldable pub iperf3_strerror : (ℕ → Bytes) → ℕ → ℕ → Bytes
unfolding relayed_text
iperf3_strerror os_text i_errno os_errno =
    let (base, perr) = relayed_text i_errno in
    if ltb 0 os_errno
    then base ++ codes ", errno: " ++ os_text os_errno
    else if perr
    then base ++ codes ": "
    else base
