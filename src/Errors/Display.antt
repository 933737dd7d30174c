-- ===== src/Errors/Display.antt =====
-- The texts of the errors of riperf3/src/error.rs (`to_string`).
use riperf.Base.{◌++◌, Bytes, codes}
use riperf.Errors.{ConfigError, missing_field, invalid_value, unsupported}
use riperf.Errors.Runtime.{
  RiperfError, config, io, json, cookie_mismatch, access_denied, server_busy, connection_timeout,
  protocol, aborted, control_socket_closed, recv_results_failed, recv_cookie_failed,
  recv_data_cookie_failed, recv_params_failed, send_control_failed, exchange_send_message_failed,
  exchange_send_results_failed, exchange_recv_message_failed, accept_failed, stream_connect_failed,
  set_no_delay_failed, data_idle_timeout, unknown_control_message, client_terminated,
  peer_disconnected,
}

unfoldable pub config_to_string : ConfigError → Bytes
config_to_string (missing_field field) = codes "missing field: " ++ field
config_to_string (invalid_value field why) =
    codes "invalid value for " ++ field ++ codes ": " ++ why
config_to_string (unsupported why) = why

unfoldable pub to_string : RiperfError → Bytes
unfolding config_to_string
to_string (config e) = config_to_string e
to_string (io e) = e.text
to_string (json e) = codes "JSON error: " ++ e
to_string cookie_mismatch = codes "cookie mismatch"
to_string access_denied = codes "access denied by server"
to_string server_busy = codes "the server is busy running a test. try again later"
to_string connection_timeout = codes "connection timed out"
to_string (protocol why) = codes "protocol violation: " ++ why
to_string (aborted why) = codes "test aborted: " ++ why
to_string control_socket_closed = codes "control socket has closed unexpectedly"
to_string recv_results_failed = codes "unable to receive results"
to_string recv_cookie_failed = codes "unable to receive cookie at server"
to_string recv_data_cookie_failed = codes "unable to receive cookie at server"
to_string recv_params_failed = codes "unable to receive parameters from client"
to_string (send_control_failed e) =
    codes
      "unable to send control message - port may not be available, the other side may have stopped running, etc.: "
    ++ e.text
to_string (exchange_send_message_failed e) =
    codes
      "unable to send control message - port may not be available, the other side may have stopped running, etc.: "
    ++ e.text
to_string (exchange_send_results_failed e) = codes "unable to send results: " ++ e.text
to_string (exchange_recv_message_failed e) =
    codes
      "unable to receive control message - port may not be available, the other side may have stopped running, etc.: "
    ++ e.text
to_string (accept_failed e) = codes "unable to accept connection from client: " ++ e.text
to_string (stream_connect_failed e) = codes "unable to connect stream: " ++ e.text
to_string (set_no_delay_failed e) = codes "unable to set TCP/SCTP NODELAY: " ++ e.text
to_string data_idle_timeout = codes "idle timeout for receiving data"
to_string unknown_control_message =
    codes "received an unknown control message (ensure other side is iperf3 and not iperf)"
to_string client_terminated = codes "the client has terminated"
to_string peer_disconnected = codes "control socket has closed unexpectedly"
