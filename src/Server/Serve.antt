-- ===== src/Server/Serve.antt =====
-- The beginning of the server's rounds, in riperf3/src/server.rs: `handle_one_test` up to the setup of the streams, with
-- what such a round says. A line on stderr is its text behind "riperf3: ", one of the text report its text
-- behind the timestamp and the title.
pub mod Loop
pub mod Greeting
pub mod Surface
pub mod Admitted
pub mod Rounds
pub mod Endless
use riperf.Base.{
  ℕ, suc, Bool, true, false, not, List, [], ◌∷◌, ◌++◌, Option, none, some, ℤ, pos, eqb_ℤ, Bytes,
  bytes_eq, codes, ltb, if◌then◌else◌, filter_opt, ◌||◌, ◌&&◌, ◌==◌,
}
use riperf.Errors.Runtime.{
  RiperfError, IoError, config, io, json, cookie_mismatch, access_denied, server_busy,
  connection_timeout, protocol, aborted, control_socket_closed, recv_results_failed,
  recv_cookie_failed, recv_data_cookie_failed, recv_params_failed, send_control_failed,
  exchange_send_message_failed, exchange_send_results_failed, exchange_recv_message_failed,
  accept_failed, stream_connect_failed, set_no_delay_failed, data_idle_timeout,
  unknown_control_message, client_terminated, peer_disconnected,
}
use riperf.Errors.Display.{to_string}
use riperf.Outcome.{Termination, RunOutcome}
use riperf.Auth.Token.{Crypto, Result, ok, err}
use riperf.Protocol.Params.{TestParams, TransportProtocol, tcp, udp}
use riperf.Base.Decimal.{show_ℕ, show_ℤ}
use riperf.Report.HttpDate.{http_date}
use riperf.Client.Run.{Finished, outcome, failed, unfinished}
use riperf.Server.Config.{TestConfig}
use riperf.Server.Round.{Frame, relay}
use riperf.Server.Round.Setup.{SetupFlow, SetupResult}
use riperf.Server.Accept.{
  Daemon, Said, error_stream_events, refusal_document, line, printed, banner, AcceptEvent, Accepted,
  accepted, idle, refused_by, idle_interrupt, accept_control, Reads, Negotiated, stopped, broken,
  parked, agreed, ParkEvent, park_refused_round, negotiate_test, authenticate,
}

-- How a round ends: with a report, without one, with an error, or not yet.
pub data RoundEnd : Type 0 where
  reported : Termination → RoundEnd
  unreported : RoundEnd
  round_failed : RiperfError → RoundEnd
  waiting : RoundEnd

-- How far a round comes before its streams are set up.
pub data Opened : Type 0 where
  closed : RoundEnd → Opened
  admitted : TestParams → TestConfig → Opened

-- What the connect block shows: the client's address in canonical form, its port, the seconds of the clock, and
-- the cookie as text.
pub record Peer : Type 0 where
  pub host : Bytes
  pub port : ℕ
  pub epoch_secs : ℕ
  pub cookie_text : Bytes → Bytes

-- What a round reads up to there. The operating system's number of an I/O error is the standard
-- library's.
pub record Arrival : Type 0 where
  pub accepts : List AcceptEvent
  pub no_delay : Option IoError
  pub no_delay_relayed : Option IoError
  pub reads : Reads
  pub park : List ParkEvent
  pub now : ℤ
  pub peer : Peer

unfoldable pub refusal_message : ℕ → Bytes
refusal_message code =
    if code == 27
    then codes "total required bandwidth is larger than server limit"
    else codes "client's requested duration exceeds the server's maximum permitted limit"

module _ (d : Daemon) where
  abbrev pub json_mode : Bool
  json_mode = d.json_output || d.json_stream

  -- A line on stderr, outside JSON mode
  abbrev pub text_line : Bytes → List Said
  text_line msg = if json_mode || d.output_quiet then [] else line msg ∷ []

  unfoldable pub emit_refusal : Bytes → Option ℕ → List Said
  emit_refusal msg target_bitrate =
      if d.output_quiet
      then []
      else if d.json_stream
      then error_stream_events (codes "error - " ++ msg) ∷ []
      else if d.json_output
      then refusal_document (codes "error - " ++ msg) target_bitrate ∷ []
      else line (codes "error - " ++ msg) ∷ []

  unfoldable pub emit_pretest_error_doc : Bytes → Option ℕ → List Said
  emit_pretest_error_doc doc_error target_bitrate =
      if d.output_quiet
      then []
      else if d.json_stream
      then error_stream_events doc_error ∷ []
      else if d.json_output
      then refusal_document doc_error target_bitrate ∷ []
      else []

  -- The errors whose text ends with that of the system take no suffix.
  abbrev pretest_text : RiperfError → Bytes
  pretest_text (send_control_failed e) = codes "error - " ++ to_string (send_control_failed e)
  pretest_text (accept_failed e) = codes "error - " ++ to_string (accept_failed e)
  pretest_text (set_no_delay_failed e) = codes "error - " ++ to_string (set_no_delay_failed e)
  pretest_text e = codes "error - " ++ to_string e ++ codes ": "

  unfoldable pub emit_pretest_error : RiperfError → List Said
  unfolding emit_pretest_error_doc to_string
  emit_pretest_error e =
      if json_mode
      then emit_pretest_error_doc (pretest_text e) none
      else if d.output_quiet
      then []
      else line (pretest_text e) ∷ []

  -- A refused round, once it is no longer parked.
  unfoldable pub refused_round : ℕ → Option ℕ → Option (Option Bytes) → List Said × RoundEnd
  unfolding emit_refusal emit_pretest_error_doc refusal_message
  refused_round code rate none = ([], waiting)
  refused_round code rate (some none) = (emit_refusal (refusal_message code) rate, unreported)
  refused_round code rate (some (some msg)) = (emit_pretest_error_doc msg rate, unreported)

module _ (d : Daemon) where
  -- `vprintln!`
  abbrev pub text : Bytes → List Said
  text msg = if d.output_quiet then [] else printed msg ∷ []

  abbrev pub when : Bool → List Said → List Said
  when b said = if b then said else []

  -- The name is printed in JSON mode too.
  unfoldable pub user_line : Option Bytes → List Said
  user_line none = []
  user_line (some username) = when d.verbose (text (codes "Authenticated user: " ++ username))

  unfoldable pub mss_line : Option ℤ → List Said
  mss_line none = text (codes "      TCP MSS: 0 (default)")
  mss_line (some m) =
      if eqb_ℤ m (pos 0)
      then text (codes "      TCP MSS: 0 (default)")
      else text (codes "      TCP MSS: " ++ show_ℤ m)

  unfoldable pub bitrate_line : Option ℕ → List Said
  bitrate_line none = []
  bitrate_line (some b) = if b == 0 then [] else text (codes "      Target Bitrate: " ++ show_ℕ b)

  unfoldable pub is_tcp : TransportProtocol → Bool
  is_tcp tcp = true
  is_tcp udp = false

  unfoldable pub print_connect_block : Peer → Bytes → TestParams → TestConfig → List Said
  unfolding http_date mss_line bitrate_line is_tcp
  print_connect_block peer cookie params cfg = when (not (json_mode d)) (
      when d.verbose (text (codes "Time: " ++ http_date peer.epoch_secs))
      ++ (text (
            codes "Accepted connection from "
            ++ (peer.host ++ (codes ", port " ++ show_ℕ peer.port)))
          ++ when d.verbose (
              text (codes "      Cookie: " ++ peer.cookie_text cookie)
              ++ (when (is_tcp cfg.protocol) (mss_line params.mss)
                  ++ bitrate_line params.bandwidth))))

module _ (C : Crypto) (read_file : Bytes → Option Bytes) (raw_os_error : IoError → ℕ)
    (d : Daemon) where
  -- Behind the authentication.
  unfoldable pub authenticated :
      Peer → Bytes → TestParams → TestConfig → Result (Option Bytes) → List Said × Opened
  unfolding emit_pretest_error_doc user_line print_connect_block
  authenticated peer cookie params cfg (ok user) =
      (user_line d user ++ print_connect_block d peer cookie params cfg, admitted params cfg)
  authenticated peer cookie params cfg (err e) = (
    emit_pretest_error_doc d (codes "error - no error")
        (filter_opt (λ b. ltb 0 b) params.bandwidth),
    closed (round_failed access_denied),
  )

  unfoldable pub negotiated : ℤ → Peer → List ParkEvent → Negotiated → List Said × Opened
  unfolding emit_pretest_error_doc refused_round park_refused_round authenticate authenticated
  negotiated now peer park (stopped msg) = (emit_pretest_error_doc d msg none, closed unreported)
  negotiated now peer park (broken e) = ([], closed (round_failed e))
  negotiated now peer park (parked code rate) =
      let (said, end) = refused_round d code rate (park_refused_round park) in (said, closed end)
  negotiated now peer park (agreed cookie params cfg) =
      authenticated peer cookie params cfg (authenticate C read_file now d params)

  module _ {R : Type 0} where
    -- The relay of a socket that refuses its option.
    unfoldable pub undelayed : IoError → Option IoError → List (Frame R)
    undelayed e none = relay 122 (raw_os_error e) ∷ []
    undelayed e (some lost) = []

    -- From the accepted connection on: what is sent, what is said, and how far the round comes.
    unfoldable pub connected : Arrival → Option IoError → List (Frame R) × List Said × Opened
    unfolding negotiate_test negotiated undelayed
    connected a (some e) =
        (undelayed e a.no_delay_relayed, [], closed (round_failed (set_no_delay_failed e)))
    connected a none =
        let (sent, end) = negotiate_test d.limits a.reads in
        let (said, far) = negotiated a.now a.peer a.park end in (sent, said, far)

    unfoldable pub reached : Arrival → Accepted → List (Frame R) × List Said × Opened
    unfolding emit_pretest_error_doc connected
    reached a accepted = connected a a.no_delay
    reached a idle = ([], [], closed waiting)
    reached a (refused_by e) = ([], [], closed (round_failed e))
    reached a (idle_interrupt msg) = ([], emit_pretest_error_doc d msg none, closed unreported)

    unfoldable pub opened : Arrival → List (Frame R) × List Said × Opened
    unfolding accept_control reached
    opened a = reached a (accept_control d.idle_timeout a.accepts)
