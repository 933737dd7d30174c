-- ===== src/Lib.antt =====
-- riperf: a model of riperf3, an iperf3-compatible network measurement tool, and its correctness.
--
-- A client and a server share a control connection. The client's builder checks the options
-- (`ClientBuilder::build`), the client sends the test parameters, the server derives its
-- configuration from them and may refuse the test, both run the data streams, and at the end they
-- exchange their results over the control connection, whose state bytes name the phases.
--
-- The files and the code they model (paths from the repository's root):
--   Base            shared names: numbers, machine integers, bytes, lists, decimal text, lines.
--   Errors          riperf3/src/error.rs: ConfigError with its `Result`; Runtime RiperfError and the
--                   text of a relayed error; Display the texts of both.
--   Outcome         riperf3/src/outcome.rs: how a run ends.
--   Utils           riperf3/src/utils.rs: Limits the constants, the payload, stream numbers and
--                   the datagram size; Tos the DSCP and TOS parsers; Suffixed the numbers with a
--                   suffix and the keepalive values.
--   Auth            riperf3/src/auth.rs: Token `encode_auth_token` and `decode_auth_token`;
--                   Credentials `check_credentials`; TokenRoundTrip and Admission their theorems.
--   Protocol        riperf3/src/protocol.rs: State the control states, their bytes and the
--                   transition table; Params `TestParams`; Framing the reads of length-prefixed
--                   messages, and below it the theorems on how bytes are cut and cut off;
--                   JsonText the cleaning of a JSON text; Messages what is sent and read, cookies,
--                   states, errors, parameters and results; UdpConnect the UDP handshake.
--   Stream          riperf3/src/stream.rs: Header the datagram header; RecvStats the receiver's
--                   statistics; Counters the byte counters; Walk the headers of joined datagrams;
--                   Pacing the rate limiter, the batch size and the byte budget; Sender the UDP send
--                   loop and its schedule; Delivery the sender and the receiver together; TcpSender
--                   the TCP senders over their shared byte budget, and its refill at the omit boundary.
--   Client          riperf3/src/client.rs: Types the client and its builder; Builder `build`; Valid
--                   what a built client satisfies; Params `build_params`. Context, Drive, Handlers and Run
--                   are `Client::run`: its state, the data phase, a handler for each state, and the
--                   loop with the teardown; below Run what every run does, and a run that completes.
--   Reporter        riperf3/src/reporter.rs: Summary `sum_summaries` and the rows of the final
--                   report; Groups and Conservation what the rows add up to. Reading what an
--                   interval reads of a stream, Interval its rows and sums, Live the task of
--                   `spawn_interval_reporter` with its turns; below them what the intervals of a run
--                   add up to, and when they begin and end.
--   Report          riperf3/src/json_report.rs: HttpDate the timestamp, against the calendar;
--                   EndBlock the rows and the sums of the `end` block, against each other.
--   Server          riperf3/src/server.rs: Builder `ServerBuilder::build`; Config
--                   `TestConfig::from_params`; Negotiate the decision of `negotiate_test`;
--                   RateWindow the moving average; Agreement and Refusal the theorems between
--                   client and server. Round is a served test from its start on
--                   (`TestRunCtx`, the end of `handle_one_test`): Setup the control
--                   bytes before it (`dispatch_setup_ctrl_byte`), DataPhase `await_test_end`,
--                   Exchange `exchange_results_phase`, Served the phases put together; below it how
--                   a test ends, what is said to the client, and the watchdogs. Accept
--                   is a round before its streams are set up (`accept_control`, `negotiate_test`,
--                   `park_refused_round`, `authenticate`); Serve what such a round says and
--                   `handle_one_test` around the test, with Loop the accept loop of `Server::run`.
--   Session         a run of the client and a served test, each reading what the other sends.
--   Cli             riperf3-cli/src/cli.rs: the C number conversions; Double those of floats;
--                   Options `Cli` and the checks on it; Parsed the results of what may be refused;
--                   BuildClient `Cli::build_client`; BuildServer `Cli::build_server`.
--   Examples        the theorems at concrete inputs.
--
-- How the model stands for the code. Numbers are natural numbers and integers; a machine integer
-- keeps its wrap or its saturation written out where the code relies on it. A text is its bytes, a
-- Duration its nanoseconds. Floats are a record of their operations (Base.Float), so that nothing is
-- assumed of rounding. Other crates' code enters as parameters: RSA, base64, SHA-256 and UTF-8 in
-- `Auth.Token.Crypto`, the JSON parser in Framing, platform tests and the address parser in
-- `Client.Types.Env`, the number parser of the language in `Cli.Double.Double`. A loop that waits
-- takes the list of what its rounds read; a connection is the list of what its reads find. The fuel
-- of `fill` is the number of bytes wanted and that of `walk_from` one more than the bytes of the
-- buffer: each round consumes at least one.
--
-- Not modelled: sockets, the setup of the data streams over them, the loops of the receivers, tasks,
-- timers and signals, the rendering of the text reports, the option parser (clap) and the
-- serialisation (serde), which are I/O or other crates' code; and the start block of the JSON report.
pub mod Base
pub mod Errors
pub mod Outcome
pub mod Utils
pub mod Auth
pub mod Protocol
pub mod Stream
pub mod Client
pub mod Reporter
pub mod Report
pub mod Server
pub mod Session
pub mod Cli
pub mod Examples
