-- ===== src/Server/Accept.antt =====
-- A round of the server up to the setup of its streams, in riperf3/src/server.rs: `accept_control`,
-- `negotiate_test`, `park_refused_round`, `authenticate`, the texts of a round that ends here, and the
-- beginning of `handle_one_test`. A send is one write, whose error is an I/O error; a rendered document is
-- its kind.
use riperf.Base.{ℕ, Bool, List, [], ◌∷◌, ◌++◌, Option, none, some, ℤ, Bytes, codes}
use riperf.Errors.Runtime.{
  RiperfError, IoError, config, io, aborted, recv_cookie_failed, recv_params_failed,
  send_control_failed, accept_failed,
}
use riperf.Auth.Token.{Crypto, Result, ok, err, key_unreadable, decode_auth_token}
use riperf.Auth.Token
use riperf.Auth.Credentials.{check_credentials}
use riperf.Protocol.State.{TestState}
use riperf.Protocol.Params.{TestParams}
use riperf.Server.Config.{TestConfig}
use riperf.Server.Negotiate.{Limits, NegotiateOutcome, malformed, refused, proceed, negotiate}
use riperf.Server.Round.{Frame, state, relay}

-- The options of the server that this part reads.
pub record Daemon : Type 0 where
  pub json_output : Bool
  pub json_stream : Bool
  pub output_quiet : Bool
  pub verbose : Bool
  pub one_off : Bool
  pub idle_timeout : Option ℕ  -- seconds
  pub limits : Limits
  pub rsa_private_key_path : Option Bytes
  pub authorized_users_path : Option Bytes
  pub use_pkcs1_padding : Bool
  pub time_skew_threshold : ℕ

-- What the server puts out: the two JSON forms of an error, a line on stderr, a line of the text report, and
-- the banner with the number of the test.
pub data Said : Type 0 where
  error_stream_events : Bytes → Said
  refusal_document : Bytes → Option ℕ → Said
  line : Bytes → Said
  printed : Bytes → Said
  banner : ℕ → Said

-- What an operation comes to that is raced with the interrupt.
pub data Await (A : Type 0) : Type 0 where
  ready : A → Await A
  interrupted : Bytes → Await A

-- What happens while the server waits for a client.
pub data AcceptEvent : Type 0 where
  timer : AcceptEvent
  accept_error : IoError → AcceptEvent
  client : AcceptEvent
  interrupt : Bytes → AcceptEvent

pub data Accepted : Type 0 where
  accepted idle : Accepted
  refused_by : RiperfError → Accepted
  idle_interrupt : Bytes → Accepted

-- The timer is set where there is an idle timeout.
unfoldable pub accept_control : Option ℕ → List AcceptEvent → Accepted
accept_control idle_timeout [] = idle
accept_control none (timer ∷ es) = accept_control none es
accept_control (some secs) (timer ∷ es) = refused_by (aborted (codes "idle timeout"))
accept_control idle_timeout (accept_error e ∷ es) = refused_by (accept_failed e)
accept_control idle_timeout (client ∷ es) = accepted
accept_control idle_timeout (interrupt msg ∷ es) = idle_interrupt msg

-- What the negotiation reads: the cookie and the parameters, if they can be read, and the errors of its
-- sends. `relayed` is that of the one error that it relays.
pub record Reads : Type 0 where
  pub cookie : Await (Option Bytes)
  pub param_exchange : Await (Option IoError)
  pub params : Await (Option TestParams)
  pub relayed : Await (Option IoError)

pub data Negotiated : Type 0 where
  stopped : Bytes → Negotiated
  broken : RiperfError → Negotiated
  parked : ℕ → Option ℕ → Negotiated
  agreed : Bytes → TestParams → TestConfig → Negotiated

-- What is read of a control connection that is shut down on this side.
pub data ParkEvent : Type 0 where
  drained closed silent : ParkEvent
  park_interrupt : Bytes → ParkEvent

-- Nothing while the round is parked, and then the interrupt's message, if that ended it.
unfoldable pub park_refused_round : List ParkEvent → Option (Option Bytes)
park_refused_round [] = none
park_refused_round (drained ∷ es) = park_refused_round es
park_refused_round (closed ∷ es) = some none
park_refused_round (silent ∷ es) = some none
park_refused_round (park_interrupt msg ∷ es) = some (some msg)

module _ {R : Type 0} where
  -- Frames sent, with an error relayed behind them; its own error is ignored.
  unfoldable pub relay_ignoring :
      List (Frame R) → ℕ → ℕ → Await (Option IoError) → RiperfError → List (Frame R) × Negotiated
  relay_ignoring sent code errno (interrupted msg) e = (sent, stopped msg)
  relay_ignoring sent code errno (ready none) e = (sent ++ relay code errno ∷ [], broken e)
  relay_ignoring sent code errno (ready (some failed)) e = (sent, broken e)

  unfoldable pub refuse :
      List (Frame R) → ℕ → Option ℕ → Await (Option IoError) → List (Frame R) × Negotiated
  refuse sent code rate (interrupted msg) = (sent, stopped msg)
  refuse sent code rate (ready none) = (sent ++ relay code 0 ∷ [], parked code rate)
  refuse sent code rate (ready (some e)) = (sent, broken (io e))

  unfoldable pub decided :
      Bytes
      → List (Frame R)
      → Await (Option IoError)
      → NegotiateOutcome
      → List (Frame R) × Negotiated
  unfolding refuse
  decided cookie sent relayed (malformed e) = (sent, broken (config e))
  decided cookie sent relayed (refused code rate) = refuse sent code rate relayed
  decided cookie sent relayed (proceed params cfg) = (sent, agreed cookie params cfg)

  unfoldable pub params_read :
      Limits
      → Bytes
      → List (Frame R)
      → Await (Option TestParams)
      → Await (Option IoError)
      → List (Frame R) × Negotiated
  unfolding decided negotiate relay_ignoring
  params_read limits cookie sent (interrupted msg) relayed = (sent, stopped msg)
  params_read limits cookie sent (ready none) relayed =
      relay_ignoring sent 114 0 relayed recv_params_failed
  params_read limits cookie sent (ready (some params)) relayed =
      decided cookie sent relayed (negotiate limits params)

  unfoldable pub exchange_begun :
      Limits → Bytes → Await (Option IoError) → Reads → List (Frame R) × Negotiated
  unfolding params_read relay_ignoring
  exchange_begun limits cookie (interrupted msg) r = ([], stopped msg)
  exchange_begun limits cookie (ready (some e)) r =
      relay_ignoring [] 111 0 r.relayed (send_control_failed e)
  exchange_begun limits cookie (ready none) r =
      params_read limits cookie (state TestState.param_exchange ∷ []) r.params r.relayed

  unfoldable pub cookie_read : Limits → Await (Option Bytes) → Reads → List (Frame R) × Negotiated
  unfolding exchange_begun relay_ignoring
  cookie_read limits (interrupted msg) r = ([], stopped msg)
  cookie_read limits (ready none) r = relay_ignoring [] 106 0 r.relayed recv_cookie_failed
  cookie_read limits (ready (some cookie)) r = exchange_begun limits cookie r.param_exchange r

  unfoldable pub negotiate_test : Limits → Reads → List (Frame R) × Negotiated
  unfolding cookie_read
  negotiate_test limits r = cookie_read limits r.cookie r

-- The name of a user whose credentials are accepted
unfoldable pub named : Bytes → Result (Unit {0}) → Result (Option Bytes)
named username (err e) = err e
named username (ok u) = ok (some username)

-- Where a key and a list of users are configured, the client needs a token that they admit; the name in it is
-- what a verbose server prints.
unfoldable pub authenticate :
    Crypto → (Bytes → Option Bytes) → ℤ → Daemon → TestParams → Result (Option Bytes)
unfolding decode_auth_token check_credentials named
authenticate C read_file now d params = elim d.rsa_private_key_path [
  | none ↦ ok none
  | some privkey_path ↦ elim d.authorized_users_path [
    | none ↦ ok none
    | some users_path ↦ elim params.authtoken [
      | none ↦ err Token.access_denied
      | some token ↦ elim (read_file privkey_path) [
        | none ↦ err key_unreadable
        | some privkey_pem ↦ elim (decode_auth_token C token privkey_pem d.use_pkcs1_padding) [
          | err e ↦ err e
          | ok found ↦ named found.0 (
              check_credentials C now found.0 found.1 found.2 (read_file users_path)
                d.time_skew_threshold)
        ]
      ]
    ]
  ]
]
