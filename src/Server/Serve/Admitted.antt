-- ===== src/Server/Serve/Admitted.antt =====
-- What a round has gone through that is admitted.
use riperf.Base.{ℕ, ◌≡◌, List, [], ◌∷◌, ◌++◌, Option, none, some, Bytes}
use riperf.Errors.Runtime.{IoError}
use riperf.Auth.Token.{Crypto, ok}
use riperf.Protocol.State.{TestState}
use riperf.Protocol.Params.{TestParams}
use riperf.Server.Config.{TestConfig}
use riperf.Server.Negotiate.{Limits, proceed, negotiate}
use riperf.Server.Round.{Frame, state}
use riperf.Server.Accept.{
  Daemon, Said, ready, accepted, accept_control, Reads, Negotiated, stopped, broken, parked, agreed,
  authenticate,
}
use riperf.Server.Serve.{Opened, closed, admitted, Arrival, user_line, print_connect_block}

-- The negotiation has read the cookie and these parameters, and has sent nothing but PARAM_EXCHANGE.
pub record Agreed {R : Type 0} (limits : Limits) (r : Reads) (sent : List (Frame R))
    (cookie : Bytes) (params : TestParams) (cfg : TestConfig) : Type 0 where
  pub received : TestParams
  pub cookie_came : r.cookie ≡ ready (some cookie)
  pub exchange_begins : r.param_exchange ≡ ready none
  pub params_came : r.params ≡ ready (some received)
  pub allowed : negotiate limits received ≡ proceed params cfg
  pub only : sent ≡ state TestState.param_exchange ∷ []

-- What the negotiation comes to, if it is an agreement.
IfAgreed : {R : Type 0} → Limits → Reads → List (Frame R) × Negotiated → Type 0
IfAgreed limits r (sent, stopped msg) = Unit
IfAgreed limits r (sent, broken e) = Unit
IfAgreed limits r (sent, parked code rate) = Unit
IfAgreed limits r (sent, agreed cookie params cfg) = Agreed limits r sent cookie params cfg

module _ (R : Type 0) (limits : Limits) (r : Reads) where
  abbrev begun : List (Frame R)
  begun = state TestState.param_exchange ∷ []

module _ (C : Crypto) (read_file : Bytes → Option Bytes) (raw_os_error : IoError → ℕ)
    (d : Daemon) where
  -- A client was accepted, its socket took the option, the negotiation agreed and the authentication
  -- admitted it; the name of the user and the connect block are printed.
  pub record Admission {R : Type 0} (a : Arrival) (sent : List (Frame R)) (said : List Said)
      (params : TestParams) (cfg : TestConfig) : Type 0 where
    pub cookie : Bytes
    pub user : Option Bytes
    pub came : accept_control d.idle_timeout a.accepts ≡ accepted
    pub undelayed_socket : a.no_delay ≡ none
    pub negotiation : Agreed d.limits a.reads sent cookie params cfg
    pub authentic : authenticate C read_file a.now d params ≡ ok user
    pub greeted : said ≡ user_line d user ++ print_connect_block d a.peer cookie params cfg

  -- What a round comes to, if it is admitted.
  IfAdmitted : {R : Type 0} → Arrival → List (Frame R) × List Said × Opened → Type 0
  IfAdmitted a (sent, said, closed end) = Unit
  IfAdmitted a (sent, said, admitted params cfg) = Admission a sent said params cfg
