-- ===== src/Server/Serve/Surface.antt =====
-- What a round says before its streams are set up.
use mathlib.Core.Path.{subst}
use riperf.Base.{
  ℕ, ◌≤◌, ◌≡◌, refl, sym, Bool, true, false, List, [], ◌∷◌, ◌++◌, Option, none, some, ℤ, Bytes,
  arith, if◌then◌else◌,
}
use riperf.Errors.Runtime.{
  RiperfError, IoError, config, io, recv_cookie_failed, recv_params_failed, send_control_failed,
  accept_failed, set_no_delay_failed,
}
use riperf.Auth.Token.{Crypto, Result, ok, err}
use riperf.Protocol.Params.{TestParams}
use riperf.Server.Config.{TestConfig}
use riperf.Server.Negotiate.{Limits, NegotiateOutcome, malformed, refused, proceed, negotiate}
use riperf.Server.Round.{Frame, state}
use riperf.Protocol.State.{TestState}
use riperf.Server.Accept.{
  Daemon, Said, Await, ready, interrupted, Accepted, accepted, idle, refused_by, idle_interrupt,
  accept_control, AcceptEvent, timer, accept_error, client, interrupt, Reads, Negotiated, stopped,
  broken, parked, agreed, ParkEvent, park_refused_round, relay_ignoring, refuse, decided,
  params_read, exchange_begun, cookie_read, negotiate_test, authenticate,
}
use riperf.Server.Serve.{
  RoundEnd, reported, unreported, round_failed, waiting, Opened, closed, admitted, Arrival,
  json_mode, emit_refusal, emit_pretest_error_doc, emit_pretest_error, refused_round, authenticated,
  reached, negotiated, connected, opened, Peer,
}
use riperf.Server.Serve.Greeting.{
  docs, lines, Greets, Greets-behind, user_line-Greets, print_connect_block-Greets,
}
use riperf.Server.Serve.Loop.{generic_error, failed_line}

-- One document in JSON mode, and one line outside it.
abbrev pub One : Daemon → List Said → Type 0
One d shown = elim (json_mode d) [
  | true ↦ (docs shown ≡ 1) × (lines shown ≡ 0)
  | false ↦ (docs shown ≡ 0) × (lines shown ≡ 1)
]

-- The same, with no line where an interrupt ended the round.
abbrev pub AtMostOne : Daemon → List Said → Type 0
AtMostOne d shown = elim (json_mode d) [
  | true ↦ (docs shown ≡ 1) × (lines shown ≡ 0)
  | false ↦ (docs shown ≡ 0) × (lines shown ≤ 1)
]

abbrev pub Faced : Daemon → List Said → List Said × Bool → Type 0
Faced d said (told, true) = said ++ told ≡ []
Faced d said (told, false) = One d (said ++ told)

-- What a round says with what the loop says of its end: nothing behind the idle timeout, else one
-- document or line.
unfoldable pub Surfaced : Daemon → RoundEnd → List Said → Type 0
Surfaced d waiting said = Unit
Surfaced d (reported t) said = Unit
Surfaced d unreported said = AtMostOne d said
Surfaced d (round_failed e) said = Faced d said (failed_line d e)

module _ (d : Daemon) where
  emit_pretest_error_doc-AtMostOne :
      (msg : Bytes) (rate : Option ℕ)
      → d.output_quiet ≡ false
      → AtMostOne d (emit_pretest_error_doc d msg rate)
  unfolding emit_pretest_error_doc
  emit_pretest_error_doc-AtMostOne msg rate q = ground (arith, q)

  refused_round-Surfaced :
      (code : ℕ) (rate : Option ℕ) (park : Option (Option Bytes))
      → d.output_quiet ≡ false
      → let (said, end) = refused_round d code rate park in Surfaced d end said
  unfolding refused_round Surfaced emit_refusal
  refused_round-Surfaced code rate none q = tt
  refused_round-Surfaced code rate (some none) q = ground (arith, q)
  refused_round-Surfaced code rate (some (some msg)) q = emit_pretest_error_doc-AtMostOne msg rate q

  -- The errors that the loop turns into a document or a line on its own.
  unfoldable Sinks : RiperfError → Type 0
  Sinks e = Surfaced d (round_failed e) []

  emit_pretest_error-One :
      (e : RiperfError) → d.output_quiet ≡ false → One d (emit_pretest_error d e)
  unfolding emit_pretest_error emit_pretest_error_doc
  emit_pretest_error-One e q = ground (arith, q)

  generic_error-One : (e : RiperfError) → d.output_quiet ≡ false → One d (generic_error d e)
  unfolding generic_error emit_pretest_error_doc
  generic_error-One e q = ground (arith, q)

  emit_pretest_error-Sinks :
      (e : RiperfError)
      → failed_line d e ≡ (emit_pretest_error d e, false)
      → d.output_quiet ≡ false
      → Sinks e
  unfolding Sinks Surfaced
  emit_pretest_error-Sinks e h q = subst (Faced d []) (sym h) (emit_pretest_error-One e q)

  generic_error-Sinks :
      (e : RiperfError)
      → failed_line d e ≡ (generic_error d e, false)
      → d.output_quiet ≡ false
      → Sinks e
  unfolding Sinks Surfaced
  generic_error-Sinks e h q = subst (Faced d []) (sym h) (generic_error-One e q)

  -- What the negotiation leaves to the loop.
  Sinking : Negotiated → Type 0
  Sinking (stopped msg) = Unit
  Sinking (broken e) = Sinks e
  Sinking (parked code rate) = Unit
  Sinking (agreed cookie params cfg) = Unit

  module _ {R : Type 0} where
    relay_ignoring-Sinking :
        (sent : List (Frame R)) (code errno : ℕ) (w : Await (Option IoError)) (e : RiperfError)
        → Sinks e
        → Sinking (relay_ignoring sent code errno w e).1
    unfolding Sinking relay_ignoring
    relay_ignoring-Sinking sent code errno (interrupted msg) e s = tt
    relay_ignoring-Sinking sent code errno (ready none) e s = s
    relay_ignoring-Sinking sent code errno (ready (some lost)) e s = s

    refuse-Sinking :
        (sent : List (Frame R)) (code : ℕ) (rate : Option ℕ) (w : Await (Option IoError))
        → d.output_quiet ≡ false
        → Sinking (refuse sent code rate w).1
    unfolding Sinking refuse failed_line
    refuse-Sinking sent code rate (interrupted msg) q = tt
    refuse-Sinking sent code rate (ready none) q = tt
    refuse-Sinking sent code rate (ready (some e)) q = generic_error-Sinks (io e) refl q

    decided-Sinking :
        (cookie : Bytes) (sent : List (Frame R)) (w : Await (Option IoError)) (o : NegotiateOutcome)
        → d.output_quiet ≡ false
        → Sinking (decided cookie sent w o).1
    unfolding decided Sinking failed_line
    decided-Sinking cookie sent w (malformed e) q = generic_error-Sinks (config e) refl q
    decided-Sinking cookie sent w (refused code rate) q = refuse-Sinking sent code rate w q
    decided-Sinking cookie sent w (proceed params cfg) q = tt

    params_read-Sinking :
        (limits : Limits) (cookie : Bytes) (sent : List (Frame R)) (p : Await (Option TestParams))
        (w : Await (Option IoError))
        → d.output_quiet ≡ false
        → Sinking (params_read limits cookie sent p w).1
    unfolding params_read Sinking failed_line
    params_read-Sinking limits cookie sent (interrupted msg) w q = tt
    params_read-Sinking limits cookie sent (ready none) w q =
        relay_ignoring-Sinking sent 114 0 w recv_params_failed
          (emit_pretest_error-Sinks recv_params_failed refl q)
    params_read-Sinking limits cookie sent (ready (some params)) w q =
        decided-Sinking cookie sent w (negotiate limits params) q

  exchange_begun-Sinking :
      (R : Type 0) (limits : Limits) (cookie : Bytes) (x : Await (Option IoError)) (r : Reads)
      → d.output_quiet ≡ false
      → Sinking (exchange_begun {R = R} limits cookie x r).1
  unfolding exchange_begun Sinking failed_line
  exchange_begun-Sinking R limits cookie (interrupted msg) r q = tt
  exchange_begun-Sinking R limits cookie (ready (some e)) r q =
      relay_ignoring-Sinking {R = R} [] 111 0 r.relayed (send_control_failed e)
        (emit_pretest_error-Sinks (send_control_failed e) refl q)
  exchange_begun-Sinking R limits cookie (ready none) r q =
      params_read-Sinking {R = R} limits cookie (state TestState.param_exchange ∷ []) r.params
        r.relayed q

  cookie_read-Sinking :
      (R : Type 0) (limits : Limits) (c : Await (Option Bytes)) (r : Reads)
      → d.output_quiet ≡ false
      → Sinking (cookie_read {R = R} limits c r).1
  unfolding cookie_read Sinking failed_line
  cookie_read-Sinking R limits (interrupted msg) r q = tt
  cookie_read-Sinking R limits (ready none) r q =
      relay_ignoring-Sinking {R = R} [] 106 0 r.relayed recv_cookie_failed
        (emit_pretest_error-Sinks recv_cookie_failed refl q)
  cookie_read-Sinking R limits (ready (some c)) r q =
      exchange_begun-Sinking R limits c r.param_exchange r q

-- A round that is not admitted has said what it should; one that is, has greeted its client.
abbrev pub Told : Daemon → List Said → Opened → Type 0
Told d said (closed end) = Surfaced d end said
Told d said (admitted params cfg) = Greets (if json_mode d then 0 else 1) said

module _ (C : Crypto) (read_file : Bytes → Option Bytes) (raw_os_error : IoError → ℕ)
    (d : Daemon) where
  authenticated-Told :
      (peer : Peer) (cookie : Bytes) (params : TestParams) (cfg : TestConfig)
      (res : Result (Option Bytes))
      → d.output_quiet ≡ false
      → let (said, far) = authenticated C read_file raw_os_error d peer cookie params cfg res in
        Told d said far
  unfolding authenticated Surfaced failed_line emit_pretest_error_doc
  authenticated-Told peer cookie params cfg (ok user) q =
      Greets-behind (user_line-Greets d user q)
        (print_connect_block-Greets d peer cookie params cfg q)
  authenticated-Told peer cookie params cfg (err e) q = ground (arith, q)

  negotiated-Told :
      (now : ℤ) (peer : Peer) (park : List ParkEvent) (n : Negotiated)
      → d.output_quiet ≡ false
      → Sinking d n
      → let (said, far) = negotiated C read_file raw_os_error d now peer park n in Told d said far
  unfolding negotiated Sinking Sinks Surfaced
  negotiated-Told now peer park (stopped msg) q s = emit_pretest_error_doc-AtMostOne d msg none q
  negotiated-Told now peer park (broken e) q s = s
  negotiated-Told now peer park (parked code rate) q s =
      refused_round-Surfaced d code rate (park_refused_round park) q
  negotiated-Told now peer park (agreed cookie params cfg) q s =
      authenticated-Told peer cookie params cfg (authenticate C read_file now d params) q

  connected-Told :
      (R : Type 0) (a : Arrival) (o : Option IoError)
      → d.output_quiet ≡ false
      → let (sent, said, far) = connected C read_file raw_os_error d {R = R} a o in Told d said far
  unfolding connected negotiate_test failed_line Sinks
  connected-Told R a (some e) q = emit_pretest_error-Sinks d (set_no_delay_failed e) refl q
  connected-Told R a none q =
      negotiated-Told a.now a.peer a.park _ q
        (cookie_read-Sinking d R d.limits a.reads.cookie a.reads q)

  -- Nothing that ends the wait for a client is said twice.
  Accepting : Accepted → Type 0
  Accepting accepted = Unit
  Accepting idle = Unit
  Accepting (idle_interrupt msg) = Unit
  Accepting (refused_by e) = Sinks d e

  accept_control-Accepting :
      (timeout : Option ℕ) (es : List AcceptEvent)
      → d.output_quiet ≡ false
      → Accepting (accept_control timeout es)
  unfolding accept_control Accepting failed_line Sinks Surfaced
  accept_control-Accepting timeout [] q = tt
  accept_control-Accepting none (timer ∷ es) q = accept_control-Accepting none es q
  accept_control-Accepting (some secs) (timer ∷ es) q = refl
  accept_control-Accepting timeout (accept_error e ∷ es) q =
      emit_pretest_error-Sinks d (accept_failed e) refl q
  accept_control-Accepting timeout (client ∷ es) q = tt
  accept_control-Accepting timeout (interrupt msg ∷ es) q = tt

  reached-Told :
      (R : Type 0) (a : Arrival) (x : Accepted)
      → d.output_quiet ≡ false
      → Accepting x
      → let (sent, said, far) = reached C read_file raw_os_error d {R = R} a x in Told d said far
  unfolding reached Accepting Sinks Surfaced
  reached-Told R a accepted q s = connected-Told R a a.no_delay q
  reached-Told R a idle q s = tt
  reached-Told R a (refused_by e) q s = s
  reached-Told R a (idle_interrupt msg) q s = emit_pretest_error_doc-AtMostOne d msg none q

  -- Unless output is quiet, whatever a round meets before its streams are set up: if it is admitted, the
  -- client's connection is announced in one line of the text report, or in none in JSON mode, and no
  -- document and no line of an error is said; if it ends with an error, it and the loop together say exactly one document in JSON
  -- mode and exactly one line outside it, but nothing behind the idle timeout; if it ends without an
  -- error, because it is refused or interrupted, they say exactly one document in JSON mode, and at
  -- most one line and no document outside it.
  pub opened-Told :
      (R : Type 0) (a : Arrival)
      → d.output_quiet ≡ false
      → let (sent, said, far) = opened C read_file raw_os_error d {R = R} a in Told d said far
  unfolding opened
  opened-Told R a q =
      reached-Told R a (accept_control d.idle_timeout a.accepts) q
        (accept_control-Accepting d.idle_timeout a.accepts q)
