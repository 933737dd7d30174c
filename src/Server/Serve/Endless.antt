-- ===== src/Server/Serve/Endless.antt =====
-- The server serves on, whatever its rounds come to.
use riperf.Base.{
  ℕ, suc, ◌+◌, ◌≡◌, refl, ◌∙◌, ap, Bool, false, List, [], ◌∷◌, ◌++◌, Option, none, some, ℤ, Bytes,
  arith, All, map, true, Bool-cases, inl, inr, eqb_ℤ, pos, ◌==◌,
}
use riperf.Errors.Runtime.{IoError}
use riperf.Auth.Token.{Crypto, Result, ok, err}
use riperf.Protocol.Params.{TestParams}
use riperf.Client.Run.{Finished}
use riperf.Server.Config.{TestConfig}
use riperf.Server.Round.Setup.{SetupResult}
use riperf.Server.Accept.{
  Daemon, Said, Accepted, accepted, idle, refused_by, idle_interrupt, accept_control, Negotiated,
  stopped, broken, parked, agreed, ParkEvent, park_refused_round, negotiate_test, authenticate,
}
use riperf.Server.Serve.{
  RoundEnd, Arrival, Peer, text, when, user_line, mss_line, bitrate_line, print_connect_block,
  emit_refusal, refused_round, authenticated, negotiated, connected, reached, opened,
}
use riperf.Server.Serve.Loop.{listening, serving, serve, run, handle_one_test}
use riperf.Server.Serve.Rounds.{
  numbers, numbers-append, is_waiting, tests, Over, emit_pretest_error_doc-numbers, banners,
  listening-numbers, count_from-append, serve-GoesOn,
}

-- A round: what it meets, what its streams and its test come to, and whether the interrupt has fired
-- behind it.
abbrev pub Met : Type 0 → Type 0
Met Rep = Arrival × (TestParams → TestConfig → SetupResult × Finished Rep) × Bool

-- Without a banner
record Unnumbered (said : List Said) : Type 0 where
  plain : numbers said ≡ []

module _ (C : Crypto) (read_file : Bytes → Option Bytes) (raw_os_error : IoError → ℕ)
    (d : Daemon) where
  text-Unnumbered : (msg : Bytes) → Unnumbered (text d msg)
  text-Unnumbered msg = record { plain = ground arith }

  when-Unnumbered : (b : Bool) (s : List Said) → Unnumbered s → Unnumbered (when d b s)
  when-Unnumbered true s h = h
  when-Unnumbered false s h = record { plain = refl }

  both-Unnumbered : (a b : List Said) → Unnumbered a → Unnumbered b → Unnumbered (a ++ b)
  both-Unnumbered a b p q = record { plain = rw (numbers-append a b, p.plain, q.plain) refl }

  user_line-Unnumbered : (user : Option Bytes) → Unnumbered (user_line d user)
  unfolding user_line
  user_line-Unnumbered none = record { plain = refl }
  user_line-Unnumbered (some name) = when-Unnumbered d.verbose _ (text-Unnumbered _)

  mss_line-Unnumbered : (mss : Option ℤ) → Unnumbered (mss_line d mss)
  unfolding mss_line
  mss_line-Unnumbered none = text-Unnumbered _
  mss_line-Unnumbered (some m) = elim (Bool-cases (eqb_ℤ m (pos 0))) [
    | inl b ↦ rw b (text-Unnumbered _)
    | inr b ↦ rw b (text-Unnumbered _)
  ]

  bitrate_line-Unnumbered : (rate : Option ℕ) → Unnumbered (bitrate_line d rate)
  unfolding bitrate_line
  bitrate_line-Unnumbered none = record { plain = refl }
  bitrate_line-Unnumbered (some n) = elim (Bool-cases (n == 0)) [
    | inl b ↦ rw b (record { plain = refl })
    | inr b ↦ rw b (text-Unnumbered _)
  ]

  print_connect_block-Unnumbered :
      (peer : Peer) (cookie : Bytes) (params : TestParams) (cfg : TestConfig)
      → Unnumbered (print_connect_block d peer cookie params cfg)
  unfolding print_connect_block
  print_connect_block-Unnumbered peer cookie params cfg = when-Unnumbered _ _ (
      both-Unnumbered _ _ (when-Unnumbered d.verbose _ (text-Unnumbered _)) (
        both-Unnumbered _ _ (text-Unnumbered _) (
          when-Unnumbered d.verbose _ (
            both-Unnumbered _ _ (text-Unnumbered _) (
              both-Unnumbered _ _ (when-Unnumbered _ _ (mss_line-Unnumbered params.mss))
                (bitrate_line-Unnumbered params.bandwidth))))))

  authenticated-numbers :
      (peer : Peer) (cookie : Bytes) (params : TestParams) (cfg : TestConfig)
      (res : Result (Option Bytes))
      → numbers (authenticated C read_file raw_os_error d peer cookie params cfg res).0 ≡ []
  unfolding authenticated
  authenticated-numbers peer cookie params cfg (ok user) =
      (both-Unnumbered (user_line d user) _ (user_line-Unnumbered user)
        (print_connect_block-Unnumbered peer cookie params cfg)).plain
  authenticated-numbers peer cookie params cfg (err e) = emit_pretest_error_doc-numbers d _ _

  refused_round-numbers :
      (code : ℕ) (rate : Option ℕ) (park : Option (Option Bytes))
      → numbers (refused_round d code rate park).0 ≡ []
  unfolding refused_round emit_refusal
  refused_round-numbers code rate none = refl
  refused_round-numbers code rate (some none) = ground arith
  refused_round-numbers code rate (some (some msg)) = emit_pretest_error_doc-numbers d msg rate

  negotiated-numbers :
      (now : ℤ) (peer : Peer) (park : List ParkEvent) (n : Negotiated)
      → numbers (negotiated C read_file raw_os_error d now peer park n).0 ≡ []
  unfolding negotiated
  negotiated-numbers now peer park (stopped msg) = emit_pretest_error_doc-numbers d msg none
  negotiated-numbers now peer park (broken e) = refl
  negotiated-numbers now peer park (parked code rate) =
      refused_round-numbers code rate (park_refused_round park)
  negotiated-numbers now peer park (agreed cookie params cfg) =
      authenticated-numbers peer cookie params cfg (authenticate C read_file now d params)

  connected-numbers :
      (R : Type 0) (a : Arrival) (o : Option IoError)
      → numbers (connected C read_file raw_os_error d {R = R} a o).1 ≡ []
  unfolding connected
  connected-numbers R a (some e) = refl
  connected-numbers R a none =
      negotiated-numbers a.now a.peer a.park (negotiate_test {R = R} d.limits a.reads).1

  reached-numbers :
      (R : Type 0) (a : Arrival) (x : Accepted)
      → numbers (reached C read_file raw_os_error d {R = R} a x).1 ≡ []
  unfolding reached
  reached-numbers R a accepted = connected-numbers R a a.no_delay
  reached-numbers R a idle = refl
  reached-numbers R a (refused_by e) = refl
  reached-numbers R a (idle_interrupt msg) = emit_pretest_error_doc-numbers d msg none

  module _ {Rep : Type 0} where
    abbrev pub played : Met Rep → List Said × RoundEnd × Bool
    played (a, test, fired) =
        let (said, end) = handle_one_test C read_file raw_os_error d a test in (said, end, fired)

    -- The round is over, and the interrupt has not fired.
    abbrev pub Done : Met Rep → Type 0
    Done m = (is_waiting (played m).1 ≡ false) × ((played m).2 ≡ false)

    played-Over : (ms : List (Met Rep)) → All Done ms → All Over (map played ms)
    unfolding handle_one_test opened
    played-Over [] a = tt
    played-Over ((x, test, fired) ∷ ms) ((over, calm), a) = (
      (over, calm, reached-numbers (Unit {0}) x (accept_control d.idle_timeout x.accepts)),
      played-Over ms a,
    )

    -- A server that is not for one test only serves on, as long as it is not interrupted: behind rounds that
    -- are over, however they ended, it waits for the next client; the number of the next test is one
    -- more than the tests so far, all rounds but those that ended by the idle timeout; and outside JSON
    -- mode, unless output is quiet, it has shown the banner of each number from 1 on once, in order.
    pub run-serves :
        (ms : List (Met Rep))
        → d.one_off ≡ false
        → All Done ms
        → let (said, number, state) = run d (map played ms) in
          (state ≡ serving)
          × (number ≡ 1 + tests (map played ms))
          × (numbers said ≡ banners d 1 (1 + tests (map played ms)))
    unfolding run
    run-serves ms o a =
        let g = serve-GoesOn d 1 (map played ms) o (played-Over ms a) in
        let n = tests (map played ms) in
        let one : suc n ≡ 1 + n = omega arith in
        (
          g.still,
          g.number,
          numbers-append (listening d 1) (serve d 1 (map played ms)).0
              ∙ ap (λ l. l ++ numbers (serve d 1 (map played ms)).0) (listening-numbers d 1)
              ∙ ap (λ l. banners d 1 1 ++ l) g.shown
              ∙ count_from-append d 1 n
              ∙ ap (banners d 1) one,
        )
