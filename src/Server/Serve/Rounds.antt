-- ===== src/Server/Serve/Rounds.antt =====
-- The accept loop over many rounds.
use riperf.Base.{
  ℕ, zero, suc, ◌+◌, ◌≡◌, refl, sym, ◌∙◌, ap, Bool, true, false, ◌||◌, List, [], ◌∷◌, ◌++◌, Option,
  none, some, Bytes, bytes_eq, codes, arith, if◌then◌else◌, All, Bool-cases, inl, inr,
}
use riperf.Errors.Runtime.{
  RiperfError, config, io, json, cookie_mismatch, access_denied, server_busy, connection_timeout,
  protocol, aborted, control_socket_closed, recv_results_failed, recv_cookie_failed,
  recv_data_cookie_failed, recv_params_failed, send_control_failed, exchange_send_message_failed,
  exchange_send_results_failed, exchange_recv_message_failed, accept_failed, stream_connect_failed,
  set_no_delay_failed, data_idle_timeout, unknown_control_message, client_terminated,
  peer_disconnected,
}
use riperf.Outcome.{Termination}
use riperf.Server.Accept.{
  Daemon, Said, error_stream_events, refusal_document, line, printed, banner,
}
use riperf.Server.Serve.{
  RoundEnd, reported, unreported, round_failed, waiting, json_mode, text_line,
  emit_pretest_error_doc, emit_pretest_error,
}
use riperf.Server.Serve.Loop.{
  reported_line, generic_error, failed_line, end_line, listening, Serving, serving, follow, serve,
}

-- The numbers of the banners
abbrev pub numbers : List Said → List ℕ
numbers [] = []
numbers (banner n ∷ s) = n ∷ numbers s
numbers (line e ∷ s) = numbers s
numbers (printed e ∷ s) = numbers s
numbers (error_stream_events e ∷ s) = numbers s
numbers (refusal_document e rate ∷ s) = numbers s

-- The idle timeout is the one end that does not count as a test.
abbrev pub is_idle_timeout : RoundEnd → Bool
is_idle_timeout (round_failed (aborted msg)) = bytes_eq msg (codes "idle timeout")
is_idle_timeout _ = false

abbrev pub is_waiting : RoundEnd → Bool
is_waiting waiting = true
is_waiting _ = false

-- The tests among the rounds
abbrev pub tests : List (List Said × RoundEnd × Bool) → ℕ
tests [] = 0
tests ((said, end, fired) ∷ rs) =
    let rest = tests rs in if is_idle_timeout end then rest else suc rest

-- n, n + 1, …
abbrev pub count_from : ℕ → ℕ → List ℕ
count_from n zero = []
count_from n (suc k) = n ∷ count_from (suc n) k

-- A round that is over, without an interrupt, and has shown no banner of its own.
abbrev pub Over : List Said × RoundEnd × Bool → Type 0
Over (said, end, fired) = (is_waiting end ≡ false) × (fired ≡ false) × (numbers said ≡ [])

pub numbers-append : (s r : List Said) → numbers (s ++ r) ≡ numbers s ++ numbers r
numbers-append [] r = refl
numbers-append (banner n ∷ s) r = ap (◌∷◌ n) (numbers-append s r)
numbers-append (line e ∷ s) r = numbers-append s r
numbers-append (printed e ∷ s) r = numbers-append s r
numbers-append (error_stream_events e ∷ s) r = numbers-append s r
numbers-append (refusal_document e rate ∷ s) r = numbers-append s r

module _ (d : Daemon) where
  text_line-numbers : (msg : Bytes) → numbers (text_line d msg) ≡ []
  text_line-numbers msg = ground arith

  pub emit_pretest_error_doc-numbers :
      (msg : Bytes) (rate : Option ℕ) → numbers (emit_pretest_error_doc d msg rate) ≡ []
  unfolding emit_pretest_error_doc
  emit_pretest_error_doc-numbers msg rate = ground arith

  emit_pretest_error-numbers : (e : RiperfError) → numbers (emit_pretest_error d e) ≡ []
  unfolding emit_pretest_error emit_pretest_error_doc
  emit_pretest_error-numbers e = ground arith

  generic_error-numbers : (e : RiperfError) → numbers (generic_error d e) ≡ []
  unfolding generic_error emit_pretest_error_doc
  generic_error-numbers e = ground arith

  reported_line-numbers : (t : Termination) → numbers (reported_line d t) ≡ []
  unfolding reported_line
  reported_line-numbers Termination.client_terminated = text_line-numbers _
  reported_line-numbers Termination.control_closed = text_line-numbers _
  reported_line-numbers Termination.unknown_message = text_line-numbers _
  reported_line-numbers Termination.recv_results_failed = text_line-numbers _
  reported_line-numbers (Termination.send_failed msg) = text_line-numbers _
  reported_line-numbers (Termination.recv_message_failed msg) = text_line-numbers _
  reported_line-numbers Termination.completed = refl
  reported_line-numbers Termination.interrupted = refl
  reported_line-numbers Termination.server_terminated = refl
  reported_line-numbers (Termination.server_error msg) = refl
  reported_line-numbers (Termination.self_terminated msg) = refl

  -- No banner among the lines, and the restart is the idle timeout's.
  Plain : RoundEnd → List Said × Bool → Type 0
  Plain end (told, idle_restart) = (numbers told ≡ []) × (idle_restart ≡ is_idle_timeout end)

  failed_line-Plain : (e : RiperfError) → Plain (round_failed e) (failed_line d e)
  unfolding Plain failed_line
  failed_line-Plain (aborted msg) = elim (Bool-cases (bytes_eq msg (codes "idle timeout"))) [
    | inl e ↦ rw e (refl, refl)
    | inr e ↦ rw e (generic_error-numbers (aborted msg), refl)
  ]
  failed_line-Plain control_socket_closed = (text_line-numbers _, refl)
  failed_line-Plain client_terminated = (text_line-numbers _, refl)
  failed_line-Plain unknown_control_message = (text_line-numbers _, refl)
  failed_line-Plain data_idle_timeout = (text_line-numbers _, refl)
  failed_line-Plain (stream_connect_failed e) = (text_line-numbers _, refl)
  failed_line-Plain recv_data_cookie_failed = (text_line-numbers _, refl)
  failed_line-Plain access_denied = (text_line-numbers _, refl)
  failed_line-Plain recv_cookie_failed = (emit_pretest_error-numbers recv_cookie_failed, refl)
  failed_line-Plain recv_params_failed = (emit_pretest_error-numbers recv_params_failed, refl)
  failed_line-Plain (send_control_failed e) =
      (emit_pretest_error-numbers (send_control_failed e), refl)
  failed_line-Plain (accept_failed e) = (emit_pretest_error-numbers (accept_failed e), refl)
  failed_line-Plain (set_no_delay_failed e) =
      (emit_pretest_error-numbers (set_no_delay_failed e), refl)
  failed_line-Plain (config e) = (generic_error-numbers (config e), refl)
  failed_line-Plain (io e) = (generic_error-numbers (io e), refl)
  failed_line-Plain (json e) = (generic_error-numbers (json e), refl)
  failed_line-Plain cookie_mismatch = (generic_error-numbers cookie_mismatch, refl)
  failed_line-Plain server_busy = (generic_error-numbers server_busy, refl)
  failed_line-Plain connection_timeout = (generic_error-numbers connection_timeout, refl)
  failed_line-Plain (protocol e) = (generic_error-numbers (protocol e), refl)
  failed_line-Plain recv_results_failed = (generic_error-numbers recv_results_failed, refl)
  failed_line-Plain (exchange_send_message_failed e) =
      (generic_error-numbers (exchange_send_message_failed e), refl)
  failed_line-Plain (exchange_send_results_failed e) =
      (generic_error-numbers (exchange_send_results_failed e), refl)
  failed_line-Plain (exchange_recv_message_failed e) =
      (generic_error-numbers (exchange_recv_message_failed e), refl)
  failed_line-Plain peer_disconnected = (generic_error-numbers peer_disconnected, refl)

  IfOver : RoundEnd → Option (List Said × Bool) → Type 0
  IfOver end none = is_waiting end ≡ true
  IfOver end (some t) = Plain end t

  end_line-IfOver : (end : RoundEnd) → IfOver end (end_line d end)
  unfolding IfOver end_line Plain
  end_line-IfOver (reported t) = (reported_line-numbers t, refl)
  end_line-IfOver unreported = (refl, refl)
  end_line-IfOver (round_failed e) = failed_line-Plain e
  end_line-IfOver waiting = refl

  -- The banners that the loop shows for the tests n + 1 to n + k.
  abbrev pub banners : ℕ → ℕ → List ℕ
  banners n k = if json_mode d || d.output_quiet then [] else count_from n k

  pub listening-numbers : (n : ℕ) → numbers (listening d n) ≡ banners n 1
  listening-numbers n = ground arith

  pub count_from-append : (n k : ℕ) → banners n 1 ++ banners (suc n) k ≡ banners n (suc k)
  count_from-append n k = elim (Bool-cases (json_mode d || d.output_quiet)) [
    | inl e ↦ rw e refl
    | inr e ↦ rw e refl
  ]

  -- What the loop comes to behind rounds that are over: it still serves, the next number is as many tests
  -- higher, and the banners shown are those of the tests that follow the first.
  pub record GoesOn (n k : ℕ) (out : List Said × ℕ × Serving) : Type 0 where
    pub still : out.2 ≡ serving
    pub number : out.1 ≡ n + k
    pub shown : numbers out.0 ≡ banners (suc n) k

  said-numbers :
      (said told next rest : List Said)
      → numbers said ≡ []
      → numbers told ≡ []
      → numbers (said ++ told ++ next ++ rest) ≡ numbers next ++ numbers rest
  said-numbers said told next rest p q =
      let outer = numbers-append (said ++ told ++ next) rest in
      let middle = numbers-append (said ++ told) next in
      let inner = numbers-append said told in rw (outer, middle, inner, p, q) refl

  follow-GoesOn :
      (n k : ℕ) (said : List Said) (end : RoundEnd) (x : Option (List Said × Bool))
      (go_on : ℕ → List Said × ℕ × Serving)
      → d.one_off ≡ false
      → is_waiting end ≡ false
      → numbers said ≡ []
      → IfOver end x
      → ((m : ℕ) → GoesOn m k (go_on m))
      → GoesOn n (if is_idle_timeout end then k else suc k) (follow d n said false x go_on)
  unfolding follow IfOver Plain
  follow-GoesOn n k said end none go_on o over plain waits rest =
      absurd (ground (arith, over, waits))
  follow-GoesOn n k said end (some (told, true)) go_on o over plain (p, i) rest =
      let ahead = rest n in
      rw (sym i, o)
        (record {
          still = ahead.still;
          number = ahead.number;
          shown = said-numbers said told [] (go_on n).0 plain p ∙ ahead.shown;
        })
  follow-GoesOn n k said end (some (told, false)) go_on o over plain (p, i) rest =
      let ahead = rest (suc n) in
      rw (sym i, o)
        (record {
          still = ahead.still;
          number = omega (arith, ahead.number);
          shown =
              said-numbers said told (listening d (suc n)) (go_on (suc n)).0 plain p
              ∙ ap (λ l. l ++ numbers (go_on (suc n)).0) (listening-numbers (suc n))
              ∙ ap (λ l. banners (suc n) 1 ++ l) ahead.shown
              ∙ count_from-append (suc n) k;
        })

  none_yet : (n : ℕ) → numbers [] ≡ banners n 0
  none_yet n = ground arith

  pub serve-GoesOn :
      (n : ℕ) (rs : List (List Said × RoundEnd × Bool))
      → d.one_off ≡ false
      → All Over rs
      → GoesOn n (tests rs) (serve d n rs)
  unfolding serve
  serve-GoesOn n [] o a = record { still = refl; number = omega arith; shown = none_yet (suc n) }
  serve-GoesOn n ((said, end, fired) ∷ rs) o ((over, calm, plain), a) = rw calm (
      follow-GoesOn n (tests rs) said end (end_line d end) (λ m. serve d m rs) o over plain
        (end_line-IfOver end) (λ m. serve-GoesOn m rs o a))
