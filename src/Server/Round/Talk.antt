-- ===== src/Server/Round/Talk.antt =====
-- What the exchange of a served test says to the client, and how it ends.
use riperf.Base.{
  ◌≡◌, refl, sym, ◌∙◌, ap, true, false, List, [], ◌∷◌, ◌++◌, Option, none, some, Bytes, append-nil,
  append_assoc,
}
use riperf.Base.Float.{Float}
use riperf.Errors.Runtime.{RiperfError}
use riperf.Protocol.State.{TestState}
use riperf.Client.Drive.{got, lost}
use riperf.Client.Handlers.{Exchanged, results, signal}
use riperf.Server.Round.{
  Marks, no_marks, Frame, state, relay, TestRunCtx, Phase, over, pending, broken, send,
}
use riperf.Server.Round.Exchange.{
  TailEvent, answered, Exchanging, send_kept, interrupt, stray, await_done, answered_with,
  exchange_results_phase, exchanges, exchange_send_message_error, exchange_send_results_error,
}
use riperf.Server.Round.Served.{late_error, termination}
use riperf.Server.Round.Endings.{
  Ending, clean, terminated, closed, signalled, unsent, marks_of, farewell, key, signal_text,
}
use riperf.Server.Round.Marking.{Same, Ended, unchanged, ignoring-Ended, silent-Ended}

-- The frames of an exchange that is complete.
abbrev pub exchange_frames : {R : Type 0} → R → List (Frame R)
exchange_frames own =
    state TestState.exchange_results ∷ Frame.results own ∷ state TestState.display_results ∷ []

-- A part of them, from the first one on.
pub record Part {R : Type 0} (whole : List (Frame R)) : Type 0 where
  pub said : List (Frame R)
  pub left : List (Frame R)
  pub prefix : said ++ left ≡ whole

-- An ending that the exchange may have.
pub record Late (e : Ending) : Type 0 where
  pub reported : late_error (marks_of e) ≡ key (signal_text e) (termination (marks_of e))
  pub populated : (marks_of e).bare_end ≡ false

pub no_marks-exchanges : exchanges no_marks ≡ true
unfolding exchanges
no_marks-exchanges = refl

module _ {R : Type 0} (own : R) where
  abbrev unspoken : Part (exchange_frames own)
  unspoken = record { said = []; left = exchange_frames own; prefix = refl }

  abbrev announced : Part (exchange_frames own)
  announced = record {
    said = state TestState.exchange_results ∷ [];
    left = Frame.results own ∷ state TestState.display_results ∷ [];
    prefix = refl;
  }

  abbrev reported_own : Part (exchange_frames own)
  reported_own = record {
    said = state TestState.exchange_results ∷ Frame.results own ∷ [];
    left = state TestState.display_results ∷ [];
    prefix = refl;
  }

  abbrev shown : Part (exchange_frames own)
  shown = record { said = exchange_frames own; left = []; prefix = refl }

module _ {F : Float} {R : Type 0} (own : R) where
  -- What the exchange leaves.
  abbrev pub Talked : TestRunCtx F R → TestRunCtx F R × Phase → Type 0
  Talked ctx (out, over) =
      (p : Part (exchange_frames own)) × (e : Ending) × Ended ctx out p.said e
      × (e ≡ clean → p.left ≡ [])
      × Late e
  Talked ctx (out, pending) =
      (p : Part (exchange_frames own)) × (out.sent ≡ ctx.sent ++ p.said)
      × (out.streams ≡ ctx.streams)
  Talked ctx (out, broken error) =
      (p : Part (exchange_frames own)) × (out.sent ≡ ctx.sent ++ p.said)
      × (out.streams ≡ ctx.streams)

  module _ (ctx told : TestRunCtx F R) (h : told.marks ≡ no_marks) (same : Same ctx told) where
    interrupt-Ended :
        (said : List (Frame R)) (e : Option RiperfError) (msg : Bytes)
        → told.sent ≡ ctx.sent ++ said
        → Ended ctx (interrupt told e msg) said (signalled msg)
    unfolding interrupt marks_of farewell
    interrupt-Ended said e msg sent =
        ignoring-Ended ctx told said (state TestState.server_terminate) e _ (signalled msg) sent
          same (ap {A = Marks} {B = Marks} (λ m. record m { interrupted = some msg }) h) refl

    stray-Ended :
        (said : List (Frame R)) (e : Option RiperfError)
        → told.sent ≡ ctx.sent ++ said
        → Ended ctx (stray told e) said (Ending.stray false)
    unfolding stray marks_of farewell
    stray-Ended said e sent =
        ignoring-Ended ctx told said (relay 110 0) e _ (Ending.stray false) sent same
          (ap {A = Marks} {B = Marks} (λ m. record m { unknown_message = true }) h) refl

    await_done-Talked :
        (e : Option RiperfError) (events : List TailEvent)
        → told.sent ≡ ctx.sent ++ exchange_frames own
        → Talked ctx (await_done told e events)
    unfolding await_done marks_of farewell late_error termination key signal_text
    await_done-Talked e [] sent = (shown own, sent, same.streams)
    await_done-Talked e (TailEvent.signalled msg ∷ r) sent = (
      (shown own),
      signalled msg,
      interrupt-Ended (exchange_frames own) e msg sent,
      λ q. refl,
      record { reported = refl; populated = refl },
    )
    await_done-Talked e (answered (got TestState.iperf_done) ∷ r) sent = (
      (shown own),
      clean,
      silent-Ended ctx told (exchange_frames own) told.marks clean sent same h,
      λ q. refl,
      record { reported = refl; populated = refl },
    )
    await_done-Talked e (answered (got TestState.test_start) ∷ r) sent = await_done-Talked e r sent
    await_done-Talked e (answered (got TestState.client_terminate) ∷ r) sent = (
      (shown own),
      terminated,
      ignoring-Ended ctx told (exchange_frames own) (relay 119 0) e _ terminated sent same
          (ap {A = Marks} {B = Marks} (λ m. record m { client_terminated = true }) h) refl,
      λ q. refl,
      record { reported = refl; populated = refl },
    )
    await_done-Talked e (answered (got other) ∷ r) sent = (
      (shown own),
      Ending.stray false,
      stray-Ended (exchange_frames own) e sent,
      λ q. refl,
      record { reported = refl; populated = refl },
    )
    await_done-Talked e (answered (lost RiperfError.unknown_control_message) ∷ r) sent = (
      (shown own),
      Ending.stray false,
      stray-Ended (exchange_frames own) e sent,
      λ q. refl,
      record { reported = refl; populated = refl },
    )
    await_done-Talked e (answered (lost RiperfError.peer_disconnected) ∷ r) sent = (
      (shown own),
      closed false,
      ignoring-Ended ctx told (exchange_frames own) (relay 109 0) e _ (closed false) sent same
          (ap {A = Marks} {B = Marks} (λ m. record m { ctrl_closed = true }) h) refl,
      λ q. refl,
      record { reported = refl; populated = refl },
    )
    await_done-Talked e (answered (lost (RiperfError.io error)) ∷ r) sent =
        let kept = RiperfError.exchange_recv_message_failed error in
        (
          shown own,
          Ending.lost kept,
          silent-Ended ctx told (exchange_frames own) _ (Ending.lost kept) sent same (
              ap {A = Marks} {B = Marks} (λ m. record m { exchange_recv_message_error = some kept })
                h),
          λ q. refl,
          record { reported = refl; populated = refl },
        )
    await_done-Talked e (answered (lost error) ∷ r) sent = (shown own, sent, same.streams)

    -- A send whose failure is kept.
    send_kept-Talked :
        (p : Part (exchange_frames own)) (m : Frame R) (class : RiperfError → RiperfError)
        (e : Option RiperfError) (k : TestRunCtx F R → TestRunCtx F R × Phase)
        → told.sent ≡ ctx.sent ++ p.said
        → Talked ctx (k (send told m))
        → Talked ctx (send_kept told m class e k)
    unfolding send_kept marks_of farewell late_error termination key signal_text
    send_kept-Talked p m class none k sent next = next
    send_kept-Talked p m class (some e) k sent next = (
      p,
      unsent (class e),
      silent-Ended ctx told p.said _ (unsent (class e)) sent same
          (ap {A = Marks} {B = Marks} (λ n. record n { exchange_send_error = some (class e) }) h),
      λ q. absurd (cc q),
      record { reported = refl; populated = refl },
    )

  module _ (ctx : TestRunCtx F R) (h : ctx.marks ≡ no_marks) where
    answered_with-Talked :
        (x : Exchanging R) (answer : Option (Exchanged R))
        → Talked ctx (answered_with (send ctx (state TestState.exchange_results)) own x answer)
    unfolding answered_with marks_of farewell late_error termination key signal_text
    answered_with-Talked x none = ((announced own), refl, refl)
    answered_with-Talked x (some (signal msg)) = (
      (announced own),
      signalled msg,
      interrupt-Ended ctx _ h record { shown = refl; streams = refl; capture = refl }
          (announced own).said x.farewell_error msg refl,
      λ q. absurd (cc q),
      record { reported = refl; populated = refl },
    )
    answered_with-Talked x (some Exchanged.unreadable) = (
      (announced own),
      Ending.unreadable,
      ignoring-Ended ctx (send ctx (state TestState.exchange_results)) (announced own).said
          (relay 117 0) x.farewell_error _ Ending.unreadable refl
          record { shown = refl; streams = refl; capture = refl }
          (ap {A = Marks} {B = Marks} (λ m. record m { exchange_recv_failed = true }) h) refl,
      λ q. absurd (cc q),
      record { reported = refl; populated = refl },
    )
    answered_with-Talked x (some (results theirs)) =
        let told = send ctx (state TestState.exchange_results) in
        let both = send told (Frame.results own) in
        send_kept-Talked ctx told h record { shown = refl; streams = refl; capture = refl }
          (announced own) (Frame.results own) exchange_send_results_error x.results_error _ refl
          (send_kept-Talked ctx both h record { shown = refl; streams = refl; capture = refl }
            (reported_own own) (state TestState.display_results) exchange_send_message_error
            x.display_error _ (append_assoc ctx.sent _ _)
            (await_done-Talked ctx (send both (state TestState.display_results)) h
              record { shown = refl; streams = refl; capture = refl } x.farewell_error x.tail
              (append_assoc (ctx.sent ++ state TestState.exchange_results ∷ []) _ _
                ∙ append_assoc ctx.sent _ _)))

    pub exchange_results_phase-Talked :
        (x : Exchanging R) → Talked ctx (exchange_results_phase ctx own x)
    unfolding exchange_results_phase
    exchange_results_phase-Talked x = rw (ap exchanges h ∙ no_marks-exchanges) (
        send_kept-Talked ctx ctx h (unchanged ctx) (unspoken own) (state TestState.exchange_results)
          exchange_send_message_error x.announce_error _ (sym (append-nil _))
          (answered_with-Talked x x.answer))
