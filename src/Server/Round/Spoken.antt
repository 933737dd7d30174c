-- ===== src/Server/Round/Spoken.antt =====
-- A served test as a whole, in riperf3/src/server.rs: it keeps to the conversation with the client.
use riperf.Base.{
  ◌≡◌, refl, sym, ◌∙◌, ap, inl, inr, false, [], ◌∷◌, ◌++◌, Option, none, some, append-nil, or_else,
  true,
}
use mathlib.Core.Path.{subst}
use riperf.Base.Float.{Float}
use riperf.Errors.Runtime.{RiperfError}
use riperf.Protocol.State.{TestState}
use riperf.Server.Round.{
  Server, no_marks, state, TestRunCtx, Phase, over, pending, broken, and_then, send,
}
use riperf.Server.Round.DataPhase.{await_test_end, watch}
use riperf.Server.Round.Exchange.{exchanges, exchange_results_phase}
use riperf.Server.Round.Served.{
  Inputs, frozen_error, late_error, was_captured, finish_server_output, reap, send_state,
  start_test, shutdown_and_flush, tested, served,
}
use riperf.Server.Round.Endings.{Ending, clean, marks_of, late_error-key, farewell}
use riperf.Server.Round.Marking.{Came, Ended, watched-Came}
use riperf.Server.Round.Talk.{Part, exchange_frames, exchange_results_phase-Talked}
use riperf.Server.Round.Conversation.{
  conversation, opening, Concluded, Behind, finish_server_output-kept, completed-Concluded,
  Talked-Behind,
}

clean-exchanges : exchanges (marks_of clean) ≡ true
unfolding exchanges marks_of
clean-exchanges = refl

module _ {F : Float} {S R : Type 0} (s : Server F) (i : Inputs F S R) where
  abbrev nothing_said : Part (conversation i.own)
  nothing_said = record { said = []; left = conversation i.own; prefix = refl }

  abbrev started : Part (conversation i.own)
  started = record {
    said = state TestState.test_start ∷ [];
    left = state TestState.test_running ∷ exchange_frames i.own;
    prefix = refl;
  }

  abbrev running : Part (conversation i.own)
  running = record { said = opening; left = exchange_frames i.own; prefix = refl }

  -- A test that ended in the data phase has no exchange.
  skipped-Behind :
      (begun out ctx : TestRunCtx F R) (e : Ending)
      → begun.sent ≡ opening
      → Ended begun out [] e
      → exchanges (marks_of e) ≡ false
      → ctx.marks ≡ out.marks
      → ctx.sent ≡ out.sent
      → ctx.streams ≡ out.streams
      → Behind i.own begun.streams out.marks (exchange_results_phase ctx i.own i.exchange)
  unfolding exchange_results_phase
  skipped-Behind begun out ctx e b ended x m t g =
      rw (ap exchanges (m ∙ ended.marked) ∙ x) (record {
        ending = e;
        marked = m ∙ ended.marked;
        spoken = record {
          part = running;
          last = ended.last;
          sent = t ∙ ended.sent ∙ ap (λ l. l ++ ended.last) (append-nil begun.sent ∙ b);
          tells = ended.tells;
          finished =
              λ q. absurd (cc (sym x ∙ ap (λ d. exchanges (marks_of d)) q ∙ clean-exchanges));
        };
        reported =
            ap (λ n. or_else (frozen_error n) (late_error (marks_of e))) ended.marked
            ∙ late_error-key e;
        bare = ap (λ n. n.bare_end) ended.marked;
        running = g ∙ ended.same.streams;
      })

  clean-Behind :
      (begun out ctx : TestRunCtx F R)
      → begun.sent ≡ opening
      → Ended begun out [] clean
      → ctx.marks ≡ out.marks
      → ctx.sent ≡ out.sent
      → ctx.streams ≡ out.streams
      → Behind i.own begun.streams out.marks (exchange_results_phase ctx i.own i.exchange)
  unfolding marks_of farewell
  clean-Behind begun out ctx b ended m t g =
      subst (λ n. Behind i.own begun.streams n (exchange_results_phase ctx i.own i.exchange))
        (sym ended.marked)
        (Talked-Behind i.own begun.streams ctx _
          (t
            ∙ ended.sent
            ∙ ap (λ l. (begun.sent ++ []) ++ l) (elim ended.tells [ inl h ↦ h | inr h ↦ h ])
            ∙ append-nil _
            ∙ append-nil _
            ∙ b)
          (g ∙ ended.same.streams)
          (exchange_results_phase-Talked i.own ctx (m ∙ ended.marked) i.exchange))

  tested-Concluded :
      (begun : TestRunCtx F R) (x : TestRunCtx F R × Phase)
      → begun.sent ≡ opening
      → Came begun x
      → Concluded i.own begun.streams (tested s i x)
  unfolding tested reap shutdown_and_flush
  tested-Concluded begun (out, pending) b c =
      (running, ap (λ d. d.sent) c ∙ b, ap (λ d. d.streams) c)
  tested-Concluded begun (out, broken error) b c =
      (running, ap (λ d. d.sent) c ∙ b, (refl, ap (λ d. d.streams) c))
  tested-Concluded begun (out, over) b (e, ended, how) =
      let (stopped, end) = shutdown_and_flush out i.measured_elapsed in
      let (finished, source) = finish_server_output s stopped end in
      let kept = finish_server_output-kept s stopped end refl in
      completed-Concluded s i.own begun.streams end source (was_captured stopped) out.marks _ refl
        kept.3
        (elim how [
          | inl c ↦
              clean-Behind begun out finished b (subst (λ d. Ended begun out [] d) c ended) kept.0
                kept.1 kept.2
          | inr f ↦ skipped-Behind begun out finished e b ended f kept.0 kept.1 kept.2
        ])

  begun-Concluded :
      (ctx : TestRunCtx F R) (e : Option RiperfError)
      → ctx.sent ≡ started.said
      → ctx.marks ≡ no_marks
      → Concluded i.own ctx.streams (
          tested s i (
            and_then
              (send_state ctx TestState.test_running e)
              (λ begun. await_test_end s begun i.started_at i.farewell_error i.events)))
  unfolding send_state await_test_end tested reap
  begun-Concluded ctx none h m =
      let begun = send ctx (state TestState.test_running) in
      tested-Concluded begun _ (ap (λ l. l ++ state TestState.test_running ∷ []) h)
        (watched-Came begun m s (watch s i.started_at) i.farewell_error i.events)
  begun-Concluded ctx (some error) h m = (started, h, (refl, refl))

  started-Concluded :
      (ctx : TestRunCtx F R) (e : Option RiperfError)
      → ctx.sent ≡ []
      → ctx.marks ≡ no_marks
      → Concluded i.own ctx.streams (
          tested s i (
            and_then
              (and_then
                (send_state ctx TestState.test_start e)
                (λ told. send_state told TestState.test_running i.test_running_error))
              (λ begun. await_test_end s begun i.started_at i.farewell_error i.events)))
  unfolding send_state tested reap
  started-Concluded ctx none h m =
      begun-Concluded (send ctx (state TestState.test_start)) i.test_running_error
        (ap (λ l. l ++ state TestState.test_start ∷ []) h) m
  started-Concluded ctx (some error) h m = (nothing_said, h, (refl, refl))

  -- A served test, whatever it meets: when it ends with an outcome, the context has the marks of one
  -- ending. The server has then sent a part of the conversation, from its first frame on, and behind it
  -- at most the one farewell that belongs to the ending; all of the conversation where the test ended
  -- well. The outcome and the error key of the report name this ending. When it fails or has not ended
  -- yet, the server has sent a part of the conversation and nothing else. When it has ended in either
  -- way, every stream task is joined and none is left.
  pub served-Concluded :
      (ctx : TestRunCtx F R)
      → ctx.sent ≡ []
      → ctx.marks ≡ no_marks
      → Concluded i.own ctx.streams (served s i ctx)
  unfolding served start_test
  served-Concluded ctx h m = started-Concluded (record ctx { start = true }) i.test_start_error h m
