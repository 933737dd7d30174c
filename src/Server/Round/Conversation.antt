-- ===== src/Server/Round/Conversation.antt =====
-- What a served test says to its client, and what its report and its outcome say of the end.
use riperf.Base.{
  ℕ, ◌≡◌, refl, sym, ◌∙◌, ap, ◌⊎◌, inl, inr, Bool, ◌&&◌, ◌||◌, List, [], ◌∷◌, ◌++◌, Option, none,
  some, Bytes, Bool-cases, or_else, arith,
}
use riperf.Base.Float.{Float}
use riperf.Outcome.{RunOutcome}
use riperf.Protocol.State.{TestState}
use riperf.Client.Run.{Finished, outcome, failed, unfinished}
use riperf.Server.Round.{
  Server, Marks, no_marks, EndState, RoundReport, Frame, state, TestRunCtx, Phase, over, pending,
  broken,
}
use riperf.Server.Round.Served.{
  ReportSource, built, pending_report, frozen_error, late_error, termination, was_captured,
  finish_server_output, final_report, emit_final_output, build_ctx_report, resolve, completed, reap,
}
use riperf.Server.Round.Endings.{Ending, clean, marks_of, farewell, key, signal_text}
use riperf.Server.Round.Talk.{Part, Talked, exchange_frames}

abbrev pub conversation : {R : Type 0} → R → List (Frame R)
conversation own = state TestState.test_start ∷ state TestState.test_running ∷ exchange_frames own

module _ {R : Type 0} where
  -- The part of the conversation behind the opening.
  abbrev behind_opening : (own : R) → Part (exchange_frames own) → Part (conversation own)
  behind_opening own p = record {
    said = state TestState.test_start ∷ state TestState.test_running ∷ p.said;
    left = p.left;
    prefix = ap (λ l. state TestState.test_start ∷ state TestState.test_running ∷ l) p.prefix;
  }

  abbrev pub opening : List (Frame R)
  opening = state TestState.test_start ∷ state TestState.test_running ∷ []

module _ {F : Float} where
  -- The report and the outcome name the ending that the context has.
  pub record Named (e : Ending) (o : RunOutcome (RoundReport F)) : Type 0 where
    pub called : o.termination ≡ termination (marks_of e)
    pub error : o.report.error ≡ key (signal_text e) o.termination
    pub bare : o.report.bare_end ≡ (marks_of e).bare_end

  -- A report that was built early has what the data phase left.
  abbrev pub Sourced : Marks → ReportSource F → Type 0
  Sourced m pending_report = Unit {0}
  Sourced m (built r) = (r.error ≡ frozen_error m) × (r.bare_end ≡ m.bare_end)

module _ {F : Float} {R : Type 0} where
  -- A context left by the ending `e`: the server has said a part of the conversation, all of it
  -- where the test ended well, and then at most the farewell of the ending.
  pub record Said (own : R) (e : Ending) (out : TestRunCtx F R) : Type 0 where
    pub part : Part (conversation own)
    pub last : List (Frame R)
    pub sent : out.sent ≡ part.said ++ last
    pub tells : (last ≡ []) ⊎ (last ≡ farewell e)
    pub finished : e ≡ clean → part.left ≡ []

  -- The tasks are joined, and none is left.
  abbrev pub Joined : List ℕ → TestRunCtx F R → Type 0
  Joined tasks out = (out.streams ≡ []) × (out.reaped ≡ tasks)

  -- What a round with these stream tasks leaves behind.
  abbrev pub Concluded : R → List ℕ → TestRunCtx F R × Finished (RoundReport F) → Type 0
  Concluded own tasks (out, outcome o) =
      (e : Ending) × (out.marks ≡ marks_of e) × Said own e out × Named e o × Joined tasks out
  Concluded own tasks (out, failed error) =
      (p : Part (conversation own)) × (out.sent ≡ p.said) × Joined tasks out
  Concluded own tasks (out, unfinished) =
      (p : Part (conversation own)) × (out.sent ≡ p.said) × (out.streams ≡ tasks)

  -- A context behind the exchange of a data phase that left the marks `m`.
  pub record Over (own : R) (tasks : List ℕ) (m : Marks) (out : TestRunCtx F R) : Type 0 where
    pub ending : Ending
    pub marked : out.marks ≡ marks_of ending
    pub spoken : Said own ending out
    pub reported :
        or_else (frozen_error m) (late_error (marks_of ending))
        ≡ key (signal_text ending) (termination (marks_of ending))
    pub bare : m.bare_end ≡ (marks_of ending).bare_end
    pub running : out.streams ≡ tasks

  abbrev pub Behind : R → List ℕ → Marks → TestRunCtx F R × Phase → Type 0
  Behind own tasks m (out, over) = Over own tasks m out
  Behind own tasks m (out, pending) =
      (p : Part (conversation own)) × (out.sent ≡ p.said) × (out.streams ≡ tasks)
  Behind own tasks m (out, broken error) =
      (p : Part (conversation own)) × (out.sent ≡ p.said) × (out.streams ≡ tasks)

or_else-or_else : (a b : Option Bytes) → or_else a (or_else a b) ≡ or_else a b
or_else-or_else none b = refl
or_else-or_else (some x) b = refl

module _ {F : Float} {R : Type 0} where
  pub final_report-Named :
      (ctx : TestRunCtx F R) (end : EndState F) (m : Marks) (source : ReportSource F) (e : Ending)
      → ctx.marks ≡ marks_of e
      → end.report_error ≡ frozen_error m
      → Sourced m source
      → or_else (frozen_error m) (late_error (marks_of e))
        ≡ key (signal_text e) (termination (marks_of e))
      → m.bare_end ≡ (marks_of e).bare_end
      → let report = final_report ctx (resolve end ctx.marks) source in
        (report.error ≡ key (signal_text e) (termination (marks_of e)))
        × (report.bare_end ≡ (marks_of e).bare_end)
  unfolding final_report resolve build_ctx_report
  final_report-Named ctx end m pending_report e h f u r b = rw (h, f) (r, refl)
  final_report-Named ctx end m (built report) e h f (er, ba) r b =
      (rw (h, f, er) (or_else-or_else (frozen_error m) (late_error (marks_of e)) ∙ r), ba ∙ b)

module _ {F : Float} {R : Type 0} (s : Server F) where
  pub emit_final_output-kept :
      (ctx : TestRunCtx F R) (end : EndState F) (report : RoundReport F) (captured : Bool)
      → let out = emit_final_output s ctx end report captured in
        (out.marks ≡ ctx.marks) × (out.sent ≡ ctx.sent) × (out.streams ≡ ctx.streams)
  unfolding emit_final_output
  emit_final_output-kept ctx end report captured = ground arith

  pub finish_server_output-kept :
      (ctx : TestRunCtx F R) (end : EndState F)
      → end.report_error ≡ frozen_error ctx.marks
      → let (out, source) = finish_server_output s ctx end in
        (out.marks ≡ ctx.marks)
        × (out.sent ≡ ctx.sent)
        × (out.streams ≡ ctx.streams)
        × Sourced ctx.marks source
  unfolding finish_server_output build_ctx_report
  finish_server_output-kept ctx end h = elim (Bool-cases (was_captured ctx)) [
    | inl b ↦ rw b (refl, refl, refl, tt)
    | inr b ↦ rw b (elim (Bool-cases (ctx.want_server_output && (s.json_output || s.json_stream))) [
      | inl c ↦ rw c (refl, refl, refl, (h, refl))
      | inr c ↦ rw c (refl, refl, refl, tt)
    ])
  ]

  -- The end of a round, over what the exchange leaves.
  pub completed-Concluded :
      (own : R) (tasks : List ℕ) (end : EndState F) (source : ReportSource F) (captured : Bool)
      (m : Marks) (x : TestRunCtx F R × Phase)
      → end.report_error ≡ frozen_error m
      → Sourced m source
      → Behind own tasks m x
      → Concluded own tasks (completed s end source captured x)
  unfolding completed reap
  completed-Concluded own tasks end source captured m (out, pending) f u b = b
  completed-Concluded own tasks end source captured m (out, broken error) f u (p, t, g) =
      (p, t, (refl, g))
  completed-Concluded own tasks end source captured m (out, over) f u b =
      let resolved = resolve end out.marks in
      let kept = emit_final_output-kept out resolved (final_report out resolved source) captured in
      let named = final_report-Named out end m source b.ending b.marked f u b.reported b.bare in
      (
        b.ending,
        kept.0 ∙ b.marked,
        record {
          part = b.spoken.part;
          last = b.spoken.last;
          sent = kept.1 ∙ b.spoken.sent;
          tells = b.spoken.tells;
          finished = b.spoken.finished;
        },
        record {
          called = ap termination b.marked;
          error = named.0 ∙ ap (λ t. key (signal_text b.ending) (termination t)) (sym b.marked);
          bare = named.1;
        },
        (refl, kept.2 ∙ b.running),
      )

module _ {F : Float} {R : Type 0} where
  pub Talked-Behind :
      (own : R) (tasks : List ℕ) (ctx : TestRunCtx F R) (x : TestRunCtx F R × Phase)
      → ctx.sent ≡ opening
      → ctx.streams ≡ tasks
      → Talked own ctx x
      → Behind own tasks no_marks x
  unfolding frozen_error
  Talked-Behind own tasks ctx (out, pending) h g (p, t, k) =
      (behind_opening own p, t ∙ ap (λ l. l ++ p.said) h, k ∙ g)
  Talked-Behind own tasks ctx (out, broken error) h g (p, t, k) =
      (behind_opening own p, t ∙ ap (λ l. l ++ p.said) h, k ∙ g)
  Talked-Behind own tasks ctx (out, over) h g (p, e, ended, whole, late) = record {
    ending = e;
    marked = ended.marked;
    spoken = record {
      part = behind_opening own p;
      last = ended.last;
      sent = ended.sent ∙ ap (λ l. (l ++ p.said) ++ ended.last) h;
      tells = ended.tells;
      finished = whole;
    };
    reported = late.reported;
    bare = sym late.populated;
    running = ended.same.streams ∙ g;
  }
