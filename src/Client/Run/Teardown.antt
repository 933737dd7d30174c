-- ===== src/Client/Run/Teardown.antt =====
-- What holds when a client's run is over, whatever the server, the sockets and the signals do.
use riperf.Base.{
  ℕ, ◌≤◌, ◌≡◌, refl, sym, ◌∙◌, ap, ◌⊎◌, inl, inr, ◌≢◌, true, false, List, [], ◌∷◌, ◌++◌, Option,
  none, some, length, arith, append-nil, append_assoc,
}
use riperf.Outcome.{Termination}
use riperf.Protocol.State.{TestState}
use riperf.Client.Types.{Env, Client}
use riperf.Client.Context.{Report, Message, RunCtx, StepFlow}
use riperf.Client.Handlers.{Round, Calls}
use riperf.Client.Run.{
  Finished, outcome, failed, unfinished, fresh, step, follow, loop, teardown, completion, conclude,
  run,
}
use riperf.Client.Run.Handled.{Displayed, AtMostOne, Handled}
use riperf.Client.Run.Steps.{own_of, step-Handled}

module _ {E : Env} {R : Type 0} where
  -- A run that has displayed its results and said so.
  pub record Ended (out : RunCtx E R) : Type 0 where
    pub report : Report E R
    pub kept : out.final_report ≡ some report
    pub only : out.dumped ≡ report ∷ []
    pub before : List (Message E R)
    pub last : out.sent ≡ before ++ Message.state TestState.iperf_done ∷ []
    pub theirs : report.server_results ≡ out.server_results
    pub whole : (report.bare_end ≡ false) × (report.error ≡ none) × (report.streams ≡ out.streams)

  -- What a flow says of the context in which the loop ends.
  abbrev pub Ends : RunCtx E R → StepFlow E R → Type 0
  Ends out StepFlow.continue = length out.dumped ≤ 1
  Ends out StepFlow.stop = (length out.dumped ≤ 1) × ((out.final_report ≡ none) ⊎ Ended out)
  Ends out (StepFlow.leave report t) = (t ≢ Termination.completed) × (length out.dumped ≤ 1)
  Ends out (StepFlow.fail e) = length out.dumped ≤ 1
  Ends out StepFlow.waiting = length out.dumped ≤ 1

  record Looped (ctx : RunCtx E R) (tasks : List ℕ) (after : RunCtx E R × StepFlow E R)
      : Type 0 where
    grown : after.0.streams ≡ ctx.streams ++ tasks
    covered : after.0.guarded ≡ after.0.streams
    ends : Ends after.0 after.1

module _ {E : Env} {S R : Type 0} (calls : Calls E S R) (c : Client E) where
  -- The tasks that the rounds of a run spawn until it ends.
  abbrev spawned_behind : RunCtx E R × StepFlow E R → (RunCtx E R → List ℕ) → List ℕ
  spawned_behind (ctx, StepFlow.continue) k = k ctx
  spawned_behind (ctx, StepFlow.stop) k = []
  spawned_behind (ctx, StepFlow.leave report t) k = []
  spawned_behind (ctx, StepFlow.fail e) k = []
  spawned_behind (ctx, StepFlow.waiting) k = []

  pub spawned : RunCtx E R → List (Round E S R) → List ℕ
  spawned ctx [] = []
  spawned ctx (r ∷ rs) =
      own_of calls c r.wake r ++ spawned_behind (step calls c ctx r) (λ next. spawned next rs)

  Displayed-Ended : (ctx out : RunCtx E R) → ctx.dumped ≡ [] → Displayed ctx out → Ended out
  Displayed-Ended ctx out d h = record {
    report = h.report;
    kept = h.kept;
    only = h.shown ∙ ap (λ l. l ++ h.report ∷ []) d;
    before = ctx.sent;
    last = h.last;
    theirs = h.theirs.0 ∙ sym h.theirs.1;
    whole = h.whole;
  }

  at_most_one : (ctx out : RunCtx E R) → ctx.dumped ≡ [] → AtMostOne ctx out → length out.dumped ≤ 1
  at_most_one ctx out d h = omega (arith, ap length d)

  none_yet :
      (ctx out : RunCtx E R) → ctx.dumped ≡ [] → out.dumped ≡ ctx.dumped → length out.dumped ≤ 1
  none_yet ctx out d e = omega (arith, ap length (e ∙ d))

  -- A round and the rounds behind it, given what holds behind.
  follow-Looped :
      (ctx : RunCtx E R) (own : List ℕ) (after : RunCtx E R × StepFlow E R)
      (k : RunCtx E R → RunCtx E R × StepFlow E R) (tasks : RunCtx E R → List ℕ)
      → ((next : RunCtx E R)
          → next.guarded ≡ next.streams
          → next.dumped ≡ []
          → next.final_report ≡ none
          → Looped next (tasks next) (k next))
      → ctx.guarded ≡ ctx.streams
      → ctx.dumped ≡ []
      → ctx.final_report ≡ none
      → Handled ctx own after
      → Looped ctx (own ++ spawned_behind after tasks) (follow calls c after k)
  follow-Looped ctx own (out, StepFlow.continue) k tasks behind g d f h =
      let rest = behind out (h.covered g) (h.flows.0 ∙ d) (h.flows.1 ∙ f) in
      record {
        grown =
            rest.grown
            ∙ ap (λ l. l ++ tasks out) h.grown
            ∙ append_assoc ctx.streams own (tasks out);
        covered = rest.covered;
        ends = rest.ends;
      }
  follow-Looped ctx own (out, StepFlow.stop) k tasks behind g d f h = record {
    grown = h.grown ∙ ap (λ l. ctx.streams ++ l) (sym (append-nil own));
    covered = h.covered g;
    ends = elim h.flows [
      | inl q ↦ (none_yet ctx out d q.0, inl (q.1 ∙ f))
      | inr s ↦ let e = Displayed-Ended ctx out d s in (omega (arith, ap length e.only), inr e)
    ];
  }
  follow-Looped ctx own (out, StepFlow.leave report t) k tasks behind g d f h = record {
    grown = h.grown ∙ ap (λ l. ctx.streams ++ l) (sym (append-nil own));
    covered = h.covered g;
    ends = (h.flows.0, at_most_one ctx out d h.flows.1);
  }
  follow-Looped ctx own (out, StepFlow.fail e) k tasks behind g d f h = record {
    grown = h.grown ∙ ap (λ l. ctx.streams ++ l) (sym (append-nil own));
    covered = h.covered g;
    ends = at_most_one ctx out d h.flows;
  }
  follow-Looped ctx own (out, StepFlow.waiting) k tasks behind g d f h = record {
    grown = h.grown ∙ ap (λ l. ctx.streams ++ l) (sym (append-nil own));
    covered = h.covered g;
    ends = none_yet ctx out d h.flows.0;
  }

  loop-Looped :
      (ctx : RunCtx E R) (rs : List (Round E S R))
      → ctx.guarded ≡ ctx.streams
      → ctx.dumped ≡ []
      → ctx.final_report ≡ none
      → Looped ctx (spawned ctx rs) (loop calls c ctx rs)
  unfolding loop spawned
  loop-Looped ctx [] g d f = record {
    grown = sym (append-nil ctx.streams);
    covered = g;
    ends = none_yet ctx ctx d refl;
  }
  loop-Looped ctx (r ∷ rs) g d f =
      follow-Looped ctx _ (step calls c ctx r) (λ next. loop calls c next rs)
        (λ next. spawned next rs) (λ next g' d' f'. loop-Looped next rs g' d' f') g d f
        (step-Handled calls c ctx r)

  -- What a finished run leaves behind.
  pub record Closed (ctx : RunCtx E R) (tasks : List ℕ) : Type 0 where
    pub done : ctx.done ≡ true
    pub idle : (ctx.streams ≡ []) × (ctx.guarded ≡ [])
    pub reaped : ctx.reaped ≡ tasks
    pub once : length ctx.dumped ≤ 1

  teardown-Closed :
      (ctx : RunCtx E R) (tasks : List ℕ)
      → ctx.streams ≡ tasks
      → length ctx.dumped ≤ 1
      → Closed (teardown calls c ctx) tasks
  unfolding teardown
  teardown-Closed ctx tasks s o = record { done = refl; idle = (refl, refl); reaped = s; once = o }

  conclude-Closed :
      (tasks : List ℕ) (after : RunCtx E R × StepFlow E R)
      → after.0.streams ≡ tasks
      → Ends after.0 after.1
      → (conclude calls c after).1 ≢ unfinished
      → Closed (conclude calls c after).0 tasks
  unfolding conclude
  conclude-Closed tasks (ctx, StepFlow.continue) s e n = absurd (n refl)
  conclude-Closed tasks (ctx, StepFlow.waiting) s e n = absurd (n refl)
  conclude-Closed tasks (ctx, StepFlow.stop) s e n = teardown-Closed ctx tasks s e.0
  conclude-Closed tasks (ctx, StepFlow.leave report t) s e n = teardown-Closed ctx tasks s e.1
  conclude-Closed tasks (ctx, StepFlow.fail x) s e n = teardown-Closed ctx tasks s e

  -- A completed run: its report, and what it left.
  pub record Completed (ctx : RunCtx E R) (report : Report E R) : Type 0 where
    pub theirs : R
    pub holds : report.server_results ≡ some theirs
    pub full : (report.bare_end ≡ false) × (report.error ≡ none)
    pub only : ctx.dumped ≡ report ∷ []
    pub before : List (Message E R)
    pub last : ctx.sent ≡ before ++ Message.state TestState.iperf_done ∷ []

  -- The ending and the report of an outcome; a failure has none.
  abbrev ending : Finished (Report E R) → Option Termination
  ending (outcome o) = some o.termination
  ending (failed e) = none
  ending unfinished = none

  abbrev reported : Finished (Report E R) → Option (Report E R)
  reported (outcome o) = some o.report
  reported (failed e) = none
  reported unfinished = none

  completion-some :
      (s : Option R) (f : Option (Report E R)) (report : Report E R)
      → reported (completion calls c s f) ≡ some report
      → (theirs : R) × (s ≡ some theirs) × (f ≡ some report)
  unfolding completion
  completion-some none f report h = absurd (cc h)
  completion-some (some theirs) none report h = absurd (cc h)
  completion-some (some theirs) (some kept) report h = (theirs, refl, h)

  completion-Completed :
      (ctx : RunCtx E R) (report : Report E R)
      → (ctx.final_report ≡ none) ⊎ Ended ctx
      → reported (completion calls c ctx.server_results ctx.final_report) ≡ some report
      → Completed (teardown calls c ctx) report
  unfolding teardown
  completion-Completed ctx report (inl lost) h =
      let (theirs, s, f) = completion-some ctx.server_results ctx.final_report report h in
      absurd (cc (lost, f))
  completion-Completed ctx report (inr e) h =
      let (theirs, s, f) = completion-some ctx.server_results ctx.final_report report h in
      let same : e.report ≡ report = cc (e.kept, f) in
      record {
        theirs = theirs;
        holds = ap (λ x. x.server_results) (sym same) ∙ e.theirs ∙ s;
        full =
            (ap (λ x. x.bare_end) (sym same) ∙ e.whole.0, ap (λ x. x.error) (sym same) ∙ e.whole.1);
        only = e.only ∙ ap (λ x. x ∷ []) same;
        before = e.before;
        last = e.last;
      }

  conclude-Completed :
      (after : RunCtx E R × StepFlow E R) (report : Report E R)
      → Ends after.0 after.1
      → (conclude calls c after).1
        ≡ outcome (record { report = report; termination = Termination.completed })
      → Completed (conclude calls c after).0 report
  unfolding conclude
  conclude-Completed (ctx, StepFlow.continue) report e h = absurd (cc h)
  conclude-Completed (ctx, StepFlow.waiting) report e h = absurd (cc h)
  conclude-Completed (ctx, StepFlow.stop) report e h =
      completion-Completed ctx report e.1 (ap reported h)
  conclude-Completed (ctx, StepFlow.leave r t) report e h =
      let same : some t ≡ some Termination.completed = ap ending h in absurd (e.0 (cc same))
  conclude-Completed (ctx, StepFlow.fail x) report e h = absurd (cc h)

  -- Whatever the server sends, whatever fails and whenever a signal comes: once the run is over, `done`
  -- is set, the stream tasks aborted and joined are exactly those that were spawned, none is left in the
  -- context or in the abort guard, and at most one report was dumped.
  pub run-Closed :
      (blksize : ℕ) (rounds : List (Round E S R))
      → (run calls c blksize rounds).1 ≢ unfinished
      → Closed (run calls c blksize rounds).0 (spawned (fresh E R c blksize) rounds)
  unfolding run fresh
  run-Closed blksize rounds n =
      let l = loop-Looped (fresh E R c blksize) rounds refl refl refl in
      conclude-Closed (spawned (fresh E R c blksize) rounds) _ l.grown l.ends n

  -- A run that reports a completed test has received the server's results, its report holds them, has a
  -- full end and no error, and is the only one dumped, and IPERF_DONE was the last thing it sent.
  pub run-Completed :
      (blksize : ℕ) (rounds : List (Round E S R)) (report : Report E R)
      → (run calls c blksize rounds).1
        ≡ outcome (record { report = report; termination = Termination.completed })
      → Completed (run calls c blksize rounds).0 report
  unfolding run fresh
  run-Completed blksize rounds report h =
      let l = loop-Looped (fresh E R c blksize) rounds refl refl refl in
      conclude-Completed _ report l.ends h

  -- Wherever the loop stands, the abort guard holds exactly the tasks that were spawned, so that a run
  -- that is dropped aborts them all.
  pub loop-guarded :
      (blksize : ℕ) (rounds : List (Round E S R))
      → let ctx = (loop calls c (fresh E R c blksize) rounds).0 in
        (ctx.guarded ≡ spawned (fresh E R c blksize) rounds) × (ctx.streams ≡ ctx.guarded)
  unfolding fresh
  loop-guarded blksize rounds =
      let l = loop-Looped (fresh E R c blksize) rounds refl refl refl in
      (l.covered ∙ l.grown, sym l.covered)
