-- ===== src/Stream/TcpSender/Budget.antt =====
-- The bytes that the senders of a test send together, against their budget.
use riperf.Base.{
  ℕ, suc, ◌+◌, ◌^◌, ◌≤◌, ◌<◌, ◌≡◌, refl, sym, ◌∙◌, ap, inl, inr, zero, List, [], ◌∷◌, none, some, ℤ,
  pos, pos_part, neg_part, ◌-ℤ◌, ltb_ℤ, arith, get_elem?, set, sum, map, All, Bool-cases,
  Option-cases, map_opt, length, ◌*◌,
}
use riperf.Stream.TcpSender.{
  looping, claimed, finished, failed, Stage, refilled, warmed_up, TcpSender, Reading, claim,
  step_at, step, Senders, moved, act, interleaved,
}
use riperf.Stream.TcpSender.Steps.{held, committed, Calm, step_at-Fair}

-- One element of a sum replaced.
sum-set :
    {A : Type 0} (f : A → ℕ) (xs : List A) (i : ℕ) (x y : A)
    → get_elem? xs i ≡ some x
    → sum (map f (set xs i y)) + f x ≡ sum (map f xs) + f y
sum-set f [] i x y h = absurd (cc h)
sum-set f (z ∷ xs) zero x y h = grind arith
sum-set f (z ∷ xs) (suc i) x y h = omega (arith, sum-set f xs i x y h)

sum-member :
    {A : Type 0} (f : A → ℕ) (xs : List A) (i : ℕ) (x : A)
    → get_elem? xs i ≡ some x
    → f x ≤ sum (map f xs)
sum-member f [] i x h = absurd (cc h)
sum-member f (z ∷ xs) zero x h = grind arith
sum-member f (z ∷ xs) (suc i) x h = omega (arith, sum-member f xs i x h)

module _ {S : Type 0} (len rate : ℕ) where
  -- What the senders have committed of a budget of `target`.
  record Within (target : ℕ) (w : Senders S) : Type 0 where
    budget : ℤ
    kept : w.byte_budget ≡ some budget
    spent : sum (map (committed len) w.senders) + pos_part budget ≤ target + neg_part budget
    above : neg_part budget < len

  act-Within :
      (target : ℕ) (w : Senders S) (i : ℕ) (r : Reading)
      → Within target w
      → Within target (act len rate w i r)
  unfolding act moved step
  act-Within target w i r h = elim (Option-cases (get_elem? w.senders i)) [
    | inl n ↦ rw n h
    | inr (s, e) ↦
        rw (e, h.kept)
          (let f = step_at-Fair len rate s r h.budget s.stage refl in
            record {
              budget = f.rest;
              kept = f.kept;
              spent = omega (arith, f.spent, h.spent, sum-set (committed len) w.senders i s _ e);
              above = f.above h.above;
            })
  ]

  interleaved-Within :
      (target : ℕ) (w : Senders S) (schedule : List (ℕ × Reading))
      → Within target w
      → Within target (interleaved len rate w schedule)
  unfolding interleaved
  interleaved-Within target w [] h = h
  interleaved-Within target w ((i, r) ∷ rs) h =
      interleaved-Within target (act len rate w i r) rs (act-Within target w i r h)

abbrev pub total_sent : {S : Type 0} → List (TcpSender S) → ℕ
total_sent senders = sum (map (λ s. s.counters.bytes_sent) senders)

total_sent-committed :
    {S : Type 0} (len : ℕ) (senders : List (TcpSender S))
    → total_sent senders ≤ sum (map (committed len) senders)
total_sent-committed len [] = omega arith
total_sent-committed len (s ∷ senders) = omega (arith, total_sent-committed len senders)

module _ {S : Type 0} (len rate : ℕ) where
  -- A budget of which nothing was lost.
  abbrev Whole : ℕ → Senders S → Type 0
  Whole target w =
      (v : ℤ) × (w.byte_budget ≡ some v)
      × (target + neg_part v ≤ sum (map (committed len) w.senders) + pos_part v)

  act-Whole :
      (target : ℕ) (w : Senders S) (i : ℕ) (r : Reading)
      → target + len ≤ 2 ^ 64
      → Calm r
      → Within len rate target w
      → Whole target w
      → Whole target (act len rate w i r)
  unfolding act moved step
  act-Whole target w i r t c h (v, k, e) = elim (Option-cases (get_elem? w.senders i)) [
    | inl n ↦ rw n (v, k, e)
    | inr (s, g) ↦
        let f = step_at-Fair len rate s r v s.stage refl in
        let most = sum-member (committed len) w.senders i s g in
        rw (g, k)
          (
            f.rest,
            f.kept,
            omega (
              arith,
              sum-set (committed len) w.senders i s (step_at len rate s.stage s r (some v)).0 g,
              f.even c (omega (arith, most, h.spent, h.above, t)),
              e,
            ),
          )
  ]

  interleaved-Whole :
      (target : ℕ) (w : Senders S) (schedule : List (ℕ × Reading))
      → target + len ≤ 2 ^ 64
      → All (λ x. Calm x.1) schedule
      → Within len rate target w
      → Whole target w
      → Whole target (interleaved len rate w schedule)
  unfolding interleaved
  interleaved-Whole target w [] t c h e = e
  interleaved-Whole target w ((i, r) ∷ rs) t c h e =
      interleaved-Whole target (act len rate w i r) rs t c.1 (act-Within len rate target w i r h)
        (act-Whole target w i r t c.0 h e)

-- A sender that has not begun.
abbrev pub Ready : {S : Type 0} → TcpSender S → Type 0
Ready s = (s.stage ≡ looping) × (s.counters.bytes_sent ≡ 0)

Ready-committed :
    {S : Type 0} (len : ℕ) (senders : List (TcpSender S))
    → All Ready senders
    → sum (map (committed len) senders) ≡ 0
Ready-committed len [] h = refl
Ready-committed len (s ∷ senders) h =
    rw h.0.0 (omega (arith, h.0.1, Ready-committed len senders h.1))

-- Senders of which none holds a block.
looping-committed :
    {S : Type 0} (len : ℕ) (senders : List (TcpSender S))
    → All (λ s. s.stage ≡ looping) senders
    → sum (map (committed len) senders) ≡ total_sent senders
looping-committed len [] h = refl
looping-committed len (s ∷ senders) h = rw h.0 (omega (arith, looping-committed len senders h.1))

exhausted : (len : ℕ) (v : ℤ) → claim len (some v) ≡ none → pos_part v ≡ 0
unfolding claim
exhausted len v h = elim (Bool-cases (ltb_ℤ (pos 0) v)) [
  | inl b ↦
      (let granted : claim len (some v) ≡ some (some (v -ℤ pos len)) = rw b refl in
        absurd (cc (sym granted ∙ h)))
  | inr b ↦ ground (arith, b)
]

-- Each sender holds a block at most.
held_blocks :
    {S : Type 0} (len : ℕ) (senders : List (TcpSender S))
    → sum (map (committed len) senders) ≤ total_sent senders + length senders * len
held_blocks len [] = omega arith
held_blocks len (s ∷ senders) = omega (arith, held_at_most len s.stage, held_blocks len senders)
  where
    held_at_most : (n : ℕ) (g : Stage) → held n g ≤ n
    held_at_most n looping = omega arith
    held_at_most n claimed = omega arith
    held_at_most n finished = omega arith
    held_at_most n (failed e) = omega arith

length-set : {A : Type 0} (xs : List A) (i : ℕ) (y : A) → length (set xs i y) ≡ length xs
length-set [] i y = refl
length-set (z ∷ xs) zero y = refl
length-set (z ∷ xs) (suc i) y = ap suc (length-set xs i y)

module _ {S : Type 0} (len rate : ℕ) where
  interleaved-length :
      (w : Senders S) (schedule : List (ℕ × Reading))
      → length (interleaved len rate w schedule).senders ≡ length w.senders
  unfolding interleaved act moved
  interleaved-length w [] = refl
  interleaved-length w ((i, r) ∷ rs) =
      interleaved-length (act len rate w i r) rs ∙ (elim (Option-cases (get_elem? w.senders i)) [
        | inl n ↦ rw n refl
        | inr (s, e) ↦ rw e (length-set w.senders i _)
      ])

  -- A full budget, on top of what is committed already.
  full-Within :
      (target : ℕ) (w : Senders S)
      → 0 < len
      → w.byte_budget ≡ some (pos target)
      → Within len rate (sum (map (committed len) w.senders) + target) w
  full-Within target w l b = record {
    budget = pos target;
    kept = b;
    spent = omega arith;
    above = l;
  }

  interleaved-bound :
      (target : ℕ) (w : Senders S) (schedule : List (ℕ × Reading))
      → 0 < len
      → w.byte_budget ≡ some (pos target)
      → total_sent (interleaved len rate w schedule).senders
        < sum (map (committed len) w.senders) + target + len
  interleaved-bound target w schedule l b =
      let n = sum (map (committed len) w.senders) + target in
      let k = interleaved-Within len rate n w schedule (full-Within target w l b) in
      omega (
        arith,
        k.spent,
        k.above,
        total_sent-committed len (interleaved len rate w schedule).senders,
      )

  interleaved-exhausted :
      (target : ℕ) (w : Senders S) (schedule : List (ℕ × Reading))
      → 0 < len
      → sum (map (committed len) w.senders) + target + len ≤ 2 ^ 64
      → w.byte_budget ≡ some (pos target)
      → All (λ x. Calm x.1) schedule
      → All (λ s. s.stage ≡ looping) (interleaved len rate w schedule).senders
      → claim len (interleaved len rate w schedule).byte_budget ≡ none
      → sum (map (committed len) w.senders) + target
        ≤ total_sent (interleaved len rate w schedule).senders
  interleaved-exhausted target w schedule l t b c idle refused =
      let n = sum (map (committed len) w.senders) + target in
      let (v, q, e) =
        interleaved-Whole len rate n w schedule t c (full-Within target w l b)
          (pos target, b, omega arith) in
      omega (
        arith,
        e,
        exhausted len v (ap (claim len) (sym q) ∙ refused),
        looping-committed len (interleaved len rate w schedule).senders idle,
      )

  -- The budget is there at the boundary, and filled up behind it.
  refilled_full :
      (target : ℕ) (w : Senders S) (schedule : List (ℕ × Reading))
      → 0 < len
      → w.byte_budget ≡ some (pos target)
      → (refilled target (interleaved len rate w schedule)).byte_budget ≡ some (pos target)
  unfolding refilled
  refilled_full target w schedule l b =
      let k = interleaved-Within len rate _ w schedule (full-Within target w l b) in
      ap (map_opt (λ v. pos target)) k.kept

  -- However the senders of a test interleave, whatever fails and whenever the test ends: up to the omit
  -- boundary, or to the end where there is none, they send together less than a block above the budget;
  -- and behind the boundary, where the budget is filled up, less than a block above it and the block
  -- that each of them may hold then.
  pub warmed_up-bound :
      (target : ℕ) (w : Senders S) (before behind : List (ℕ × Reading))
      → 0 < len
      → All Ready w.senders
      → w.byte_budget ≡ some (pos target)
      → let (boundary, end) = warmed_up len rate target w before behind in
        (total_sent boundary.senders < target + len)
        × (total_sent end.senders
            < total_sent boundary.senders + target + len + length w.senders * len)
  unfolding warmed_up refilled
  warmed_up-bound target w before behind l h b =
      let boundary = interleaved len rate w before in
      let full = refilled_full target w before l b in
      (
        omega (arith, interleaved-bound target w before l b, Ready-committed len w.senders h),
        omega (
          arith,
          interleaved-bound target (refilled target boundary) behind l full,
          held_blocks len boundary.senders,
          ap (λ n. n * len) (interleaved-length w before),
        ),
      )

  -- However the senders of a test interleave, when nothing fails behind the omit boundary, where the
  -- budget is filled up, and the test goes on, as long as the counts fit in a u64: once none of them holds
  -- a block and the next claim is refused, they have sent together, behind the boundary, at least the
  -- budget, however much of it they used up before.
  pub warmed_up-exhausted :
      (target : ℕ) (w : Senders S) (before behind : List (ℕ × Reading))
      → 0 < len
      → 2 * (target + len) + length w.senders * len ≤ 2 ^ 64
      → All Ready w.senders
      → w.byte_budget ≡ some (pos target)
      → All (λ x. Calm x.1) behind
      → All (λ s. s.stage ≡ looping) (warmed_up len rate target w before behind).1.senders
      → claim len (warmed_up len rate target w before behind).1.byte_budget ≡ none
      → total_sent (warmed_up len rate target w before behind).0.senders + target
        ≤ total_sent (warmed_up len rate target w before behind).1.senders
  unfolding warmed_up refilled
  warmed_up-exhausted target w before behind l t h b c idle refused =
      let boundary = interleaved len rate w before in
      let full = refilled_full target w before l b in
      let first = interleaved-bound target w before l b in
      let all = held_blocks len boundary.senders in
      let count = ap (λ n. n * len) (interleaved-length w before) in
      omega (
        arith,
        total_sent-committed len boundary.senders,
        interleaved-exhausted target (refilled target boundary) behind l
            (omega (arith, first, all, count, t, Ready-committed len w.senders h)) full c idle
            refused,
      )
