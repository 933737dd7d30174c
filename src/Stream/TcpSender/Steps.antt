-- ===== src/Stream/TcpSender/Steps.antt =====
-- What one step of a TCP sender does to the budget.
use riperf.Base.{
  ℕ, ◌+◌, ◌^◌, ◌≤◌, ◌<◌, ◌≡◌, refl, sym, ◌∙◌, inl, inr, Bool, ◌&&◌, true, false, Option, none, some,
  ℤ, pos, negsuc, pos_part, neg_part, ◌-ℤ◌, ltb_ℤ, ltb, arith, Bool-cases, if◌then◌else◌,
}
use riperf.Stream.Counters.{record_sent, add_sent, add_sent_interval}
use riperf.Errors.Runtime.{IoError}
use riperf.Stream.TcpSender.{
  Stage, looping, claimed, finished, failed, TcpSender, Reading, claim, claiming, writing,
  send_block, step_at, write_failed, is_hangup,
}

-- The block that a sender holds.
abbrev pub held : ℕ → Stage → ℕ
held len claimed = len
held len looping = 0
held len finished = 0
held len (failed e) = 0

-- What a sender has counted and what it holds.
abbrev pub committed : {S : Type 0} → ℕ → TcpSender S → ℕ
committed len s = s.counters.bytes_sent + held len s.stage

-- A step in which the test goes on and nothing fails.
abbrev pub Calm : Reading → Type 0
Calm r = (r.done ≡ false) × (r.seek_error ≡ none) × (r.write_error ≡ none)

-- A step of a sender spends of the budget at least what it commits, and less than a block more than
-- there is. A calm one spends no more than it commits.
pub record Fair {S : Type 0} (len : ℕ) (s : TcpSender S) (r : Reading) (v : ℤ)
    (out : TcpSender S × Option ℤ) : Type 0 where
  pub rest : ℤ
  pub kept : out.1 ≡ some rest
  pub spent :
      committed len out.0 + pos_part rest + neg_part v
      ≤ committed len s + pos_part v + neg_part rest
  pub above : neg_part v < len → neg_part rest < len
  pub even :
      Calm r
      → committed len s < 2 ^ 64
      → committed len s + pos_part v + neg_part rest
        ≤ committed len out.0 + pos_part rest + neg_part v

-- The budget behind a claim from one that is positive.
less_a_block :
    (len : ℕ) (v : ℤ)
    → ltb_ℤ (pos 0) v ≡ true
    → (pos_part (v -ℤ pos len) + len + neg_part v ≡ pos_part v + neg_part (v -ℤ pos len))
      × (0 < len → neg_part (v -ℤ pos len) < len)
unfolding ◌-ℤ◌
less_a_block len (pos n) h = ground arith
less_a_block len (negsuc n) h = ground arith

write_failed-held : (len : ℕ) (e : IoError) → held len (write_failed e) ≡ 0
unfolding write_failed
write_failed-held len e = elim (Bool-cases (is_hangup e.kind)) [
  | inl b ↦ rw b refl
  | inr b ↦ rw b refl
]

and_false : (b : Bool) → (b && false) ≡ false
and_false true = refl
and_false false = refl

held_claimed :
    {S : Type 0} (len : ℕ) (s : TcpSender S)
    → s.stage ≡ claimed
    → committed len s ≡ s.counters.bytes_sent + len
held_claimed len s h = rw h refl

module _ {S : Type 0} (len rate : ℕ) where
  -- Nothing claimed.
  still :
      (s s' : TcpSender S) (r : Reading) (v : ℤ)
      → committed len s' ≤ committed len s
      → (Calm r → committed len s < 2 ^ 64 → committed len s ≤ committed len s')
      → Fair len s r v (s', some v)
  still s s' r v h g = record {
    rest = v;
    kept = refl;
    spent = omega (arith, h);
    above = λ k. k;
    even = λ c k. omega (arith, g c k);
  }

  claim-Fair :
      (s : TcpSender S) (r : Reading) (v : ℤ)
      → s.stage ≡ looping
      → Fair len s r v (claiming s (some v) (claim len (some v)))
  unfolding claim claiming
  claim-Fair s r v h = elim (Bool-cases (ltb_ℤ (pos 0) v)) [
    | inl b ↦ rw b (
        let less = less_a_block len v b in
        record {
          rest = v -ℤ pos len;
          kept = refl;
          spent = rw h (omega (arith, less.0));
          above = λ k. less.1 (omega (arith, k));
          even = λ c k. rw h (omega (arith, less.0));
        })
    | inr b ↦ rw b (still s s r v (omega arith) (λ c k. omega arith))
  ]

  writing-committed :
      (s : TcpSender S) (e : Option IoError)
      → s.stage ≡ claimed
      → committed len (writing len s e) ≤ committed len s
  unfolding writing record_sent add_sent add_sent_interval
  writing-committed s none h = rw h (omega arith)
  writing-committed s (some e) h = rw (h, write_failed-held len e) (omega arith)

  send_block-committed :
      (s : TcpSender S) (r : Reading) (e : Option IoError)
      → s.stage ≡ claimed
      → committed len (send_block len rate s r e) ≤ committed len s
  unfolding send_block
  send_block-committed s r (some e) h = omega arith
  send_block-committed s r none h = elim (Bool-cases (ltb 0 rate && r.done)) [
    | inl b ↦ rw b (omega arith)
    | inr b ↦ rw b (writing-committed s r.write_error h)
  ]

  send_block-Calm :
      (s : TcpSender S) (r : Reading)
      → s.stage ≡ claimed
      → Calm r
      → committed len s < 2 ^ 64
      → committed len s ≤ committed len (send_block len rate s r r.seek_error)
  unfolding send_block writing record_sent add_sent add_sent_interval
  send_block-Calm s r h (d, e, w) k =
      rw (e, d, and_false (ltb 0 rate), w) (omega (arith, held_claimed len s h, k))

  -- A sender that wakes before its claim, with the flag it finds.
  awake-Fair :
      (s : TcpSender S) (r : Reading) (v : ℤ) (d : Bool)
      → r.done ≡ d
      → s.stage ≡ looping
      → Fair len s r v (
          if d
          then (record s { stage = finished }, some v)
          else claiming s (some v) (claim len (some v)))
  awake-Fair s r v true b h =
      still s (record s { stage = finished }) r v (omega arith) (λ c k. absurd (cc (sym b ∙ c.0)))
  awake-Fair s r v false b h = claim-Fair s r v h

  pub step_at-Fair :
      (s : TcpSender S) (r : Reading) (v : ℤ) (st : Stage)
      → s.stage ≡ st
      → Fair len s r v (step_at len rate st s r (some v))
  unfolding step_at
  step_at-Fair s r v looping h = awake-Fair s r v r.done refl h
  step_at-Fair s r v claimed h =
      still s (send_block len rate s r r.seek_error) r v (send_block-committed s r r.seek_error h)
        (send_block-Calm s r h)
  step_at-Fair s r v finished h = still s s r v (omega arith) (λ c k. omega arith)
  step_at-Fair s r v (failed e) h = still s s r v (omega arith) (λ c k. omega arith)
