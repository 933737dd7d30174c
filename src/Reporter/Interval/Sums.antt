-- ===== src/Reporter/Interval/Sums.antt =====
-- The sums of an interval's two directions against its rows.
use riperf.Base.{
  ◌⊎◌, inl, inr, Bool-cases, ℕ, ◌+◌, ◌^◌, ◌<◌, ◌≡◌, refl, ap, Bool, List, [], ◌∷◌, Option, none,
  some, map, sum, arith, if◌then◌else◌, ltb, sym, lt→ltb, not,
}
use riperf.Base.Float.{Float}
use riperf.Reporter.Summary.{bool_eq}
use riperf.Reporter.Reading.{Slot, Reading}
use riperf.Reporter.Interval.{
  IntervalReporterConfig, Span, Interval, DirAcc, IntervalSum, no_streams, account, accumulate,
  interval_stream, direction_interval_sum, interval,
}

module _ {F : Float} where
  abbrev read_bytes : List (Reading F × Slot F) → ℕ
  read_bytes rs = sum (map (λ r. r.0.bytes) rs)

  -- A direction without streams has no bytes.
  Counted : DirAcc F → Type 0
  Counted acc = (acc.bytes ≡ 0) ⊎ (0 < acc.count)

  account-bytes :
      (acc : DirAcc F) (r : Reading F × Slot F)
      → acc.bytes + r.0.bytes < 2 ^ 64
      → ((account acc r).bytes ≡ acc.bytes + r.0.bytes) × Counted (account acc r)
  unfolding account Counted
  account-bytes acc (r, s) lt = (omega arith, inr (omega arith))

  accumulate-bytes :
      (b : Bool) (accs : DirAcc F × DirAcc F) (rs : List (Reading F × Slot F))
      → accs.0.bytes + accs.1.bytes + read_bytes rs < 2 ^ 64
      → Counted accs.1
      → ((accumulate b accs rs).0.bytes + (accumulate b accs rs).1.bytes
          ≡ accs.0.bytes + accs.1.bytes + read_bytes rs)
        × Counted (accumulate b accs rs).1
  unfolding accumulate
  accumulate-bytes b accs [] lt c = (omega arith, c)
  accumulate-bytes b (fwd, rev) ((r, s) ∷ rs) lt c = elim (Bool-cases (bool_eq s.is_sender b)) [
    | inl e ↦
        let (one, counts) = account-bytes fwd (r, s) (omega (arith, lt)) in
        let (rest, ends) =
          accumulate-bytes b (account fwd (r, s), rev) rs (omega (arith, one, lt)) c in
        rw e (omega (arith, rest, one), ends)
    | inr e ↦
        let (one, counts) = account-bytes rev (r, s) (omega (arith, lt)) in
        let (rest, ends) =
          accumulate-bytes b (fwd, account rev (r, s)) rs (omega (arith, one, lt)) counts in
        rw e (omega (arith, rest, one), ends)
  ]

  abbrev pub streams_bytes : Interval F → ℕ
  streams_bytes iv = sum (map (λ row. row.bytes) iv.streams)

  abbrev reverse_bytes : Option (IntervalSum F) → ℕ
  reverse_bytes none = 0
  reverse_bytes (some rev) = rev.bytes

  abbrev pub sums_bytes : Interval F → ℕ
  sums_bytes iv = iv.sum.bytes + reverse_bytes iv.sum_bidir_reverse

  rows-bytes :
      (cfg : IntervalReporterConfig F) (span : Span F) (rs : List (Reading F × Slot F))
      → sum (map (λ row. row.bytes) (map (interval_stream cfg span) rs)) ≡ read_bytes rs
  unfolding interval_stream
  rows-bytes cfg span [] = refl
  rows-bytes cfg span ((r, s) ∷ rs) = ap (λ n. r.bytes + n) (rows-bytes cfg span rs)

  reverse_shown :
      (count : ℕ) (x : IntervalSum F)
      → (x.bytes ≡ 0) ⊎ (0 < count)
      → reverse_bytes (if ltb 0 count then some x else none) ≡ x.bytes
  reverse_shown count x (inl e) = elim (Bool-cases (ltb 0 count)) [
    | inl t ↦ rw t refl
    | inr t ↦ rw t (sym e)
  ]
  reverse_shown count x (inr lt) = rw (lt→ltb 0 count lt) refl

  -- As long as the bytes of an interval are below 2^64, the sums of its two directions, the second only
  -- where it has streams, are together the bytes of its rows.
  pub interval-bytes :
      (cfg : IntervalReporterConfig F) (has_retransmits : Bool) (span : Span F)
      (rs : List (Reading F × Slot F)) (fwd_is_sender : Bool)
      → streams_bytes (interval cfg has_retransmits span rs fwd_is_sender) < 2 ^ 64
      → sums_bytes (interval cfg has_retransmits span rs fwd_is_sender)
        ≡ streams_bytes (interval cfg has_retransmits span rs fwd_is_sender)
  unfolding interval direction_interval_sum Counted
  interval-bytes cfg has_retransmits span rs fwd_is_sender lt =
      let rows = rows-bytes cfg span rs in
      let totals =
        accumulate-bytes fwd_is_sender (no_streams, no_streams) rs (omega (arith, lt, rows))
          (inl refl) in
      let accs = accumulate fwd_is_sender (no_streams, no_streams) rs in
      let rev = direction_interval_sum cfg has_retransmits span accs.1 (not fwd_is_sender) in
      let shown = reverse_shown accs.1.count rev totals.1 in omega (arith, rows, totals.0, shown)
