-- ===== src/Report/EndBlock/Rows.antt =====
-- The rows of a TCP report in the `end` block of riperf3/src/json_report.rs, and the counts behind the sums.
pub mod Bidir
pub mod OneWay
use mathlib.Core.Path.{subst}
use riperf.Base.{
  branch_true, branch_false, ℕ, ◌+◌, ◌%◌, ◌^◌, ◌<◌, ◌≡◌, refl, sym, ◌∙◌, ap, ◌⊎◌, inl, inr, Bool,
  true, false, not, List, [], ◌∷◌, map, keep, sum, Option, none, some, is_some, unwrap_or, map_opt,
  Bool-cases, All, arith, if◌then◌else◌,
}
use riperf.Base.Float.{Float}
use riperf.Reporter.Summary.{bool_eq, present}
use riperf.Reporter.Interval.{is_udp}
use riperf.Report.EndBlock.{
  StreamReport, ReportInput, EndStream, tcp_end_of, udp_end_of, sum_u64, directed, tcp_sum,
}
use riperf.Report.EndBlock.Streams.{remote_count, sender_side, receiver_side, end_stream}
use riperf.Report.EndBlock.Counts.{
  Sums, local_bytes, reported_bytes, peer_dir_bytes, grafted, own_or_peer,
}
use riperf.Report.EndBlock.Sums.{server_tcp_bidir, server_tcp, client_tcp_bidir, client_tcp, sums}

keep-sum :
    {A : Type 0} (p : A → Bool) (f g : A → ℕ)
    → ((a : A) → p a ≡ true → f a ≡ g a)
    → (xs : List A) → sum (map f (keep p xs)) ≡ sum (map g (keep p xs))
keep-sum p f g same [] = refl
keep-sum p f g same (x ∷ xs) = elim (Bool-cases (p x)) [
  | inl e ↦ rw (e, keep, map, sum) (omega (arith, same x e, keep-sum p f g same xs))
  | inr e ↦ rw (e, keep) (keep-sum p f g same xs)
]

is_true : (b : Bool) → bool_eq b true ≡ true → b ≡ true
is_true b e = ground (arith, e)

is_false : (b : Bool) → bool_eq b false ≡ true → b ≡ false
is_false b e = ground (arith, e)

present_some :
    (o : Option ℕ) (os : List (Option ℕ)) (other : ℕ)
    → is_some o ≡ true
    → unwrap_or o other + sum (present os) ≡ sum (present (o ∷ os))
present_some none os other e = ground (arith, e)
present_some (some n) os other e = refl

sum_present :
    (o : Option ℕ) (os : List (Option ℕ))
    → is_some o ≡ true
    → sum (present (o ∷ os)) < 2 ^ 64
    → (elim (present (o ∷ os)) [ [] ↦ none | n ∷ ns ↦ some (sum_u64 (n ∷ ns)) ])
      ≡ some (sum (present (o ∷ os)))
sum_present none os e small = ground (arith, e)
sum_present (some n) os e small = ap some (omega (arith, small))

module _ {F : Float} where
  -- The bytes of the two sides of a row
  abbrev pub sent_of : EndStream F → ℕ
  sent_of (tcp_end_of s r) = s.bytes
  sent_of (udp_end_of u) = 0

  abbrev pub received_of : EndStream F → ℕ
  received_of (tcp_end_of s r) = r.bytes
  received_of (udp_end_of u) = 0

  -- Those of the rows of one direction together
  abbrev pub rows_sent : ReportInput F → Bool → ℕ
  rows_sent i sends = sum (map (λ s. sent_of (end_stream i s)) (directed sends i.streams))

  abbrev pub rows_received : ReportInput F → Bool → ℕ
  rows_received i sends = sum (map (λ s. received_of (end_stream i s)) (directed sends i.streams))

  -- The peer reported all of these streams, or none.
  abbrev pub AllOrNone : List (StreamReport F) → Type 0
  AllOrNone streams =
      All (λ s. is_some s.remote_bytes ≡ true) streams ⊎ All (λ s. s.remote_bytes ≡ none) streams

  abbrev pub locals : List (StreamReport F) → ℕ
  locals streams = sum (map (λ s. s.local_bytes) streams)

  abbrev pub remotes : List (StreamReport F) → ℕ
  remotes streams = sum (present (map (λ s. s.remote_bytes) streams))

  end_stream-sender :
      (i : ReportInput F) (s : StreamReport F)
      → is_udp i.protocol ≡ false
      → s.is_sender ≡ true
      → (sent_of (end_stream i s) ≡ s.local_bytes)
        × (received_of (end_stream i s) ≡ remote_count i s)
  unfolding end_stream sender_side receiver_side
  end_stream-sender i s u e = rw (u, e) (refl, refl)

  end_stream-receiver :
      (i : ReportInput F) (s : StreamReport F)
      → is_udp i.protocol ≡ false
      → s.is_sender ≡ false
      → (sent_of (end_stream i s) ≡ remote_count i s)
        × (received_of (end_stream i s) ≡ s.local_bytes)
  unfolding end_stream sender_side receiver_side
  end_stream-receiver i s u e = rw (u, e) (refl, refl)

  abbrev pub remote_counts : ReportInput F → Bool → ℕ
  remote_counts i sends = sum (map (remote_count i) (directed sends i.streams))

  pub rows_lem :
      (i : ReportInput F)
      → is_udp i.protocol ≡ false
      → (rows_sent i true ≡ locals (directed true i.streams))
        × (rows_received i true ≡ remote_counts i true)
        × (rows_sent i false ≡ remote_counts i false)
        × (rows_received i false ≡ locals (directed false i.streams))
  rows_lem i u = (
    keep-sum _ _ _ (λ s p. (end_stream-sender i s u (is_true s.is_sender p)).0) i.streams,
    keep-sum _ _ _ (λ s p. (end_stream-sender i s u (is_true s.is_sender p)).1) i.streams,
    keep-sum _ _ _ (λ s p. (end_stream-receiver i s u (is_false s.is_sender p)).0) i.streams,
    keep-sum _ _ _ (λ s p. (end_stream-receiver i s u (is_false s.is_sender p)).1) i.streams,
  )

  pub remote_count-server :
      (i : ReportInput F) (ss : List (StreamReport F))
      → i.is_server ≡ true
      → sum (map (remote_count i) ss) ≡ 0
  unfolding remote_count
  remote_count-server i [] e = refl
  remote_count-server i (s ∷ ss) e = ground (arith, e, remote_count-server i ss e)

  remote_count-reported :
      (i : ReportInput F) (ss : List (StreamReport F))
      → i.is_server ≡ false
      → All (λ s. is_some s.remote_bytes ≡ true) ss
      → sum (map (remote_count i) ss) ≡ remotes ss
  unfolding remote_count
  remote_count-reported i [] e a = refl
  remote_count-reported i (s ∷ ss) e (a, reported) =
      let counted = present_some s.remote_bytes (map (λ t. t.remote_bytes) ss) in
      ground
        (arith, e, a, counted 0 a, counted s.local_bytes a, remote_count-reported i ss e reported)

  present-unreported :
      (ss : List (StreamReport F))
      → All (λ s. s.remote_bytes ≡ none) ss
      → present (map (λ s. s.remote_bytes) ss) ≡ []
  present-unreported [] a = refl
  present-unreported (s ∷ ss) (a, unreported) = rw a (present-unreported ss unreported)

  remote_count-unreported :
      (i : ReportInput F) (ss : List (StreamReport F))
      → i.is_server ≡ false
      → All (λ s. s.remote_bytes ≡ none) ss
      → sum (map (remote_count i) ss) ≡ (if is_some i.error then 0 else locals ss)
  unfolding remote_count
  remote_count-unreported i [] e a = ground arith
  remote_count-unreported i (s ∷ ss) e (a, unreported) =
      rw (e, a) (ground (arith, remote_count-unreported i ss e unreported))

  -- The counts fit in a u64, and the peer reported all of the streams or none.
  abbrev pub Exchanged : List (StreamReport F) → Type 0
  Exchanged streams = (locals streams < 2 ^ 64) × (remotes streams < 2 ^ 64) × AllOrNone streams

  pub local_bytes-locals :
      (i : ReportInput F) (sends : Bool)
      → Exchanged (directed sends i.streams)
      → local_bytes i sends ≡ locals (directed sends i.streams)
  unfolding local_bytes
  local_bytes-locals i sends x = omega (arith, x.0)

  reported_bytes-reported :
      (s : StreamReport F) (ss : List (StreamReport F))
      → is_some s.remote_bytes ≡ true
      → remotes (s ∷ ss) < 2 ^ 64
      → reported_bytes (s ∷ ss) ≡ some (remotes (s ∷ ss))
  unfolding reported_bytes
  reported_bytes-reported s ss e small =
      sum_present s.remote_bytes (map (λ t. t.remote_bytes) ss) e small

  reported_bytes-unreported :
      (ss : List (StreamReport F)) → All (λ s. s.remote_bytes ≡ none) ss → reported_bytes ss ≡ none
  unfolding reported_bytes
  reported_bytes-unreported ss a = rw (reported_bytes, present-unreported ss a) refl

  empty_reported : (i : ReportInput F) → grafted i (reported_bytes {F = F} []) 0 ≡ 0
  unfolding grafted reported_bytes
  empty_reported i = ground arith

  grafted-counts :
      (i : ReportInput F) (ss : List (StreamReport F))
      → i.is_server ≡ false
      → Exchanged ss
      → grafted i (reported_bytes ss) (locals ss) ≡ sum (map (remote_count i) ss)
  unfolding grafted
  grafted-counts i ss e (small, small_remotes, inr a) =
      rw (reported_bytes-unreported ss a) (sym (remote_count-unreported i ss e a))
  grafted-counts i [] e (small, small_remotes, inl a) = empty_reported i
  grafted-counts i (s ∷ ss) e (small, small_remotes, inl a) =
      rw (reported_bytes-reported s ss a.0 small_remotes)
        (sym (remote_count-reported i (s ∷ ss) e a))

  -- The client's sum of a direction whose far end is the peer's.
  pub peer_bytes :
      (i : ReportInput F) (sends : Bool)
      → i.is_server ≡ false
      → Exchanged (directed sends i.streams)
      → grafted i (peer_dir_bytes i sends) (local_bytes i sends) ≡ remote_counts i sends
  unfolding peer_dir_bytes
  peer_bytes i sends e x =
      rw (local_bytes-locals i sends x) (grafted-counts i (directed sends i.streams) e x)
