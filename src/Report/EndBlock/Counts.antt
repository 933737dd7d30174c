-- ===== src/Report/EndBlock/Counts.antt =====
-- What the sums of the `end` block are made of, in `ReportInput::build` of riperf3/src/json_report.rs.
use riperf.Base.{
  ℕ, Bool, List, [], ◌∷◌, map, Option, none, some, ℤ, pos, max_ℤ, ltb, ltb_ℤ, if◌then◌else◌,
  is_some, or_else,
}
use riperf.Base.Float.{Float}
use riperf.Reporter.Summary.{present, sum_ℤ, sum_f64}
use riperf.Report.EndBlock.{
  StreamReport, ReportInput, SumSide, sum_u64, directed, stream_less_sender_retransmits,
  effective_sender_flag, retransmits_for, udp_sum,
}

-- The six sums.
pub record Sums (F : Float) : Type 0 where
  pub sum_sent : SumSide F
  pub sum_received : SumSide F
  pub whole : Option (SumSide F)  -- `sum`
  pub sum_bidir_reverse : Option (SumSide F)
  pub sum_sent_bidir_reverse : Option (SumSide F)
  pub sum_received_bidir_reverse : Option (SumSide F)

-- The measured packets and losses, and the jitter over the number of streams.
pub record Measured (F : Float) : Type 0 where
  pub packets : ℤ
  pub lost : ℤ
  pub jitter : F.Carrier

abbrev pub positive_or : ℤ → ℤ → ℤ
positive_or a b = if ltb_ℤ (pos 0) a then a else b

module _ {F : Float} where
  unfoldable pub local_bytes : ReportInput F → Bool → ℕ
  local_bytes i sends = sum_u64 (map (λ s. s.local_bytes) (directed sends i.streams))

  -- Nothing, if the peer reported no stream of them.
  unfoldable pub reported_bytes : List (StreamReport F) → Option ℕ
  reported_bytes streams = elim (present (map (λ s. s.remote_bytes) streams)) [
    | [] ↦ none
    | n ∷ ns ↦ some (sum_u64 (n ∷ ns))
  ]

  unfoldable pub peer_dir_bytes : ReportInput F → Bool → Option ℕ
  unfolding reported_bytes
  peer_dir_bytes i sends = reported_bytes (directed sends i.streams)

  unfoldable pub measured : ReportInput F → List (StreamReport F) → Measured F
  measured i streams =
      let us = present (map (λ s. s.udp) streams) in
      record {
        packets = sum_ℤ (map (λ u. u.packets) us);
        lost = sum_ℤ (map (λ u. u.lost_packets) us);
        jitter =
            F.div (sum_f64 F (F.of_ℕ 0) (map (λ u. u.jitter_secs) us))
              (F.of_ℤ (max_ℤ i.num_streams (pos 1)));
      }

  -- What the peer did not report is what this host counted, but 0 in a test that ended with an error.
  unfoldable pub grafted : ReportInput F → Option ℕ → ℕ → ℕ
  grafted i (some p) own = p
  grafted i none own = if is_some i.error then 0 else own

  -- The own count, or where it is 0 the peer's.
  unfoldable pub own_or_peer : ReportInput F → ℕ → Option ℕ → ℕ → ℕ
  unfolding grafted
  own_or_peer i own peer other = if ltb 0 own then own else grafted i peer other

  abbrev pub flagged : ReportInput F → Bool → Option ℤ → Option ℤ
  flagged i sends r = if effective_sender_flag i sends then r else none

  abbrev pub zero_sum : ReportInput F → Bool → SumSide F
  zero_sum i sender = udp_sum i 0 sender (pos 0) (pos 0) (F.of_ℕ 0) (pos 0)

  abbrev pub sent_sum : ReportInput F → ℕ → Bool → ℤ → SumSide F
  sent_sum i bytes sender packets = udp_sum i bytes sender packets (pos 0) (F.of_ℕ 0) packets

  abbrev pub one_way : SumSide F → SumSide F → Option (SumSide F) → Sums F
  one_way sent received whole = record {
    sum_sent = sent;
    sum_received = received;
    whole = whole;
    sum_bidir_reverse = none;
    sum_sent_bidir_reverse = none;
    sum_received_bidir_reverse = none;
  }

  abbrev pub role_retransmits : ReportInput F → Option ℤ
  role_retransmits i = or_else (retransmits_for i none) (stream_less_sender_retransmits i)
