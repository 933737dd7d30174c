-- ===== src/Report/EndBlock/Rows/Bidir.antt =====
-- The sums of a bidirectional TCP test against its rows.
use mathlib.Core.Path.{subst}
use riperf.Base.{
  branch_true, branch_false, ◌≡◌, sym, ◌∙◌, ap, inl, inr, Bool, true, false, not, some, map_opt,
  Bool-cases,
}
use riperf.Base.Float.{Float}
use riperf.Reporter.Interval.{is_udp}
use riperf.Report.EndBlock.{ReportInput, directed, tcp_sum}
use riperf.Report.EndBlock.Counts.{Sums}
use riperf.Report.EndBlock.Sums.{server_tcp_bidir, client_tcp_bidir, sums}
use riperf.Report.EndBlock.Rows.{
  rows_sent, rows_received, Exchanged, rows_lem, remote_count-server, local_bytes-locals,
  peer_bytes,
}

module _ {F : Float} where
  -- The sums have the bytes of the rows, `forward` being the direction that the client sends.
  abbrev pub BidirMatches : ReportInput F → Sums F → Bool → Type 0
  BidirMatches i s forward =
      (s.sum_sent.bytes ≡ rows_sent i forward)
      × (s.sum_received.bytes ≡ rows_received i forward)
      × (map_opt (λ x. x.bytes) s.sum_sent_bidir_reverse ≡ some (rows_sent i (not forward)))
      × (map_opt (λ x. x.bytes) s.sum_received_bidir_reverse ≡ some (rows_received i (not forward)))

  server_bidir_rows :
      (i : ReportInput F)
      → is_udp i.protocol ≡ false
      → i.is_server ≡ true
      → Exchanged (directed true i.streams)
      → Exchanged (directed false i.streams)
      → BidirMatches i (server_tcp_bidir i) false
  unfolding server_tcp_bidir tcp_sum
  server_bidir_rows i u e x y =
      let (sent, received, back_sent, back_received) = rows_lem i u in
      (
        sym (back_sent ∙ remote_count-server i (directed false i.streams) e),
        local_bytes-locals i false y ∙ sym back_received,
        ap some (local_bytes-locals i true x ∙ sym sent),
        ap some (sym (received ∙ remote_count-server i (directed true i.streams) e)),
      )

  client_bidir_rows :
      (i : ReportInput F)
      → is_udp i.protocol ≡ false
      → i.is_server ≡ false
      → Exchanged (directed true i.streams)
      → Exchanged (directed false i.streams)
      → BidirMatches i (client_tcp_bidir i) true
  unfolding client_tcp_bidir tcp_sum
  client_bidir_rows i u e x y =
      let (sent, received, back_sent, back_received) = rows_lem i u in
      (
        local_bytes-locals i true x ∙ sym sent,
        peer_bytes i true e x ∙ sym received,
        ap some (peer_bytes i false e y ∙ sym back_sent),
        ap some (local_bytes-locals i false y ∙ sym back_received),
      )

  -- In a bidirectional TCP test, where the peer reported all streams of a direction or none and the counts fit
  -- in a u64, each of the four sums of bytes is that of the rows of its direction.
  pub bidir_sums_lem :
      (i : ReportInput F)
      → is_udp i.protocol ≡ false
      → i.bidir ≡ true
      → Exchanged (directed true i.streams)
      → Exchanged (directed false i.streams)
      → BidirMatches i (sums i) (not i.is_server)
  unfolding sums
  bidir_sums_lem i u b x y = elim (Bool-cases i.is_server) [
    | inl e ↦
        let chosen = branch_true _ _ e ∙ branch_true _ _ b ∙ branch_false _ _ u in
        subst (BidirMatches i (sums i)) (sym (ap not e))
          (subst (λ s. BidirMatches i s false) (sym chosen) (server_bidir_rows i u e x y))
    | inr e ↦
        let chosen = branch_false _ _ e ∙ branch_true _ _ b ∙ branch_false _ _ u in
        subst (BidirMatches i (sums i)) (sym (ap not e))
          (subst (λ s. BidirMatches i s true) (sym chosen) (client_bidir_rows i u e x y))
  ]
