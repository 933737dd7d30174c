-- ===== src/Report/EndBlock/Rows/OneWay.antt =====
-- The sums of a TCP test in one direction against its rows.
use mathlib.Core.Path.{subst}
use riperf.Base.{
  branch_true, branch_false, ℕ, ◌≡◌, refl, sym, ◌∙◌, inl, inr, Bool, true, false, not, [], Option,
  none, Bool-cases, arith,
}
use riperf.Base.Float.{Float}
use riperf.Reporter.Interval.{is_udp}
use riperf.Report.EndBlock.{ReportInput, directed, tcp_sum}
use riperf.Report.EndBlock.Counts.{
  Sums, local_bytes, reported_bytes, peer_dir_bytes, grafted, own_or_peer,
}
use riperf.Report.EndBlock.Sums.{server_tcp, client_tcp, sums}
use riperf.Report.EndBlock.Rows.{
  rows_sent, rows_received, Exchanged, locals, remote_counts, rows_lem, remote_count-server,
  local_bytes-locals, peer_bytes,
}

module _ {F : Float} where
  -- The sums have the bytes of the rows of the streams that send, or of those that receive.
  abbrev pub Matches : ReportInput F → Sums F → Bool → Type 0
  Matches i s sends =
      (s.sum_sent.bytes ≡ rows_sent i sends) × (s.sum_received.bytes ≡ rows_received i sends)

  local_bytes_nothing :
      (i : ReportInput F) (sends : Bool) → directed sends i.streams ≡ [] → local_bytes i sends ≡ 0
  unfolding local_bytes
  local_bytes_nothing i sends e = rw (local_bytes, e) refl

  peer_dir_bytes-none :
      (i : ReportInput F) (sends : Bool)
      → directed sends i.streams ≡ []
      → peer_dir_bytes i sends ≡ none
  unfolding peer_dir_bytes reported_bytes
  peer_dir_bytes-none i sends e = rw (peer_dir_bytes, e) refl

  own_or_peer_own : (i : ReportInput F) (n : ℕ) → own_or_peer i n none 0 ≡ n
  unfolding own_or_peer grafted
  own_or_peer_own i n = ground arith

  own_or_peer_peer :
      (i : ReportInput F) (p : Option ℕ) (n : ℕ) → own_or_peer i 0 p n ≡ grafted i p n
  unfolding own_or_peer
  own_or_peer_peer i p n = refl

  server_rows :
      (i : ReportInput F) (sends : Bool)
      → is_udp i.protocol ≡ false
      → i.is_server ≡ true
      → directed (not sends) i.streams ≡ []
      → Exchanged (directed sends i.streams)
      → Matches i (server_tcp i) sends
  unfolding server_tcp tcp_sum
  server_rows i true u e w x =
      let (sent, received, back_sent, back_received) = rows_lem i u in
      (
        local_bytes-locals i true x ∙ sym sent,
        local_bytes_nothing i false w
            ∙ sym (received ∙ remote_count-server i (directed true i.streams) e),
      )
  server_rows i false u e w x =
      let (sent, received, back_sent, back_received) = rows_lem i u in
      (
        local_bytes_nothing i true w
            ∙ sym (back_sent ∙ remote_count-server i (directed false i.streams) e),
        local_bytes-locals i false x ∙ sym back_received,
      )

  -- The side that this host counts, and the side that the peer reports
  one_way_sums :
      (i : ReportInput F) (sends : Bool)
      → i.is_server ≡ false
      → directed (not sends) i.streams ≡ []
      → Exchanged (directed sends i.streams)
      → (own_or_peer i
            (local_bytes i sends)
            (peer_dir_bytes i (not sends))
            (local_bytes i (not sends))
          ≡ locals (directed sends i.streams))
        × (own_or_peer i (local_bytes i (not sends)) (peer_dir_bytes i sends) (local_bytes i sends)
            ≡ remote_counts i sends)
  one_way_sums i sends e w x = (
    rw (peer_dir_bytes-none i (not sends) w, local_bytes_nothing i (not sends) w)
        (own_or_peer_own i (local_bytes i sends) ∙ local_bytes-locals i sends x),
    rw (local_bytes_nothing i (not sends) w) (
        own_or_peer_peer i (peer_dir_bytes i sends) (local_bytes i sends) ∙ peer_bytes i sends e x),
  )

  client_rows :
      (i : ReportInput F) (sends : Bool)
      → is_udp i.protocol ≡ false
      → i.is_server ≡ false
      → directed (not sends) i.streams ≡ []
      → Exchanged (directed sends i.streams)
      → Matches i (client_tcp i) sends
  unfolding client_tcp tcp_sum
  client_rows i true u e w x =
      let (sent, received, back_sent, back_received) = rows_lem i u in
      let (own, peer) = one_way_sums i true e w x in (own ∙ sym sent, peer ∙ sym received)
  client_rows i false u e w x =
      let (sent, received, back_sent, back_received) = rows_lem i u in
      let (own, peer) = one_way_sums i false e w x in
      (peer ∙ sym back_sent, own ∙ sym back_received)

  -- In a TCP test whose streams all send, or all receive, where the peer reported all of them or none and the
  -- counts fit in a u64, each sum of bytes is that of the rows.
  pub one_way_sums_lem :
      (i : ReportInput F) (sends : Bool)
      → is_udp i.protocol ≡ false
      → i.bidir ≡ false
      → directed (not sends) i.streams ≡ []
      → Exchanged (directed sends i.streams)
      → Matches i (sums i) sends
  unfolding sums
  one_way_sums_lem i sends u b w x = elim (Bool-cases i.is_server) [
    | inl e ↦
        let chosen = branch_true _ _ e ∙ branch_false _ _ b ∙ branch_false _ _ u in
        subst (λ s. Matches i s sends) (sym chosen) (server_rows i sends u e w x)
    | inr e ↦
        let chosen = branch_false _ _ e ∙ branch_false _ _ b ∙ branch_false _ _ u in
        subst (λ s. Matches i s sends) (sym chosen) (client_rows i sends u e w x)
  ]
