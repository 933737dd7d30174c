-- ===== src/Examples/EndSums.antt =====
-- Examples of the `end` block of the JSON report.
use riperf.Base.{
  ◌≡◌, refl, true, false, [], ◌∷◌, none, some, pos, negsuc, inl, inr, map_opt, ◌+ℤ◌, arith,
}
use riperf.Base.Float.{whole}
use riperf.Protocol.Params.{TransportProtocol}
use riperf.Report.EndBlock.{StreamReport, ReportInput}
use riperf.Report.EndBlock.Sums.{sums}
use riperf.Report.EndBlock.Rows.Bidir.{BidirMatches, bidir_sums_lem}
use riperf.Report.EndBlock.Rows.OneWay.{Matches, one_way_sums_lem}

-- The peer received all but 300 of the 1000 bytes.
abbrev sent : StreamReport whole
sent = record {
  id = pos 5;
  is_sender = true;
  local_bytes = 1000;
  remote_bytes = some 700;
  datagrams_sent = none;
  retransmits = some (pos 2);
  tcp_end = none;
  udp = none;
  remote_packets = none;
}

abbrev received : StreamReport whole
received = record sent {
  id = pos 7;
  is_sender = false;
  local_bytes = 400;
  remote_bytes = none;
  retransmits = some (negsuc 0);
}

abbrev both_ways : ReportInput whole
both_ways = record {
  protocol = TransportProtocol.tcp;
  error = none;
  reverse = false;
  bidir = true;
  peer_sender_has_retransmits = some (pos 1);
  local_has_retransmit_info = true;
  elapsed = pos 10;
  num_streams = pos 1;
  blksize = pos 131072;
  is_server = false;
  congestion_used = none;
  peer_congestion_used = none;
  bare_end = false;
  streams = sent ∷ received ∷ [];
}

abbrev forward : ReportInput whole
forward = record both_ways { bidir = false; streams = sent ∷ sent ∷ [] }

client_sums :
    ((sums both_ways).sum_sent.bytes ≡ 1000)
    × ((sums both_ways).sum_received.bytes ≡ 700)
    × ((sums both_ways).sum_sent.retransmits ≡ some (pos 2))
    × (map_opt (λ s. s.bytes) (sums both_ways).sum_sent_bidir_reverse ≡ some 400)
    × (map_opt (λ s. s.retransmits) (sums both_ways).sum_sent_bidir_reverse
        ≡ some (some (negsuc 0)))
unfolding sums ◌+ℤ◌
client_sums = (refl, refl, refl, refl, refl)

-- What the peer did not report counts 0 behind an error.
failed_sums :
    map_opt (λ s. s.bytes) (sums (record both_ways { error = some [] })).sum_sent_bidir_reverse
    ≡ some 0
unfolding sums
failed_sums = refl

server_sums : (sums (record both_ways { is_server = true })).sum_received.bytes ≡ 400
unfolding sums
server_sums = refl

bidir_sums_lem_example : BidirMatches both_ways (sums both_ways) true
bidir_sums_lem_example =
    bidir_sums_lem both_ways refl refl (omega arith, omega arith, inl (refl, tt))
      (omega arith, omega arith, inr (refl, tt))

one_way_sums_lem_example : Matches forward (sums forward) true
one_way_sums_lem_example =
    one_way_sums_lem forward true refl refl refl (omega arith, omega arith, inl (refl, (refl, tt)))
