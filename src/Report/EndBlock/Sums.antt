-- ===== src/Report/EndBlock/Sums.antt =====
-- The sums of the `end` block, and the block: `ReportInput::build` of riperf3/src/json_report.rs.
use riperf.Base.{
  ◌/◌, Bool, true, false, not, ◌||◌, List, map, Option, none, some, signed64, ltb, Bytes,
  if◌then◌else◌, unwrap_or, or_else,
}
use riperf.Base.Float.{Float}
use riperf.Reporter.Interval.{is_udp}
use riperf.Report.EndBlock.{
  ReportInput, EndStream, block, directed, stream_less_sender_retransmits, local_sent_packets,
  effective_sender_flag, retransmits_for, tcp_sum, exchanged_sent_packets, udp_sum,
}
use riperf.Report.EndBlock.Streams.{end_stream}
use riperf.Report.EndBlock.Counts.{
  Sums, positive_or, local_bytes, peer_dir_bytes, measured, grafted, own_or_peer, flagged, zero_sum,
  sent_sum, one_way, role_retransmits,
}

pub record End (F : Float) : Type 0 where
  pub bare : Bool
  pub streams : List (EndStream F)
  pub sums : Option (Sums F)
  pub sender_tcp_congestion : Option Bytes
  pub receiver_tcp_congestion : Option Bytes

module _ {F : Float} where
  unfoldable pub server_udp_bidir : ReportInput F → Sums F
  unfolding local_bytes measured local_sent_packets udp_sum
  server_udp_bidir i =
      let local_sent = local_bytes i true in
      let fwd = measured i (directed false i.streams) in
      let sent = local_sent_packets i in
      record {
        sum_sent = zero_sum i true;
        sum_received =
            udp_sum i (local_bytes i false) false fwd.packets fwd.lost fwd.jitter fwd.packets;
        whole = some (udp_sum i 0 false fwd.packets fwd.lost fwd.jitter fwd.packets);
        sum_bidir_reverse = some (sent_sum i local_sent true sent);
        sum_sent_bidir_reverse = some (sent_sum i local_sent true sent);
        sum_received_bidir_reverse = some (zero_sum i false);
      }

  unfoldable pub server_tcp_bidir : ReportInput F → Sums F
  unfolding local_bytes retransmits_for effective_sender_flag tcp_sum
  server_tcp_bidir i = record {
    sum_sent = tcp_sum i 0 false none;
    sum_received = tcp_sum i (local_bytes i false) false none;
    whole = none;
    sum_bidir_reverse = none;
    sum_sent_bidir_reverse =
        some (tcp_sum i (local_bytes i true) true (flagged i true (retransmits_for i (some true))));
    sum_received_bidir_reverse = some (tcp_sum i 0 true none);
  }

  unfoldable pub server_udp : ReportInput F → Sums F
  unfolding local_bytes measured local_sent_packets udp_sum
  server_udp i =
      let local_sent = local_bytes i true in
      let sent = local_sent_packets i in
      let all = measured i i.streams in
      let packets = if i.reverse then sent else all.packets in
      one_way (sent_sum i local_sent true sent)
        (udp_sum i (local_bytes i false) false all.packets all.lost all.jitter packets)
        (some (
          if i.reverse
          then sent_sum i local_sent true packets
          else udp_sum i local_sent false packets all.lost all.jitter packets))

  unfoldable pub server_tcp : ReportInput F → Sums F
  unfolding local_bytes retransmits_for stream_less_sender_retransmits effective_sender_flag tcp_sum
  server_tcp i =
      one_way (tcp_sum i (local_bytes i true) i.reverse (flagged i true (role_retransmits i)))
        (tcp_sum i (local_bytes i false) i.reverse none) none

  unfoldable pub client_udp_bidir : ReportInput F → Sums F
  unfolding local_bytes peer_dir_bytes grafted measured local_sent_packets exchanged_sent_packets
      udp_sum
  client_udp_bidir i =
      let local_sent = local_bytes i true in
      let local_recv = local_bytes i false in
      let fwd = measured i (directed true i.streams) in
      let rev = measured i (directed false i.streams) in
      let fwd_recv = grafted i (peer_dir_bytes i true) local_sent in
      let rev_sent = grafted i (peer_dir_bytes i false) local_recv in
      let fwd_sent_packets = local_sent_packets i in
      let rev_sent_packets =
        unwrap_or (exchanged_sent_packets i false) (signed64 (rev_sent / block i)) in
      let sum_fwd = positive_or fwd_sent_packets fwd.packets in
      let sum_rev = positive_or rev_sent_packets rev.packets in
      record {
        sum_sent = sent_sum i local_sent true fwd_sent_packets;
        sum_received = udp_sum i fwd_recv false fwd.packets fwd.lost fwd.jitter sum_fwd;
        whole = some (udp_sum i local_sent true sum_fwd fwd.lost fwd.jitter sum_fwd);
        sum_bidir_reverse = some (udp_sum i rev_sent false sum_rev rev.lost rev.jitter sum_rev);
        sum_sent_bidir_reverse = some (sent_sum i rev_sent true rev_sent_packets);
        sum_received_bidir_reverse =
            some (udp_sum i local_recv false rev.packets rev.lost rev.jitter sum_rev);
      }

  unfoldable pub client_tcp_bidir : ReportInput F → Sums F
  unfolding local_bytes peer_dir_bytes grafted retransmits_for stream_less_sender_retransmits
      effective_sender_flag tcp_sum
  client_tcp_bidir i =
      let local_sent = local_bytes i true in
      let local_recv = local_bytes i false in
      let forward = or_else (retransmits_for i (some true)) (stream_less_sender_retransmits i) in
      record {
        sum_sent = tcp_sum i local_sent true (flagged i true forward);
        sum_received = tcp_sum i (grafted i (peer_dir_bytes i true) local_sent) true none;
        whole = none;
        sum_bidir_reverse = none;
        sum_sent_bidir_reverse = some (
            tcp_sum i (grafted i (peer_dir_bytes i false) local_recv) false
              (flagged i false (retransmits_for i (some false))));
        sum_received_bidir_reverse = some (tcp_sum i local_recv false none);
      }

  unfoldable pub client_udp : ReportInput F → Sums F
  unfolding local_bytes peer_dir_bytes measured local_sent_packets exchanged_sent_packets udp_sum
  client_udp i =
      let local_sent = local_bytes i true in
      let local_recv = local_bytes i false in
      let all = measured i i.streams in
      let sent_bytes =
        if ltb 0 local_sent then local_sent else unwrap_or (peer_dir_bytes i false) 0 in
      let recv_bytes =
        if ltb 0 local_recv then local_recv else unwrap_or (peer_dir_bytes i true) 0 in
      let derived = signed64 (sent_bytes / block i) in
      let sent_packets =
        if i.reverse
        then unwrap_or (exchanged_sent_packets i false) derived
        else if ltb 0 local_sent
        then local_sent_packets i
        else derived in
      let sum_packets = positive_or sent_packets all.packets in
      one_way (sent_sum i sent_bytes true sent_packets)
        (udp_sum i recv_bytes false all.packets all.lost all.jitter sum_packets)
        (some (udp_sum i sent_bytes (not i.reverse) sum_packets all.lost all.jitter sum_packets))

  unfoldable pub client_tcp : ReportInput F → Sums F
  unfolding local_bytes peer_dir_bytes own_or_peer retransmits_for stream_less_sender_retransmits
      effective_sender_flag tcp_sum
  client_tcp i =
      let local_sent = local_bytes i true in
      let local_recv = local_bytes i false in
      one_way
        (tcp_sum i (own_or_peer i local_sent (peer_dir_bytes i false) local_recv) (not i.reverse)
          (flagged i (not i.reverse) (role_retransmits i)))
        (tcp_sum i (own_or_peer i local_recv (peer_dir_bytes i true) local_sent) (not i.reverse)
          none)
        none

  unfoldable pub sums : ReportInput F → Sums F
  unfolding server_udp_bidir server_tcp_bidir server_udp server_tcp client_udp_bidir
      client_tcp_bidir client_udp client_tcp
  sums i =
      if i.is_server
      then if i.bidir
        then (if is_udp i.protocol then server_udp_bidir i else server_tcp_bidir i)
        else (if is_udp i.protocol then server_udp i else server_tcp i)
      else if i.bidir
      then (if is_udp i.protocol then client_udp_bidir i else client_tcp_bidir i)
      else (if is_udp i.protocol then client_udp i else client_tcp i)

  -- The congestion algorithms of the sender and the receiver.
  unfoldable pub congestion : ReportInput F → Option Bytes × Option Bytes
  congestion i =
      if is_udp i.protocol
      then (none, none)
      else if i.is_server
      then (if i.reverse || i.bidir then (i.congestion_used, none) else (none, i.congestion_used))
      else if i.reverse || i.bidir
      then (i.peer_congestion_used, i.congestion_used)
      else (i.congestion_used, i.peer_congestion_used)

  unfoldable pub end_block : ReportInput F → End F
  unfolding end_stream sums congestion
  end_block i = record {
    bare = i.bare_end;
    streams = map (end_stream i) i.streams;
    sums = if i.bare_end then none else some (sums i);
    sender_tcp_congestion = (congestion i).0;
    receiver_tcp_congestion = (congestion i).1;
  }
