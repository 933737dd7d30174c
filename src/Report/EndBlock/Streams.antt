-- ===== src/Report/EndBlock/Streams.antt =====
-- `end_stream` of riperf3/src/json_report.rs: the entry of a stream in the `end` block.
use riperf.Base.{
  ℕ, ◌/◌, Bool, true, false, not, ◌&&◌, none, some, ℤ, pos, signed64, ltb, ltb_ℤ, if◌then◌else◌,
  is_some, unwrap_or, filter_opt,
}
use riperf.Base.Float.{Float}
use riperf.Reporter.Interval.{is_udp, lost_percent, rate}
use riperf.Report.EndBlock.{
  UdpStreamStats, StreamReport, ReportInput, TcpStreamSide, UdpStreamEnd, EndStream, tcp_end_of,
  udp_end_of, no_extras, no_stats, block, sent_datagrams, effective_sender_flag,
}

module _ {F : Float} where
  -- The peer's count of a stream that this client received: its bytes and packets, and whether the packets
  -- are the sender's.
  unfoldable pub received_count : ReportInput F → StreamReport F → UdpStreamStats F → ℕ × ℤ × Bool
  received_count i s u =
      let bytes = unwrap_or s.remote_bytes s.local_bytes in
      elim (filter_opt (λ p. ltb_ℤ (pos 0) p) s.remote_packets) [
        | some rp ↦ (bytes, rp, true)
        | none ↦
            if ltb 0 bytes
            then (bytes, signed64 (bytes / block i), true)
            else (bytes, u.packets, false)
      ]

  -- Bytes, packets, and whether the packets are the sender's.
  unfoldable pub udp_count : ReportInput F → StreamReport F → UdpStreamStats F → ℕ × ℤ × Bool
  unfolding sent_datagrams received_count
  udp_count i s u =
      if i.is_server
      then (if s.is_sender
          then (s.local_bytes, sent_datagrams i s, true)
          else (0, u.packets, false))
      else if s.is_sender && not (is_some s.udp) && is_some i.error
      then (s.local_bytes, sent_datagrams i s, true)
      else if not s.is_sender && is_some i.error
      then (0, u.packets, false)
      else if not s.is_sender
      then received_count i s u
      else (s.local_bytes, sent_datagrams i s, true)

  unfoldable pub udp_end : ReportInput F → StreamReport F → UdpStreamEnd F
  unfolding udp_count rate lost_percent
  udp_end i s =
      let u = unwrap_or s.udp no_stats in
      let (bytes, packets, has_sender_count) = udp_count i s u in
      record {
        socket = s.id;
        seconds = i.elapsed;
        bytes = bytes;
        bits_per_second = rate F bytes i.elapsed;
        jitter_ms = F.mul u.jitter_secs (F.of_ℕ 1000);
        lost_packets = u.lost_packets;
        packets = packets;
        lost_percent = if has_sender_count then lost_percent F u.lost_packets packets else F.of_ℕ 0;
        out_of_order = u.out_of_order;
        sender = s.is_sender;
      }

  -- The bytes of the side that the peer measures.
  unfoldable pub remote_count : ReportInput F → StreamReport F → ℕ
  remote_count i s =
      if i.is_server
      then 0
      else if is_some i.error
      then unwrap_or s.remote_bytes 0
      else unwrap_or s.remote_bytes s.local_bytes

  unfoldable pub emit_extras : ReportInput F → StreamReport F → Bool
  unfolding effective_sender_flag
  emit_extras i s =
      if i.is_server && not s.is_sender then false else effective_sender_flag i s.is_sender

  unfoldable pub sender_side : ReportInput F → StreamReport F → ℕ → TcpStreamSide F
  unfolding emit_extras rate
  sender_side i s bytes = record {
    socket = s.id;
    seconds = i.elapsed;
    bytes = bytes;
    bits_per_second = rate F bytes i.elapsed;
    retransmits = if emit_extras i s then s.retransmits else none;
    extras = if emit_extras i s then some (unwrap_or s.tcp_end no_extras) else none;
    sender = s.is_sender;
  }

  unfoldable pub receiver_side : ReportInput F → StreamReport F → ℕ → TcpStreamSide F
  unfolding rate
  receiver_side i s bytes = record {
    socket = s.id;
    seconds = i.elapsed;
    bytes = bytes;
    bits_per_second = rate F bytes i.elapsed;
    retransmits = none;
    extras = none;
    sender = s.is_sender;
  }

  unfoldable pub end_stream : ReportInput F → StreamReport F → EndStream F
  unfolding udp_end remote_count sender_side receiver_side
  end_stream i s =
      if is_udp i.protocol
      then udp_end_of (udp_end i s)
      else if s.is_sender
      then tcp_end_of (sender_side i s s.local_bytes) (receiver_side i s (remote_count i s))
      else tcp_end_of (sender_side i s (remote_count i s)) (receiver_side i s s.local_bytes)
