-- ===== src/Reporter/Reading.antt =====
-- What the interval reporter reads of a stream: `StreamExtremes`, `TcpSample`, `IntervalStreamRef` and the
-- readings in `emit_interval` of riperf3/src/reporter.rs, with `TcpInfoSnapshot` of riperf3/src/tcp_info.rs. The
-- vectors that the reporter indexes by the stream are fields of the stream's slot here.
use riperf.Base.{
  ℕ, ◌+◌, ◌-◌, ◌%◌, ◌/◌, ◌^◌, min, max, Bool, true, false, ◌&&◌, ◌==◌, Option, none, some, ℤ, pos,
  ◌-ℤ◌, max_ℤ, ltb, if◌then◌else◌, or_else, map_opt, is_some,
}
use riperf.Base.Float.{Float}
use riperf.Stream.Counters.{
  StreamCounters, take_sent_interval, take_received_interval, peek_sent_interval,
  peek_received_interval,
}
use riperf.Stream.RecvStats.{UdpRecvStats}

pub record TcpInfoSnapshot : Type 0 where
  pub total_retransmits : ℕ  -- u32, like rtt to reorder
  pub snd_cwnd : ℕ  -- u64
  pub snd_wnd : ℤ  -- i64
  pub rtt : ℕ
  pub rttvar : ℕ
  pub snd_mss : ℕ
  pub pmtu : ℕ
  pub reorder : ℕ

pub record TcpSample : Type 0 where
  pub snd_cwnd : ℕ
  pub snd_wnd : ℤ
  pub rtt : ℕ
  pub rttvar : ℕ
  pub pmtu : ℕ
  pub reorder : ℕ

-- `From<TcpInfoSnapshot>`
unfoldable pub sample_of : TcpInfoSnapshot → TcpSample
sample_of info = record {
  snd_cwnd = info.snd_cwnd;
  snd_wnd = info.snd_wnd;
  rtt = info.rtt;
  rttvar = info.rttvar;
  pmtu = info.pmtu;
  reorder = info.reorder;
}

pub record StreamExtremes : Type 0 where
  pub stream_id : ℤ
  pub max_snd_cwnd : ℕ
  pub max_snd_wnd : ℤ
  pub max_rtt : ℕ
  pub min_rtt : ℕ
  pub reorder : ℕ
  pub rtt_sum : ℕ
  pub rtt_samples : ℕ
  pub total_retransmits : Option ℕ

unfoldable pub no_extremes : ℤ → StreamExtremes
no_extremes id = record {
  stream_id = id;
  max_snd_cwnd = 0;
  max_snd_wnd = pos 0;
  max_rtt = 0;
  min_rtt = 2 ^ 32 - 1;
  reorder = 0;
  rtt_sum = 0;
  rtt_samples = 0;
  total_retransmits = none;
}

unfoldable pub mean_rtt : StreamExtremes → ℕ
mean_rtt e = if e.rtt_samples == 0 then 0 else e.rtt_sum / e.rtt_samples % 2 ^ 32

-- The extremes with the sample taken in.
unfoldable pub extend : StreamExtremes → TcpInfoSnapshot → StreamExtremes
extend e info =
    let peaks = record e {
      max_snd_cwnd = max e.max_snd_cwnd info.snd_cwnd;
      max_snd_wnd = max_ℤ e.max_snd_wnd info.snd_wnd;
      reorder = max e.reorder info.reorder;
      total_retransmits = some info.total_retransmits;
    } in
    if ltb 0 info.rtt
    then record peaks {
      max_rtt = max e.max_rtt info.rtt;
      min_rtt = min e.min_rtt info.rtt;
      rtt_sum = (e.rtt_sum + info.rtt) % 2 ^ 64;
      rtt_samples = (e.rtt_samples + 1) % 2 ^ 64;
    }
    else peaks

-- The end of the run: no sample means 0, and the retransmits are those behind the omit boundary.
unfoldable pub finished : ℕ → StreamExtremes → StreamExtremes
finished omit_retransmits e = record e {
  min_rtt = if e.min_rtt == 2 ^ 32 - 1 then 0 else e.min_rtt;
  total_retransmits = map_opt (λ t. t - omit_retransmits) e.total_retransmits;
}

-- A receiver's statistics behind their mutex, which a panic of the data task poisons.
pub data Shared (F : Float) : Type 0 where
  absent poisoned : Shared F
  stats : UdpRecvStats F → Shared F

-- A stream: what it shares with its data task, what `get_tcp_info` answers for its socket at the moment,
-- and the reporter's values for it.
pub record Slot (F : Float) : Type 0 where
  pub id : ℤ
  pub is_sender : Bool
  pub raw_fd : Option ℕ
  pub counters : StreamCounters TcpInfoSnapshot
  pub udp_recv_stats : Shared F
  pub tcp_info : Option TcpInfoSnapshot
  pub prev_retransmits : ℕ
  pub prev_cnt_error : ℤ
  pub prev_packet_count : ℤ
  pub omit_retransmits : ℕ
  pub last_tcp : Option TcpSample
  pub extremes : StreamExtremes

-- What one interval reads of a stream: the bytes; the retransmits with the sample; jitter, losses and
-- packets.
pub record Reading (F : Float) : Type 0 where
  pub bytes : ℕ
  pub tcp : Option (ℤ × TcpSample)
  pub udp : Option (F.Carrier × ℤ × ℤ)

module _ {F : Float} where
  abbrev pub has_stats : Slot F → Bool
  has_stats s = elim s.udp_recv_stats [ absent ↦ false | poisoned ↦ true | stats st ↦ true ]

  unfoldable pub take_bytes : Slot F → ℕ × Slot F
  unfolding take_sent_interval take_received_interval
  take_bytes s =
      let (bytes, rest) =
        (if s.is_sender
          then take_sent_interval s.counters
          else take_received_interval s.counters) in
      (bytes, record s { counters = rest })

  unfoldable pub peek_bytes : Slot F → ℕ
  unfolding peek_sent_interval peek_received_interval
  peek_bytes s =
      if s.is_sender then peek_sent_interval s.counters else peek_received_interval s.counters

  -- A fresh sample, or else the sender's last one, or else the reporter's.
  unfoldable pub sampled : Option TcpInfoSnapshot → Slot F → Option (ℤ × TcpSample) × Slot F
  unfolding sample_of extend
  sampled none s =
      let kept = or_else (map_opt sample_of s.counters.final_tcp_sample) s.last_tcp in
      (map_opt (λ t. (pos 0, t)) kept, s)
  sampled (some info) s = (
    some (pos (info.total_retransmits - s.prev_retransmits), sample_of info),
    record s {
      prev_retransmits = info.total_retransmits;
      extremes = extend s.extremes info;
      last_tcp = some (sample_of info);
    },
  )

  unfoldable pub read_tcp : Bool → Slot F → Option (ℤ × TcpSample) × Slot F
  unfolding sampled
  read_tcp has_retransmits s =
      if has_retransmits && s.is_sender && is_some s.raw_fd then sampled s.tcp_info s else (none, s)

  unfoldable pub read_udp : Slot F → Option (F.Carrier × ℤ × ℤ) × Slot F
  unfolding ◌-ℤ◌
  read_udp s = elim s.udp_recv_stats [
    | absent ↦ (none, s)
    | poisoned ↦ (none, s)
    | stats st ↦ (
      some (st.jitter, st.cnt_error -ℤ s.prev_cnt_error, st.packet_count -ℤ s.prev_packet_count),
      record s { prev_cnt_error = st.cnt_error; prev_packet_count = st.packet_count },
    )
  ]

  unfoldable pub read_stream : Bool → Slot F → Reading F × Slot F
  unfolding take_bytes read_tcp read_udp
  read_stream has_retransmits s =
      let (bytes, s1) = take_bytes s in
      let (tcp, s2) = read_tcp has_retransmits s1 in
      let (udp, s3) = read_udp s2 in (record { bytes = bytes; tcp = tcp; udp = udp }, s3)
