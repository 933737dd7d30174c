-- ===== src/Report/EndBlock.antt =====
-- The `end` block of a report: `end_stream`, `tcp_sum` and the other helpers of `ReportInput` in
-- riperf3/src/json_report.rs. The fields of `ReportInput` and `StreamReport` that the block
-- reads; a sum of i64 counts is taken not to overflow.
pub mod Counts
pub mod Streams
pub mod Sums
pub mod Rows
use riperf.Base.{
  ℕ, ◌+◌, ◌/◌, ◌%◌, ◌^◌, Bool, true, false, not, ◌&&◌, List, [], ◌∷◌, map, keep, sum, Option, none,
  some, ℤ, pos, negsuc, as_u64, signed64, ltb, ltb_ℤ, max_ℤ, eqb_ℤ, Bytes, if◌then◌else◌, is_some,
  unwrap_or, filter_opt, map_opt, any,
}
use riperf.Base.Float.{Float}
use riperf.Protocol.Params.{TransportProtocol}
use riperf.Reporter.Summary.{bool_eq, present, sum_ℤ, sum_f64}
use riperf.Reporter.Interval.{is_udp, lost_percent, rate}

pub record TcpEndExtras : Type 0 where
  pub max_snd_cwnd : ℕ
  pub max_snd_wnd : ℤ
  pub max_rtt : ℕ
  pub min_rtt : ℕ
  pub mean_rtt : ℕ
  pub reorder : ℕ

abbrev pub no_extras : TcpEndExtras
no_extras = record {
  max_snd_cwnd = 0;
  max_snd_wnd = pos 0;
  max_rtt = 0;
  min_rtt = 0;
  mean_rtt = 0;
  reorder = 0;
}

pub record UdpStreamStats (F : Float) : Type 0 where
  pub jitter_secs : F.Carrier
  pub lost_packets : ℤ
  pub packets : ℤ
  pub out_of_order : ℤ

pub record StreamReport (F : Float) : Type 0 where
  pub id : ℤ
  pub is_sender : Bool
  pub local_bytes : ℕ  -- u64
  pub remote_bytes : Option ℕ
  pub datagrams_sent : Option ℕ
  pub retransmits : Option ℤ
  pub tcp_end : Option TcpEndExtras
  pub udp : Option (UdpStreamStats F)
  pub remote_packets : Option ℤ

pub record ReportInput (F : Float) : Type 0 where
  pub protocol : TransportProtocol
  pub error : Option Bytes
  pub reverse : Bool
  pub bidir : Bool
  pub peer_sender_has_retransmits : Option ℤ
  pub local_has_retransmit_info : Bool
  pub elapsed : F.Carrier
  pub num_streams : ℤ
  pub blksize : ℤ
  pub is_server : Bool
  pub congestion_used : Option Bytes
  pub peer_congestion_used : Option Bytes
  pub bare_end : Bool
  pub streams : List (StreamReport F)

-- One side of a TCP stream; its window is 0 to `elapsed`.
pub record TcpStreamSide (F : Float) : Type 0 where
  pub socket : ℤ
  pub seconds : F.Carrier
  pub bytes : ℕ
  pub bits_per_second : F.Carrier
  pub retransmits : Option ℤ
  pub extras : Option TcpEndExtras
  pub sender : Bool

pub record UdpStreamEnd (F : Float) : Type 0 where
  pub socket : ℤ
  pub seconds : F.Carrier
  pub bytes : ℕ
  pub bits_per_second : F.Carrier
  pub jitter_ms : F.Carrier
  pub lost_packets : ℤ
  pub packets : ℤ
  pub lost_percent : F.Carrier
  pub out_of_order : ℤ
  pub sender : Bool

-- Either the two sides, or the UDP object.
pub data EndStream (F : Float) : Type 0 where
  tcp_end_of : TcpStreamSide F → TcpStreamSide F → EndStream F
  udp_end_of : UdpStreamEnd F → EndStream F

pub record SumSide (F : Float) : Type 0 where
  pub seconds : F.Carrier
  pub bytes : ℕ
  pub bits_per_second : F.Carrier
  pub retransmits : Option ℤ
  pub jitter_ms : Option F.Carrier
  pub lost_packets : Option ℤ
  pub packets : Option ℤ
  pub lost_percent : Option F.Carrier
  pub sender : Bool

-- `iter().sum()` of a u64
abbrev pub sum_u64 : List ℕ → ℕ
sum_u64 ns = sum ns % 2 ^ 64

-- All unavailable is -1; else the unavailable ones count 0.
unfoldable pub total_retransmits : List ℤ → Option ℤ
total_retransmits [] = none
total_retransmits (r ∷ rs) =
    if any (λ v. not (ltb_ℤ v (pos 0))) (r ∷ rs)
    then some (sum_ℤ (map (λ v. max_ℤ v (pos 0)) (r ∷ rs)))
    else some (negsuc 0)

unfoldable pub all_present : List (Option ℤ) → Option (List ℤ)
all_present [] = some []
all_present (none ∷ os) = none
all_present (some a ∷ os) = map_opt (◌∷◌ a) (all_present os)

module _ {F : Float} where
  open F use {Carrier, mul, div, of_ℕ, of_ℤ}

  abbrev pub no_stats : UdpStreamStats F
  no_stats = record {
    jitter_secs = of_ℕ 0;
    lost_packets = pos 0;
    packets = pos 0;
    out_of_order = pos 0;
  }

  abbrev pub block : ReportInput F → ℕ
  block i = as_u64 (max_ℤ i.blksize (pos 1))

  -- The streams of one direction
  abbrev pub directed : Bool → List (StreamReport F) → List (StreamReport F)
  directed sends = keep (λ s. bool_eq s.is_sender sends)

  unfoldable pub sent_datagrams : ReportInput F → StreamReport F → ℤ
  sent_datagrams i s = signed64 (unwrap_or s.datagrams_sent (s.local_bytes / block i))

  unfoldable pub stream_less_sender_retransmits : ReportInput F → Option ℤ
  stream_less_sender_retransmits i = elim i.streams [
    | [] ↦
        if not (is_udp i.protocol)
          && not i.reverse
          && not i.is_server
          && i.local_has_retransmit_info
        then some (pos 0)
        else none
    | s ∷ ss ↦ none
  ]

  unfoldable pub local_sent_packets : ReportInput F → ℤ
  unfolding sent_datagrams
  local_sent_packets i = sum_ℤ (map (sent_datagrams i) (directed true i.streams))

  unfoldable pub effective_sender_flag : ReportInput F → Bool → Bool
  effective_sender_flag i true = i.local_has_retransmit_info
  effective_sender_flag i false = elim i.peer_sender_has_retransmits [
    | none ↦ false
    | some f ↦ not (eqb_ℤ f (pos 0))
  ]

  unfoldable pub retransmits_for : ReportInput F → Option Bool → Option ℤ
  unfolding total_retransmits
  retransmits_for i none = total_retransmits (present (map (λ s. s.retransmits) i.streams))
  retransmits_for i (some sends) =
      total_retransmits (present (map (λ s. s.retransmits) (directed sends i.streams)))

  unfoldable pub tcp_sum : ReportInput F → ℕ → Bool → Option ℤ → SumSide F
  tcp_sum i bytes sender retransmits = record {
    seconds = i.elapsed;
    bytes = bytes;
    bits_per_second = rate F bytes i.elapsed;
    retransmits = retransmits;
    jitter_ms = none;
    lost_packets = none;
    packets = none;
    lost_percent = none;
    sender = sender;
  }

  unfoldable pub exchanged_sent_packets : ReportInput F → Bool → Option ℤ
  unfolding all_present
  exchanged_sent_packets i sends = elim (directed sends i.streams) [
    | [] ↦ none
    | s ∷ ss ↦
        map_opt sum_ℤ
          (all_present (map (λ r. filter_opt (λ p. ltb_ℤ (pos 0) p) r.remote_packets) (s ∷ ss)))
  ]

  unfoldable pub udp_sum : ReportInput F → ℕ → Bool → ℤ → ℤ → Carrier → ℤ → SumSide F
  unfolding rate lost_percent
  udp_sum i bytes sender packets lost jitter_secs pct_packets = record {
    seconds = i.elapsed;
    bytes = bytes;
    bits_per_second = rate F bytes i.elapsed;
    retransmits = none;
    jitter_ms = some (mul jitter_secs (of_ℕ 1000));
    lost_packets = some lost;
    packets = some packets;
    lost_percent = some (lost_percent F lost pct_packets);
    sender = sender;
  }
