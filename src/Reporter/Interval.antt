-- ===== src/Reporter/Interval.antt =====
-- One interval of the report: `DirAcc`, `direction_interval_sum`, `StreamInterval` and the rows of `emit_interval`
-- of riperf3/src/reporter.rs, with `Interval`, `IntervalStream` and `IntervalSum` of riperf3/src/json_report.rs.
pub mod Sums
use riperf.Base.{
  ℕ, suc, ◌+◌, ◌%◌, ◌/◌, ◌^◌, max, Bool, true, false, ◌&&◌, not, List, [], ◌∷◌, ◌++◌, map, Option,
  none, some, ℤ, pos, negsuc, ◌+ℤ◌, ltb_ℤ, signed64, ltb, Bytes, codes, if◌then◌else◌, map_opt,
  is_some, any, keep, unwrap_or,
}
use riperf.Base.Float.{Float}
use riperf.Protocol.Params.{TransportProtocol}
use riperf.Reporter.Summary.{bool_eq}
use riperf.Reporter.Reading.{TcpSample, Slot, Shared, Reading, has_stats}

pub record IntervalReporterConfig (F : Float) : Type 0 where
  pub interval_secs : F.Carrier
  pub protocol : TransportProtocol
  pub omit_secs : ℕ
  pub forceflush : Bool
  pub json_stream : Bool
  pub print : Bool
  pub blksize : ℕ
  pub keep_intervals : Bool
  pub bidir : Bool
  pub is_server : Bool
  -- whether there is a collector, whether output is quiet, and whether the platform has TCP_INFO
  pub collecting : Bool
  pub output_quiet : Bool
  pub has_retransmit_info : Bool

-- The ends of an interval, and whether it belongs to the warm-up.
pub record Span (F : Float) : Type 0 where
  pub start : F.Carrier
  pub end : F.Carrier
  pub omitted : Bool

-- A row of the text.
pub record StreamInterval (F : Float) : Type 0 where
  pub stream_id : ℤ
  pub span : Span F
  pub bytes : ℕ
  pub retransmits : Option ℤ
  pub snd_cwnd : Option ℕ
  pub jitter : Option F.Carrier
  pub lost : Option ℤ
  pub total_packets : Option ℤ
  pub sent_packets : Option ℤ
  pub role_tag : Option Bytes

pub record IntervalStream (F : Float) : Type 0 where
  pub socket : ℤ
  pub span : Span F
  pub seconds : F.Carrier
  pub bytes : ℕ
  pub bits_per_second : F.Carrier
  pub retransmits : Option ℤ
  pub sample : Option TcpSample
  pub jitter_ms : Option F.Carrier
  pub lost_packets : Option ℤ
  pub packets : Option ℤ
  pub lost_percent : Option F.Carrier
  pub sender : Bool

pub record IntervalSum (F : Float) : Type 0 where
  pub span : Span F
  pub seconds : F.Carrier
  pub bytes : ℕ
  pub bits_per_second : F.Carrier
  pub retransmits : Option ℤ
  pub jitter_ms : Option F.Carrier
  pub lost_packets : Option ℤ
  pub packets : Option ℤ
  pub lost_percent : Option F.Carrier
  pub sender : Bool

pub record Interval (F : Float) : Type 0 where
  pub streams : List (IntervalStream F)
  pub sum : IntervalSum F
  pub sum_bidir_reverse : Option (IntervalSum F)

pub record DirAcc (F : Float) : Type 0 where
  pub count : ℕ
  pub bytes : ℕ
  pub retransmits : ℤ
  pub lost : ℤ
  pub packets : ℤ
  pub jitter_sum : F.Carrier
  pub udp_recv_count : ℕ

abbrev pub is_udp : TransportProtocol → Bool
is_udp TransportProtocol.tcp = false
is_udp TransportProtocol.udp = true

unfoldable pub bidir_role_tag : Bool → Bool → Bytes
bidir_role_tag false true = codes "TX-C"
bidir_role_tag false false = codes "RX-C"
bidir_role_tag true true = codes "TX-S"
bidir_role_tag true false = codes "RX-S"

abbrev when {ℓ} : {A : Type ℓ} → Bool → A → Option A
when b a = if b then some a else none

module _ (F : Float) where
  open F use {Carrier, mul, div, of_ℕ, of_ℤ, lt, le}

  unfoldable pub keep_final_interval : Carrier → Carrier → ℕ → Bool
  keep_final_interval len_secs interval_secs residual_bytes =
      if le (mul interval_secs (div (of_ℕ 1) (of_ℕ 10))) len_secs
      then true
      else ltb 0 residual_bytes

  unfoldable pub lost_percent : ℤ → ℤ → Carrier
  lost_percent lost total =
      if ltb_ℤ (pos 0) total then mul (div (of_ℤ lost) (of_ℤ total)) (of_ℕ 100) else of_ℕ 0

  unfoldable pub rate : ℕ → Carrier → Carrier
  rate bytes seconds =
      if lt (of_ℕ 0) seconds then div (mul (of_ℕ bytes) (of_ℕ 8)) seconds else of_ℕ 0

module _ {F : Float} where
  open F use {add, sub, mul, div, of_ℕ}

  abbrev pub no_streams : DirAcc F
  no_streams = record {
    count = 0;
    bytes = 0;
    retransmits = pos 0;
    lost = pos 0;
    packets = pos 0;
    jitter_sum = of_ℕ 0;
    udp_recv_count = 0;
  }

  -- The datagrams in so many bytes
  unfoldable pub datagrams : IntervalReporterConfig F → ℕ → ℤ
  datagrams cfg bytes = signed64 (bytes / max 1 cfg.blksize)

  unfoldable pub direction_interval_sum :
      IntervalReporterConfig F → Bool → Span F → DirAcc F → Bool → IntervalSum F
  unfolding lost_percent rate datagrams
  direction_interval_sum cfg has_retransmits span acc dir_is_sender =
      let udp = is_udp cfg.protocol in
      let receiving = udp && ltb 0 acc.udp_recv_count in
      let jitter = mul (div acc.jitter_sum (of_ℕ (max acc.udp_recv_count 1))) (of_ℕ 1000) in
      let seconds = sub span.end span.start in
      record {
        span = span;
        seconds = seconds;
        bytes = acc.bytes;
        bits_per_second = rate F acc.bytes seconds;
        retransmits = when (has_retransmits && dir_is_sender) acc.retransmits;
        jitter_ms = when receiving jitter;
        lost_packets = when receiving acc.lost;
        packets = if receiving then some acc.packets else when udp (datagrams cfg acc.bytes);
        lost_percent = when receiving (lost_percent F acc.lost acc.packets);
        sender = dir_is_sender;
      }

  -- A stream's reading, added to the totals of its direction.
  unfoldable pub account : DirAcc F → Reading F × Slot F → DirAcc F
  account acc (r, s) = record {
    count = suc acc.count;
    bytes = (acc.bytes + r.bytes) % 2 ^ 64;
    retransmits = elim r.tcp [ none ↦ acc.retransmits | some t ↦ acc.retransmits +ℤ t.0 ];
    lost = elim r.udp [ none ↦ acc.lost | some u ↦ acc.lost +ℤ u.1 ];
    packets = elim r.udp [ none ↦ acc.packets | some u ↦ acc.packets +ℤ u.2 ];
    jitter_sum = elim r.udp [ none ↦ acc.jitter_sum | some u ↦ add acc.jitter_sum u.0 ];
    udp_recv_count = if has_stats s then suc acc.udp_recv_count else acc.udp_recv_count;
  }

  -- The streams that flow as the first one does, and the others.
  unfoldable pub accumulate :
      Bool → DirAcc F × DirAcc F → List (Reading F × Slot F) → DirAcc F × DirAcc F
  unfolding account
  accumulate fwd_is_sender accs [] = accs
  accumulate fwd_is_sender (fwd, rev) ((r, s) ∷ rs) =
      accumulate fwd_is_sender
        (if bool_eq s.is_sender fwd_is_sender
          then (account fwd (r, s), rev)
          else (fwd, account rev (r, s)))
        rs

  unfoldable pub interval_stream :
      IntervalReporterConfig F → Span F → Reading F × Slot F → IntervalStream F
  unfolding lost_percent rate datagrams
  interval_stream cfg span (r, s) =
      let seconds = sub span.end span.start in
      record {
        socket = s.id;
        span = span;
        seconds = seconds;
        bytes = r.bytes;
        bits_per_second = rate F r.bytes seconds;
        retransmits = map_opt (λ t. t.0) r.tcp;
        sample = map_opt (λ t. t.1) r.tcp;
        jitter_ms = map_opt (λ u. mul u.0 (of_ℕ 1000)) r.udp;
        lost_packets = map_opt (λ u. u.1) r.udp;
        packets =
            if has_stats s
            then map_opt (λ u. u.2) r.udp
            else when (is_udp cfg.protocol) (datagrams cfg r.bytes);
        lost_percent = map_opt (λ u. lost_percent F u.1 u.2) r.udp;
        sender = s.is_sender;
      }

  unfoldable pub text_row :
      IntervalReporterConfig F → Span F → Reading F × Slot F → StreamInterval F
  unfolding datagrams bidir_role_tag
  text_row cfg span (r, s) = record {
    stream_id = s.id;
    span = span;
    bytes = r.bytes;
    retransmits = map_opt (λ t. t.0) r.tcp;
    snd_cwnd = map_opt (λ t. t.1.snd_cwnd) r.tcp;
    jitter = map_opt (λ u. u.0) r.udp;
    lost = map_opt (λ u. u.1) r.udp;
    total_packets = map_opt (λ u. u.2) r.udp;
    sent_packets = when (is_udp cfg.protocol && not (has_stats s)) (datagrams cfg r.bytes);
    role_tag = when cfg.bidir (bidir_role_tag cfg.is_server s.is_sender);
  }

  -- The [SUM] row of a direction.
  unfoldable pub sum_interval :
      IntervalReporterConfig F → Bool → Span F → DirAcc F → Bool → StreamInterval F
  unfolding datagrams bidir_role_tag
  sum_interval cfg has_retransmits span acc dir_is_sender =
      let udp = is_udp cfg.protocol in
      let receiving = ltb 0 acc.udp_recv_count in
      record {
        stream_id = negsuc 0;
        span = span;
        bytes = acc.bytes;
        retransmits = when (has_retransmits && dir_is_sender) acc.retransmits;
        snd_cwnd = none;
        jitter = when (udp && receiving) (div acc.jitter_sum (of_ℕ (max acc.udp_recv_count 1)));
        lost = when (udp && receiving) acc.lost;
        total_packets = when (udp && receiving) acc.packets;
        sent_packets = when (udp && not receiving) (datagrams cfg acc.bytes);
        role_tag = when cfg.bidir (bidir_role_tag cfg.is_server dir_is_sender);
      }

  -- The rows of one direction, with its [SUM] when it has more than one stream.
  unfoldable pub direction_rows :
      IntervalReporterConfig F
      → Bool
      → Span F
      → List (Reading F × Slot F)
      → DirAcc F
      → Bool
      → List (StreamInterval F)
  unfolding text_row sum_interval
  direction_rows cfg has_retransmits span rs acc dir_is_sender =
      map (text_row cfg span) (keep (λ r. bool_eq r.1.is_sender dir_is_sender) rs)
      ++ (if ltb 1 acc.count
          then sum_interval cfg has_retransmits span acc dir_is_sender ∷ []
          else [])

  unfoldable pub interval :
      IntervalReporterConfig F → Bool → Span F → List (Reading F × Slot F) → Bool → Interval F
  unfolding accumulate interval_stream direction_interval_sum
  interval cfg has_retransmits span rs fwd_is_sender =
      let (fwd, rev) = accumulate fwd_is_sender (no_streams, no_streams) rs in
      record {
        streams = map (interval_stream cfg span) rs;
        sum = direction_interval_sum cfg has_retransmits span fwd fwd_is_sender;
        sum_bidir_reverse =
            when (ltb 0 rev.count)
              (direction_interval_sum cfg has_retransmits span rev (not fwd_is_sender));
      }
