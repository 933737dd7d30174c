-- ===== src/Stream/RecvStats.antt =====
-- The receiver's statistics (`UdpRecvStats` of riperf3/src/stream.rs): jitter over the machine's
-- floats, and the packet counts, which are i64.
mod Tally
pub mod Bounds
pub mod Loss
use riperf.Base.{
  ℕ, Bool, true, false, List, [], ◌∷◌, ℤ, pos, negsuc, ◌+ℤ◌, ◌-ℤ◌, ltb_ℤ, signed64, if◌then◌else◌,
}
use riperf.Base.Float.{Float}
use riperf.Stream.Header.{UdpHeader}

pub record Counts : Type 0 where
  pub packet_count : ℤ
  pub cnt_error : ℤ
  pub outoforder_packets : ℤ

pub record UdpRecvStats (F : Float) : Type 0 where
  pub counts : Counts
  pub open counts use *
  pub jitter : F.Carrier
  pub prev_transit : F.Carrier
  pub omitted_packet_count : ℤ
  pub omitted_cnt_error : ℤ
  pub omitted_outoforder_packets : ℤ

-- The counts that `new` starts from.
unfoldable pub no_packets : Counts
no_packets = record { packet_count = pos 0; cnt_error = pos 0; outoforder_packets = pos 0 }

-- The part of `update` that detects loss and reordering.
unfoldable pub count_packet : Counts → ℤ → Counts
unfolding ◌+ℤ◌ ◌-ℤ◌
count_packet c pcount =
    if ltb_ℤ packet_count pcount
    then record c {
      cnt_error =
          if ltb_ℤ (packet_count +ℤ pos 1) pcount
          then cnt_error +ℤ (pcount -ℤ pos 1 -ℤ packet_count)
          else cnt_error;
      packet_count = pcount;
    }
    else record c {
      outoforder_packets = outoforder_packets +ℤ pos 1;
      cnt_error = if ltb_ℤ (pos 0) cnt_error then cnt_error -ℤ pos 1 else cnt_error;
    }
  where
    open c use {packet_count, cnt_error, outoforder_packets}

module _ (F : Float) where
  open F use {Carrier, add, sub, div, abs, of_ℕ}

  unfoldable pub new : UdpRecvStats F
  unfolding no_packets
  new = record {
    counts = no_packets;
    jitter = of_ℕ 0;
    prev_transit = of_ℕ 0;
    omitted_packet_count = pos 0;
    omitted_cnt_error = pos 0;
    omitted_outoforder_packets = pos 0;
  }

  -- The RFC 1889 moving average over the change of the transit time.
  unfoldable pub next_jitter : UdpRecvStats F → Carrier → Carrier
  next_jitter s transit =
      if ltb_ℤ (pos 0) s.packet_count
      then add s.jitter (div (sub (abs (sub transit s.prev_transit)) s.jitter) (of_ℕ 16))
      else s.jitter

  unfoldable pub update : UdpRecvStats F → UdpHeader → Carrier → UdpRecvStats F
  unfolding count_packet next_jitter
  update s h arrival_secs =
      let sent = add (of_ℕ h.sec) (div (of_ℕ h.usec) (of_ℕ 1000000)) in
      let transit = sub arrival_secs sent in
      record s {
        counts = count_packet s.counts (signed64 h.seq);
        jitter = next_jitter s transit;
        prev_transit = transit;
      }

  unfoldable pub snapshot_omit : UdpRecvStats F → UdpRecvStats F
  snapshot_omit s = record s {
    omitted_packet_count = s.packet_count;
    omitted_cnt_error = s.cnt_error;
    omitted_outoforder_packets = s.outoforder_packets;
    jitter = of_ℕ 0;
  }

  -- Datagrams with their arrival times, in the order in which they arrive.
  unfoldable pub updates : UdpRecvStats F → List (UdpHeader × Carrier) → UdpRecvStats F
  updates s [] = s
  updates s ((h, t) ∷ r) = updates (update s h t) r
