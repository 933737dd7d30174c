-- ===== src/Stream/Counters.antt =====
-- The byte and datagram counters of a stream (`StreamCounters` of riperf3/src/stream.rs), which the
-- data task and the reporter share. An atomic u64 wraps, so each addition is taken modulo 2^64.
pub mod Omit
pub mod Interleaving
use riperf.Base.{
  ℕ, suc, ◌+◌, ◌-◌, ◌%◌, ◌^◌, Bool, true, false, Option, none, some, ℤ, pos, negsuc, ◌-ℤ◌, leb_ℤ,
  max_ℤ, if◌then◌else◌, or_else,
}

-- The TCP_INFO snapshot is the kernel's; `S` is its type.
pub record StreamCounters (S : Type 0) : Type 0 where
  pub bytes_sent : ℕ
  pub bytes_received : ℕ
  pub bytes_sent_interval : ℕ
  pub bytes_received_interval : ℕ
  pub bytes_sent_omit : ℕ
  pub bytes_received_omit : ℕ
  pub datagrams_sent : ℕ
  pub datagrams_sent_omit : ℕ
  pub final_retransmits : ℤ
  pub omit_retransmits : ℤ
  pub final_tcp_sample : Option S

-- `fetch_add` on an AtomicU64
abbrev pub fetch_add : ℕ → ℕ → ℕ
fetch_add a n = (a + n) % 2 ^ 64

module _ {S : Type 0} where
  unfoldable pub snapshot_omit : StreamCounters S → StreamCounters S
  snapshot_omit c = record c {
    bytes_sent_omit = c.bytes_sent;
    bytes_received_omit = c.bytes_received;
    datagrams_sent_omit = c.datagrams_sent;
  }

  -- `saturating_sub` is subtraction that stops at 0.
  unfoldable pub bytes_sent_net : StreamCounters S → ℕ
  bytes_sent_net c = c.bytes_sent - c.bytes_sent_omit

  unfoldable pub bytes_received_net : StreamCounters S → ℕ
  bytes_received_net c = c.bytes_received - c.bytes_received_omit

  unfoldable pub datagrams_sent_net : StreamCounters S → ℕ
  datagrams_sent_net c = c.datagrams_sent - c.datagrams_sent_omit

  unfoldable pub set_final_retransmits : ℤ → StreamCounters S → StreamCounters S
  set_final_retransmits n c = record c { final_retransmits = n }

  -- A `OnceLock` keeps the first value that is set.
  unfoldable pub set_final_tcp_sample : S → StreamCounters S → StreamCounters S
  set_final_tcp_sample info c = record c {
    final_tcp_sample = or_else c.final_tcp_sample (some info);
  }

  unfoldable pub set_omit_retransmits : ℤ → StreamCounters S → StreamCounters S
  set_omit_retransmits n c = record c { omit_retransmits = n }

  unfoldable pub omit_adjusted_retransmits : ℤ → StreamCounters S → ℤ
  unfolding ◌-ℤ◌
  omit_adjusted_retransmits lifetime c =
      if leb_ℤ (pos 0) c.omit_retransmits
      then max_ℤ (lifetime -ℤ c.omit_retransmits) (pos 0)
      else lifetime

  -- The two atomic additions of `record_sent`, and of `record_received`.
  unfoldable pub add_sent : ℕ → StreamCounters S → StreamCounters S
  add_sent n c = record c { bytes_sent = fetch_add c.bytes_sent n }

  unfoldable pub add_sent_interval : ℕ → StreamCounters S → StreamCounters S
  add_sent_interval n c = record c { bytes_sent_interval = fetch_add c.bytes_sent_interval n }

  unfoldable pub record_sent : ℕ → StreamCounters S → StreamCounters S
  unfolding add_sent add_sent_interval
  record_sent n c = add_sent_interval n (add_sent n c)

  unfoldable pub record_datagrams_sent : ℕ → StreamCounters S → StreamCounters S
  record_datagrams_sent n c = record c { datagrams_sent = fetch_add c.datagrams_sent n }

  unfoldable pub record_received : ℕ → StreamCounters S → StreamCounters S
  record_received n c = record c {
    bytes_received = fetch_add c.bytes_received n;
    bytes_received_interval = fetch_add c.bytes_received_interval n;
  }

  -- `swap(0)` returns the old value.
  unfoldable pub take_sent_interval : StreamCounters S → ℕ × StreamCounters S
  take_sent_interval c = (c.bytes_sent_interval, record c { bytes_sent_interval = 0 })

  unfoldable pub take_received_interval : StreamCounters S → ℕ × StreamCounters S
  take_received_interval c = (c.bytes_received_interval, record c { bytes_received_interval = 0 })

  unfoldable pub peek_sent_interval : StreamCounters S → ℕ
  peek_sent_interval c = c.bytes_sent_interval

  unfoldable pub peek_received_interval : StreamCounters S → ℕ
  peek_received_interval c = c.bytes_received_interval

unfoldable pub new : (S : Type 0) → StreamCounters S
new S = record {
  bytes_sent = 0;
  bytes_received = 0;
  bytes_sent_interval = 0;
  bytes_received_interval = 0;
  bytes_sent_omit = 0;
  bytes_received_omit = 0;
  datagrams_sent = 0;
  datagrams_sent_omit = 0;
  final_retransmits = negsuc 0;
  omit_retransmits = negsuc 0;
  final_tcp_sample = none;
}
