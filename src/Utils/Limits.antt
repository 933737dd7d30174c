-- ===== src/Utils/Limits.antt =====
-- The constants of riperf3/src/utils.rs, the block sizes and the stream ids that they give.
use riperf.Base.{
  ℕ, suc, ◌+◌, ◌%◌, Bool, [], ◌∷◌, Option, none, some, min, leb, ◌==◌, if◌then◌else◌, ℤ, pos, Bytes,
  replicate, zero, signed32,
}

abbrev pub default_port : ℕ
default_port = 5201

abbrev pub default_omit : ℕ
default_omit = 0

abbrev pub default_duration : ℕ
default_duration = 10

abbrev pub default_num_streams : ℕ
default_num_streams = 1

abbrev pub default_tcp_blksize : ℕ
default_tcp_blksize = 131072

abbrev pub default_udp_blksize : ℕ
default_udp_blksize = 1460

abbrev pub default_udp_rate : ℕ
default_udp_rate = 1048576

abbrev pub default_pacing_timer_us : ℕ
default_pacing_timer_us = 1000

abbrev pub min_udp_blksize : ℕ
min_udp_blksize = 16

abbrev pub max_udp_blksize : ℕ
max_udp_blksize = 65507

abbrev pub max_blocksize : ℕ
max_blocksize = 1048576

abbrev pub max_burst : ℕ
max_burst = 1000

-- The size of a UDP datagram: `-l`, else the control connection's MSS.
unfoldable pub resolve_udp_blksize : Option ℕ → Option ℕ → ℕ
resolve_udp_blksize (some size) ctrl_mss = size
resolve_udp_blksize none none = default_udp_blksize
resolve_udp_blksize none (some mss) =
    if leb min_udp_blksize mss then min mss max_udp_blksize else default_udp_blksize

-- 1, 3, 4, 5, …: `as i32` of a u32
unfoldable pub iperf3_stream_id : ℕ → ℤ
iperf3_stream_id index = if index == 0 then pos 1 else signed32 ((index + 2) % 4294967296)

fill : ℕ → ℕ → Bytes
fill i zero = []
fill i (suc n) = (b'0' + i % 10) ∷ fill (i + 1) n

unfoldable pub make_send_buffer : ℕ → Bool → Bytes
unfolding fill
make_send_buffer size repeating_payload =
    if repeating_payload then fill 0 size else replicate size 0
