-- ===== src/Server/Agreement.antt =====
-- The client's parameters, sent and read by the server, give the test that the client was built for.
use riperf.Base.{ℕ, ◌^◌, ◌<◌, ◌≡◌, refl, false, ◌||◌, pos, arith, unwrap_or, if◌then◌else◌, is_some}
use riperf.Errors.{ok}
use riperf.Protocol.Params.{TransportProtocol, tcp, udp, normalize_unlimited}
use riperf.Client.Types.{Env, Client, ClientBuilder}
use riperf.Client.Builder.{build}
use riperf.Client.Valid.{Valid, build-Valid, BlksizeValid}
use riperf.Client.Params.{Outside, build_params, transport_block, gso_block}
use riperf.Client.Params.Fields.{
  as_u32-as_i32, burst_read, blksize_read_tcp, blksize_read_udp, flag_read, nonzero_read,
  present_read, bandwidth_read, rate_read, pacing_read, tos_read, window_read, gso_read,
  dg_size_read, duration_read,
}
use riperf.Server.Config.{TestConfig, from_params}

-- The test that the client asks for, with the block size in use: a run that is limited by bytes or
-- blocks has no duration, and GSO is for UDP.
abbrev pub requested_test : {E : Env} → Client E → ℕ → TestConfig
requested_test c blksize = record {
  protocol = c.protocol;
  duration = if is_some c.bytes_to_send || is_some c.blocks_to_send then 0 else c.duration;
  num_streams = c.num_streams;
  blksize = blksize;
  reverse = c.reverse;
  bidir = c.bidir;
  omit = c.omit;
  no_delay = c.no_delay;
  mss = c.mss;
  window = c.window;
  bandwidth = c.bandwidth;
  burst = c.burst;
  fq_rate = unwrap_or c.fq_rate 0;
  gso = elim c.protocol [ tcp ↦ false | udp ↦ c.gsro ];
  gso_dg_size = elim c.protocol [ tcp ↦ pos 0 | udp ↦ if c.gsro then pos blksize else pos 0 ];
  gro = elim c.protocol [ tcp ↦ false | udp ↦ c.gsro ];
  pacing_timer = c.pacing_timer;
  tos = c.tos;
  congestion = c.congestion;
  udp_counters_64bit = c.udp_counters_64bit;
  repeating_payload = c.repeating_payload;
  dont_fragment = c.dont_fragment;
}

read_tcp :
    (E : Env) (o : Outside) (c : Client E) (blksize : ℕ)
    → Valid c
    → c.protocol ≡ tcp
    → c.num_streams < 2 ^ 32
    → c.pacing_timer < 2 ^ 31
    → BlksizeValid tcp blksize
    → from_params (normalize_unlimited (build_params E o c blksize)) ≡ ok (requested_test c blksize)
unfolding build_params normalize_unlimited from_params
read_tcp E o c blksize v p streams pacing size = simp (
  p,
  burst_read c.burst v.burst,
  blksize_read_tcp blksize size,
  duration_read (is_some c.bytes_to_send || is_some c.blocks_to_send) c.duration
      (omega (arith, v.duration)),
  as_u32-as_i32 c.num_streams streams,
  as_u32-as_i32 c.omit (omega (arith, v.omit)),
  flag_read c.reverse,
  flag_read c.bidir,
  flag_read c.no_delay,
  window_read c.window v.window,
  bandwidth_read c.bandwidth,
  rate_read c.fq_rate,
  pacing_read c.pacing_timer v.pacing_timer pacing,
  tos_read c.tos,
  nonzero_read c.udp_counters_64bit,
  present_read c.repeating_payload,
  nonzero_read c.dont_fragment,
)

read_udp :
    (E : Env) (o : Outside) (c : Client E) (blksize : ℕ)
    → Valid c
    → c.protocol ≡ udp
    → c.num_streams < 2 ^ 32
    → c.pacing_timer < 2 ^ 31
    → BlksizeValid udp blksize
    → from_params (normalize_unlimited (build_params E o c blksize)) ≡ ok (requested_test c blksize)
unfolding build_params normalize_unlimited from_params transport_block gso_block
read_udp E o c blksize v p streams pacing size = simp (
  p,
  burst_read c.burst v.burst,
  blksize_read_udp blksize size,
  duration_read (is_some c.bytes_to_send || is_some c.blocks_to_send) c.duration
      (omega (arith, v.duration)),
  as_u32-as_i32 c.num_streams streams,
  as_u32-as_i32 c.omit (omega (arith, v.omit)),
  flag_read c.reverse,
  flag_read c.bidir,
  flag_read c.no_delay,
  window_read c.window v.window,
  bandwidth_read c.bandwidth,
  rate_read c.fq_rate,
  pacing_read c.pacing_timer v.pacing_timer pacing,
  tos_read c.tos,
  nonzero_read c.udp_counters_64bit,
  present_read c.repeating_payload,
  nonzero_read c.dont_fragment,
  gso_read c.gsro,
  dg_size_read c.gsro blksize _ (omega arith),
)

by_protocol :
    (E : Env) (o : Outside) (c : Client E) (blksize : ℕ) (protocol : TransportProtocol)
    → c.protocol ≡ protocol
    → Valid c
    → c.num_streams < 2 ^ 32
    → c.pacing_timer < 2 ^ 31
    → BlksizeValid protocol blksize
    → from_params (normalize_unlimited (build_params E o c blksize)) ≡ ok (requested_test c blksize)
by_protocol E o c blksize tcp p v = read_tcp E o c blksize v p
by_protocol E o c blksize udp p v = read_udp E o c blksize v p

-- For a client that the builder made, with a stream count that a u32 holds, a pacing timer that an
-- i32 holds, and a block size that its protocol allows, the server derives from the parameters that
-- the client sends exactly the test that the client was built for.
pub from_params-build_params :
    (E : Env) (o : Outside) (b : ClientBuilder E) (c : Client E) (blksize : ℕ)
    → build E b ≡ ok c
    → c.num_streams < 2 ^ 32
    → c.pacing_timer < 2 ^ 31
    → BlksizeValid c.protocol blksize
    → from_params (normalize_unlimited (build_params E o c blksize)) ≡ ok (requested_test c blksize)
from_params-build_params E o b c blksize built =
    by_protocol E o c blksize c.protocol refl (build-Valid E b c built)
