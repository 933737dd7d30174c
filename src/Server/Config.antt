-- ===== src/Server/Config.antt =====
-- The server's test configuration (`TestConfig` of riperf3/src/server.rs), derived from the
-- client's parameters.
use riperf.Base.{
  ℕ, Bool, false, not, ◌&&◌, Option, none, some, ℤ, pos, negsuc, pos_part, ltb_ℤ, eqb_ℤ, as_u32,
  Bytes, codes, ltb, leb, ◌==◌, if◌then◌else◌, is_some, unwrap_or, filter_opt, map_opt, ◌++◌,
}
use riperf.Base.Decimal.{show_ℕ, show_ℤ}
use riperf.Errors.{Configured, ok, err, invalid_value, ◌>>=◌}
use riperf.Utils.Limits.{
  default_duration, default_udp_blksize, default_tcp_blksize, default_pacing_timer_us, max_burst,
  min_udp_blksize, max_udp_blksize, max_blocksize,
}
use riperf.Protocol.Params.{TransportProtocol, TestParams}

pub record TestConfig : Type 0 where
  pub protocol : TransportProtocol
  pub duration : ℕ  -- u32
  pub num_streams : ℕ  -- u32
  pub blksize : ℕ  -- usize
  pub reverse : Bool
  pub bidir : Bool
  pub omit : ℕ  -- u32
  pub no_delay : Bool
  pub mss : Option ℤ
  pub window : Option ℤ
  pub bandwidth : ℕ  -- u64
  pub burst : ℕ  -- u32
  pub fq_rate : ℕ  -- u64
  pub gso : Bool
  pub gso_dg_size : ℤ  -- i64
  pub gro : Bool
  pub pacing_timer : ℕ  -- u32
  pub tos : ℤ  -- i32
  pub congestion : Option Bytes
  pub udp_counters_64bit : Bool
  pub repeating_payload : Bool
  pub dont_fragment : Bool

-- The negotiated burst: absent or not positive is unset.
unfoldable pub negotiated_burst : Option ℤ → Configured ℕ
negotiated_burst none = ok 0
negotiated_burst (some b) =
    if ltb_ℤ (pos max_burst) b
    then err (
        invalid_value (codes "burst count")
          (codes "invalid burst count (maximum = 1000): " ++ show_ℤ b))
    else if ltb_ℤ (pos 0) b
    then ok (pos_part b)
    else ok 0

-- The negotiated block size.
unfoldable pub negotiated_blksize : Bool → Option ℤ → Configured ℕ
negotiated_blksize is_udp none = ok (if is_udp then default_udp_blksize else default_tcp_blksize)
negotiated_blksize is_udp (some (negsuc n)) =
    err (invalid_value (codes "len") (codes "negative block size: " ++ show_ℤ (negsuc n)))
negotiated_blksize is_udp (some (pos l)) =
    if l == 0
    then ok (if is_udp then default_udp_blksize else default_tcp_blksize)
    else if is_udp && not (leb min_udp_blksize l && leb l max_udp_blksize)
    then err (
        invalid_value (codes "len")
          (codes "block size invalid (minimum = 16 bytes, maximum = 65507 bytes): " ++ show_ℕ l))
    else if not is_udp && ltb max_blocksize l
    then err (
        invalid_value (codes "len")
          (codes "block size too large (maximum = 1048576 bytes): " ++ show_ℕ l))
    else ok l

-- A nonzero integer flag
abbrev pub nonzero : Option ℤ → Bool
nonzero v = not (eqb_ℤ (unwrap_or v (pos 0)) (pos 0))

-- A zero datagram size is computed again from the block size.
unfoldable pub negotiated_dg_size : TestParams → ℤ
negotiated_dg_size p =
    let v = unwrap_or p.gso_dg_size (pos 0) in
    if eqb_ℤ v (pos 0) && nonzero p.gso
    then (let blk = unwrap_or p.len (pos 0) in if ltb_ℤ (pos 0) blk then blk else pos 1460)
    else v

unfoldable pub from_params : TestParams → Configured TestConfig
unfolding negotiated_burst negotiated_blksize negotiated_dg_size
from_params params = do
  let is_udp = unwrap_or params.udp false
  burst ← negotiated_burst params.burst
  blksize ← negotiated_blksize is_udp params.len
  ok (record {
    protocol = if is_udp then TransportProtocol.udp else TransportProtocol.tcp;
    duration = as_u32 (unwrap_or params.time (pos default_duration));
    num_streams = as_u32 (unwrap_or params.parallel (pos 1));
    blksize = blksize;
    reverse = unwrap_or params.reverse false;
    bidir = unwrap_or params.bidirectional false;
    omit = as_u32 (unwrap_or params.omit (pos 0));
    no_delay = unwrap_or params.nodelay false;
    mss = params.mss;
    window = filter_opt (λ w. not (eqb_ℤ w (pos 0))) params.window;
    bandwidth = unwrap_or params.bandwidth 0;
    fq_rate = unwrap_or params.fqrate 0;
    gso = nonzero params.gso;
    gso_dg_size = negotiated_dg_size params;
    gro = nonzero params.gro;
    burst = burst;
    pacing_timer =
        unwrap_or (map_opt as_u32 (filter_opt (λ us. ltb_ℤ (pos 0) us) params.pacing_timer))
          default_pacing_timer_us;
    tos = unwrap_or params.tos (pos 0);
    congestion = params.congestion;
    udp_counters_64bit = nonzero params.udp_counters_64bit;
    repeating_payload = is_some params.repeating_payload;
    dont_fragment = nonzero params.dont_fragment;
  })
