-- ===== src/Protocol/Params.antt =====
-- The test parameters that the client sends and the server reads (`TestParams` of
-- riperf3/src/protocol.rs). Integers carry the range of their Rust type in the lemmas that need it.
use riperf.Base.{ℕ, Bool, Option, none, some, ℤ, Bytes, ◌==◌, if◌then◌else◌}

pub data TransportProtocol : Type 0 where
  tcp udp : TransportProtocol

pub record TestParams : Type 0 where
  pub tcp : Option Bool
  pub udp : Option Bool
  pub omit : Option ℤ  -- i32
  pub time : Option ℤ  -- i32
  pub num : Option ℕ  -- u64
  pub blockcount : Option ℕ  -- u64
  pub mss : Option ℤ  -- i32
  pub nodelay : Option Bool
  pub parallel : Option ℤ  -- i32
  pub reverse : Option Bool
  pub bidirectional : Option Bool
  pub window : Option ℤ  -- i32
  pub len : Option ℤ  -- i32
  pub bandwidth : Option ℕ  -- u64
  pub fqrate : Option ℕ  -- u64
  pub pacing_timer : Option ℤ  -- i32
  pub burst : Option ℤ  -- i32
  pub gso : Option ℤ  -- i64
  pub gso_dg_size : Option ℤ  -- i64
  pub gso_bf_size : Option ℤ  -- i64
  pub gro : Option ℤ  -- i64
  pub gro_bf_size : Option ℤ  -- i64
  pub tos : Option ℤ  -- i32
  pub flowlabel : Option ℤ  -- i32
  pub title : Option Bytes
  pub extra_data : Option Bytes
  pub congestion : Option Bytes
  pub congestion_used : Option Bytes
  pub get_server_output : Option ℤ  -- i32
  pub udp_counters_64bit : Option ℤ  -- i32
  pub repeating_payload : Option ℤ  -- i32
  pub dont_fragment : Option ℤ  -- i32
  pub authtoken : Option Bytes
  pub client_version : Option Bytes

-- `TestParams::default()`
abbrev pub default_params : TestParams
default_params = record {
  tcp = none;
  udp = none;
  omit = none;
  time = none;
  num = none;
  blockcount = none;
  mss = none;
  nodelay = none;
  parallel = none;
  reverse = none;
  bidirectional = none;
  window = none;
  len = none;
  bandwidth = none;
  fqrate = none;
  pacing_timer = none;
  burst = none;
  gso = none;
  gso_dg_size = none;
  gso_bf_size = none;
  gro = none;
  gro_bf_size = none;
  tos = none;
  flowlabel = none;
  title = none;
  extra_data = none;
  congestion = none;
  congestion_used = none;
  get_server_output = none;
  udp_counters_64bit = none;
  repeating_payload = none;
  dont_fragment = none;
  authtoken = none;
  client_version = none;
}

abbrev drop_zero : Option ℕ → Option ℕ
drop_zero none = none
drop_zero (some n) = if n == 0 then none else some n

unfoldable pub normalize_unlimited : TestParams → TestParams
normalize_unlimited p = record p { num = drop_zero p.num; blockcount = drop_zero p.blockcount }
