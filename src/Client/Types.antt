-- ===== src/Client/Types.antt =====
-- The client and its builder (`Client` and `ClientBuilder` of riperf3/src/client.rs). A text is its
-- bytes, a `Duration` its nanoseconds; the fields are the source's, in its order.
use riperf.Base.{ℕ, Bool, false, Option, none, some, ℤ, pos, Bytes}
use riperf.Base.Float.{Float}
use riperf.Utils.Limits.{default_port, default_duration, default_num_streams, default_omit}
use riperf.Protocol.Params.{TransportProtocol}

pub data IpFamily : Type 0 where
  v4 v6 : IpFamily

-- What the code takes from the language, the platform and other crates.
pub record Env : Type 1 where
  pub f64 : Float
  -- `{}` of a float
  pub show_f64 : f64.Carrier → Bytes
  -- the receiver of the interrupt message
  pub Watch : Type 0
  -- `cfg!` tests
  pub unix : Bool
  pub can_bind_dev : Bool
  pub can_sendmmsg : Bool
  -- `str::parse::<IpAddr>`, the family of the address
  pub parse_ip : Bytes → Option IpFamily

pub record ClientBuilder (E : Env) : Type 0 where
  pub host : Option Bytes
  pub port : Option ℕ
  pub protocol : TransportProtocol
  pub duration : ℕ
  pub num_streams : ℕ
  pub blksize : Option ℕ
  pub reverse : Bool
  pub bidir : Bool
  pub omit : ℕ
  pub no_delay : Bool
  pub mss : Option ℤ
  pub window : Option ℤ
  pub bandwidth : Option ℕ
  pub burst : ℕ
  pub pacing_timer : ℕ
  pub tos : ℤ
  pub congestion : Option Bytes
  pub udp_counters_64bit : Bool
  pub connect_timeout : Option ℕ
  pub title : Option Bytes
  pub extra_data : Option Bytes
  pub verbose : Bool
  pub json_output : Bool
  pub emit_output : Bool
  pub json_stream : Bool
  pub interrupt : Option E.Watch
  pub json_stream_full_output : Bool
  pub bytes_to_send : Option ℕ
  pub blocks_to_send : Option ℕ
  pub repeating_payload : Bool
  pub zerocopy : Bool
  pub gsro : Bool
  pub sendmmsg : Bool
  pub dont_fragment : Bool
  pub cport : Option ℕ
  pub get_server_output : Bool
  pub forceflush : Bool
  pub timestamps : Option Bytes
  pub bind_address : Option Bytes
  pub bind_dev : Option Bytes
  pub fq_rate : Option ℕ
  pub flowlabel : Option ℤ
  pub ip_version : Option ℕ
  pub mptcp : Bool
  pub skip_rx_copy : Bool
  pub rcv_timeout : Option ℕ
  pub snd_timeout : Option ℕ
  pub file : Option Bytes
  pub dscp : Option Bytes
  pub format_char : ℕ
  pub interval : Option E.f64.Carrier
  pub cntl_ka : Option Bytes
  pub username : Option Bytes
  pub password : Option Bytes
  pub rsa_public_key_path : Option Bytes
  pub use_pkcs1_padding : Bool

pub record Client (E : Env) : Type 0 where
  pub host : Bytes
  pub port : ℕ
  pub protocol : TransportProtocol
  pub duration : ℕ
  pub num_streams : ℕ
  pub blksize : ℕ
  pub blksize_explicit : Bool
  pub reverse : Bool
  pub bidir : Bool
  pub omit : ℕ
  pub no_delay : Bool
  pub mss : Option ℤ
  pub window : Option ℤ
  pub bandwidth : ℕ
  pub burst : ℕ
  pub pacing_timer : ℕ
  pub tos : ℤ
  pub congestion : Option Bytes
  pub udp_counters_64bit : Bool
  pub connect_timeout : Option ℕ
  pub title : Option Bytes
  pub extra_data : Option Bytes
  pub verbose : Bool
  pub json_output : Bool
  pub emit_output : Bool
  pub json_stream : Bool
  pub interrupt : Option E.Watch
  pub json_stream_full_output : Bool
  pub bytes_to_send : Option ℕ
  pub blocks_to_send : Option ℕ
  pub repeating_payload : Bool
  pub zerocopy : Bool
  pub gsro : Bool
  pub sendmmsg : Bool
  pub dont_fragment : Bool
  pub cport : Option ℕ
  pub get_server_output : Bool
  pub forceflush : Bool
  pub timestamps : Option Bytes
  pub bind_address : Option Bytes
  pub bind_dev : Option Bytes
  pub fq_rate : Option ℕ
  pub flowlabel : Option ℤ
  pub ip_version : Option ℕ
  pub mptcp : Bool
  pub skip_rx_copy : Bool
  pub rcv_timeout : Option ℕ
  pub snd_timeout : Option ℕ
  pub file : Option Bytes
  pub format_char : ℕ
  pub interval : Option E.f64.Carrier
  pub cntl_ka : Option Bytes
  pub username : Option Bytes
  pub password : Option Bytes
  pub rsa_public_key_path : Option Bytes
  pub use_pkcs1_padding : Bool

-- `ClientBuilder::default()`
unfoldable pub default_builder : (E : Env) → ClientBuilder E
default_builder E = record {
  host = none;
  port = some default_port;
  protocol = TransportProtocol.tcp;
  duration = default_duration;
  num_streams = default_num_streams;
  blksize = none;
  reverse = false;
  bidir = false;
  omit = default_omit;
  no_delay = false;
  mss = none;
  window = none;
  bandwidth = none;
  burst = 0;
  pacing_timer = 0;
  tos = pos 0;
  congestion = none;
  udp_counters_64bit = false;
  connect_timeout = none;
  title = none;
  extra_data = none;
  verbose = false;
  json_output = false;
  emit_output = false;
  json_stream = false;
  interrupt = none;
  json_stream_full_output = false;
  bytes_to_send = none;
  blocks_to_send = none;
  repeating_payload = false;
  zerocopy = false;
  gsro = false;
  sendmmsg = false;
  dont_fragment = false;
  cport = none;
  get_server_output = false;
  forceflush = false;
  timestamps = none;
  bind_address = none;
  bind_dev = none;
  fq_rate = none;
  flowlabel = none;
  ip_version = none;
  mptcp = false;
  skip_rx_copy = false;
  rcv_timeout = none;
  snd_timeout = none;
  file = none;
  dscp = none;
  format_char = b'a';
  interval = none;
  cntl_ka = none;
  username = none;
  password = none;
  rsa_public_key_path = none;
  use_pkcs1_padding = false;
}
