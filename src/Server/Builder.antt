-- ===== src/Server/Builder.antt =====
-- `ServerBuilder` of riperf3/src/server.rs: the options of a server, and the `Server` that they make. The fields are
-- the source's, in its order.
use riperf.Base.{ℕ, Bool, false, not, ◌||◌, Option, none, some, Bytes, codes, is_some, unwrap_or}
use riperf.Errors.{Configured, ok, guard, unsupported, invalid_value, ◌>>◌}
use riperf.Utils.Limits.{default_port}
use riperf.Client.Types.{Env}
use riperf.Client.Builder.{bind_conflict, bind_message}

pub record ServerBuilder (E : Env) : Type 0 where
  pub port : Option ℕ  -- u16
  pub one_off : Bool
  pub verbose : Bool
  pub idle_timeout : Option ℕ  -- seconds
  pub rcv_timeout : Option ℕ  -- milliseconds
  pub server_bitrate_limit : Option ℕ
  pub server_bitrate_limit_interval : Option E.f64.Carrier
  pub server_max_duration : Option ℕ
  pub forceflush : Bool
  pub bind_address : Option Bytes
  pub bind_dev : Option Bytes
  pub ip_version : Option ℕ
  pub timestamps : Option Bytes
  pub file : Option Bytes
  pub rsa_private_key_path : Option Bytes
  pub authorized_users_path : Option Bytes
  pub time_skew_threshold : ℕ
  pub use_pkcs1_padding : Bool
  pub json_output : Bool
  pub emit_output : Bool
  pub json_stream : Bool
  pub interrupt : Option E.Watch
  pub json_stream_full_output : Bool
  pub format_char : ℕ

-- `Default`
unfoldable pub default_server : (E : Env) → ServerBuilder E
default_server E = record {
  port = some default_port;
  one_off = false;
  verbose = false;
  idle_timeout = none;
  rcv_timeout = none;
  server_bitrate_limit = none;
  server_bitrate_limit_interval = none;
  server_max_duration = none;
  forceflush = false;
  bind_address = none;
  bind_dev = none;
  ip_version = none;
  timestamps = none;
  file = none;
  rsa_private_key_path = none;
  authorized_users_path = none;
  time_skew_threshold = 10;
  use_pkcs1_padding = false;
  json_output = false;
  emit_output = false;
  json_stream = false;
  interrupt = none;
  json_stream_full_output = false;
  format_char = b'a';
}

-- `Server`, with the options that `build` gives it
pub record BuiltServer (E : Env) : Type 0 where
  pub port : ℕ
  pub one_off : Bool
  pub verbose : Bool
  pub idle_timeout : Option ℕ
  pub rcv_timeout : Option ℕ
  pub server_bitrate_limit : Option ℕ
  pub server_bitrate_limit_interval : Option E.f64.Carrier
  pub server_max_duration : Option ℕ
  pub forceflush : Bool
  pub bind_address : Option Bytes
  pub bind_dev : Option Bytes
  pub ip_version : Option ℕ
  pub timestamps : Option Bytes
  pub file : Option Bytes
  pub rsa_private_key_path : Option Bytes
  pub authorized_users_path : Option Bytes
  pub time_skew_threshold : ℕ
  pub use_pkcs1_padding : Bool
  pub json_output : Bool
  pub emit_output : Bool
  pub json_stream : Bool
  pub interrupt : Option E.Watch
  pub json_stream_full_output : Bool
  pub format_char : ℕ

unfoldable pub installed : {E : Env} → ServerBuilder E → BuiltServer E
installed b = record {
  port = unwrap_or b.port default_port;
  one_off = b.one_off;
  verbose = b.verbose;
  idle_timeout = b.idle_timeout;
  rcv_timeout = b.rcv_timeout;
  server_bitrate_limit = b.server_bitrate_limit;
  server_bitrate_limit_interval = b.server_bitrate_limit_interval;
  server_max_duration = b.server_max_duration;
  forceflush = b.forceflush;
  bind_address = b.bind_address;
  bind_dev = b.bind_dev;
  ip_version = b.ip_version;
  timestamps = b.timestamps;
  file = b.file;
  rsa_private_key_path = b.rsa_private_key_path;
  authorized_users_path = b.authorized_users_path;
  time_skew_threshold = b.time_skew_threshold;
  use_pkcs1_padding = b.use_pkcs1_padding;
  json_output = b.json_output;
  emit_output = b.emit_output;
  json_stream = b.json_stream;
  interrupt = b.interrupt;
  json_stream_full_output = b.json_stream_full_output;
  format_char = b.format_char;
}

-- `cfg!(target_os = "linux")` is an argument.
module _ (E : Env) (linux : Bool) where
  unfoldable pub build : ServerBuilder E → Configured (BuiltServer E)
  unfolding installed bind_conflict bind_message
  build b = do
    guard (linux || not (is_some b.bind_dev)) (
        unsupported
          (codes "--bind-dev on the server requires SO_BINDTODEVICE, which this platform lacks"))
    guard (not (bind_conflict E b.ip_version b.bind_address))
        (invalid_value (codes "bind_address") (bind_message E b.ip_version b.bind_address))
    ok (installed b)
