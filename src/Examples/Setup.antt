-- ===== src/Examples/Setup.antt =====
-- Examples of the setup of a test: a client built, and its parameters sent and read.
use riperf.Base.{◌≡◌, refl, ◌↔◌, true, none, some, pos, codes, arith, []}
use riperf.Base.Float.{whole}
use riperf.Errors.{ok}
use riperf.Utils.Tos.{parse_dscp}
use riperf.Protocol.Params.{udp, TestParams, normalize_unlimited}
use riperf.Client.Types.{Env, Client, ClientBuilder, default_builder}
use riperf.Client.Builder.{build, assemble}
use riperf.Client.Valid.{Valid, build-Valid}
use riperf.Client.Params.{Outside, build_params}
use riperf.Server.Config.{from_params}
use riperf.Server.Agreement.{requested_test, from_params-build_params}
use riperf.Server.Negotiate.{Limits, proceed, refused, negotiate}
use riperf.Server.Refusal.{DurationAllowed, RateAllowed, negotiate-decides}
use riperf.Examples.Control.{plain_crypto}

abbrev pub linux : Env
linux = record {
  f64 = whole;
  show_f64 = λ i. [];
  Watch = Unit;
  unix = true;
  can_bind_dev = true;
  can_sendmmsg = true;
  parse_ip = λ text. none;
}

-- `-c host -u --bidir -l 1200 -P 4 -b 10M --dscp EF`, with GSO and a byte limit
abbrev pub builder : ClientBuilder linux
unfolding default_builder
builder = record (default_builder linux) {
  host = some (codes "host");
  protocol = udp;
  bidir = true;
  blksize = some 1200;
  num_streams = 4;
  bandwidth = some 10000000;
  dscp = some (codes "EF");
  gsro = true;
  bytes_to_send = some 5000;
}

abbrev pub client : Client linux
unfolding assemble builder
client = assemble linux builder (codes "host") (pos 184) (some 1200)

client_built : build linux builder ≡ ok client
unfolding build parse_dscp client builder
client_built = refl

build-Valid_example : Valid client
build-Valid_example = build-Valid linux builder client client_built

abbrev outside : Outside
outside = record {
  crypto = plain_crypto;
  seed = 0;
  now = pos 0;
  read_file = λ path. none;
  read_password = none;
  version = codes "0.9.1";
}

from_params-build_params_example :
    from_params (normalize_unlimited (build_params linux outside client 1200))
    ≡ ok (requested_test client 1200)
unfolding client builder
from_params-build_params_example =
    from_params-build_params linux outside builder client 1200 client_built (omega arith)
      (omega arith) (omega arith)

-- A server that allows 60 seconds and 50 Mbit/s: the unlimited run is refused by its rate.
abbrev limits : Limits
limits = record { server_max_duration = some 60; server_bitrate_limit = some 50000000 }

abbrev pub sent : TestParams
unfolding build_params
sent = build_params linux outside client 1200

negotiate-decides_example :
    let cfg = requested_test client 1200 in
    ((negotiate limits sent ≡ proceed (normalize_unlimited sent) cfg)
      ↔ (RateAllowed (some 50000000) cfg none × DurationAllowed (some 60) cfg))
    × ((negotiate limits sent ≡ refused 27 (some 10000000))
        ↔ (¬ (RateAllowed (some 50000000) cfg none)))
    × ((negotiate limits sent ≡ refused 37 (some 10000000))
        ↔ (RateAllowed (some 50000000) cfg none × (¬ (DurationAllowed (some 60) cfg))))
unfolding client builder sent
negotiate-decides_example =
    negotiate-decides limits sent (requested_test client 1200) from_params-build_params_example
      (omega arith) (omega arith)
