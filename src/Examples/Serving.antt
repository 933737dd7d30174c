-- ===== src/Examples/Serving.antt =====
-- Rounds of the server.
use riperf.Base.{
  ℕ, ◌≡◌, refl, ◌+◌, true, false, List, [], ◌∷◌, Option, none, some, pos, Bytes, codes, map,
}
use riperf.Errors.Runtime.{IoError}
use riperf.Outcome.{Termination}
use riperf.Protocol.Params.{TestParams}
use riperf.Client.Run.{Finished, outcome}
use riperf.Server.Config.{TestConfig}
use riperf.Server.Round.Setup.{SetupFlow, SetupResult, flow}
use riperf.Server.Accept.{Daemon, ready, timer, client, closed, drained}
use riperf.Server.Serve.{Arrival, opened}
use riperf.Server.Serve.Loop.{serving, run, handle_one_test}
use riperf.Server.Serve.Surface.{Told, opened-Told}
use riperf.Server.Serve.Rounds.{numbers, tests, banners}
use riperf.Server.Serve.Endless.{Met, played, run-serves}
use riperf.Protocol.Params.{normalize_unlimited, default_params}
use riperf.Server.Config.{from_params}
use riperf.Errors.{ok, err}
use riperf.Examples.Control.{plain_crypto}
use riperf.Examples.Rounds.{config}

abbrev daemon : Daemon
daemon = record {
  json_output = false;
  json_stream = false;
  output_quiet = false;
  verbose = false;
  one_off = false;
  idle_timeout = some 30;
  limits = record { server_max_duration = some 60; server_bitrate_limit = none };
  rsa_private_key_path = none;
  authorized_users_path = none;
  use_pkcs1_padding = false;
  time_skew_threshold = 10;
}

abbrev asked : TestParams
asked = record default_params { tcp = some true; time = some (pos 10) }

abbrev agreed_config : TestConfig
unfolding from_params normalize_unlimited
agreed_config = elim (from_params (normalize_unlimited asked)) [ ok cfg ↦ cfg | err e ↦ config ]

-- A client that sends its cookie and its parameters.
abbrev good_client : Arrival
good_client = record {
  accepts = client ∷ [];
  no_delay = none;
  no_delay_relayed = none;
  reads = record {
    cookie = ready (some (codes "cookie"));
    param_exchange = ready none;
    params = ready (some asked);
    relayed = ready none;
  };
  park = drained ∷ closed ∷ [];
  now = pos 1000;
  peer = record {
    host = codes "10.0.0.2";
    port = 40000;
    epoch_secs = 1000;
    cookie_text = λ cookie. cookie;
  };
}

-- One that hangs up before its cookie.
abbrev no_cookie : Arrival
no_cookie = record good_client {
  reads = record {
    cookie = ready none;
    param_exchange = ready none;
    params = ready none;
    relayed = ready none;
  };
}

abbrev nobody : Arrival
nobody = record good_client { accepts = timer ∷ [] }

abbrev passes : TestParams → TestConfig → SetupResult × Finished (Unit {0})
passes params cfg =
    (flow SetupFlow.proceed, outcome (record { report = tt; termination = Termination.completed }))

abbrev three_rounds : List (Met (Unit {0}))
three_rounds =
    (no_cookie, passes, false) ∷ (nobody, passes, false) ∷ (good_client, passes, false) ∷ []

abbrev no_files : Bytes → Option Bytes
no_files path = none

abbrev no_number : IoError → ℕ
no_number e = 0

run-serves_example :
    let (said, number, still) =
      run daemon (map (played plain_crypto no_files no_number daemon) three_rounds) in
    (still ≡ serving)
    × (number ≡ 1 + tests (map (played plain_crypto no_files no_number daemon) three_rounds))
    × (numbers said
        ≡ banners daemon 1
            (1 + tests (map (played plain_crypto no_files no_number daemon) three_rounds)))
unfolding handle_one_test opened from_params normalize_unlimited
run-serves_example =
    run-serves plain_crypto no_files no_number daemon three_rounds refl
      ((refl, refl), ((refl, refl), ((refl, refl), tt)))

opened-Told_example :
    let (sent, said, far) =
      opened plain_crypto no_files no_number daemon {R = Unit {0}} no_cookie in
    Told daemon said far
opened-Told_example = opened-Told plain_crypto no_files no_number daemon (Unit {0}) no_cookie refl
