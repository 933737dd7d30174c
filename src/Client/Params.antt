-- ===== src/Client/Params.antt =====
-- `build_params` of riperf3/src/client.rs: the parameters that the client sends.
use Prim.Native.String.{String}
pub mod Fields
use riperf.Base.{
  ℕ, ◌+◌, ◌*◌, ◌/◌, ◌%◌, ◌^◌, Bool, true, false, not, ◌&&◌, ◌||◌, Option, none, some, ℤ, pos, Bytes,
  eqb_ℤ, ltb, if◌then◌else◌, ◌==◌, codes, ◌++◌, unwrap_or, is_some, filter_opt, map_opt, or_else,
  signed32, [],
}
use riperf.Auth.Token.{Crypto, Result, ok, err, encode_auth_token}
use riperf.Protocol.Params.{TransportProtocol, tcp, udp, TestParams, default_params}
use riperf.Client.Types.{Env, Client}

-- What `build_params` reads outside the client: the time, the generator's state, the key files, the
-- environment's or the prompt's password, the package's version.
pub record Outside : Type 1 where
  pub crypto : Crypto
  pub seed : ℕ
  pub now : ℤ
  pub read_file : Bytes → Option Bytes
  pub read_password : Option Bytes
  pub version : Bytes

-- `as i32` of an unsigned number
unfoldable pub as_i32 : ℕ → ℤ
as_i32 n = signed32 (n % 2 ^ 32)

-- `then_some`
abbrev pub then_some : {A : Type 0} → Bool → A → Option A
then_some true a = some a
then_some false a = none

-- The largest UDP GSO buffer
abbrev pub bf_max : ℕ
bf_max = 65507

-- The GSO and GRO block of a UDP test: the buffer is a multiple of the datagram.
unfoldable pub gso_block : Bool → ℕ → TestParams → TestParams
gso_block on blksize p =
    let dg = if on then blksize else 0 in
    record p {
      gso = some (if on then pos 1 else pos 0);
      gso_dg_size = some (pos dg);
      gso_bf_size = some (pos (if on && ltb 0 dg then bf_max / dg * dg else bf_max));
      gro = some (if on then pos 1 else pos 0);
      gro_bf_size = some (pos bf_max);
    }

unfoldable pub transport_block : TransportProtocol → Bool → ℕ → TestParams → TestParams
unfolding gso_block
transport_block tcp gsro blksize p = p
transport_block udp gsro blksize p = gso_block gsro blksize p

module _ (E : Env) where
  -- The token, where a user name and a public key are given; a failure leaves it out.
  unfoldable pub auth_token : Outside → Client E → Option Bytes
  unfolding encode_auth_token
  auth_token o c = elim c.username [
    | none ↦ none
    | some username ↦ elim c.rsa_public_key_path [
      | none ↦ none
      | some path ↦
          let made =
            encode_auth_token o.crypto o.seed o.now username
              (unwrap_or (or_else c.password o.read_password) []) (unwrap_or (o.read_file path) [])
              c.use_pkcs1_padding in
          elim made [ ok token ↦ some token | err e ↦ none ]
    ]
  ]

  unfoldable pub build_params : Outside → Client E → ℕ → TestParams
  unfolding as_i32 transport_block
  build_params o c blksize = transport_block c.protocol c.gsro blksize (record {
    tcp = elim c.protocol [ tcp ↦ some true | udp ↦ none ];
    udp = elim c.protocol [ tcp ↦ none | udp ↦ some true ];
    time =
        some (
          if is_some c.bytes_to_send || is_some c.blocks_to_send then pos 0 else as_i32 c.duration);
    omit = some (as_i32 c.omit);
    parallel = some (as_i32 c.num_streams);
    len = some (as_i32 blksize);
    reverse = then_some c.reverse true;
    bidirectional = then_some c.bidir true;
    nodelay = then_some c.no_delay true;
    mss = c.mss;
    window = c.window;
    bandwidth = then_some (ltb 0 c.bandwidth) c.bandwidth;
    fqrate = filter_opt (λ r. ltb 0 r) c.fq_rate;
    gso = none;
    gso_dg_size = none;
    gso_bf_size = none;
    gro = none;
    gro_bf_size = none;
    burst = then_some (ltb 0 c.burst) (as_i32 c.burst);
    pacing_timer = some (as_i32 c.pacing_timer);
    get_server_output = then_some c.get_server_output (pos 1);
    tos = then_some (not (eqb_ℤ c.tos (pos 0))) c.tos;
    flowlabel = filter_opt (λ l. not (eqb_ℤ l (pos 0))) c.flowlabel;
    repeating_payload = then_some c.repeating_payload (pos 1);
    dont_fragment = then_some c.dont_fragment (pos 1);
    congestion = c.congestion;
    congestion_used = none;
    title = c.title;
    extra_data = c.extra_data;
    udp_counters_64bit = then_some c.udp_counters_64bit (pos 1);
    client_version = some (codes "riperf3 " ++ o.version);
    num = some (unwrap_or c.bytes_to_send 0);
    blockcount = some (unwrap_or c.blocks_to_send 0);
    authtoken = auth_token o c;
  })
