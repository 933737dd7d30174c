-- ===== src/Cli/BuildClient/OneEnd.antt =====
-- A client that the command line gives is valid, and has one end condition at most.
use riperf.Base.{
  ℕ, ◌+◌, ◌≤◌, ◌≡◌, refl, ◌∙◌, ap, Bool, true, false, not, ◌&&◌, ◌||◌, Option, none, some, Bytes,
  is_some, filter_opt, ◌==◌, arith,
}
use riperf.Base.Float.{Float}
use riperf.Client.Types.{Env, Client}
use riperf.Client.Builder.{build}
use riperf.Client.Valid.{Valid, build-Valid, build_limits}
use riperf.Utils.Tos.{parse_tos}
use riperf.Cli.Double.{Double}
use riperf.Cli.Options.{Cli, end_condition_set, end_conditions_conflict}
use riperf.Cli.Parsed.{bind_done, configured_done, done_injective, done, configured, optional}
use riperf.Cli.BuildClient.{
  host_of, one_end, unit_atoi_os, unit_size, unit_int, unit_rate, blksize_of, bitrate_of, Values,
  values, requested, build_client,
}

one_end_done : (b : Bool) (u : Unit {0}) → one_end b ≡ done u → b ≡ false
unfolding one_end
one_end_done true u h = absurd (cc h)
one_end_done false u h = refl

abbrev pub nonzero : Option ℕ → Option ℕ
nonzero = filter_opt (λ n. not (n == 0))

module _ {F : Float} (D : Double F) (lossy : Bytes → Bytes) where
  size_set :
      (o : Option Bytes) (v : Option ℕ)
      → optional (unit_size D lossy) o ≡ done v
      → is_some (nonzero v) ≡ end_condition_set D o
  unfolding optional unit_size end_condition_set unit_atoi_os
  size_set none v h = ground (arith, h)
  size_set (some s) v h = ground (arith, h)

  values_limits :
      (c : Cli F) (v : Values D lossy)
      → values D lossy c ≡ done v
      → (optional (unit_size D lossy) c.bytes ≡ done v.bytes)
        × (optional (unit_size D lossy) c.blockcount ≡ done v.blocks)
  unfolding values
  values_limits c v h =
      let (pacing, _, h1) = bind_done (optional (unit_int D lossy) c.pacing_timer) _ v h in
      let (bytes, e1, h2) = bind_done (optional (unit_size D lossy) c.bytes) _ v h1 in
      let (blocks, e2, h3) = bind_done (optional (unit_size D lossy) c.blockcount) _ v h2 in
      let (len, _, h4) = bind_done (optional (unit_int D lossy) c.length) _ v h3 in
      let (blksize, _, h5) = bind_done (blksize_of len) _ v h4 in
      let (window, _, h6) = bind_done (optional (unit_atoi_os D lossy) c.window) _ v h5 in
      let (rate, _, h7) = bind_done (optional (bitrate_of D lossy) c.bitrate) _ v h6 in
      let (tos, _, h8) = bind_done (optional (λ s. configured (parse_tos s)) c.tos) _ v h7 in
      let (timeout, _, h9) = bind_done (optional (unit_int D lossy) c.connect_timeout) _ v h8 in
      let (fq, _, h10) = bind_done (optional (unit_rate D lossy) c.fq_rate) _ v h9 in
      let same = done_injective h10 in
      (e1 ∙ ap (λ w. done (Values.bytes w)) same, e2 ∙ ap (λ w. done (Values.blocks w)) same)

abbrev pub given : Bool → ℕ
given true = 1
given false = 0

one_given :
    (time bytes blocks : Bool)
    → (time && (bytes || blocks) || bytes && blocks) ≡ false
    → given time + given bytes + given blocks ≤ 1
one_given true true blocks h = absurd (cc h)
one_given true false true h = absurd (cc h)
one_given true false false h = ground arith
one_given false true true h = absurd (cc h)
one_given false true false h = ground arith
one_given false false true h = ground arith
one_given false false false h = ground arith

module _ {E : Env} (D : Double E.f64) (lossy : Bytes → Bytes) where
  -- A client that the command line gives is valid, and of `-t`, a limit of bytes and a limit of
  -- blocks it has at most one.
  pub build_client_one_end :
      (c : Cli E.f64) (auth_password : Option Bytes) (client : Client E)
      → build_client D lossy c auth_password ≡ done client
      → Valid client
        × (given (is_some c.time)
              + given (is_some client.bytes_to_send)
              + given (is_some client.blocks_to_send)
            ≤ 1)
  unfolding build_client end_conditions_conflict requested
  build_client_one_end c auth_password client h =
      let (host, _, h1) = bind_done (host_of c.client) _ client h in
      let (alone, conflict, h2) = bind_done (one_end (end_conditions_conflict D c)) _ client h1 in
      let (v, read, h3) = bind_done (values D lossy c) _ client h2 in
      let b = requested D lossy c auth_password host v in
      let built = configured_done (build E b) client h3 in
      let (bytes, blocks) = values_limits D lossy c v read in
      let (eb, ek) = build_limits E b client built in
      let sb = ap is_some eb ∙ size_set D lossy c.bytes v.bytes bytes in
      let sk = ap is_some ek ∙ size_set D lossy c.blockcount v.blocks blocks in
      let few =
        one_given (is_some c.time) (end_condition_set D c.bytes) (end_condition_set D c.blockcount)
          (one_end_done _ alone conflict) in
      (build-Valid E b client built, rw (sb, sk) few)
