-- ===== src/Client/Valid.antt =====
-- What every client that the builder makes satisfies.
use riperf.Base.{
  ap, sym, ℕ, ◌≤◌, ◌≡◌, ◌≢◌, not, Option, none, some, ℤ, pos, ◌≤ℤ◌, eqb_ℤ, arith, Bytes, filter_opt,
  unwrap_or, ◌==◌,
}
use mathlib.Core.Path.{subst}
use riperf.Errors.{ok, bind_ok, guard, guard_ok, ok_injective}
use riperf.Protocol.Params.{TransportProtocol, tcp, udp}
use riperf.Client.Types.{Env, ClientBuilder, Client}
use riperf.Client.Builder.{
  build, check_blksize, check_options, requested_tos, assemble, check_host, check_duration,
  check_omit, check_burst, check_tos, bind_conflict, default_blksize,
}

-- A block size that the protocol allows
abbrev pub BlksizeValid : TransportProtocol → ℕ → Type 0
BlksizeValid tcp n = (1 ≤ n) × (n ≤ 1048576)
BlksizeValid udp n = (16 ≤ n) × (n ≤ 65507)

pub record Valid {E : Env} (c : Client E) : Type 0 where
  pub duration : c.duration ≤ 86400
  pub omit : c.omit ≤ 600
  pub burst : c.burst ≤ 1000
  pub tos : (pos 0 ≤ℤ c.tos) × (c.tos ≤ℤ pos 255)
  pub blksize : BlksizeValid c.protocol c.blksize
  pub pacing_timer : 1 ≤ c.pacing_timer
  pub window : c.window ≢ some (pos 0)
  pub bytes : c.bytes_to_send ≢ some 0
  pub blocks : c.blocks_to_send ≢ some 0

blksize_valid :
    (p : TransportProtocol) (requested : Option ℕ)
    → let r = filter_opt (λ n. not (n == 0)) requested in
      check_blksize p r ≡ ok tt → BlksizeValid p (unwrap_or r (default_blksize p))
unfolding check_blksize default_blksize
blksize_valid tcp none h = ground arith
blksize_valid udp none h = ground arith
blksize_valid tcp (some n) h = ground arith
blksize_valid udp (some n) h = ground arith

nonzero_filter : (o : Option ℕ) → filter_opt (λ n. not (n == 0)) o ≢ some 0
nonzero_filter none = ground arith
nonzero_filter (some n) = ground arith

nonzero_window : (o : Option ℤ) → filter_opt (λ w. not (eqb_ℤ w (pos 0))) o ≢ some (pos 0)
nonzero_window none = ground arith
nonzero_window (some n) = ground arith

check_duration_ok : (d : ℕ) (u : Unit {0}) → check_duration d ≡ ok u → d ≤ 86400
unfolding check_duration
check_duration_ok d u h = ground (arith, guard_ok _ _ u h)

check_omit_ok : (d : ℕ) (u : Unit {0}) → check_omit d ≡ ok u → d ≤ 600
unfolding check_omit
check_omit_ok d u h = ground (arith, guard_ok _ _ u h)

check_burst_ok : (d : ℕ) (u : Unit {0}) → check_burst d ≡ ok u → d ≤ 1000
unfolding check_burst
check_burst_ok d u h = ground (arith, guard_ok _ _ u h)

check_tos_ok : (t : ℤ) (u : Unit {0}) → check_tos t ≡ ok u → (pos 0 ≤ℤ t) × (t ≤ℤ pos 255)
unfolding check_tos
check_tos_ok t u h = ground (arith, guard_ok _ _ u h)

check_options_ok :
    (E : Env) (b : ClientBuilder E) (u : Unit {0})
    → check_options E b ≡ ok u
    → (b.duration ≤ 86400) × (b.omit ≤ 600)
unfolding check_options
check_options_ok E b u h =
    let (d, duration, h1) = bind_ok (check_duration b.duration) _ u h in
    let (_, bind, h2) =
      bind_ok (guard (not (bind_conflict E b.ip_version b.bind_address)) _) _ u h1 in
    let (o, omit, h3) = bind_ok (check_omit b.omit) _ u h2 in
    (check_duration_ok b.duration d duration, check_omit_ok b.omit o omit)

assemble-Valid :
    (E : Env) (b : ClientBuilder E) (host : Bytes) (tos : ℤ)
    → b.duration ≤ 86400
    → b.omit ≤ 600
    → b.burst ≤ 1000
    → (pos 0 ≤ℤ tos) × (tos ≤ℤ pos 255)
    → let r = filter_opt (λ n. not (n == 0)) b.blksize in
      check_blksize b.protocol r ≡ ok tt → Valid (assemble E b host tos r)
unfolding assemble
assemble-Valid E b host tos d o burst t size = record {
  duration = d;
  omit = o;
  burst = burst;
  tos = t;
  blksize = blksize_valid b.protocol b.blksize size;
  pacing_timer = ground arith;
  window = nonzero_window b.window;
  bytes = nonzero_filter b.bytes_to_send;
  blocks = nonzero_filter b.blocks_to_send;
}

-- A client that the builder returns has its duration, omit time, burst, TOS byte and block size
-- within the bounds of the program, its pacing timer not zero, and no zero window or limit.
pub build-Valid : (E : Env) (b : ClientBuilder E) (c : Client E) → build E b ≡ ok c → Valid c
unfolding build
build-Valid E b c h =
    let (host, _, h1) = bind_ok (check_host E b.host) _ c h in
    let (_, options, h2) = bind_ok (check_options E b) _ c h1 in
    let (tos, _, h3) = bind_ok (requested_tos E b) _ c h2 in
    let (_, tos_range, h4) = bind_ok (check_tos tos) _ c h3 in
    let (_, burst_range, h5) = bind_ok (check_burst b.burst) _ c h4 in
    let (_, size, made) = bind_ok (check_blksize b.protocol _) _ c h5 in
    let (d, o) = check_options_ok E b _ options in
    let valid =
      assemble-Valid E b host tos d o (check_burst_ok b.burst _ burst_range)
        (check_tos_ok tos _ tos_range) size in
    subst Valid (ok_injective made) valid

-- A client that the builder returns is assembled from it.
pub build_made :
    (E : Env) (b : ClientBuilder E) (c : Client E)
    → build E b ≡ ok c
    → (host : Bytes) × (tos : ℤ) × (assemble E b host tos (filter_opt (λ n. not (n == 0)) b.blksize)
        ≡ c)
unfolding build
build_made E b c h =
    let (host, _, h1) = bind_ok (check_host E b.host) _ c h in
    let (_, _, h2) = bind_ok (check_options E b) _ c h1 in
    let (tos, _, h3) = bind_ok (requested_tos E b) _ c h2 in
    let (_, _, h4) = bind_ok (check_tos tos) _ c h3 in
    let (_, _, h5) = bind_ok (check_burst b.burst) _ c h4 in
    let size = filter_opt (λ n. not (n == 0)) b.blksize in
    let (_, _, made) =
      bind_ok (check_blksize b.protocol size) (λ u. ok (assemble E b host tos size)) c h5 in
    (host, tos, ok_injective made)

-- Its limits are those asked for, unless they are 0.
pub build_limits :
    (E : Env) (b : ClientBuilder E) (c : Client E)
    → build E b ≡ ok c
    → (c.bytes_to_send ≡ filter_opt (λ n. not (n == 0)) b.bytes_to_send)
      × (c.blocks_to_send ≡ filter_opt (λ n. not (n == 0)) b.blocks_to_send)
unfolding assemble
build_limits E b c h =
    let (host, tos, made) = build_made E b c h in
    (ap (λ d. d.bytes_to_send) (sym made), ap (λ d. d.blocks_to_send) (sym made))
