-- ===== src/Client/Params/Fields.antt =====
-- Each value that the client sends is read back by the server as it was.
use riperf.Base.{
  ℕ, ◌^◌, ◌≤◌, ◌<◌, ◌≡◌, ◌≢◌, refl, Bool, true, false, not, ◌&&◌, Option, none, some, ℤ, pos, ltb_ℤ,
  eqb_ℤ, ltb, arith, filter_opt, map_opt, unwrap_or, if◌then◌else◌, as_u32, is_some,
}
use riperf.Errors.{ok}
use riperf.Utils.Limits.{default_pacing_timer_us}
use riperf.Protocol.Params.{tcp, udp}
use riperf.Client.Params.{as_i32, then_some}
use riperf.Client.Valid.{BlksizeValid}
use riperf.Server.Config.{negotiated_burst, negotiated_blksize, nonzero}

pub as_u32-as_i32 : (n : ℕ) → n < 2 ^ 32 → as_u32 (as_i32 n) ≡ n
unfolding as_i32
as_u32-as_i32 n h = ground arith

pub as_i32_small : (n : ℕ) → n < 2 ^ 31 → as_i32 n ≡ pos n
unfolding as_i32
as_i32_small n h = ground arith

pub burst_read : (n : ℕ) → n ≤ 1000 → negotiated_burst (then_some (ltb 0 n) (as_i32 n)) ≡ ok n
unfolding negotiated_burst
burst_read n h = ground (arith, as_i32_small n)

pub blksize_read_tcp :
    (n : ℕ) → BlksizeValid tcp n → negotiated_blksize false (some (as_i32 n)) ≡ ok n
unfolding negotiated_blksize
blksize_read_tcp n h = rw (as_i32_small n (omega arith)) (ground arith)

pub blksize_read_udp :
    (n : ℕ) → BlksizeValid udp n → negotiated_blksize true (some (as_i32 n)) ≡ ok n
unfolding negotiated_blksize
blksize_read_udp n h = rw (as_i32_small n (omega arith)) (ground arith)

pub flag_read : (b : Bool) → unwrap_or (then_some b true) false ≡ b
flag_read true = refl
flag_read false = refl

pub nonzero_read : (b : Bool) → nonzero (then_some b (pos 1)) ≡ b
nonzero_read true = refl
nonzero_read false = refl

pub present_read : (b : Bool) → is_some (then_some b (pos 1)) ≡ b
present_read true = refl
present_read false = refl

pub bandwidth_read : (n : ℕ) → unwrap_or (then_some (ltb 0 n) n) 0 ≡ n
bandwidth_read n = ground arith

pub rate_read : (o : Option ℕ) → unwrap_or (filter_opt (λ r. ltb 0 r) o) 0 ≡ unwrap_or o 0
rate_read none = refl
rate_read (some n) = ground arith

pub pacing_read :
    (n : ℕ)
    → 1 ≤ n
    → n < 2 ^ 31
    → unwrap_or
        (map_opt as_u32 (filter_opt (λ us. ltb_ℤ (pos 0) us) (some (as_i32 n))))
        default_pacing_timer_us
      ≡ n
pacing_read n p q = rw (as_i32_small n q) (ground arith)

pub tos_read : (t : ℤ) → unwrap_or (then_some (not (eqb_ℤ t (pos 0))) t) (pos 0) ≡ t
tos_read t = ground arith

pub window_read : (w : Option ℤ) → w ≢ some (pos 0) → filter_opt (λ v. not (eqb_ℤ v (pos 0))) w ≡ w
window_read none h = refl
window_read (some v) h = ground arith

pub duration_read :
    (limited : Bool) (d : ℕ)
    → d < 2 ^ 32
    → as_u32 (if limited then pos 0 else as_i32 d) ≡ (if limited then 0 else d)
duration_read true d h = refl
duration_read false d h = as_u32-as_i32 d h

pub gso_read : (on : Bool) → nonzero (some (if on then pos 1 else pos 0)) ≡ on
gso_read true = refl
gso_read false = refl

pub dg_size_read :
    (on : Bool) (n : ℕ) (blk : ℤ)
    → 1 ≤ n
    → (if eqb_ℤ (pos (if on then n else 0)) (pos 0) && on then blk else pos (if on then n else 0))
      ≡ (if on then pos n else pos 0)
dg_size_read true n blk h = ground arith
dg_size_read false n blk h = refl
