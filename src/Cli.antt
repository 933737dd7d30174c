-- ===== src/Cli.antt =====
-- The C number conversions and checks of riperf3-cli/src/cli.rs. An argument is its bytes.
pub mod Atoi
pub mod Double
pub mod Options
pub mod Parsed
pub mod BuildClient
pub mod BuildServer
use riperf.Base.{
  ltb_ℤ, ℕ, zero, suc, ◌+◌, ◌-◌, ◌*◌, ◌%◌, ◌^◌, Bool, true, false, not, ◌&&◌, ◌||◌, List, [], ◌∷◌,
  Option, none, some, ℤ, pos, negsuc, ◌*ℤ◌, leb_ℤ, eqb_ℤ, as_u32, as_u64, signed32, signed64, Bytes,
  ltb, leb, ◌==◌, if◌then◌else◌, min, is_some,
}

-- The blanks of the C locale
abbrev pub is_c_space : ℕ → Bool
is_c_space c = c == b' ' || (leb 9 c && leb c 13)

unfoldable pub skip_spaces : Bytes → Bytes
skip_spaces [] = []
skip_spaces (c ∷ s) = let rest = skip_spaces s in if is_c_space c then rest else c ∷ s

-- The value of the leading digits, behind `acc`
leading_digits : Bytes → ℕ → ℕ
leading_digits [] acc = acc
leading_digits (c ∷ s) acc =
    let rest = leading_digits s (acc * 10 + c - b'0') in
    if leb b'0' c && leb c b'9' then rest else acc

-- `strtol`: it saturates at the ends of i64.
saturate_long : Bool → ℕ → ℤ
saturate_long false n = pos (min n 9223372036854775807)
saturate_long true zero = pos 0
saturate_long true (suc n) = negsuc (min n 9223372036854775807)

-- `as i32` of an i64
abbrev pub truncate_i32 : ℤ → ℤ
truncate_i32 a = signed32 (as_u32 a)

signed_digits : Bytes → ℤ
unfolding leading_digits saturate_long
signed_digits [] = pos 0
signed_digits (c ∷ s) =
    if c == b'-'
    then saturate_long true (leading_digits s 0)
    else if c == b'+'
    then saturate_long false (leading_digits s 0)
    else saturate_long false (leading_digits (c ∷ s) 0)

unfoldable pub atoi_like_bytes : Bytes → ℤ
unfolding skip_spaces signed_digits
atoi_like_bytes s = truncate_i32 (signed_digits (skip_spaces s))

-- Before and behind the first '/'.
split_slash : Bytes → Bytes × Option Bytes
split_slash [] = ([], none)
split_slash (c ∷ s) = let (a, b) = split_slash s in if c == b'/' then ([], some s) else (c ∷ a, b)

unfoldable pub split_rate_interval : Bytes → Bytes × Option Bytes
unfolding split_slash
split_rate_interval = split_slash

-- A piece that is absent or empty is 0.
piece : Option Bytes → ℤ
unfolding atoi_like_bytes
piece none = pos 0
piece (some []) = pos 0
piece (some (c ∷ s)) = truncate_i32 (atoi_like_bytes (c ∷ s))

-- The second and the third piece
pieces : Option Bytes → Option Bytes × Option Bytes
unfolding split_slash
pieces none = (none, none)
pieces (some r) = let (a, b) = split_slash r in (some a, b)

unfoldable pub cntl_ka_violation : Bytes → Bool
unfolding split_slash piece pieces ◌*ℤ◌
cntl_ka_violation spec =
    let (p0, rest) = split_slash spec in
    let (p1, p2) = pieces rest in
    let keepidle = piece (some p0) in
    not (eqb_ℤ keepidle (pos 0)) && leb_ℤ keepidle (truncate_i32 (piece p2 *ℤ piece p1))

-- `-d`: a negative level is the highest one.
unfoldable pub debug_level_like_os : Bytes → ℤ
unfolding atoi_like_bytes
debug_level_like_os s = let v = atoi_like_bytes s in if ltb_ℤ v (pos 0) then pos 4 else v

-- `v as u32 as i32`
unfoldable pub c_u64_to_int : ℕ → ℤ
c_u64_to_int v = signed32 (v % 2 ^ 32)

-- The first character, if it is one of "kmgtKMGT"
unfoldable pub parse_format_char : Bytes → Option ℕ
parse_format_char [] = none
parse_format_char (c ∷ s) =
    if c == b'k'
      || c == b'm'
      || c == b'g'
      || c == b't'
      || c == b'K'
      || c == b'M'
      || c == b'G'
      || c == b'T'
    then some c
    else none
