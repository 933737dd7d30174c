-- ===== src/Cli/Double.antt =====
-- The C readings of floats in riperf3-cli/src/cli.rs: `c_strtod_prefix`, the parsers with a unit suffix, and the
-- conversion to u64.
pub mod Units
use riperf.Base.{
  ℕ, zero, suc, ◌+◌, ◌-◌, ◌*◌, ◌^◌, Bool, true, false, not, ◌&&◌, ◌||◌, List, [], ◌∷◌, ◌++◌, map,
  Option, none, some, map_opt, unwrap_or, ℤ, pos, negsuc, as_u64, Bytes, bytes_eq, codes, length,
  take, drop, get_elem?, min, ltb, leb, ◌==◌, is_digit, if◌then◌else◌, ◌-ℤ◌,
}
use riperf.Base.Float.{Float}
use riperf.Base.Decimal.{to_digit}
use riperf.Cli.{is_c_space, skip_spaces}

-- What Rust's f64 gives beyond the operations of `Float`: the parser of a decimal text, `powi`, and the
-- conversions to signed integers.
pub record Double (F : Float) : Type 0 where
  pub parse : Bytes → F.Carrier
  pub powi : F.Carrier → ℤ → F.Carrier
  pub neg : F.Carrier → F.Carrier
  pub infinity : F.Carrier
  pub nan : F.Carrier
  pub is_nan : F.Carrier → Bool
  -- `as i64` and `as i32`, which truncate and saturate
  pub to_i64 : F.Carrier → ℤ
  pub to_i32 : F.Carrier → ℤ

abbrev pub ascii_lower : ℕ → ℕ
ascii_lower c = if leb b'A' c && leb c b'Z' then c + 32 else c

-- `rest[..p.len()].eq_ignore_ascii_case(p)`, for a `p` in small letters
abbrev pub starts : Bytes → Bytes → Bool
starts p rest = bytes_eq (map ascii_lower (take (length p) rest)) p

-- The number of leading ASCII digits
unfoldable pub digit_count : Bytes → ℕ
digit_count [] = 0
digit_count (c ∷ s) = let rest = digit_count s in if is_digit c then suc rest else 0

abbrev pub is_byte : ℕ → Option ℕ → Bool
is_byte c none = false
is_byte c (some b) = b == c

-- A sign at the front: whether it is there, and whether it is a minus
abbrev pub sign : Bytes → Bool × Bool
sign [] = (false, false)
sign (c ∷ s) = (c == b'-' || c == b'+', c == b'-')

-- Where the exponent ends that starts behind `mant_end`; with no digit in it, there is none.
unfoldable pub exponent_end : Bytes → ℕ → ℕ
unfolding digit_count
exponent_end rest mant_end =
    let mark = get_elem? rest mant_end in
    if is_byte b'e' mark || is_byte b'E' mark
    then (let (signed, minus) = sign (drop (mant_end + 1) rest) in
        let start = if signed then mant_end + 2 else mant_end + 1 in
        let k = start + digit_count (drop start rest) in if ltb start k then k else mant_end)
    else mant_end

-- Where the mantissa ends, if it has a digit
unfoldable pub mantissa_end : Bytes → Option ℕ
unfolding digit_count
mantissa_end rest =
    let n = digit_count rest in
    if is_byte b'.' (get_elem? rest n)
    then (let f = digit_count (drop (n + 1) rest) in
        if ltb 0 n || ltb 0 f then some (n + 1 + f) else none)
    else if ltb 0 n
    then some n
    else none

-- `rest[0] == b'0' && (rest[1] | 0x20) == b'x'`
abbrev pub is_hex : Bytes → Bool
is_hex rest =
    is_byte b'0' (get_elem? rest 0)
    && (is_byte b'x' (get_elem? rest 1) || is_byte b'X' (get_elem? rest 1))

-- `v ^ (1 << 63)`
abbrev flip_top : ℕ → ℕ
flip_top v = if ltb v (2 ^ 63) then v + 2 ^ 63 else v - 2 ^ 63

module _ {F : Float} (D : Double F) where
  open D use {parse, powi, neg, infinity, nan, is_nan, to_i64}
  open F use {Carrier, add, sub, mul, div, of_ℕ, lt}

  abbrev pub negated : Bool → Carrier → Carrier
  negated true v = neg v
  negated false v = v

  -- The hexadecimal digits: the mantissa, and how many there are.
  unfoldable pub hex_digits : Bytes → Carrier → Carrier × ℕ
  unfolding to_digit
  hex_digits [] mant = (mant, 0)
  hex_digits (c ∷ s) mant = elim (to_digit 16 c) [
    | none ↦ (mant, 0)
    | some d ↦ let (m, n) = hex_digits s (add (mul mant (of_ℕ 16)) (of_ℕ d)) in (m, suc n)
  ]

  -- Those behind the point, with the value of the next one's place.
  unfoldable pub hex_fraction : Bytes → Carrier → Carrier → Carrier × ℕ
  unfolding to_digit
  hex_fraction [] mant scale = (mant, 0)
  hex_fraction (c ∷ s) mant scale = elim (to_digit 16 c) [
    | none ↦ (mant, 0)
    | some d ↦
        let (m, n) = hex_fraction s (add mant (mul (of_ℕ d) scale)) (div scale (of_ℕ 16)) in
        (m, suc n)
  ]

  -- `saturating_mul(10).saturating_add(d)` of an i32
  unfoldable pub exponent : Bytes → ℕ → ℕ
  exponent [] e = e
  exponent (c ∷ s) e =
      let rest = exponent s (min (min (e * 10) 2147483647 + (c - b'0')) 2147483647) in
      if is_digit c then rest else e

  -- Behind `j`, the end of the mantissa.
  unfoldable pub hex_exponent : Bytes → Carrier → ℕ → Carrier × ℕ
  unfolding exponent digit_count
  hex_exponent rest mant j =
      let mark = get_elem? rest j in
      if is_byte b'p' mark || is_byte b'P' mark
      then (let (signed, minus) = sign (drop (j + 1) rest) in
          let start = if signed then j + 2 else j + 1 in
          let n = digit_count (drop start rest) in
          let e = exponent (drop start rest) 0 in
          if ltb 0 n
          then (mul mant (powi (of_ℕ 2) (if minus then pos 0 -ℤ pos e else pos e)), start + n)
          else (mant, j))
      else (mant, j)

  -- Behind "0x": with no digit, the number is the 0 alone.
  unfoldable pub hex_number : Bool → Bytes → Carrier × ℕ
  unfolding hex_digits hex_fraction hex_exponent
  hex_number minus rest =
      let (whole, n) = hex_digits (drop 2 rest) (of_ℕ 0) in
      let j = 2 + n in
      let (mant, f) =
        if is_byte b'.' (get_elem? rest j)
        then hex_fraction (drop (j + 1) rest) whole (div (of_ℕ 1) (of_ℕ 16))
        else (whole, 0) in
      if ltb 0 n || ltb 0 f
      then (let (v, k) = hex_exponent rest mant (if ltb 0 f then j + 1 + f else j) in
          (negated minus v, k))
      else (of_ℕ 0, 1)

  -- The number behind the blanks and the sign, whose text is `signs`: its value and its length.
  unfoldable pub number : Bool → Bytes → Bytes → Option (Carrier × ℕ)
  unfolding hex_number mantissa_end exponent_end
  number minus signs rest =
      if starts (codes "infinity") rest
      then some (negated minus infinity, 8)
      else if starts (codes "inf") rest
      then some (negated minus infinity, 3)
      else if starts (codes "nan") rest
      then some (nan, 3)
      else if is_hex rest
      then some (hex_number minus rest)
      else map_opt (λ m. let j = exponent_end rest m in (parse (signs ++ take j rest), j))
          (mantissa_end rest)

  -- The value, and the bytes behind the number.
  unfoldable pub c_strtod_prefix : Bytes → Option (Carrier × Bytes)
  unfolding skip_spaces number
  c_strtod_prefix s =
      let t = skip_spaces s in
      let (signed, minus) = sign t in
      let signs = if signed then take 1 t else [] in
      let rest = if signed then drop 1 t else t in
      map_opt (λ r. (r.0, drop r.1 rest)) (number minus signs rest)

  unfoldable pub scaled : Carrier → Carrier → Bytes → Option Carrier
  scaled base n [] = some n
  scaled base n (c ∷ junk) =
      if c == b't' || c == b'T'
      then some (mul n (powi base (pos 4)))
      else if c == b'g' || c == b'G'
      then some (mul n (powi base (pos 3)))
      else if c == b'm' || c == b'M'
      then some (mul n (powi base (pos 2)))
      else if c == b'k' || c == b'K'
      then some (mul n base)
      else none

  unfoldable pub scaled_prefix : Carrier → Option (Carrier × Bytes) → Option Carrier
  unfolding scaled
  scaled_prefix base none = none
  scaled_prefix base (some (n, behind)) = scaled base n behind

  unfoldable pub unit_suffix_scaled : Carrier → Bytes → Option Carrier
  unfolding c_strtod_prefix scaled_prefix
  unit_suffix_scaled base s = scaled_prefix base (c_strtod_prefix s)

  unfoldable pub unit_atoi_like_bytes : Bytes → Option Carrier
  unfolding unit_suffix_scaled
  unit_atoi_like_bytes s = unit_suffix_scaled (of_ℕ 1024) s

  unfoldable pub unit_atof_rate_like_bytes : Bytes → Option Carrier
  unfolding unit_suffix_scaled
  unit_atof_rate_like_bytes s = unit_suffix_scaled (of_ℕ 1000) s

  unfoldable pub atof_like_bytes : Bytes → Carrier
  unfolding c_strtod_prefix
  atof_like_bytes s = elim (c_strtod_prefix s) [ none ↦ of_ℕ 0 | some (n, behind) ↦ n ]

  -- From 2^63 on the top bit is folded.
  unfoldable pub c_double_to_u64 : Carrier → ℕ
  c_double_to_u64 n =
      let two63 = of_ℕ (2 ^ 63) in
      if is_nan n
      then 2 ^ 63
      else if lt n two63
      then as_u64 (to_i64 n)
      else (let d = sub n two63 in
          let i = if lt d two63 then to_i64 d else negsuc (2 ^ 63 - 1) in flip_top (as_u64 i))
