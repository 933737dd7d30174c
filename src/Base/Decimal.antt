-- ===== src/Base/Decimal.antt =====
-- Numbers as text: `format!("{n}")`, and the `from_str_radix` of the standard library, which `parse`
-- calls with radix 10. A number that does not fit its type is refused.
pub mod RoundTrip
use Prim.Native.Nat.{ℕ, zero, suc, ◌+◌, ◌-◌, ◌*◌, ◌/◌, ◌%◌}
use mathlib.Core.Bool.{Bool, true, false, ◌&&◌}
use mathlib.Core.Option.{Option, none, some}
use mathlib.Core.List.{List, [], ◌∷◌}
use riperf.Base.Tests.{ltb, leb, ◌==◌, if◌then◌else◌, map_opt}
use riperf.Base.Int.{ℤ, pos, negsuc}
use riperf.Base.Words.{Bytes}

digits : ℕ → ℕ → Bytes → Bytes
digits zero n out = out
digits (suc fuel) n out =
    let rest = digits fuel (n / 10) ((b'0' + n % 10) ∷ out) in if n == 0 then out else rest

unfoldable pub show_ℕ : ℕ → Bytes
unfolding digits
show_ℕ n = if n == 0 then b'0' ∷ [] else digits n n []

unfoldable pub show_ℤ : ℤ → Bytes
unfolding show_ℕ
show_ℤ (pos n) = show_ℕ n
show_ℤ (negsuc n) = b'-' ∷ show_ℕ (suc n)

-- `char::to_digit`
unfoldable pub to_digit : ℕ → ℕ → Option ℕ
to_digit radix c =
    let d =
      if leb b'0' c && leb c b'9'
      then c - b'0'
      else if leb b'a' c && leb c b'z'
      then c - b'a' + 10
      else if leb b'A' c && leb c b'Z'
      then c - b'A' + 10
      else 36 in
    if ltb d radix then some d else none

-- The digits of a number, read behind the value `acc`; `most` is the largest value that fits.
unfoldable pub scan : ℕ → ℕ → Bytes → ℕ → Option ℕ
scan radix most [] acc = some acc
scan radix most (c ∷ s) acc = elim (to_digit radix c) [
  | none ↦ none
  | some d ↦
      let rest = scan radix most s (acc * radix + d) in
      if ltb most (acc * radix + d) then none else rest
]

abbrev scan_some : ℕ → ℕ → Bytes → Option ℕ
unfolding scan
scan_some radix most [] = none
scan_some radix most (c ∷ s) = scan radix most (c ∷ s) 0

-- `u32::from_str_radix` and `u64::from_str_radix`, with the largest value of the type
unfoldable pub parse_unsigned : ℕ → ℕ → Bytes → Option ℕ
unfolding scan to_digit
parse_unsigned radix most [] = none
parse_unsigned radix most (c ∷ s) =
    if c == b'+' then scan_some radix most s else scan radix most (c ∷ s) 0

abbrev negate : ℕ → ℤ
negate zero = pos 0
negate (suc n) = negsuc n

-- `i32::from_str_radix` and `i64::from_str_radix`: the largest value, then the largest magnitude
-- below zero
unfoldable pub parse_signed : ℕ → ℕ → Bytes → Option ℤ
unfolding scan to_digit
parse_signed radix most [] = none
parse_signed radix most (c ∷ s) =
    if c == b'-'
    then map_opt negate (scan_some radix (suc most) s)
    else if c == b'+'
    then map_opt pos (scan_some radix most s)
    else map_opt pos (scan radix most (c ∷ s) 0)
