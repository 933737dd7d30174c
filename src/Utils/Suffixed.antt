-- ===== src/Utils/Suffixed.antt =====
-- The numbers with a suffix and the keepalive values of riperf3/src/utils.rs. `parse::<f64>` is an argument; a
-- text is its bytes, and blanks are the ASCII ones.
pub mod Keepalive
use riperf.Base.{
  ℕ, suc, zero, ◌+◌, ◌-◌, ◌*◌, ◌^◌, Bool, true, false, not, ◌||◌, List, [], ◌∷◌, ◌++◌, Option, none,
  some, Bytes, codes, length, take, get_elem?, ltb, ◌==◌, if◌then◌else◌,
}
use riperf.Base.Float.{Float}
use riperf.Base.Text.{trim, split_once}
use riperf.Base.Decimal.{parse_unsigned, show_ℕ}
use riperf.Errors.{Configured, ConfigError, ok, err, invalid_value, ◌>>=◌}
use riperf.Utils.Limits.{max_burst}

abbrev pub largest_u32 : ℕ
largest_u32 = 4294967295

-- The level of a suffix: how often the base multiplies.
unfoldable pub suffix_level : Option ℕ → ℕ
suffix_level none = 0
suffix_level (some c) =
    if c == b'k' || c == b'K'
    then 1
    else if c == b'm' || c == b'M'
    then 2
    else if c == b'g' || c == b'G'
    then 3
    else if c == b't' || c == b'T'
    then 4
    else 0

abbrev pub bad_number : Bytes → ConfigError
bad_number s = invalid_value (codes "number") s

-- A burst that is given is from 1 to the maximum.
unfoldable pub burst_count : Bytes → Configured ℕ
unfolding parse_unsigned
burst_count s = elim (parse_unsigned 10 largest_u32 s) [
  | none ↦ err (invalid_value (codes "burst count") s)
  | some n ↦
      if n == 0 || ltb max_burst n
      then err (
          invalid_value (codes "burst count") (codes "invalid burst count (maximum = 1000): " ++ s))
      else ok n
]

module _ (F : Float) (parse : Bytes → Option F.Carrier) where
  open F use {of_ℕ, mul, lt, le, is_finite, to_u64}

  -- The number scaled, unless it is negative or does not fit in a u64.
  unfoldable pub scaled_number : Bytes → ℕ → F.Carrier → Configured ℕ
  scaled_number s multiplier n =
      let v = mul n (of_ℕ multiplier) in
      if not (is_finite n) || lt n (of_ℕ 0)
      then err (bad_number s)
      else if le (of_ℕ 18446744073709551615) v
      then err (bad_number (s ++ codes " overflows u64"))
      else ok (to_u64 v)

  -- Of a text without blanks around it.
  unfoldable pub trimmed_suffixed : Bytes → ℕ → Configured ℕ
  unfolding suffix_level scaled_number
  trimmed_suffixed [] base = err (bad_number [])
  trimmed_suffixed (c ∷ t) base =
      let s = c ∷ t in
      let level = suffix_level (get_elem? s (length t)) in
      elim (parse (if level == 0 then s else take (length t) s)) [
        | none ↦ err (bad_number s)
        | some n ↦ scaled_number s (base ^ level) n
      ]

  unfoldable pub parse_suffixed : Bytes → ℕ → Configured ℕ
  unfolding trim trimmed_suffixed
  parse_suffixed s base = trimmed_suffixed (trim s) base

  unfoldable pub parse_kmg : Bytes → Configured ℕ
  unfolding parse_suffixed
  parse_kmg s = parse_suffixed s 1024

  unfoldable pub parse_rate : Bytes → Configured ℕ
  unfolding parse_suffixed
  parse_rate s = parse_suffixed s 1000

  unfoldable pub parse_bitrate : Bytes → Configured (ℕ × ℕ)
  unfolding trim split_once parse_rate burst_count
  parse_bitrate s = elim (split_once b'/' (trim s)) [
    | none ↦ do rate ← parse_rate (trim s); ok (rate, 0)
    | some (rate_str, burst_str) ↦ do
      rate ← parse_rate rate_str
      burst ← burst_count burst_str
      ok (rate, burst)
  ]

-- `split` at a byte
abbrev pub with_first : ℕ → List Bytes → List Bytes
with_first c [] = (c ∷ []) ∷ []
with_first c (p ∷ ps) = (c ∷ p) ∷ ps

unfoldable pub split : ℕ → Bytes → List Bytes
split sep [] = [] ∷ []
split sep (c ∷ s) = let rest = split sep s in if c == sep then [] ∷ rest else with_first c rest

-- `p.trim()`, if it is not empty
abbrev pub filled : Bytes → Option ℕ
unfolding parse_unsigned
filled [] = none
filled (c ∷ s) = parse_unsigned 10 largest_u32 (c ∷ s)

abbrev pub keepalive_part : Option Bytes → Option ℕ
unfolding trim filled
keepalive_part none = none
keepalive_part (some p) = filled (trim p)

abbrev pub keepalive_parts : List Bytes → Option ℕ × (Option ℕ × Option ℕ)
unfolding keepalive_part
keepalive_parts parts = (
  keepalive_part (get_elem? parts 0),
  (keepalive_part (get_elem? parts 1), keepalive_part (get_elem? parts 2)),
)

unfoldable pub parse_keepalive : Bytes → Option ℕ × (Option ℕ × Option ℕ)
unfolding split keepalive_parts
parse_keepalive s = keepalive_parts (split b'/' s)
