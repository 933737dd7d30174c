-- ===== src/Utils/Tos.antt =====
-- The `--dscp` and `-S/--tos` values of riperf3/src/utils.rs.
pub mod Range
use Prim.Native.String.{String}
use riperf.Base.{
  ℕ, ◌+◌, ◌-◌, ◌*◌, ◌^◌, Bool, true, false, ◌&&◌, ◌||◌, not, List, [], ◌∷◌, ◌++◌, Option, none,
  some, ℤ, pos, negsuc, leb_ℤ, leb, Bytes, codes, bytes_eq, ◌==◌, if◌then◌else◌, length, ltb,
}
use riperf.Base.Decimal.{show_ℤ, parse_signed}
use riperf.Errors.{Configured, ConfigError, ok, err, invalid_value, ◌>>=◌}

-- `to_lowercase`, on ASCII letters
to_lower : ℕ → ℕ
to_lower c = if leb b'A' c && leb c b'Z' then c + 32 else c

lowercase : Bytes → Bytes
unfolding to_lower
lowercase [] = []
lowercase (c ∷ s) = to_lower c ∷ lowercase s

-- The symbolic names, in the order of the `match`.
abbrev pub dscp_names : List (String × ℕ)
dscp_names =
    ("cs0", 0)
    ∷ ("cs1", 8)
    ∷ ("cs2", 16)
    ∷ ("cs3", 24)
    ∷ ("cs4", 32)
    ∷ ("cs5", 40)
    ∷ ("cs6", 48)
    ∷ ("cs7", 56)
    ∷ ("af11", 10)
    ∷ ("af12", 12)
    ∷ ("af13", 14)
    ∷ ("af21", 18)
    ∷ ("af22", 20)
    ∷ ("af23", 22)
    ∷ ("af31", 26)
    ∷ ("af32", 28)
    ∷ ("af33", 30)
    ∷ ("af41", 34)
    ∷ ("af42", 36)
    ∷ ("af43", 38)
    ∷ ("ef", 46)
    ∷ ("voice-admit", 44)
    ∷ ("le", 1)
    ∷ []

find_name : Bytes → List (String × ℕ) → Option ℕ
find_name s [] = none
find_name s ((name, v) ∷ r) =
    let rest = find_name s r in if bytes_eq s (codes name) then some v else rest

-- The largest i32
abbrev pub i32_max : ℕ
i32_max = 2147483647

-- Base selection as in `strtol(s, _, 0)`.
unfoldable pub parse_int_base0 : Bytes → Option ℤ
unfolding parse_signed
parse_int_base0 [] = parse_signed 10 i32_max []
parse_int_base0 (a ∷ []) = parse_signed 10 i32_max (a ∷ [])
parse_int_base0 (a ∷ b ∷ s) =
    if a == b'0' && (b == b'x' || b == b'X')
    then parse_signed 16 i32_max s
    else if a == b'0'
    then parse_signed 8 i32_max (b ∷ s)
    else parse_signed 10 i32_max (a ∷ b ∷ s)

abbrev in_range : ℤ → ℕ → Bool
in_range v most = leb_ℤ (pos 0) v && leb_ℤ v (pos most)

-- `dscp_val << 2`
shift_checked : ℤ → Configured ℤ
shift_checked v =
    if in_range v 63
    then ok (pos (pos_of v * 4))
    else err (invalid_value (codes "dscp") (show_ℤ v ++ codes " out of range 0-63"))
  where
    pos_of : ℤ → ℕ
    pos_of (pos n) = n
    pos_of (negsuc n) = 0

unfoldable pub parse_dscp : Bytes → Configured ℤ
unfolding lowercase find_name parse_int_base0 shift_checked
parse_dscp s = elim (find_name (lowercase s) dscp_names) [
  | some v ↦ shift_checked (pos v)
  | none ↦ elim (parse_int_base0 s) [
    | some v ↦ shift_checked v
    | none ↦ err (invalid_value (codes "dscp") s)
  ]
]

-- `char::is_whitespace`, on ASCII
abbrev is_space : ℕ → Bool
is_space c = (leb 9 c && leb c 13) || c == 32

trim_start : Bytes → Bytes
trim_start [] = []
trim_start (c ∷ s) = let rest = trim_start s in if is_space c then rest else c ∷ s

-- `trim`: the end is cut where only blanks follow.
trim_end : Bytes → Bytes
unfolding trim_start
trim_end [] = []
trim_end (c ∷ s) = let rest = trim_end s in elim (trim_start (c ∷ s)) [ [] ↦ [] | _ ∷ _ ↦ c ∷ rest ]

unfoldable pub trim : Bytes → Bytes
unfolding trim_start trim_end
trim s = trim_end (trim_start s)

abbrev bad_tos : Bytes → ConfigError
bad_tos s =
    invalid_value (codes "tos") (codes "bad TOS value (must be between 0 and 255 inclusive): " ++ s)

unfoldable pub parse_tos : Bytes → Configured ℤ
parse_tos s = elim (parse_int_base0 (trim s)) [
  | none ↦ err (bad_tos s)
  | some v ↦ if in_range v 255 then ok v else err (bad_tos s)
]
