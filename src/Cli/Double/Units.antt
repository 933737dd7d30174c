-- ===== src/Cli/Double/Units.antt =====
-- What the parsers with a unit suffix make of a whole number.
use riperf.Base.{
  any, ℕ, ◌≡◌, ◌≢◌, refl, ◌∙◌, pos, Option, ap, Bool, true, false, ◌||◌, [], ◌∷◌, ◌++◌, none, some,
  Bytes, codes, length, take, drop, get_elem?, leb, ◌==◌, is_digit, arith, All,
}
use riperf.Base.Float.{Float}
use riperf.Base.Decimal.{show_ℕ}
use riperf.Base.Decimal.RoundTrip.{IsDigit, show_ℕ-IsDigit, show_ℕ-ne-nil}
use riperf.Cli.{is_c_space, skip_spaces}
use riperf.Cli.Atoi.{skip_blanks}
use riperf.Cli.Double.{
  Double, starts, digit_count, is_byte, sign, exponent_end, mantissa_end, is_hex, number,
  c_strtod_prefix, scaled, unit_suffix_scaled, scaled_prefix,
}

-- What stands behind the digits does not go on with the number.
abbrev pub Ends : Bytes → Type 0
Ends [] = Unit
Ends (c ∷ s) = (is_digit c || c == b'.' || c == b'e' || c == b'E' || c == b'x' || c == b'X') ≡ false

digit_count_lem :
    (ds behind : Bytes) → All IsDigit ds → Ends behind → digit_count (ds ++ behind) ≡ length ds
unfolding digit_count
digit_count_lem [] [] d h = refl
digit_count_lem [] (c ∷ s) d h = ground (arith, h)
digit_count_lem (x ∷ ds) behind (dx, d) h = ground (arith, dx, digit_count_lem ds behind d h)

take_front : (ds behind : Bytes) → take (length ds) (ds ++ behind) ≡ ds
take_front [] behind = refl
take_front (x ∷ ds) behind = ap (◌∷◌ x) (take_front ds behind)

drop_front : (ds behind : Bytes) → drop (length ds) (ds ++ behind) ≡ behind
drop_front [] behind = refl
drop_front (x ∷ ds) behind = drop_front ds behind

behind_front : (ds behind : Bytes) → get_elem? (ds ++ behind) (length ds) ≡ get_elem? behind 0
behind_front [] behind = refl
behind_front (x ∷ ds) behind = behind_front ds behind

no_byte :
    (c : ℕ) (behind : Bytes)
    → (c == b'.' || c == b'e' || c == b'E' || c == b'x' || c == b'X') ≡ true
    → Ends behind
    → is_byte c (get_elem? behind 0) ≡ false
no_byte c [] k h = refl
no_byte c (b ∷ s) k h = ground (arith, k, h)

mantissa_end_lem :
    (x : ℕ) (ds behind : Bytes)
    → All IsDigit (x ∷ ds)
    → Ends behind
    → mantissa_end (x ∷ ds ++ behind) ≡ some (length (x ∷ ds))
unfolding mantissa_end
mantissa_end_lem x ds behind d h =
    rw (digit_count_lem (x ∷ ds) behind d h, behind_front ds behind, no_byte b'.' behind refl h)
      (ground arith)

exponent_end_lem :
    (ds behind : Bytes) → Ends behind → exponent_end (ds ++ behind) (length ds) ≡ length ds
unfolding exponent_end
exponent_end_lem ds behind h =
    rw (behind_front ds behind, no_byte b'e' behind refl h, no_byte b'E' behind refl h) refl

starts_digit :
    (p0 x : ℕ) (p s : Bytes) → IsDigit x → leb b'a' p0 ≡ true → starts (p0 ∷ p) (x ∷ s) ≡ false
starts_digit p0 x p s d k = ground (arith, d, k)

no_hex :
    (x : ℕ) (ds behind : Bytes) → All IsDigit ds → Ends behind → is_hex (x ∷ ds ++ behind) ≡ false
no_hex x [] [] d h = ground arith
no_hex x [] (c ∷ s) d h = ground (arith, h)
no_hex x (y ∷ ds) behind (dy, d) h = ground (arith, dy)

digit_front :
    (ds behind : Bytes)
    → All IsDigit ds
    → ds ≢ []
    → (skip_spaces (ds ++ behind) ≡ ds ++ behind) × (sign (ds ++ behind) ≡ (false, false))
unfolding skip_spaces
digit_front [] behind d ne = absurd (ne refl)
digit_front (x ∷ ds) behind d ne = ground arith

-- Nothing, or a minus or a plus
pub data Sign : Type 0 where
  unsigned minus plus : Sign

abbrev pub sign_text : Sign → Bytes
sign_text unsigned = []
sign_text minus = b'-' ∷ []
sign_text plus = b'+' ∷ []

-- What stands behind a number: nothing, a unit in a capital or a small letter, or another byte; and the bytes
-- behind it.
pub data Suffix : Type 0 where
  bare : Suffix
  kilo mega giga tera : Bool → Bytes → Suffix
  foreign : ℕ → Bytes → Suffix

abbrev pub suffix_text : Suffix → Bytes
suffix_text bare = []
suffix_text (kilo true junk) = b'K' ∷ junk
suffix_text (kilo false junk) = b'k' ∷ junk
suffix_text (mega true junk) = b'M' ∷ junk
suffix_text (mega false junk) = b'm' ∷ junk
suffix_text (giga true junk) = b'G' ∷ junk
suffix_text (giga false junk) = b'g' ∷ junk
suffix_text (tera true junk) = b'T' ∷ junk
suffix_text (tera false junk) = b't' ∷ junk
suffix_text (foreign c junk) = c ∷ junk

abbrev pub Written : Suffix → Type 0
Written (foreign c junk) = (any (λ u. u == c) (codes "kmgtKMGT") ≡ false) × Ends (c ∷ junk)
Written _ = Unit

module _ {F : Float} (D : Double F) where
  open D use {parse, powi}
  open F use {Carrier, mul}

  number_lem :
      (m : Bool) (signs ds behind : Bytes)
      → All IsDigit ds
      → ds ≢ []
      → Ends behind
      → number D m signs (ds ++ behind) ≡ some (parse (signs ++ ds), length ds)
  unfolding number
  number_lem m signs [] behind d ne h = absurd (ne refl)
  number_lem m signs (x ∷ ds) behind (dx, d) ne h =
      rw
        (
          starts_digit b'i' x (codes "nfinity") (ds ++ behind) dx refl,
          starts_digit b'i' x (codes "nf") (ds ++ behind) dx refl,
          starts_digit b'n' x (codes "an") (ds ++ behind) dx refl,
          no_hex x ds behind d h,
          mantissa_end_lem x ds behind (dx, d) h,
          exponent_end_lem (x ∷ ds) behind h,
          take_front ds behind,
        )
        refl

  c_strtod_prefix-digits :
      (blanks ds behind : Bytes) (s : Sign)
      → All (λ c. is_c_space c ≡ true) blanks
      → All IsDigit ds
      → ds ≢ []
      → Ends behind
      → c_strtod_prefix D (blanks ++ (sign_text s ++ (ds ++ behind)))
        ≡ some (parse (sign_text s ++ ds), behind)
  unfolding c_strtod_prefix
  c_strtod_prefix-digits blanks ds behind unsigned b d ne h =
      let (front, no_sign) = digit_front ds behind d ne in
      rw
        (
          skip_blanks blanks (ds ++ behind) b front,
          no_sign,
          number_lem false [] ds behind d ne h,
          drop_front ds behind,
        )
        refl
  c_strtod_prefix-digits blanks ds behind minus b d ne h =
      rw
        (
          skip_blanks blanks (b'-' ∷ ds ++ behind) b refl,
          number_lem true (b'-' ∷ []) ds behind d ne h,
          drop_front ds behind,
        )
        refl
  c_strtod_prefix-digits blanks ds behind plus b d ne h =
      rw
        (
          skip_blanks blanks (b'+' ∷ ds ++ behind) b refl,
          number_lem false (b'+' ∷ []) ds behind d ne h,
          drop_front ds behind,
        )
        refl

  c_strtod_prefix-show_ℕ :
      (base : Carrier) (blanks behind : Bytes) (s : Sign) (n : ℕ)
      → All (λ c. is_c_space c ≡ true) blanks
      → Ends behind
      → unit_suffix_scaled D base (blanks ++ (sign_text s ++ (show_ℕ n ++ behind)))
        ≡ scaled D base (parse (sign_text s ++ show_ℕ n)) behind
  unfolding unit_suffix_scaled
  c_strtod_prefix-show_ℕ base blanks behind s n b h =
      ap (scaled_prefix D base)
        (c_strtod_prefix-digits blanks (show_ℕ n) behind s b (show_ℕ-IsDigit n) (show_ℕ-ne-nil n) h)

  -- What a unit stands for.
  abbrev pub worth : Carrier → Carrier → Suffix → Option Carrier
  worth base v bare = some v
  worth base v (kilo big junk) = some (mul v base)
  worth base v (mega big junk) = some (mul v (powi base (pos 2)))
  worth base v (giga big junk) = some (mul v (powi base (pos 3)))
  worth base v (tera big junk) = some (mul v (powi base (pos 4)))
  worth base v (foreign c junk) = none

  scaled-worth :
      (base v : Carrier) (u : Suffix) → Written u → scaled D base v (suffix_text u) ≡ worth base v u
  unfolding scaled
  scaled-worth base v bare w = refl
  scaled-worth base v (kilo true junk) w = refl
  scaled-worth base v (kilo false junk) w = refl
  scaled-worth base v (mega true junk) w = refl
  scaled-worth base v (mega false junk) w = refl
  scaled-worth base v (giga true junk) w = refl
  scaled-worth base v (giga false junk) w = refl
  scaled-worth base v (tera true junk) w = refl
  scaled-worth base v (tera false junk) w = refl
  scaled-worth base v (foreign c junk) w = ground (arith, w.0)

  suffix-Ends : (u : Suffix) → Written u → Ends (suffix_text u)
  suffix-Ends bare w = tt
  suffix-Ends (kilo true junk) w = refl
  suffix-Ends (kilo false junk) w = refl
  suffix-Ends (mega true junk) w = refl
  suffix-Ends (mega false junk) w = refl
  suffix-Ends (giga true junk) w = refl
  suffix-Ends (giga false junk) w = refl
  suffix-Ends (tera true junk) w = refl
  suffix-Ends (tera false junk) w = refl
  suffix-Ends (foreign c junk) w = w.1

  -- A whole number in decimal, with or without a sign, behind blanks, has the value of its text, times the
  -- base for K, its square for M, its cube for G and its fourth power for T, in small or capital letters,
  -- whatever follows the letter; a byte that is none of these, and none that goes on with the number,
  -- makes it invalid.
  pub unit_suffix_scaled-show_ℕ :
      (base : Carrier) (blanks : Bytes) (s : Sign) (n : ℕ) (u : Suffix)
      → All (λ c. is_c_space c ≡ true) blanks
      → Written u
      → unit_suffix_scaled D base (blanks ++ (sign_text s ++ (show_ℕ n ++ suffix_text u)))
        ≡ worth base (parse (sign_text s ++ show_ℕ n)) u
  unit_suffix_scaled-show_ℕ base blanks s n u b w =
      c_strtod_prefix-show_ℕ base blanks (suffix_text u) s n b (suffix-Ends u w)
      ∙ scaled-worth base (parse (sign_text s ++ show_ℕ n)) u w
