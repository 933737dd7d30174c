-- ===== src/Base/Decimal/RoundTrip.antt =====
-- A number is read back from its decimal text.
use Prim.Native.Nat.{ℕ, zero, suc, ◌+◌, ◌*◌, ◌/◌, ◌%◌, ◌≤◌, ◌<◌}
use mathlib.Core.Path.{◌≡◌, refl, ◌∙◌}
use mathlib.Core.Logic.{inl, inr, ◌≢◌}
use mathlib.Core.Option.{some}
use mathlib.Core.List.{[], ◌∷◌}
use native.Mathlib.Omega.{arith}
use riperf.Base.Tests.{◌==◌, map_opt, Bool-cases}
use riperf.Base.Int.{ℤ, pos, negsuc, pos_part, neg_part}
use riperf.Base.Words.{Bytes}
use riperf.Base.Lists.{All}
use riperf.Base.Decimal.{
  negate, digits, show_ℕ, show_ℤ, to_digit, scan, parse_unsigned, parse_signed,
}

abbrev pub IsDigit : ℕ → Type 0
IsDigit c = (b'0' ≤ c) × (c ≤ b'9')

to_digit_lem : (d : ℕ) → d < 10 → to_digit 10 (b'0' + d) ≡ some d
unfolding to_digit
to_digit_lem d h = ground arith

scan_step :
    (most d acc : ℕ) (out : Bytes)
    → d < 10
    → acc * 10 + d ≤ most
    → scan 10 most ((b'0' + d) ∷ out) acc ≡ scan 10 most out (acc * 10 + d)
unfolding scan
scan_step most d acc out h k = rw (to_digit_lem d h, scan) (ground arith)

scan_last :
    (most n : ℕ) (out : Bytes)
    → n ≤ most
    → scan 10 most ((b'0' + n % 10) ∷ out) (n / 10) ≡ scan 10 most out n
scan_last most n out h =
    let e : n / 10 * 10 + n % 10 ≡ n = omega arith in
    scan_step most (n % 10) (n / 10) out (omega arith) (omega arith) ∙ rw e refl

scan-digits :
    (most fuel n : ℕ) (out : Bytes)
    → n ≤ fuel
    → n ≤ most
    → scan 10 most (digits fuel n out) 0 ≡ scan 10 most out n
unfolding digits
scan-digits most zero n out f h = let e : n ≡ 0 = omega arith in rw e refl
scan-digits most (suc fuel) n out f h =
    ground (arith, scan-digits most fuel (n / 10) ((b'0' + n % 10) ∷ out), scan_last most n out h)

digits-IsDigit : (fuel n : ℕ) (out : Bytes) → All IsDigit out → All IsDigit (digits fuel n out)
unfolding digits
digits-IsDigit zero n out h = h
digits-IsDigit (suc fuel) n out h = elim (Bool-cases (n == 0)) [
  | inl e ↦ rw e h
  | inr e ↦ rw e (digits-IsDigit fuel (n / 10) ((b'0' + n % 10) ∷ out) (omega arith, h))
]

digits-ne-nil : (fuel n : ℕ) (out : Bytes) → out ≢ [] → digits fuel n out ≢ []
unfolding digits
digits-ne-nil zero n out h = h
digits-ne-nil (suc fuel) n out h =
    ground (arith, digits-ne-nil fuel (n / 10) ((b'0' + n % 10) ∷ out))

pub show_ℕ-IsDigit : (n : ℕ) → All IsDigit (show_ℕ n)
unfolding show_ℕ
show_ℕ-IsDigit n = ground (arith, digits-IsDigit n n [])

cons_of_ne_nil : (s : Bytes) → s ≢ [] → (c : ℕ) × (r : Bytes) × (s ≡ c ∷ r)
cons_of_ne_nil [] h = absurd (h refl)
cons_of_ne_nil (c ∷ r) h = (c, r, refl)

pub show_ℕ-ne-nil : (n : ℕ) → show_ℕ n ≢ []
unfolding show_ℕ digits
show_ℕ-ne-nil zero = λ e. cc
show_ℕ-ne-nil (suc n) = ground (arith, digits-ne-nil n (suc n / 10) ((b'0' + suc n % 10) ∷ []))

-- The text of a number is a first digit and a rest.
pub show_ℕ-cons : (n : ℕ) → (c : ℕ) × (s : Bytes) × (show_ℕ n ≡ c ∷ s)
show_ℕ-cons n = cons_of_ne_nil (show_ℕ n) (show_ℕ-ne-nil n)

pub scan-show_ℕ : (most n : ℕ) → n ≤ most → scan 10 most (show_ℕ n) 0 ≡ some n
unfolding show_ℕ scan
scan-show_ℕ most n h = elim (Bool-cases (n == 0)) [
  | inl e ↦ rw e (scan_step most 0 0 [] (omega arith) (omega arith) ∙ ground arith)
  | inr e ↦ rw e (scan-digits most n n [] (omega arith) h)
]

parse_unsigned_digits :
    (most : ℕ) (t : Bytes) → All IsDigit t → t ≢ [] → parse_unsigned 10 most t ≡ scan 10 most t 0
unfolding parse_unsigned
parse_unsigned_digits most [] h ne = absurd (ne refl)
parse_unsigned_digits most (c ∷ s) h ne = ground arith

parse_signed_digits :
    (most : ℕ) (t : Bytes)
    → All IsDigit t
    → t ≢ []
    → parse_signed 10 most t ≡ map_opt pos (scan 10 most t 0)
unfolding parse_signed
parse_signed_digits most [] h ne = absurd (ne refl)
parse_signed_digits most (c ∷ s) h ne = ground arith

parse_signed_minus :
    (most : ℕ) (t : Bytes)
    → t ≢ []
    → parse_signed 10 most (b'-' ∷ t) ≡ map_opt negate (scan 10 (suc most) t 0)
unfolding parse_signed
parse_signed_minus most [] ne = absurd (ne refl)
parse_signed_minus most (c ∷ s) ne = refl

-- Every number that fits the type is read back from its text.
pub parse_unsigned-show_ℕ : (most n : ℕ) → n ≤ most → parse_unsigned 10 most (show_ℕ n) ≡ some n
parse_unsigned-show_ℕ most n h =
    parse_unsigned_digits most (show_ℕ n) (show_ℕ-IsDigit n) (show_ℕ-ne-nil n)
    ∙ scan-show_ℕ most n h

pub parse_signed-show_ℤ :
    (most : ℕ) (a : ℤ)
    → pos_part a ≤ most
    → neg_part a ≤ suc most
    → parse_signed 10 most (show_ℤ a) ≡ some a
unfolding show_ℤ
parse_signed-show_ℤ most (pos n) h k =
    parse_signed_digits most (show_ℕ n) (show_ℕ-IsDigit n) (show_ℕ-ne-nil n)
    ∙ rw (scan-show_ℕ most n h)
parse_signed-show_ℤ most (negsuc n) h k =
    parse_signed_minus most (show_ℕ (suc n)) (show_ℕ-ne-nil (suc n))
    ∙ rw (scan-show_ℕ (suc most) (suc n) k)
