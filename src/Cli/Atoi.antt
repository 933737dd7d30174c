-- ===== src/Cli/Atoi.antt =====
-- What `atoi_like_bytes` reads.
use riperf.Base.{
  ℕ, suc, ◌+◌, ◌-◌, ◌*◌, ◌^◌, ◌<◌, ◌≡◌, ◌≢◌, refl, ◌∙◌, true, false, ◌&&◌, [], ◌∷◌, some, ◌++◌, ℤ,
  pos, negsuc, IsI32, Bytes, arith, leb, All,
}
use riperf.Base.Decimal.{show_ℕ, show_ℤ, scan, to_digit}
use riperf.Base.Decimal.RoundTrip.{IsDigit, show_ℕ-IsDigit, scan-show_ℕ, show_ℕ-ne-nil}
use riperf.Cli.{
  is_c_space, skip_spaces, leading_digits, saturate_long, signed_digits, truncate_i32,
  atoi_like_bytes,
}

-- A text in front of which no digit stands.
abbrev pub NoDigitFirst : Bytes → Type 0
NoDigitFirst [] = Unit
NoDigitFirst (c ∷ s) = (leb b'0' c && leb c b'9') ≡ false

leading_stops : (junk : Bytes) (acc : ℕ) → NoDigitFirst junk → leading_digits junk acc ≡ acc
unfolding leading_digits
leading_stops [] acc h = refl
leading_stops (c ∷ s) acc h = rw h refl

scan_digit :
    (most c acc v : ℕ) (t : Bytes)
    → IsDigit c
    → scan 10 most (c ∷ t) acc ≡ some v
    → scan 10 most t (acc * 10 + c - b'0') ≡ some v
unfolding scan to_digit
scan_digit most c acc v t d h =
    let digit : to_digit 10 c ≡ some (c - b'0') = ground arith in
    let same : acc * 10 + c - b'0' ≡ acc * 10 + (c - b'0') = omega arith in
    rw same (ground (arith, digit))

leading-scan :
    (most acc v : ℕ) (t junk : Bytes)
    → All IsDigit t
    → NoDigitFirst junk
    → scan 10 most t acc ≡ some v
    → leading_digits (t ++ junk) acc ≡ v
unfolding leading_digits scan
leading-scan most acc v [] junk d j h = leading_stops junk acc j ∙ cc h
leading-scan most acc v (c ∷ t) junk d j h =
    let more =
      leading-scan most (acc * 10 + c - b'0') v t junk d.1 j (scan_digit most c acc v t d.0 h) in
    ground arith

leading-show_ℕ :
    (n : ℕ) (junk : Bytes) → NoDigitFirst junk → leading_digits (show_ℕ n ++ junk) 0 ≡ n
leading-show_ℕ n junk j =
    leading-scan n 0 n (show_ℕ n) junk (show_ℕ-IsDigit n) j (scan-show_ℕ n n (omega arith))

pub skip_blanks :
    (blanks s : Bytes)
    → All (λ c. is_c_space c ≡ true) blanks
    → skip_spaces s ≡ s
    → skip_spaces (blanks ++ s) ≡ s
unfolding skip_spaces
skip_blanks [] s h e = e
skip_blanks (c ∷ blanks) s h e = rw h.0 (skip_blanks blanks s h.1 e)

digits_first :
    (t junk : Bytes)
    → All IsDigit t
    → t ≢ []
    → (skip_spaces (t ++ junk) ≡ t ++ junk)
      × (signed_digits (t ++ junk) ≡ saturate_long false (leading_digits (t ++ junk) 0))
unfolding skip_spaces signed_digits
digits_first [] junk d ne = absurd (ne refl)
digits_first (c ∷ t) junk d ne = ground arith

truncate_IsI32 : (a : ℤ) → IsI32 (truncate_i32 a)
truncate_IsI32 (pos n) = ground arith
truncate_IsI32 (negsuc n) = ground arith

saturate_pos : (n : ℕ) → n < 2 ^ 31 → truncate_i32 (saturate_long false n) ≡ pos n
unfolding saturate_long
saturate_pos n h = ground arith

saturate_neg : (n : ℕ) → n < 2 ^ 31 → truncate_i32 (saturate_long true (suc n)) ≡ negsuc n
unfolding saturate_long
saturate_neg n h = ground arith

-- Every i32, written in decimal behind blanks and before anything but a digit, is read back.
pub atoi_like_bytes-show_ℤ :
    (blanks junk : Bytes) (n : ℤ)
    → IsI32 n
    → All (λ c. is_c_space c ≡ true) blanks
    → NoDigitFirst junk
    → atoi_like_bytes (blanks ++ (show_ℤ n ++ junk)) ≡ n
unfolding atoi_like_bytes show_ℤ signed_digits skip_spaces
atoi_like_bytes-show_ℤ blanks junk (pos n) i b j =
    let (plain, read) = digits_first (show_ℕ n) junk (show_ℕ-IsDigit n) (show_ℕ-ne-nil n) in
    rw (skip_blanks blanks (show_ℕ n ++ junk) b plain, read, leading-show_ℕ n junk j)
      (saturate_pos n (omega arith))
atoi_like_bytes-show_ℤ blanks junk (negsuc n) i b j =
    rw (skip_blanks blanks (b'-' ∷ (show_ℕ (suc n) ++ junk)) b refl, leading-show_ℕ (suc n) junk j)
      (saturate_neg n (omega arith))

-- Whatever the argument, the value is one that an i32 holds.
pub atoi_like_bytes-IsI32 : (s : Bytes) → IsI32 (atoi_like_bytes s)
unfolding atoi_like_bytes
atoi_like_bytes-IsI32 s = truncate_IsI32 (signed_digits (skip_spaces s))
