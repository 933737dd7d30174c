-- ===== src/Utils/Tos/Range.antt =====
-- The TOS bytes that the parsers return.
use riperf.Base.{
  ℕ, ◌*◌, ◌≤◌, ◌≡◌, some, arith, ℤ, pos, negsuc, ◌≤ℤ◌, Bytes, Option-cases, inl, inr, refl,
  if◌then◌else◌, sym, ◌∙◌,
}
use riperf.Errors.{ok, err, ConfigError}
use riperf.Utils.Tos.{
  parse_dscp, parse_tos, shift_checked, in_range, find_name, lowercase, dscp_names, parse_int_base0,
  trim, bad_tos,
}

shift_checked_ok : (a v : ℤ) → shift_checked a ≡ ok v → (d : ℕ) × (d ≤ 63) × (v ≡ pos (d * 4))
unfolding shift_checked
shift_checked_ok (pos d) v h = (d, ground arith, ground arith)
shift_checked_ok (negsuc d) v h = absurd (ground arith)

-- Whatever the text, a DSCP value that is accepted is a six-bit code point in the upper bits of the
-- TOS byte: the two ECN bits are zero.
pub parse_dscp-ok :
    (s : Bytes) (v : ℤ) → parse_dscp s ≡ ok v → (d : ℕ) × (d ≤ 63) × (v ≡ pos (d * 4))
unfolding parse_dscp
parse_dscp-ok s v h = elim (Option-cases (find_name (lowercase s) dscp_names)) [
  | inr (n, e) ↦ shift_checked_ok (pos n) v (ground (arith, e))
  | inl e ↦ elim (Option-cases (parse_int_base0 s)) [
    | inr (a, f) ↦ shift_checked_ok a v (ground (arith, e, f))
    | inl f ↦ absurd (ground (arith, e, f))
  ]
]

byte_ok :
    (a v : ℤ) (e : ConfigError)
    → (if in_range a 255 then ok a else err e) ≡ ok v
    → (pos 0 ≤ℤ v) × (v ≤ℤ pos 255)
byte_ok (pos n) v e h = ground arith
byte_ok (negsuc n) v e h = absurd (ground arith)

read_tos :
    (s : Bytes) (a : ℤ)
    → parse_int_base0 (trim s) ≡ some a
    → parse_tos s ≡ (if in_range a 255 then ok a else err (bad_tos s))
unfolding parse_tos
read_tos s a e = rw (parse_tos, e) refl

-- Whatever the text, a TOS value that is accepted is a byte.
pub parse_tos-ok : (s : Bytes) (v : ℤ) → parse_tos s ≡ ok v → (pos 0 ≤ℤ v) × (v ≤ℤ pos 255)
unfolding parse_tos
parse_tos-ok s v h = elim (Option-cases (parse_int_base0 (trim s))) [
  | inl e ↦ absurd (ground (arith, e))
  | inr (a, e) ↦
      let checked : (if in_range a 255 then ok a else err (bad_tos s)) ≡ ok v =
        sym (read_tos s a e) ∙ h in
      byte_ok a v (bad_tos s) checked
]
