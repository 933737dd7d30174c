-- ===== src/Utils/Suffixed/Keepalive.antt =====
-- Keepalive values are read back from their text.
use riperf.Base.{
  ℕ, ◌≤◌, ◌≡◌, ◌≢◌, refl, ◌∙◌, ap, [], ◌∷◌, ◌++◌, Option, none, some, Bytes, arith, All,
}
use riperf.Base.Text.{trim, trim_end}
use riperf.Base.Decimal.{show_ℕ, parse_unsigned}
use riperf.Base.Decimal.RoundTrip.{IsDigit, show_ℕ-IsDigit, show_ℕ-ne-nil, parse_unsigned-show_ℕ}
use riperf.Utils.Suffixed.{
  largest_u32, split, filled, keepalive_part, keepalive_parts, parse_keepalive,
}

split_piece : (ds s : Bytes) → All IsDigit ds → split b'/' (ds ++ b'/' ∷ s) ≡ ds ∷ split b'/' s
unfolding split
split_piece [] s h = refl
split_piece (x ∷ ds) s (hx, h) = ground (arith, hx, split_piece ds s h)

split_last : (ds : Bytes) → All IsDigit ds → split b'/' ds ≡ ds ∷ []
unfolding split
split_last [] h = refl
split_last (x ∷ ds) (hx, h) = ground (arith, hx, split_last ds h)

trim_end_digits : (ds : Bytes) → All IsDigit ds → trim_end ds ≡ ds
trim_end_digits [] h = refl
trim_end_digits (x ∷ ds) (hx, h) = ground (arith, hx, trim_end_digits ds h)

trim_digits : (ds : Bytes) → All IsDigit ds → trim ds ≡ ds
unfolding trim
trim_digits [] h = refl
trim_digits (x ∷ ds) (hx, h) = ground (arith, hx, trim_end_digits (x ∷ ds) (hx, h))

abbrev pub part_text : Option ℕ → Bytes
part_text none = []
part_text (some n) = show_ℕ n

abbrev pub Fits : Option ℕ → Type 0
Fits none = Unit
Fits (some n) = n ≤ largest_u32

part_text-digits : (o : Option ℕ) → All IsDigit (part_text o)
part_text-digits none = tt
part_text-digits (some n) = show_ℕ-IsDigit n

filled_digits : (ds : Bytes) → ds ≢ [] → filled ds ≡ parse_unsigned 10 largest_u32 ds
unfolding filled
filled_digits [] ne = absurd (ne refl)
filled_digits (x ∷ ds) ne = refl

part_back : (o : Option ℕ) → Fits o → keepalive_part (some (part_text o)) ≡ o
unfolding keepalive_part filled trim
part_back none h = refl
part_back (some n) h =
    ap filled (trim_digits (show_ℕ n) (show_ℕ-IsDigit n))
    ∙ filled_digits (show_ℕ n) (show_ℕ-ne-nil n)
    ∙ parse_unsigned-show_ℕ largest_u32 n h

-- Each of the three keepalive values that is given and fits in a u32 is read back from its text, and one
-- that is left empty is none.
pub parse_keepalive-part_text :
    (idle interval count : Option ℕ)
    → Fits idle
    → Fits interval
    → Fits count
    → parse_keepalive (part_text idle ++ (b'/' ∷ (part_text interval ++ (b'/' ∷ part_text count))))
      ≡ (idle, (interval, count))
unfolding parse_keepalive keepalive_parts
parse_keepalive-part_text idle interval count a b c =
    let parts =
      split_piece (part_text idle) (part_text interval ++ b'/' ∷ part_text count)
        (part_text-digits idle)
      ∙ ap (λ r. part_text idle ∷ r)
          (split_piece (part_text interval) (part_text count) (part_text-digits interval)
            ∙ ap (λ r. part_text interval ∷ r)
                (split_last (part_text count) (part_text-digits count))) in
    ap keepalive_parts parts ∙ rw (part_back idle a, part_back interval b, part_back count c) refl
