-- ===== src/Base/Lines.antt =====
-- Lines and blanks of a text: what `lines` and `trim` leave as it is.
use Prim.Native.Nat.{ℕ}
use mathlib.Core.Path.{◌≡◌, refl, ap}
use mathlib.Core.Logic.{◌≢◌}
use mathlib.Core.Bool.{false}
use mathlib.Core.List.{[], ◌∷◌, ◌++◌, append_assoc, append-nil}
use native.Mathlib.Omega.{arith}
use riperf.Base.Lists.{All}
use riperf.Base.Int.{ℤ, pos, negsuc}
use riperf.Base.Words.{Bytes}
use riperf.Base.Decimal.{show_ℕ, show_ℤ}
use riperf.Base.Decimal.RoundTrip.{IsDigit, show_ℕ-IsDigit}
use riperf.Base.Distinct.{Lacks}
use riperf.Base.Text.{is_space, trim_start, trim_end, trim, strip_cr, last_line, lines_from}

abbrev pub newline : ℕ
newline = b'\n'

pub lines_from_line :
    (line xs rest : Bytes)
    → Lacks newline xs
    → lines_from line (xs ++ newline ∷ rest) ≡ strip_cr (line ++ xs) ∷ lines_from [] rest
unfolding lines_from
lines_from_line line [] rest h = rw (append-nil line) refl
lines_from_line line (c ∷ xs) rest h =
    ground (arith, lines_from_line (line ++ c ∷ []) xs rest h.1, append_assoc line (c ∷ []) xs)

pub lines_from_last :
    (line xs : Bytes) → Lacks newline xs → lines_from line xs ≡ last_line (line ++ xs)
unfolding lines_from
lines_from_last line [] h = rw (append-nil line) refl
lines_from_last line (c ∷ xs) h =
    ground (arith, lines_from_last (line ++ c ∷ []) xs h.1, append_assoc line (c ∷ []) xs)

-- A text with a plain byte in front ends as it did.
pub strip_cr-cons : (c : ℕ) (s : Bytes) → c ≢ b'\r' → strip_cr s ≡ s → strip_cr (c ∷ s) ≡ c ∷ s
strip_cr-cons c [] h e = ground arith
strip_cr-cons c (d ∷ s) h e = ap (◌∷◌ c) e

abbrev pub Solid : Bytes → Type 0
Solid = All (λ c. is_space c ≡ false)

trim_start-Solid : (s : Bytes) → Solid s → trim_start s ≡ s
trim_start-Solid [] h = refl
trim_start-Solid (c ∷ s) h = ground arith

trim_end-Solid : (s : Bytes) → Solid s → trim_end s ≡ s
trim_end-Solid [] h = refl
trim_end-Solid (c ∷ s) h = rw (h.0, trim_end) (ap (◌∷◌ c) (trim_end-Solid s h.1))

pub trim-Solid : (s : Bytes) → Solid s → trim s ≡ s
unfolding trim
trim-Solid s h = rw (trim_start-Solid s h) (trim_end-Solid s h)

digits-Solid : (s : Bytes) → All IsDigit s → Solid s
digits-Solid [] h = tt
digits-Solid (c ∷ s) h = (ground arith, digits-Solid s h.1)

digits-Lacks : (s : Bytes) → All IsDigit s → Lacks newline s
digits-Lacks [] h = tt
digits-Lacks (c ∷ s) h = (omega arith, digits-Lacks s h.1)

pub show_ℤ-Solid : (a : ℤ) → Solid (show_ℤ a)
unfolding show_ℤ
show_ℤ-Solid (pos n) = digits-Solid (show_ℕ n) (show_ℕ-IsDigit n)
show_ℤ-Solid (negsuc n) = (refl, digits-Solid (show_ℕ (ℕ.suc n)) (show_ℕ-IsDigit (ℕ.suc n)))

pub show_ℤ-Lacks : (a : ℤ) → Lacks newline (show_ℤ a)
unfolding show_ℤ
show_ℤ-Lacks (pos n) = digits-Lacks (show_ℕ n) (show_ℕ-IsDigit n)
show_ℤ-Lacks (negsuc n) = (omega arith, digits-Lacks (show_ℕ (ℕ.suc n)) (show_ℕ-IsDigit (ℕ.suc n)))
