-- ===== src/Base/Words.antt =====
-- Bytes as numbers below 256; big-endian words; the bytes of an ASCII text.
use Prim.Native.Nat.{ℕ, ◌+◌, ◌*◌, ◌/◌, ◌%◌, ◌^◌, ◌<◌}
use Prim.Native.Char.{code}
use Prim.Native.String.{String}
use mathlib.Core.Path.{◌≡◌}
use mathlib.Core.Bool.{Bool, true, false, ◌&&◌}
use mathlib.Core.List.{List, [], ◌∷◌, ◌++◌}
use native.Mathlib.Omega.{arith}
use riperf.Base.Tests.{◌==◌, leb}

abbrev pub Bytes : Type 0
Bytes = List ℕ

abbrev pub IsByte : ℕ → Type 0
IsByte b = b < 256

abbrev pub codes : String → Bytes
codes String.[] = []
codes (String.◌∷◌ c s) = code c ∷ codes s

-- Equality of byte strings, a `match` on a text literal.
abbrev pub bytes_eq : Bytes → Bytes → Bool
bytes_eq [] [] = true
bytes_eq [] (y ∷ ys) = false
bytes_eq (x ∷ xs) [] = false
bytes_eq (x ∷ xs) (y ∷ ys) =
    let rest = bytes_eq xs ys in elim (x == y) [ true ↦ rest | false ↦ false ]

-- `u32::to_be_bytes` and `u64::to_be_bytes`
abbrev pub be32 : ℕ → Bytes
be32 n = n / 2 ^ 24 % 256 ∷ n / 2 ^ 16 % 256 ∷ n / 2 ^ 8 % 256 ∷ n % 256 ∷ []

abbrev pub be64 : ℕ → Bytes
be64 n = be32 (n / 2 ^ 32) ++ be32 (n % 2 ^ 32)

-- `u32::from_be_bytes` of four given bytes
abbrev pub word32 : ℕ → ℕ → ℕ → ℕ → ℕ
word32 a b c d = a * 2 ^ 24 + b * 2 ^ 16 + c * 2 ^ 8 + d

pub word32-be32 :
    (n : ℕ)
    → n < 2 ^ 32
    → word32 (n / 2 ^ 24 % 256) (n / 2 ^ 16 % 256) (n / 2 ^ 8 % 256) (n % 256) ≡ n
word32-be32 n h = omega arith

abbrev pub is_digit : ℕ → Bool
is_digit c = leb b'0' c && leb c b'9'
