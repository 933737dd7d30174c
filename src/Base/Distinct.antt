-- ===== src/Base/Distinct.antt =====
-- Lists of distinct numbers, and how many of them fit under a bound.
use Prim.Native.Nat.{ℕ, zero, suc, ◌≤◌, ◌<◌}
use mathlib.Core.Logic.{◌≢◌}
use mathlib.Core.Bool.{not}
use mathlib.Core.List.{List, [], ◌∷◌}
use native.Mathlib.Omega.{arith}
use riperf.Base.Tests.{◌==◌}
use riperf.Base.Lists.{length, All, keep}

abbrev pub Lacks : ℕ → List ℕ → Type 0
Lacks n = All (λ x. x ≢ n)

abbrev pub Distinct : List ℕ → Type 0
Distinct [] = Unit
Distinct (x ∷ xs) = Lacks x xs × Distinct xs

abbrev pub InRange : ℕ → List ℕ → Type 0
InRange p = All (λ x. (0 < x) × (x ≤ p))

pub InRange-mono : (p q : ℕ) (xs : List ℕ) → p ≤ q → InRange p xs → InRange q xs
InRange-mono p q [] h r = tt
InRange-mono p q (x ∷ xs) h r = ((r.0.0, omega arith), InRange-mono p q xs h r.1)

without : ℕ → List ℕ → List ℕ
without n = keep (λ x. not (x == n))

without-Lacks : (n m : ℕ) (xs : List ℕ) → Lacks m xs → Lacks m (without n xs)
unfolding without
without-Lacks n m [] h = tt
without-Lacks n m (x ∷ xs) h = ground (arith, without-Lacks n m xs h.1)

without-Distinct : (n : ℕ) (xs : List ℕ) → Distinct xs → Distinct (without n xs)
unfolding without
without-Distinct n [] h = tt
without-Distinct n (x ∷ xs) h = ground (arith, without-Distinct n xs h.1, without-Lacks n x xs h.0)

without-InRange : (p : ℕ) (xs : List ℕ) → InRange (suc p) xs → InRange p (without (suc p) xs)
unfolding without
without-InRange p [] h = tt
without-InRange p (x ∷ xs) h = ground (arith, without-InRange p xs h.1)

length-without-Lacks : (n : ℕ) (xs : List ℕ) → Lacks n xs → length xs ≤ length (without n xs)
unfolding without
length-without-Lacks n [] h = omega arith
length-without-Lacks n (x ∷ xs) h = ground (arith, length-without-Lacks n xs h.1)

length-without : (n : ℕ) (xs : List ℕ) → Distinct xs → length xs ≤ suc (length (without n xs))
unfolding without
length-without n [] h = omega arith
length-without n (x ∷ xs) h = ground (arith, length-without n xs h.1, length-without-Lacks n xs)

-- Distinct numbers from 1 to p are at most p.
pub length-le_of_Distinct : (p : ℕ) (xs : List ℕ) → Distinct xs → InRange p xs → length xs ≤ p
length-le_of_Distinct zero [] d r = omega arith
length-le_of_Distinct zero (x ∷ xs) d r = absurd (omega arith)
length-le_of_Distinct (suc p) xs d r = omega (
  arith,
  length-without (suc p) xs d,
  length-le_of_Distinct p (without (suc p) xs) (without-Distinct (suc p) xs d)
      (without-InRange p xs r),
)
