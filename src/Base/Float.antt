-- ===== src/Base/Float.antt =====
-- The `f64` of the program: its operations are the machine's, so the code is modelled over a
-- record of them. `whole` computes with integers, for the examples.
use Prim.Native.Nat.{ℕ, suc, ◌+◌, ◌/◌}
use mathlib.Core.Bool.{Bool, true}
use riperf.Base.Int.{ℤ, pos, negsuc, pos_part, neg_part, sub_ℕ, ◌+ℤ◌, ◌-ℤ◌, ◌*ℤ◌, ltb_ℤ, leb_ℤ}

pub record Float : Type 1 where
  pub Carrier : Type 0
  pub add : Carrier → Carrier → Carrier
  pub sub : Carrier → Carrier → Carrier
  pub mul : Carrier → Carrier → Carrier
  pub div : Carrier → Carrier → Carrier
  pub abs : Carrier → Carrier
  pub floor : Carrier → Carrier
  pub round : Carrier → Carrier
  -- `as f64` of an unsigned and of a signed integer
  pub of_ℕ : ℕ → Carrier
  pub of_ℤ : ℤ → Carrier
  -- `as u64`, which truncates and saturates
  pub to_u64 : Carrier → ℕ
  pub lt : Carrier → Carrier → Bool
  pub le : Carrier → Carrier → Bool
  pub is_finite : Carrier → Bool

-- Division that rounds towards zero, and gives 0 for a zero divisor.
abbrev pub div_ℤ : ℤ → ℤ → ℤ
div_ℤ (pos a) (pos b) = pos (a / b)
div_ℤ (pos a) (negsuc b) = sub_ℕ 0 (a / suc b)
div_ℤ (negsuc a) (pos b) = sub_ℕ 0 (suc a / b)
div_ℤ (negsuc a) (negsuc b) = pos (suc a / suc b)

abbrev pub whole : Float
whole = record {
  Carrier = ℤ;
  add = ◌+ℤ◌;
  sub = ◌-ℤ◌;
  mul = ◌*ℤ◌;
  div = div_ℤ;
  abs = λ a. pos (pos_part a + neg_part a);
  floor = λ a. a;
  round = λ a. a;
  of_ℕ = pos;
  of_ℤ = λ a. a;
  to_u64 = pos_part;
  lt = ltb_ℤ;
  le = leb_ℤ;
  is_finite = λ a. true;
}
