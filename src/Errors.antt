-- ===== src/Errors.antt =====
-- The configuration errors of riperf3/src/error.rs.
pub mod Runtime
pub mod Display
use riperf.Base.{Bytes, ◌≡◌, refl, Bool, true, false}

pub data ConfigError : Type 0 where
  missing_field : Bytes → ConfigError
  invalid_value : Bytes → Bytes → ConfigError
  unsupported : Bytes → ConfigError

-- `Result<T, ConfigError>`
pub data Configured {ℓ} (A : Type ℓ) : Type ℓ where
  ok : A → Configured A
  err : ConfigError → Configured A

infixl 5 ◌>>=◌ ◌>>◌
abbrev pub ◌>>=◌ {ℓ κ} :
    {A : Type ℓ} {B : Type κ} → Configured A → (A → Configured B) → Configured B
ok a >>= f = f a
err e >>= f = err e

abbrev pub ◌>>◌ {ℓ} : {B : Type ℓ} → Configured (Unit {0}) → Configured B → Configured B
m >> k = m >>= λ _. k

-- A chain that succeeds has succeeded step by step.
pub bind_ok {ℓ κ} :
    {A : Type ℓ} {B : Type κ} (m : Configured A) (f : A → Configured B) (b : B)
    → m >>= f ≡ ok b
    → (a : A) × (m ≡ ok a) × (f a ≡ ok b)
bind_ok (ok a) f b h = (a, refl, h)
bind_ok (err e) f b h = absurd (cc h)

-- A check that fails with an error
abbrev pub guard : Bool → ConfigError → Configured (Unit {0})
guard true e = ok tt
guard false e = err e

pub guard_ok : (t : Bool) (e : ConfigError) (u : Unit {0}) → guard t e ≡ ok u → t ≡ true
guard_ok true e u h = refl
guard_ok false e u h = absurd (cc h)

pub ok_injective {ℓ} : {A : Type ℓ} {a b : A} → ok a ≡ ok b → a ≡ b
ok_injective h = cc h
