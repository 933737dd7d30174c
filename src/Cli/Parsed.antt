-- ===== src/Cli/Parsed.antt =====
-- The results of the option mapping in riperf3-cli/src/cli.rs, and the conversions into smaller integers.
use riperf.Base.{◌≡◌, refl, ℕ, Option, none, some, ℤ, pos, negsuc, Bytes, leb, if◌then◌else◌}
use riperf.Errors.{ConfigError, Configured}

-- `Box<dyn Error>`: a message, or an error of the builder.
pub data CliError : Type 0 where
  message : Bytes → CliError
  configuration : ConfigError → CliError

pub data Parsed (A : Type 0) : Type 0 where
  done : A → Parsed A
  refused : CliError → Parsed A

infixl 5 ◌>>=◌
abbrev pub ◌>>=◌ : {A B : Type 0} → Parsed A → (A → Parsed B) → Parsed B
done a >>= f = f a
refused e >>= f = refused e

-- `?` on a result of the builder
unfoldable pub configured : {A : Type 0} → Configured A → Parsed A
configured (Configured.ok a) = done a
configured (Configured.err e) = refused (configuration e)

pub bind_done :
    {A B : Type 0} (m : Parsed A) (f : A → Parsed B) (b : B)
    → m >>= f ≡ done b
    → (a : A) × (m ≡ done a) × (f a ≡ done b)
bind_done (done a) f b h = (a, refl, h)
bind_done (refused e) f b h = absurd (cc h)

pub configured_done :
    {A : Type 0} (r : Configured A) (a : A) → configured r ≡ done a → r ≡ Configured.ok a
unfolding configured
configured_done (Configured.ok x) a h = cc h
configured_done (Configured.err e) a h = absurd (cc h)

pub done_injective : {A : Type 0} {a b : A} → done a ≡ done b → a ≡ b
done_injective h = cc h

-- An option that was not given stays unset.
unfoldable pub optional : {A : Type 0} → (Bytes → Parsed A) → Option Bytes → Parsed (Option A)
optional f none = done none
optional f (some s) = elim (f s) [ done a ↦ done (some a) | refused e ↦ refused e ]

-- `try_from(..).unwrap_or(other)` into a type whose largest value is `most`
abbrev pub fits_or : ℕ → ℕ → ℤ → ℕ
fits_or most other (pos n) = if leb n most then n else other
fits_or most other (negsuc n) = other

abbrev pub u16_max : ℕ
u16_max = 65535

abbrev pub u32_max : ℕ
u32_max = 4294967295

abbrev pub u64_max : ℕ
u64_max = 18446744073709551615
