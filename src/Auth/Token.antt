-- ===== src/Auth/Token.antt =====
-- `encode_auth_token` and `decode_auth_token` of riperf3/src/auth.rs.
use riperf.Base.{
  ℕ, Bool, true, false, List, [], ◌∷◌, ◌++◌, Option, none, some, ℤ, Bytes, codes, or_else,
}
use riperf.Base.Decimal.{show_ℤ, parse_signed}
use riperf.Base.Text.{trim, strip_prefix, lines_from}

pub record Crypto : Type 1 where
  pub PublicKey : Type 0
  pub PrivateKey : Type 0
  pub public_from_spki : Bytes → Option PublicKey
  pub public_from_pkcs1 : Bytes → Option PublicKey
  pub private_from_pkcs8 : Bytes → Option PrivateKey
  pub private_from_pkcs1 : Bytes → Option PrivateKey
  -- with PKCS#1 v1.5 padding, else OAEP; the number stands for the random generator's state
  pub encrypt : ℕ → Bool → PublicKey → Bytes → Option Bytes
  pub decrypt : Bool → PrivateKey → Bytes → Option Bytes
  pub base64_encode : Bytes → Bytes
  pub base64_decode : Bytes → Option Bytes
  pub sha256 : Bytes → Bytes
  pub is_utf8 : Bytes → Bool

-- Each stands for one `RiperfError::Protocol` message, the last for `RiperfError::AccessDenied`.
pub data AuthError : Type 0 where
  invalid_pem invalid_public_key invalid_private_key encrypt_failed : AuthError
  invalid_base64 decrypt_failed not_utf8 malformed_plaintext : AuthError
  skew_too_large : ℕ → ℕ → AuthError
  key_unreadable users_unreadable access_denied : AuthError

pub data Result (A : Type 0) : Type 0 where
  ok : A → Result A
  err : AuthError → Result A

infixl 5 ◌>>=◌
abbrev pub ◌>>=◌ : {A B : Type 0} → Result A → (A → Result B) → Result B
ok a >>= f = f a
err e >>= f = err e

abbrev pub or_fail : {A : Type 0} → Option A → AuthError → Result A
or_fail none e = err e
or_fail (some a) e = ok a

abbrev check : {A : Type 0} → Bool → A → AuthError → Result A
check true a e = ok a
check false a e = err e

-- The largest i64
abbrev pub i64_max : ℕ
i64_max = 9223372036854775807

-- "user: {u}\npwd:  {p}\nts:   {ts}"
unfoldable pub plaintext : Bytes → Bytes → ℤ → Bytes
plaintext username password ts =
    codes "user: "
    ++ (username
        ++ (b'\n' ∷ (codes "pwd:  " ++ (password ++ (b'\n' ∷ (codes "ts:   " ++ show_ℤ ts))))))

-- The three variables of the loop over the lines.
pub record Found : Type 0 where
  pub username : Option Bytes
  pub password : Option Bytes
  pub ts : Option ℤ

unfoldable pub read_line : Found → Bytes → Found
unfolding strip_prefix trim parse_signed
read_line f line = elim (strip_prefix (codes "user: ") line) [
  | some u ↦ record f { username = some u }
  | none ↦ elim (strip_prefix (codes "pwd:  ") line) [
    | some p ↦ record f { password = some p }
    | none ↦ elim (strip_prefix (codes "ts:   ") line) [
      | some t ↦ record f { ts = parse_signed 10 i64_max (trim t) }
      | none ↦ f
    ]
  ]
]

unfoldable pub read_lines : Found → List Bytes → Found
unfolding read_line
read_lines f [] = f
read_lines f (line ∷ r) = read_lines (read_line f line) r

unfoldable pub all_found : Found → Result (Bytes × Bytes × ℤ)
all_found f = elim f.username [
  | none ↦ err malformed_plaintext
  | some u ↦ elim f.password [
    | none ↦ err malformed_plaintext
    | some p ↦ elim f.ts [ none ↦ err malformed_plaintext | some t ↦ ok (u, p, t) ]
  ]
]

module _ (C : Crypto) where
  open C use {
    PublicKey, PrivateKey, public_from_spki, public_from_pkcs1, private_from_pkcs8,
    private_from_pkcs1, encrypt, decrypt, base64_encode, base64_decode, is_utf8,
  }

  unfoldable pub parse_public_key_pem : Bytes → Result PublicKey
  parse_public_key_pem pem = do
    text ← check (is_utf8 pem) pem invalid_pem
    or_fail (or_else (public_from_spki text) (public_from_pkcs1 text)) invalid_public_key

  unfoldable pub parse_private_key_pem : Bytes → Result PrivateKey
  parse_private_key_pem pem = do
    text ← check (is_utf8 pem) pem invalid_pem
    or_fail (or_else (private_from_pkcs8 text) (private_from_pkcs1 text)) invalid_private_key

  -- At the time `now` in seconds, with the generator's state `seed`.
  unfoldable pub encode_auth_token : ℕ → ℤ → Bytes → Bytes → Bytes → Bool → Result Bytes
  encode_auth_token seed now username password pubkey_pem use_pkcs1 = do
    pubkey ← parse_public_key_pem pubkey_pem
    ciphertext ←
        or_fail (encrypt seed use_pkcs1 pubkey (plaintext username password now)) encrypt_failed
    ok (base64_encode ciphertext)

  unfoldable pub decode_auth_token : Bytes → Bytes → Bool → Result (Bytes × Bytes × ℤ)
  decode_auth_token token privkey_pem use_pkcs1 = do
    privkey ← parse_private_key_pem privkey_pem
    ciphertext ← or_fail (base64_decode token) invalid_base64
    plaintext_bytes ← or_fail (decrypt use_pkcs1 privkey ciphertext) decrypt_failed
    text ← check (is_utf8 plaintext_bytes) plaintext_bytes not_utf8
    all_found
        (read_lines (record { username = none; password = none; ts = none }) (lines_from [] text))
