-- ===== src/Examples/Control.antt =====
-- Examples of the control protocol and of the credentials.
use riperf.Base.{
  ◌+◌, ◌-◌, ◌≤◌, ◌≡◌, refl, sym, ◌-ℤ◌, ◌↔◌, true, [], ◌∷◌, Option, none, some, pos, Bytes, codes,
  arith,
}
use riperf.Base.Text.{lines_from}
use riperf.Auth.Token.{
  Crypto, ok, plaintext, decode_auth_token, encode_auth_token, parse_public_key_pem,
  parse_private_key_pem,
}
use riperf.Auth.TokenRoundTrip.{KeysMatch, OnOneLine, decode_auth_token-encode_auth_token}
use riperf.Auth.Credentials.{check_credentials, password_hash}
use riperf.Auth.Admission.{Listed, check_credentials-ok_iff}
use riperf.Protocol.Framing.{Connection, data_in}
use riperf.Protocol.Framing.Segments.{Flowing}

-- Keys that any text loads, and encryption that changes nothing.
abbrev pub plain_crypto : Crypto
plain_crypto = record {
  PublicKey = Unit;
  PrivateKey = Unit;
  public_from_spki = λ pem. some tt;
  public_from_pkcs1 = λ pem. none;
  private_from_pkcs8 = λ pem. some tt;
  private_from_pkcs1 = λ pem. none;
  encrypt = λ seed pkcs1 key text. some text;
  decrypt = λ pkcs1 key text. some text;
  base64_encode = λ b. b;
  base64_decode = λ b. some b;
  sha256 = λ b. 171 ∷ [];
  is_utf8 = λ b. true;
}

plain_keys : KeysMatch plain_crypto [] [] true
unfolding parse_public_key_pem parse_private_key_pem
plain_keys = record {
  public = tt;
  private = tt;
  public_loads = refl;
  private_loads = refl;
  inverse = λ seed text sealed e. sym e;
  base64 = λ b. refl;
}

mario_OnOneLine : OnOneLine (codes "mario")
mario_OnOneLine = record { no_newline = omega arith; plain_end = refl }

secret_OnOneLine : OnOneLine (codes "pass word ")
secret_OnOneLine = record { no_newline = omega arith; plain_end = refl }

token_made :
    encode_auth_token plain_crypto 7 (pos 1700000000) (codes "mario") (codes "pass word ") [] true
    ≡ ok (plaintext (codes "mario") (codes "pass word ") (pos 1700000000))
unfolding encode_auth_token parse_public_key_pem
token_made = refl

decode_auth_token-encode_auth_token_example :
    decode_auth_token plain_crypto
      (plaintext (codes "mario") (codes "pass word ") (pos 1700000000))
      []
      true
    ≡ ok (codes "mario", codes "pass word ", pos 1700000000)
decode_auth_token-encode_auth_token_example =
    decode_auth_token-encode_auth_token plain_crypto [] [] true 7 (pos 1700000000) (codes "mario")
      (codes "pass word ") (plaintext (codes "mario") (codes "pass word ") (pos 1700000000))
      plain_keys mario_OnOneLine secret_OnOneLine (omega arith) refl token_made

abbrev users : Bytes
users = codes "# users\n\n  mario,ab  \nluigi,cd"

check_credentials-ok_iff_example :
    (check_credentials plain_crypto
        (pos 1000)
        (codes "mario")
        (codes "x")
        (pos 1008)
        (some users)
        10
      ≡ ok tt)
    ↔ (((1000 - 1008) + (1008 - 1000) ≤ 10)
        × Listed
            (codes "mario")
            (password_hash plain_crypto (codes "mario") (codes "x"))
            (lines_from [] users))
check_credentials-ok_iff_example =
    check_credentials-ok_iff plain_crypto 1000 1008 (codes "mario") (codes "x") users 10
      (omega arith) (omega arith)

-- The user is listed, and is let in.
mario_admitted :
    check_credentials plain_crypto (pos 1000) (codes "mario") (codes "x") (pos 1008) (some users) 10
    ≡ ok tt
unfolding check_credentials ◌-ℤ◌
mario_admitted = refl

-- A parser that takes every text, and two pieces that cut both the size and the body.
abbrev any_text : Bytes → Option Bytes
any_text b = some b

abbrev pieces : Connection
pieces = data_in (0 ∷ 0 ∷ []) ∷ data_in (0 ∷ 2 ∷ b'{' ∷ []) ∷ data_in (b'}' ∷ 9 ∷ []) ∷ []

pieces_Flowing : Flowing pieces
pieces_Flowing = ground arith

abbrev cut : Connection
cut = data_in (0 ∷ 0 ∷ []) ∷ data_in (0 ∷ 2 ∷ b'{' ∷ []) ∷ []
