-- ===== src/Auth/TokenRoundTrip.antt =====
-- The server reads back the credentials that the client encoded.
use Prim.Native.String.{String}
use riperf.Base.{
  ℕ, ◌≤◌, ◌≡◌, Bool, true, [], ◌∷◌, ◌++◌, none, some, ℤ, pos, negsuc, neg_part, pos_part, suc,
  IsI64, All, Bytes, codes, arith, ◌≢◌, Option-cases, inl, inr,
}
use riperf.Base.Decimal.{show_ℤ}
use riperf.Base.Decimal.RoundTrip.{parse_signed-show_ℤ}
use riperf.Base.Distinct.{Lacks}
use riperf.Base.Text.{strip_prefix, lines_from, strip_cr}
use riperf.Base.Lines.{
  newline, lines_from_line, lines_from_last, strip_cr-cons, trim-Solid, show_ℤ-Solid, show_ℤ-Lacks,
}
use riperf.Auth.Token.{
  Crypto, ok, err, encrypt_failed, i64_max, plaintext, read_line, read_lines, all_found,
  parse_public_key_pem, parse_private_key_pem, encode_auth_token, decode_auth_token,
}

-- A text that stands on one line: it holds no newline and does not end in a carriage return.
pub record OnOneLine (s : Bytes) : Type 0 where
  pub no_newline : Lacks newline s
  pub plain_end : strip_cr s ≡ s

-- Behind an ASCII label that ends in a space.
strip_cr_label :
    (label : String) (s : Bytes)
    → strip_cr s ≡ s
    → All (λ c. (c ≢ b'\n') × (c ≢ b'\r')) (codes label)
    → (Lacks newline s → Lacks newline (codes label ++ s))
      × (strip_cr (codes label ++ s) ≡ codes label ++ s)
strip_cr_label String.[] s e a = (λ h. h, e)
strip_cr_label (String.◌∷◌ c l) s e a =
    let (lacks, plain) = strip_cr_label l s e a.1 in
    (λ h. (a.0.0, lacks h), strip_cr-cons _ (codes l ++ s) a.0.1 plain)

plaintext_lines :
    (u p : Bytes) (ts : ℤ)
    → OnOneLine u
    → OnOneLine p
    → lines_from [] (plaintext u p ts)
      ≡ (codes "user: " ++ u) ∷ (codes "pwd:  " ++ p) ∷ (codes "ts:   " ++ show_ℤ ts) ∷ []
unfolding plaintext
plaintext_lines u p ts hu hp =
    let (u_lacks, u_plain) = strip_cr_label "user: " u hu.plain_end (omega arith) in
    let (p_lacks, p_plain) = strip_cr_label "pwd:  " p hp.plain_end (omega arith) in
    let first =
      lines_from_line [] (codes "user: " ++ u)
        (codes "pwd:  " ++ (p ++ (b'\n' ∷ (codes "ts:   " ++ show_ℤ ts))))
        (u_lacks hu.no_newline) in
    let second =
      lines_from_line [] (codes "pwd:  " ++ p) (codes "ts:   " ++ show_ℤ ts)
        (p_lacks hp.no_newline) in
    let last = lines_from_last [] (codes "ts:   " ++ show_ℤ ts) (
      omega arith,
      (omega arith, (omega arith, (omega arith, (omega arith, (omega arith, show_ℤ-Lacks ts))))),
    ) in
    cc (first, second, last, u_plain, p_plain)

I64_parts : (n : ℤ) → IsI64 n → (pos_part n ≤ i64_max) × (neg_part n ≤ suc i64_max)
I64_parts (pos n) h = (omega arith, omega arith)
I64_parts (negsuc n) h = (omega arith, omega arith)

read_plaintext :
    (u p : Bytes) (ts : ℤ)
    → IsI64 ts
    → all_found (
        read_lines
          (record { username = none; password = none; ts = none })
          ((codes "user: " ++ u) ∷ (codes "pwd:  " ++ p) ∷ (codes "ts:   " ++ show_ℤ ts) ∷ []))
      ≡ ok (u, p, ts)
unfolding read_lines read_line strip_prefix all_found
read_plaintext u p ts h =
    let (above, below) = I64_parts ts h in
    rw (trim-Solid (show_ℤ ts) (show_ℤ-Solid ts), parse_signed-show_ℤ i64_max ts above below)

module _ (C : Crypto) where
  open C use {encrypt, decrypt, base64_encode, base64_decode, is_utf8}

  -- What the server's private key does with the tokens made with the client's public key.
  pub record KeysMatch (pubkey_pem privkey_pem : Bytes) (use_pkcs1 : Bool) : Type 0 where
    pub public : C.PublicKey
    pub private : C.PrivateKey
    pub public_loads : parse_public_key_pem C pubkey_pem ≡ ok public
    pub private_loads : parse_private_key_pem C privkey_pem ≡ ok private
    -- decryption undoes encryption
    pub inverse :
        (seed : ℕ) (text sealed : Bytes)
        → encrypt seed use_pkcs1 public text ≡ some sealed
        → decrypt use_pkcs1 private sealed ≡ some text
    pub base64 : (b : Bytes) → base64_decode (base64_encode b) ≡ some b

  -- Every token that the client manages to encode, from a user name and a password that each stand
  -- on one line and are UTF-8 text, is decoded by a server with the matching key to the same name,
  -- password and time.
  pub decode_auth_token-encode_auth_token :
      (pubkey_pem privkey_pem : Bytes) (use_pkcs1 : Bool) (seed : ℕ) (now : ℤ)
      (username password token : Bytes)
      → KeysMatch pubkey_pem privkey_pem use_pkcs1
      → OnOneLine username
      → OnOneLine password
      → IsI64 now
      → is_utf8 (plaintext username password now) ≡ true
      → encode_auth_token C seed now username password pubkey_pem use_pkcs1 ≡ ok token
      → decode_auth_token C token privkey_pem use_pkcs1 ≡ ok (username, password, now)
  unfolding encode_auth_token decode_auth_token
  decode_auth_token-encode_auth_token pub_pem priv_pem mode seed now u p token k hu hp hi utf e =
      let lines = plaintext_lines u p now hu hp in
      let fields = read_plaintext u p now hi in
      let sealed_by = k.inverse seed (plaintext u p now) in
      elim (Option-cases (encrypt seed mode k.public (plaintext u p now))) [
        | inl failed ↦
            let refused : encode_auth_token C seed now u p pub_pem mode ≡ err encrypt_failed =
              rw (k.public_loads, failed) in
            cc (e, refused)
        | inr (sealed, made) ↦
            let sent : encode_auth_token C seed now u p pub_pem mode ≡ ok (base64_encode sealed) =
              rw (k.public_loads, made) in
            let same : token ≡ base64_encode sealed = cc (e, sent) in
            rw (
              same,
              k.base64 sealed,
              k.private_loads,
              k.inverse seed (plaintext u p now) sealed made,
              utf,
              plaintext_lines u p now hu hp,
              read_plaintext u p now hi,
            )
      ]
