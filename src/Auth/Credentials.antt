-- ===== src/Auth/Credentials.antt =====
-- `check_credentials` and `resolve_password` of riperf3/src/auth.rs.
use riperf.Base.{
  ℕ, ◌+◌, ◌/◌, ◌%◌, Bool, false, ◌&&◌, List, [], ◌∷◌, ◌++◌, Option, none, some, ℤ, pos_part,
  neg_part, ◌-ℤ◌, as_u64, signed64, Bytes, bytes_eq, or_else, if◌then◌else◌, ltb, ◌==◌,
}
use riperf.Base.Text.{trim, split_once, lines_from}
use riperf.Auth.Token.{Crypto, Result, ok, err, skew_too_large, users_unreadable, access_denied}

-- A hexadecimal digit, in lower case
hex_digit : ℕ → ℕ
hex_digit d = if ltb d 10 then b'0' + d else 87 + d

-- `hex::encode`
unfoldable pub hex : Bytes → Bytes
unfolding hex_digit
hex [] = []
hex (b ∷ bs) = hex_digit (b / 16) ∷ hex_digit (b % 16) ∷ hex bs

-- `(now - ts).unsigned_abs()`: the difference wraps as an i64.
unfoldable pub time_skew : ℤ → ℤ → ℕ
time_skew now ts = let d = signed64 (as_u64 (now -ℤ ts)) in pos_part d + neg_part d

-- A line that is neither empty nor a comment, once trimmed, and names this user and hash.
unfoldable pub line_matches : Bytes → Bytes → Bytes → Bool
unfolding split_once
line_matches user hash [] = false
line_matches user hash (c ∷ s) = if c == b'#' then false else elim (split_once b',' (c ∷ s)) [
  | none ↦ false
  | some (u, h) ↦ bytes_eq u user && bytes_eq h hash
]

unfoldable pub search_users : Bytes → Bytes → List Bytes → Result (Unit {0})
unfolding line_matches trim
search_users user hash [] = err access_denied
search_users user hash (line ∷ r) =
    let rest = search_users user hash r in
    if line_matches user hash (trim line) then ok tt else rest

-- sha256("{username}password"), the braces being part of the text
unfoldable pub password_hash : Crypto → Bytes → Bytes → Bytes
unfolding hex
password_hash C username password = hex (C.sha256 (b'{' ∷ (username ++ (b'}' ∷ password))))

-- At the time `now`, with the content of the users file, if it can be read as text.
unfoldable pub check_credentials :
    Crypto → ℤ → Bytes → Bytes → ℤ → Option Bytes → ℕ → Result (Unit {0})
unfolding time_skew search_users password_hash lines_from
check_credentials C now username password ts users_file skew_threshold =
    let skew = time_skew now ts in
    if ltb skew_threshold skew then err (skew_too_large skew skew_threshold) else elim users_file [
      | none ↦ err users_unreadable
      | some content ↦
          search_users username (password_hash C username password) (lines_from [] content)
    ]

-- The first that is given
unfoldable pub resolve_password : Option Bytes → Option Bytes → Option Bytes → Option Bytes
resolve_password riperf3_env iperf3_env interactive =
    or_else (or_else riperf3_env iperf3_env) interactive
