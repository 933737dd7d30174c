-- ===== src/Auth/Admission.antt =====
-- Whom the server admits.
use riperf.Base.{
  ℕ, ◌+◌, ◌-◌, ◌≤◌, ◌≡◌, refl, true, false, List, [], ◌∷◌, ◌++◌, some, pos, Bytes, bytes_eq, arith,
  ltb, signed64, as_u64, sub_ℕ, ◌-ℤ◌, ◌≢◌, ◌==◌, ◌↔◌, Bool-cases, Option-cases, inl, inr,
}
use riperf.Base.Distinct.{Lacks}
use riperf.Base.Text.{trim, split_once, lines_from}
use riperf.Auth.Token.{Crypto, ok, i64_max}
use riperf.Auth.Credentials.{
  time_skew, line_matches, search_users, password_hash, check_credentials,
}

pub bytes_eq-true : (a b : Bytes) → bytes_eq a b ≡ true → a ≡ b
bytes_eq-true [] [] h = refl
bytes_eq-true [] (y ∷ b) h = ground arith
bytes_eq-true (x ∷ a) [] h = ground arith
bytes_eq-true (x ∷ a) (y ∷ b) h = ground (arith, bytes_eq-true a b)

pub bytes_eq_refl : (a : Bytes) → bytes_eq a a ≡ true
bytes_eq_refl [] = refl
bytes_eq_refl (x ∷ a) = ground (arith, bytes_eq_refl a)

split_once-some :
    (sep : ℕ) (s a b : Bytes) → split_once sep s ≡ some (a, b) → (s ≡ a ++ (sep ∷ b)) × Lacks sep a
unfolding split_once
split_once-some sep [] a b h = ground arith
split_once-some sep (c ∷ s) a b h = elim (Option-cases (split_once sep s)) [
  | inl lost ↦ ground (arith, lost)
  | inr ((a', b'), found) ↦ ground (arith, found, split_once-some sep s a' b' found)
]

split_once-append :
    (sep : ℕ) (a b : Bytes) → Lacks sep a → split_once sep (a ++ (sep ∷ b)) ≡ some (a, b)
unfolding split_once
split_once-append sep [] b h = ground arith
split_once-append sep (c ∷ a) b h = ground (arith, split_once-append sep a b h.1)

-- A text that does not start a comment
abbrev pub NoComment : Bytes → Type 0
NoComment [] = Unit
NoComment (c ∷ s) = c ≢ b'#'

-- A line that lists the user with the hash: `user,hash` between blanks. The name has no comma and
-- the line is no comment.
pub record Entry (user hash line : Bytes) : Type 0 where
  pub written : trim line ≡ user ++ (b',' ∷ hash)
  pub no_comma : Lacks b',' user
  pub no_comment : NoComment user

pub data Listed (user hash : Bytes) : List Bytes → Type 0 where
  here : {line : Bytes} {r : List Bytes} → Entry user hash line → Listed user hash (line ∷ r)
  later : {line : Bytes} {r : List Bytes} → Listed user hash r → Listed user hash (line ∷ r)

uncommented :
    (user : Bytes) (c : ℕ) (s hash : Bytes)
    → c ∷ s ≡ user ++ (b',' ∷ hash)
    → (c == b'#') ≡ false
    → NoComment user
uncommented [] c s hash e h = tt
uncommented (d ∷ user) c s hash e h = ground arith

matches-written :
    (user hash s : Bytes)
    → line_matches user hash s ≡ true
    → (s ≡ user ++ (b',' ∷ hash)) × Lacks b',' user × NoComment user
unfolding line_matches
matches-written user hash [] h = ground arith
matches-written user hash (c ∷ s) h = elim (Option-cases (split_once b',' (c ∷ s))) [
  | inl lost ↦ ground (arith, lost)
  | inr ((u, v), found) ↦
      let (whole, lacks) = split_once-some b',' (c ∷ s) u v found in
      let tests : ((c == b'#') ≡ false) × (bytes_eq u user ≡ true) × (bytes_eq v hash ≡ true) =
        ground (arith, found) in
      let (plain, eu, eh) = tests in
      let same_user = bytes_eq-true u user eu in
      let same_hash = bytes_eq-true v hash eh in
      let written : c ∷ s ≡ user ++ (b',' ∷ hash) = cc (whole, same_user, same_hash) in
      (written, rw (← same_user) lacks, uncommented user c s hash written plain)
]

written-matches :
    (user hash : Bytes)
    → Lacks b',' user
    → NoComment user
    → line_matches user hash (user ++ (b',' ∷ hash)) ≡ true
unfolding line_matches split_once
written-matches [] hash lacks plain = ground (arith, bytes_eq_refl hash)
written-matches (c ∷ user) hash lacks plain = ground (
  arith,
  split_once-append b',' (c ∷ user) hash lacks,
  bytes_eq_refl (c ∷ user),
  bytes_eq_refl hash,
)

search_users-Listed :
    (user hash : Bytes) (lines : List Bytes)
    → search_users user hash lines ≡ ok tt
    → Listed user hash lines
unfolding search_users
search_users-Listed user hash [] h = ground arith
search_users-Listed user hash (line ∷ r) h =
    elim (Bool-cases (line_matches user hash (trim line))) [
      | inl e ↦
          let (w, lacks, plain) = matches-written user hash (trim line) e in
          here (record { written = w; no_comma = lacks; no_comment = plain })
      | inr e ↦ later (search_users-Listed user hash r (ground (arith, e)))
    ]

Listed-search_users :
    {user hash : Bytes} {lines : List Bytes}
    → Listed user hash lines
    → search_users user hash lines ≡ ok tt
unfolding search_users
Listed-search_users {user = user} {hash = hash} (here e) =
    let m = written-matches user hash e.no_comma e.no_comment in rw (e.written, m)
Listed-search_users (later l) = ground (arith, Listed-search_users l)

sub_small : (n t : ℕ) → n ≤ i64_max → t ≤ i64_max → signed64 (as_u64 (sub_ℕ n t)) ≡ sub_ℕ n t
sub_small n t p q = ground arith

time_skew_lem :
    (n t : ℕ) → n ≤ i64_max → t ≤ i64_max → time_skew (pos n) (pos t) ≡ (n - t) + (t - n)
unfolding time_skew ◌-ℤ◌
time_skew_lem n t p q = ground (arith, sub_small n t p q)

-- With a readable users file and times after 1970 that an i64 holds, the server admits a user exactly
-- when its clock and the token's time are at most the threshold apart, in either direction, and some
-- line of the file lists the name with the hash of the braced name and the password.
pub check_credentials-ok_iff :
    (C : Crypto) (n t : ℕ) (username password content : Bytes) (threshold : ℕ)
    → n ≤ i64_max
    → t ≤ i64_max
    → (check_credentials C (pos n) username password (pos t) (some content) threshold ≡ ok tt) ↔ (
        ((n - t) + (t - n) ≤ threshold)
        × Listed username (password_hash C username password) (lines_from [] content))
unfolding check_credentials
check_credentials-ok_iff C n t u p content threshold hn ht =
    let same = time_skew_lem n t hn ht in
    let hash = password_hash C u p in
    (
      λ h. elim (Bool-cases (ltb threshold (time_skew (pos n) (pos t)))) [
        | inl late ↦ ground (arith, late)
        | inr near ↦ (
          ground arith,
          search_users-Listed u hash (lines_from [] content) (ground (arith, near)),
        )
      ],
      λ (near, l). ground (arith, Listed-search_users l),
    )
