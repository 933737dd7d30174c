-- ===== src/Reporter/Conservation.antt =====
-- What the [SUM] rows of riperf3/src/reporter.rs add up to.
use riperf.Base.{
  ℕ, ◌+◌, ◌^◌, ◌≤◌, ◌<◌, ◌≡◌, refl, sym, ◌∙◌, ap, Bool, true, false, Bool-cases, List, [], ◌∷◌,
  ◌++◌, Option, none, some, Bytes, any, keep, sum, map, length, leb, All, arith, inl, inr,
  if◌then◌else◌,
}
use riperf.Base.Float.{Float}
use riperf.Auth.Admission.{bytes_eq-true, bytes_eq_refl}
use riperf.Reporter.Summary.{
  present, StreamSummary, Key, tag_eq, bool_eq, key_eq, key, collect_keys, group, sum_row, sum_rows,
  sum_summaries,
}
use riperf.Reporter.Groups.{grouped, Separate, grouped-keep}

tag_eq-true : (a b : Option Bytes) → tag_eq a b ≡ true → a ≡ b
tag_eq-true none none h = refl
tag_eq-true (some a) (some b) h = ap some (bytes_eq-true a b h)
tag_eq-true none (some b) h = absurd (ground arith)
tag_eq-true (some a) none h = absurd (ground arith)

bool_eq-true : (a b : Bool) → bool_eq a b ≡ true → a ≡ b
bool_eq-true true b h = sym h
bool_eq-true false true h = absurd (ground arith)
bool_eq-true false false h = refl

key_eq-true : (a b : Key) → key_eq a b ≡ true → a ≡ b
key_eq-true (a, x) (b, y) h =
    let tags = tag_eq-true a b (ground arith) in
    let roles = bool_eq-true x y (ground arith) in rw (tags, roles) refl

key_eq_refl : (k : Key) → key_eq k k ≡ true
key_eq_refl (none, true) = refl
key_eq_refl (none, false) = refl
key_eq_refl (some a, true) = ground (arith, bytes_eq_refl a)
key_eq_refl (some a, false) = ground (arith, bytes_eq_refl a)

any-append :
    (k : Key) (ks js : List Key) → any (key_eq k) ks ≡ true → any (key_eq k) (ks ++ js) ≡ true
any-append k [] js h = absurd (ground arith)
any-append k (j ∷ ks) js h = ground (arith, any-append k ks js)

any_last : (k : Key) (ks : List Key) → any (key_eq k) (ks ++ k ∷ []) ≡ true
any_last k [] = ground (arith, key_eq_refl k)
any_last k (j ∷ ks) = ground (arith, any_last k ks)

any_not_last :
    (k j : Key) (ks : List Key)
    → any (key_eq k) ks ≡ false
    → key_eq k j ≡ false
    → any (key_eq k) (ks ++ j ∷ []) ≡ false
any_not_last k j [] h n = ground arith
any_not_last k j (i ∷ ks) h n = ground (arith, any_not_last k j ks)

Separate-append :
    (ks : List Key) (j : Key)
    → Separate key_eq ks
    → any (key_eq j) ks ≡ false
    → Separate key_eq (ks ++ j ∷ [])
Separate-append [] j d h = (refl, tt)
Separate-append (k ∷ ks) j d h =
    let rest = Separate-append ks j d.1 (ground arith) in
    elim (Bool-cases (key_eq k j)) [
      | inl e ↦
          let back : key_eq j k ≡ true = rw (key_eq-true k j e) (key_eq_refl j) in
          absurd (ground (arith, back))
      | inr e ↦ (any_not_last k j ks d.0 e, rest)
    ]

module _ {F : Float} where
  collect_keys-Separate :
      (keys : List Key) (ss : List (StreamSummary F))
      → Separate key_eq keys
      → Separate key_eq (collect_keys keys ss)
  unfolding collect_keys
  collect_keys-Separate keys [] d = d
  collect_keys-Separate keys (s ∷ ss) d = elim (Bool-cases (any (key_eq (key s)) keys)) [
    | inl e ↦ rw e (collect_keys-Separate keys ss d)
    | inr e ↦
        rw e (collect_keys-Separate (keys ++ key s ∷ []) ss (Separate-append keys (key s) d e))
  ]

  collect_keys-keeps :
      (k : Key) (keys : List Key) (ss : List (StreamSummary F))
      → any (key_eq k) keys ≡ true
      → any (key_eq k) (collect_keys keys ss) ≡ true
  unfolding collect_keys
  collect_keys-keeps k keys [] h = h
  collect_keys-keeps k keys (s ∷ ss) h = elim (Bool-cases (any (key_eq (key s)) keys)) [
    | inl e ↦ rw e (collect_keys-keeps k keys ss h)
    | inr e ↦ rw e (collect_keys-keeps k (keys ++ key s ∷ []) ss (any-append k keys (key s ∷ []) h))
  ]

  collect_keys-covers :
      (keys : List Key) (ss : List (StreamSummary F)) (out : List Key)
      → collect_keys keys ss ≡ out
      → All (λ s. any (key_eq (key s)) out ≡ true) ss
  unfolding collect_keys
  collect_keys-covers keys [] out h = tt
  collect_keys-covers keys (s ∷ ss) out h = elim (Bool-cases (any (key_eq (key s)) keys)) [
    | inl e ↦
        let next : collect_keys keys ss ≡ out = sym (rw e refl) ∙ h in
        (rw (sym next) (collect_keys-keeps (key s) keys ss e), collect_keys-covers keys ss out next)
    | inr e ↦
        let longer = keys ++ key s ∷ [] in
        let next : collect_keys longer ss ≡ out = sym (rw e refl) ∙ h in
        (
          rw (sym next) (collect_keys-keeps (key s) longer ss (any_last (key s) keys)),
          collect_keys-covers longer ss out next,
        )
  ]

  abbrev pub bytes_of : List (StreamSummary F) → ℕ
  bytes_of ss = sum (map (λ s. s.bytes) ss)

  abbrev pub large : List (StreamSummary F) → Key → Bool
  large ss k = leb 2 (length (group k ss))

  bytes_of-keep :
      (p : StreamSummary F → Bool) (ss : List (StreamSummary F))
      → bytes_of (keep p ss) ≤ bytes_of ss
  bytes_of-keep p [] = omega arith
  bytes_of-keep p (s ∷ ss) = ground (arith, bytes_of-keep p ss)

  row_bytes : Option (StreamSummary F) → ℕ
  row_bytes none = 0
  row_bytes (some row) = row.bytes

  sum_row-bytes :
      (k : Key) (ss : List (StreamSummary F))
      → bytes_of ss < 2 ^ 64
      → row_bytes (sum_row k ss) ≡ (if leb 2 (length ss) then bytes_of ss else 0)
  unfolding sum_row row_bytes
  sum_row-bytes k [] h = refl
  sum_row-bytes k (g ∷ []) h = refl
  sum_row-bytes k (g ∷ h ∷ r) lt = ground arith

  present-bytes :
      (o : Option (StreamSummary F)) (os : List (Option (StreamSummary F)))
      → bytes_of (present (o ∷ os)) ≡ row_bytes o + bytes_of (present os)
  unfolding row_bytes
  present-bytes none os = omega arith
  present-bytes (some r) os = refl

  sum_rows-bytes :
      (ks : List Key) (ss : List (StreamSummary F))
      → bytes_of ss < 2 ^ 64
      → bytes_of (sum_rows ks ss) ≡ grouped key_eq key (λ s. s.bytes) (large ss) key_eq-true ks ss
  unfolding sum_rows
  sum_rows-bytes [] ss h = refl
  sum_rows-bytes (k ∷ ks) ss h =
      let fits = bytes_of-keep (λ s. key_eq (key s) k) ss in
      let row = sum_row-bytes k (group k ss) (omega arith) in
      let first = present-bytes (sum_row k (group k ss)) (map (λ j. sum_row j (group j ss)) ks) in
      first ∙ rw (row, sum_rows-bytes ks ss h) refl

  -- Whether another stream has the key of this one.
  abbrev pub shares : List (StreamSummary F) → StreamSummary F → Bool
  shares ss s = large ss (key s)

  -- As long as no 64-bit sum wraps, the bytes of the [SUM] rows are together those of the streams that
  -- share role tag and direction with another stream: none is counted twice, none is left out.
  pub sum_summaries-bytes :
      (streams : List (StreamSummary F))
      → bytes_of streams < 2 ^ 64
      → bytes_of (sum_summaries streams) ≡ bytes_of (keep (shares streams) streams)
  unfolding sum_summaries
  sum_summaries-bytes streams h =
      let keys = collect_keys [] streams in
      sum_rows-bytes keys streams h
      ∙ grouped-keep key_eq key (λ s. s.bytes) (large streams) key_eq-true keys streams
          (collect_keys-Separate [] streams tt) (collect_keys-covers [] streams keys refl)
