-- ===== src/Protocol/Framing/Warnings.antt =====
-- What the results read reports of a message that is cut off.
use riperf.Base.{
  ℕ, zero, suc, ◌-◌, ◌%◌, ◌^◌, ◌≤◌, ◌<◌, ◌≡◌, ◌≢◌, refl, ◌∙◌, ap, false, [], ◌∷◌, ◌++◌, Option,
  some, Bytes, length, min, arith, be32, append_assoc, append-nil, signed32, length-append, inl,
  inr, if◌then◌else◌, ◌==◌, ltb, Bool-cases,
}
use riperf.Protocol.Framing.{
  Connection, data_in, ended, failed, nread_step, full, short, fill, nread_exact, prefix_len,
  recv_results_failed, size_short, body_short, recv_results, results_sized, results_value,
}
use riperf.Protocol.Framing.Segments.{
  Flowing, content, step, fill_step, fill_lem, append_split, prefix_len-be32,
}

length_pos : (b : Bytes) → b ≢ [] → 1 ≤ length b
length_pos [] h = absurd (h refl)
length_pos (x ∷ b) h = omega arith

-- A connection with nothing left is empty.
content_nil : (c : Connection) → Flowing c → content c ≡ [] → c ≡ []
content_nil [] f e = refl
content_nil (data_in [] ∷ c) f e = absurd (f.0 refl)
content_nil (data_in (b ∷ bs) ∷ c) f e = ground arith
content_nil (ended ∷ c) f e = absurd f
content_nil (failed n ∷ c) f e = absurd f

fill_short :
    (fuel chunk want : ℕ) (got s : Bytes) (c : Connection)
    → 1 ≤ chunk
    → length s < want
    → want ≤ fuel
    → Flowing c
    → content c ≡ s
    → fill fuel chunk want got c ≡ (short (got ++ s), [])
unfolding fill nread_step
fill_short fuel chunk zero got s c h l g f e = absurd (omega arith)
fill_short zero chunk (suc want) got s c h l g f e = absurd (omega arith)
fill_short (suc fuel) chunk (suc want) got [] c h l g f e =
    rw (content_nil c f e, append-nil got) refl
fill_short (suc fuel) chunk (suc want) got (x ∷ s) c h l g f e =
    let (b, c1, t) = step (min chunk (suc want)) c (omega arith) f (rw e (ground arith)) in
    let rest = content c1 in
    let whole : length (b ++ rest) ≡ suc (length s) = ap length (t.split ∙ e) in
    let sizes = length-append b rest in
    let left : suc want - length b ≤ fuel = omega (arith, t.some_read) in
    let later =
      fill_short fuel chunk (suc want - length b) (got ++ b) rest c1 h (omega (arith, t.at_most))
        left t.flows refl in
    let text : (got ++ b) ++ rest ≡ got ++ (x ∷ s) =
      rw (append_assoc got b rest, t.split, e) refl in
    fill_step fuel chunk want got b c c1 t.reads ∙ later ∙ ap (λ u. (short u, [])) text

pub nread_exact_short :
    (want : ℕ) (s : Bytes) (c : Connection)
    → length s < want
    → Flowing c
    → content c ≡ s
    → nread_exact want c ≡ (short s, [])
unfolding nread_exact
nread_exact_short want s c l f e =
    fill_short want want want [] s c (omega arith) l (omega arith) f e

module _ (J : Type 0) (parse : Bytes → Option J) where
  cut_in_size :
      (s : Bytes) (c : Connection)
      → length s < 4
      → Flowing c
      → content c ≡ s
      → recv_results J parse c ≡ (recv_results_failed (some (size_short (length s))), [])
  unfolding recv_results nread_exact results_sized
  cut_in_size s c l f e = rw (fill_short 4 4 4 [] s c (omega arith) l (omega arith) f e) refl

  cut_of :
      (b s : Bytes) (c c1 : Connection)
      → nread_exact 4 c ≡ (full b, c1)
      → (prefix_len b == 0) ≡ false
      → fill (prefix_len b) (min 65536 (prefix_len b)) (prefix_len b) [] c1 ≡ (short s, [])
      → recv_results J parse c ≡ (
        recv_results_failed
            (some (body_short (signed32 (prefix_len b % 2 ^ 32)) (signed32 (length s % 2 ^ 32)))),
        [],
      )
  unfolding recv_results results_sized results_value
  cut_of b s c c1 prefix some_bytes filled = rw (prefix, some_bytes, filled, results_value) refl

  cut_in_body :
      (n : ℕ) (s : Bytes) (c : Connection)
      → length s < n
      → n < 2 ^ 32
      → Flowing c
      → content c ≡ be32 n ++ s
      → recv_results J parse c
        ≡ (recv_results_failed (some (body_short (signed32 n) (signed32 (length s)))), [])
  unfolding nread_exact
  cut_in_body n s c l small f e =
      let (c1, prefix, f1, rest) = fill_lem 4 4 [] (be32 n) s c (omega arith) (omega arith) f e in
      let len = prefix_len-be32 n small in
      let filled : fill n (min 65536 n) n [] c1 ≡ (short s, []) =
        fill_short n (min 65536 n) n [] s c1 (omega arith) l (omega arith) f1 rest in
      let cut = cut_of (be32 n) s c c1 prefix (rw len (ground arith)) (rw len filled) in
      let offered : prefix_len (be32 n) % 2 ^ 32 ≡ n = omega arith in
      let came : length s % 2 ^ 32 ≡ length s = omega arith in cut ∙ rw (offered, came) refl

  -- When a message with a body stops early, the results read fails with a warning that names how much
  -- came: fewer than four bytes of the size, or else the size offered and the bytes of the body, both
  -- as signed 32-bit numbers.
  pub recv_results-cut :
      (body s missing : Bytes) (c : Connection)
      → 0 < length body
      → length body < 2 ^ 32
      → be32 (length body) ++ body ≡ s ++ missing
      → missing ≢ []
      → Flowing c
      → content c ≡ s
      → (recv_results J parse c).0
        ≡ recv_results_failed (
            some (
              if ltb (length s) 4
              then size_short (length s)
              else body_short (signed32 (length body)) (signed32 (length s - 4))))
  recv_results-cut body s missing c some_body size e some_missing f arrived =
      elim (Bool-cases (ltb (length s) 4)) [
        | inl few ↦ rw (few, cut_in_size s c (ground (arith, few)) f arrived) refl
        | inr enough ↦
            let (s', front, back) =
              append_split (be32 (length body)) body s missing e (ground (arith, enough)) in
            let sizes : length s ≡ length (be32 (length body) ++ s') = ap length front in
            let total : length body ≡ length (s' ++ missing) = ap length back in
            let part : length s' < length body =
              omega (arith, total, length-append s' missing, length_pos missing some_missing) in
            let cut = cut_in_body (length body) s' c part size f (arrived ∙ front) in
            let rest : length s - 4 ≡ length s' = omega (arith, sizes) in
            rw (enough, cut, rest) refl
      ]
