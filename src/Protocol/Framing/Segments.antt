-- ===== src/Protocol/Framing/Segments.antt =====
-- A message is read as it was sent, however the network cuts it.
use riperf.Base.{
  ℕ, zero, suc, ◌-◌, ◌^◌, ◌≤◌, ◌<◌, ◌≡◌, ◌≢◌, refl, ◌∙◌, ap, sym, false, ◌&&◌, [], ◌∷◌, ◌++◌,
  Option, some, Bytes, ltb, leb, ◌==◌, length, take, drop, min, arith, be32, word32-be32,
  append_assoc, append-nil, length-append, length-take, Bool-cases, inl, inr,
}
use riperf.Protocol.Framing.{
  Arrival, data_in, Connection, bytes, nread_step, full, fill, nread_exact, prefix_len, value,
  json_read_bounded, json_sized, json_value, results_value, results, recv_results, results_sized,
}

-- Nothing but bytes arrives, in pieces that are not empty.
abbrev pub Flowing : Connection → Type 0
Flowing [] = Unit
Flowing (data_in b ∷ c) = (b ≢ []) × Flowing c
Flowing (a ∷ c) = ⊥

-- The bytes that arrive
abbrev pub content : Connection → Bytes
content [] = []
content (data_in b ∷ c) = b ++ content c
content (a ∷ c) = []

take-drop : (n : ℕ) (xs : Bytes) → take n xs ++ drop n xs ≡ xs
take-drop zero xs = refl
take-drop (suc n) [] = refl
take-drop (suc n) (x ∷ xs) = ap (◌∷◌ x) (take-drop n xs)

drop-ne-nil : (n : ℕ) (xs : Bytes) → n < length xs → drop n xs ≢ []
drop-ne-nil zero [] h = absurd (omega arith)
drop-ne-nil zero (x ∷ xs) h = ground arith
drop-ne-nil (suc n) [] h = absurd (omega arith)
drop-ne-nil (suc n) (x ∷ xs) h = drop-ne-nil n xs (omega arith)

-- What a read of at most n bytes leaves.
pub record Taken (n : ℕ) (c : Connection) (b : Bytes) (c' : Connection) : Type 0 where
  pub reads : nread_step n c ≡ (bytes b, c')
  pub some_read : 1 ≤ length b
  pub at_most : length b ≤ n
  pub split : b ++ content c' ≡ content c
  pub flows : Flowing c'

pub step :
    (n : ℕ) (c : Connection)
    → 1 ≤ n
    → Flowing c
    → content c ≢ []
    → (b : Bytes) × (c' : Connection) × Taken n c b c'
unfolding nread_step
step n [] h f more = absurd (more refl)
step n (data_in [] ∷ c) h f more = absurd (f.0 refl)
step n (data_in (b ∷ bs) ∷ c) h f more = elim (Bool-cases (leb (length (b ∷ bs)) n)) [
  | inl e ↦ (
    b ∷ bs,
    c,
    record {
      reads = rw e refl;
      some_read = omega arith;
      at_most = ground (arith, e);
      split = refl;
      flows = f.1;
    },
  )
  | inr e ↦
      let long : n < length (b ∷ bs) = ground (arith, e) in
      (
        take n (b ∷ bs),
        data_in (drop n (b ∷ bs)) ∷ c,
        record {
          reads = rw e refl;
          some_read = omega (arith, length-take n (b ∷ bs));
          at_most = omega (arith, length-take n (b ∷ bs));
          split =
              sym (append_assoc (take n (b ∷ bs)) (drop n (b ∷ bs)) (content c))
              ∙ rw (take-drop n (b ∷ bs)) refl;
          flows = (drop-ne-nil n (b ∷ bs) long, f.1);
        },
      )
]
step n (Arrival.ended ∷ c) h f more = absurd f
step n (Arrival.failed e ∷ c) h f more = absurd f

pub append_split :
    (xs ys zs ws : Bytes)
    → xs ++ ys ≡ zs ++ ws
    → length xs ≤ length zs
    → (m : Bytes) × (zs ≡ xs ++ m) × (ys ≡ m ++ ws)
append_split [] ys zs ws e h = (zs, refl, e)
append_split (x ∷ xs) ys [] ws e h = absurd (omega arith)
append_split (x ∷ xs) ys (z ∷ zs) ws e h =
    let tails : xs ++ ys ≡ zs ++ ws = cc e in
    let heads : x ≡ z = cc e in
    let (m, front, back) = append_split xs ys zs ws tails (omega arith) in
    (m, cc (heads, front), back)

pub fill_step :
    (fuel chunk want : ℕ) (got b : Bytes) (c c1 : Connection)
    → nread_step (min chunk (suc want)) c ≡ (bytes b, c1)
    → fill (suc fuel) chunk (suc want) got c ≡ fill fuel chunk (suc want - length b) (got ++ b) c1
unfolding fill
fill_step fuel chunk want got b c c1 h = rw (fill, h, h) refl

pub fill_lem :
    (fuel chunk : ℕ) (got s after : Bytes) (c : Connection)
    → 1 ≤ chunk
    → length s ≤ fuel
    → Flowing c
    → content c ≡ s ++ after
    → (c' : Connection) × (fill fuel chunk (length s) got c ≡ (full (got ++ s), c'))
      × Flowing c'
      × (content c' ≡ after)
unfolding fill
fill_lem fuel chunk got [] after c h l f e = (c, rw (append-nil got) refl, f, e)
fill_lem zero chunk got (x ∷ s) after c h l f e = absurd (omega arith)
fill_lem (suc fuel) chunk got (x ∷ s) after c h l f e =
    let (b, c1, t) = step (min chunk (suc (length s))) c (omega arith) f (rw e (ground arith)) in
    let (m, front, back) =
      append_split b (content c1) (x ∷ s) after (t.split ∙ e) (omega (arith, t.at_most)) in
    let whole : suc (length s) ≡ length (b ++ m) = ap length front in
    let size : suc (length s) - length b ≡ length m = omega (arith, whole, length-append b m) in
    let less : length m ≤ fuel = omega (arith, whole, length-append b m, t.some_read) in
    let (c2, filled, flows, left) = fill_lem fuel chunk (got ++ b) m after c1 h less t.flows back in
    let start = fill_step fuel chunk (length s) got b c c1 t.reads in
    let text : (got ++ b) ++ m ≡ got ++ (x ∷ s) = rw (append_assoc got b m, ← front) refl in
    (
      c2,
      start ∙ ap (λ n. fill fuel chunk n (got ++ b) c1) size ∙ filled ∙ ap (λ t. (full t, c2)) text,
      flows,
      left,
    )

-- The message of a body
abbrev pub frame : Bytes → Bytes
frame body = be32 (length body) ++ body

read_frame :
    (body after : Bytes) (c : Connection)
    → Flowing c
    → content c ≡ frame body ++ after
    → (c' : Connection) × (nread_exact 4 c ≡ (full (be32 (length body)), c'))
      × Flowing c'
      × (content c' ≡ body ++ after)
unfolding nread_exact
read_frame body after c f e =
    fill_lem 4 4 [] (be32 (length body)) (body ++ after) c (omega arith) (omega arith) f e

pub prefix_len-be32 : (n : ℕ) → n < 2 ^ 32 → prefix_len (be32 n) ≡ n
prefix_len-be32 n h = word32-be32 n h

pub read_body :
    (body after : Bytes) (c : Connection)
    → Flowing c
    → content c ≡ body ++ after
    → (c' : Connection) × (nread_exact (length body) c ≡ (full body, c'))
      × Flowing c'
      × (content c' ≡ after)
unfolding nread_exact fill
read_body [] after c f e = (c, refl, f, e)
read_body (x ∷ body) after c f e =
    fill_lem (length (x ∷ body)) (length (x ∷ body)) [] (x ∷ body) after c (omega arith)
      (omega arith) f e

module _ (J : Type 0) (parse : Bytes → Option J) where
  json_read_of :
      (max_len n : ℕ) (b body : Bytes) (v : J) (c c1 c2 : Connection)
      → nread_exact 4 c ≡ (full b, c1)
      → prefix_len b ≡ n
      → (ltb 0 max_len && ltb max_len n) ≡ false
      → nread_exact n c1 ≡ (full body, c2)
      → parse body ≡ some v
      → json_read_bounded J parse max_len c ≡ (value v, c2)
  unfolding json_read_bounded json_sized json_value
  json_read_of max_len n b body v c c1 c2 prefix len limit filled parsed =
      rw (prefix, len, limit, filled, json_value, parsed) refl

  recv_results_of :
      (b body : Bytes) (v : J) (c c1 c2 : Connection)
      → nread_exact 4 c ≡ (full b, c1)
      → (prefix_len b == 0) ≡ false
      → fill (prefix_len b) (min 65536 (prefix_len b)) (prefix_len b) [] c1 ≡ (full body, c2)
      → parse body ≡ some v
      → recv_results J parse c ≡ (results v, c2)
  unfolding recv_results results_sized results_value
  recv_results_of b body v c c1 c2 prefix some_bytes filled parsed =
      rw (prefix, some_bytes, filled, results_value, parsed) refl

  -- When a message whose body is JSON and within the limit arrives, with or without more bytes
  -- behind it, the bounded read returns the value of the body, however the bytes are cut into
  -- pieces, and leaves exactly the bytes behind the message.
  pub json_read_bounded-frame :
      (max_len : ℕ) (body after : Bytes) (v : J) (c : Connection)
      → length body < 2 ^ 32
      → (ltb 0 max_len && ltb max_len (length body)) ≡ false
      → parse body ≡ some v
      → Flowing c
      → content c ≡ frame body ++ after
      → (c' : Connection) × (json_read_bounded J parse max_len c ≡ (value v, c'))
        × (content c' ≡ after)
  json_read_bounded-frame max_len body after v c size limit parsed f e =
      let (c1, prefix, f1, rest) = read_frame body after c f e in
      let (c2, filled, f2, left) = read_body body after c1 f1 rest in
      (
        c2,
        json_read_of max_len (length body) (be32 (length body)) body v c c1 c2 prefix
            (prefix_len-be32 (length body) size) limit filled parsed,
        left,
      )

  -- The same of the results read, for a body that is not empty: it returns the value with no warning.
  pub recv_results-frame :
      (body after : Bytes) (v : J) (c : Connection)
      → 0 < length body
      → length body < 2 ^ 32
      → parse body ≡ some v
      → Flowing c
      → content c ≡ frame body ++ after
      → (c' : Connection) × (recv_results J parse c ≡ (results v, c')) × (content c' ≡ after)
  recv_results-frame body after v c some_body size parsed f e =
      let (c1, prefix, f1, rest) = read_frame body after c f e in
      let (c2, filled, f2, left) =
        fill_lem (length body) (min 65536 (length body)) [] body after c1 (omega arith)
          (omega arith) f1 rest in
      let len = prefix_len-be32 (length body) size in
      (
        c2,
        recv_results_of (be32 (length body)) body v c c1 c2 prefix (rw len (ground arith))
            (rw len filled) parsed,
        left,
      )
