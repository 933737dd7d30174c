-- ===== src/Protocol/Messages/RoundTrip.antt =====
-- What one side sends is what the other reads, however the bytes are cut into pieces.
use riperf.Base.{
  ℕ, ◌+◌, ◌%◌, ◌^◌, ◌≤◌, ◌<◌, ◌≡◌, refl, sym, ◌∙◌, ap, Bool, true, false, List, [], ◌∷◌, ◌++◌, map,
  Option, none, some, Bytes, be32, word32-be32, get_or, length, any, arith, as_u32, signed8,
}
use riperf.Base.Float.{Float}
use riperf.Protocol.State.{TestState, test_start, to_wire, from_wire, Decoded}
use riperf.Protocol.Params.{TestParams}
use riperf.Protocol.Framing.{Connection, bytes, nread_step, full, nread_exact, value}
use riperf.Protocol.Framing.Segments.{
  Flowing, content, step, read_body, frame, json_read_bounded-frame, recv_results-frame,
}
use riperf.Protocol.Framing.Warnings.{nread_exact_short}
use riperf.Protocol.JsonText.{is_ctrl_ws, strip_bom, json_first_value}
use riperf.Protocol.JsonText.Pieces.{normalize_cjson_whitespace_clean}
use riperf.Protocol.Messages.{
  cookie_charset, make_cookie, send_cookie, recv_cookie, send_state, state, recv_state,
  send_server_error_errno, payload_of, read_server_error_payload, max_params_json_len, json_write,
  send_params, params_from_value, recv_params, send_results, validate_results, recv_test_results,
}
use riperf.Protocol.Messages.{state_of, validated, results_read, params_of_value, value_sent}
use riperf.Protocol.Messages.Results.{TestResults, valid, half_omitted}

one_byte :
    (x : ℕ) (b rest after : Bytes)
    → b ++ rest ≡ x ∷ after
    → 1 ≤ length b
    → length b ≤ 1
    → (b ≡ x ∷ []) × (rest ≡ after)
one_byte x [] rest after e l h = absurd (omega arith)
one_byte x (y ∷ []) rest after e l h = (cc e, cc e)
one_byte x (y ∷ z ∷ b) rest after e l h = absurd (omega arith)

decodes : (s : TestState) → from_wire (signed8 (as_u32 (to_wire s) % 256)) ≡ Decoded.known s
unfolding from_wire to_wire
decodes test_start = refl
decodes _ = refl

recv_state_of :
    (x : ℕ) (s : TestState) (b : Bytes) (c c' : Connection)
    → nread_step 1 c ≡ (bytes b, c')
    → b ≡ x ∷ []
    → from_wire (signed8 x) ≡ Decoded.known s
    → recv_state c ≡ (state s, c')
unfolding recv_state
recv_state_of x s b c c' reads one known = rw (reads, one, state_of, known) refl

-- A state that is sent is received, and the bytes behind it are left.
pub recv_state-send_state :
    (s : TestState) (after : Bytes) (c : Connection)
    → Flowing c
    → content c ≡ send_state s ++ after
    → (c' : Connection) × (recv_state c ≡ (state s, c')) × Flowing c' × (content c' ≡ after)
unfolding send_state
recv_state-send_state s after c f e =
    let (b, c', t) = step 1 c (omega arith) f (rw e (ground arith)) in
    let (one, left) =
      one_byte (as_u32 (to_wire s) % 256) b (content c') after (t.split ∙ e) t.some_read
        t.at_most in
    (c', recv_state_of (as_u32 (to_wire s) % 256) s b c c' t.reads one (decodes s), t.flows, left)

payload_of_words :
    (i os : ℕ) (c : Connection)
    → i < 2 ^ 32
    → os < 2 ^ 32
    → payload_of (full (be32 i ++ be32 os), c) ≡ (some (i, os), c)
unfolding payload_of
payload_of_words i os c h k = rw (word32-be32 i h, word32-be32 os k) refl

-- A server's error arrives as the state byte and the two numbers that were sent, and the bytes behind it are left.
pub read_server_error_payload-send_server_error_errno :
    (i os : ℕ) (after : Bytes) (c : Connection)
    → i < 2 ^ 32
    → os < 2 ^ 32
    → Flowing c
    → content c ≡ send_server_error_errno i os ++ after
    → (c1 : Connection) × (c2 : Connection) × (recv_state c ≡ (state TestState.server_error, c1))
      × (read_server_error_payload c1 ≡ (some (i, os), c2))
      × (content c2 ≡ after)
unfolding send_server_error_errno read_server_error_payload
read_server_error_payload-send_server_error_errno i os after c h k f e =
    let (c1, got, f1, left) =
      recv_state-send_state TestState.server_error (be32 i ++ be32 os ++ after) c f e in
    let (c2, filled, f2, rest) = read_body (be32 i ++ be32 os) after c1 f1 left in
    (c1, c2, got, rw filled (payload_of_words i os c2 h k), rest)

-- Where the connection ends within the payload, there is none.
pub read_server_error_payload_cut :
    (s : Bytes) (c : Connection)
    → length s < 8
    → Flowing c
    → content c ≡ s
    → read_server_error_payload c ≡ (none, [])
unfolding read_server_error_payload payload_of
read_server_error_payload_cut s c l f e = rw (nread_exact_short 8 s c l f e) refl

length-map : (f : ℕ → ℕ) (xs : List ℕ) → length (map f xs ++ 0 ∷ []) ≡ length xs + 1
length-map f [] = refl
length-map f (x ∷ xs) = omega (arith, length-map f xs)

-- A cookie made from 36 draws is read as it was sent, and the bytes behind it are left.
pub recv_cookie-make_cookie :
    (draws after : Bytes) (c : Connection)
    → length draws ≡ 36
    → Flowing c
    → content c ≡ send_cookie (make_cookie draws) ++ after
    → (c' : Connection) × (recv_cookie c ≡ (full (make_cookie draws), c')) × (content c' ≡ after)
unfolding recv_cookie make_cookie
recv_cookie-make_cookie draws after c n f e =
    let (c', filled, flows, left) = read_body (make_cookie draws) after c f e in
    let size : length (make_cookie draws) ≡ 37 =
      omega (arith, n, length-map (λ i. get_or cookie_charset i 0) draws) in
    (c', ap (λ k. nread_exact k c) (sym size) ∙ filled, left)

-- A text with no control byte and no byte order mark is parsed as it is.
module _ (J : Type 0) (next : Bytes → Option (Option J)) (from_slice : Bytes → Option J) where
  json_first_value_plain :
      (text : Bytes) (v : J)
      → any is_ctrl_ws text ≡ false
      → strip_bom text ≡ text
      → next text ≡ some (some v)
      → json_first_value J next from_slice text ≡ some v
  unfolding json_first_value
  json_first_value_plain text v clean plain e =
      rw (json_first_value, plain, normalize_cjson_whitespace_clean text clean, e) refl

  module _ (to_string : J → Option Bytes) where
    -- The text of a value, as serde's printer and parser promise: it is not empty, fits in a u32, has no control byte
    -- and no byte order mark, and is parsed to the value.
    pub record IsText (v : J) (text : Bytes) : Type 0 where
      pub printed : to_string v ≡ some text
      pub some_bytes : 0 < length text
      pub fits : length text < 2 ^ 32
      pub clean : any is_ctrl_ws text ≡ false
      pub unmarked : strip_bom text ≡ text
      pub parsed : next text ≡ some (some v)

    json_write_framed :
        (v : J) (text : Bytes) → IsText v text → json_write J to_string v ≡ some (frame text)
    unfolding json_write
    json_write_framed v text t =
        let size : length text % 2 ^ 32 ≡ length text = omega (arith, t.fits) in
        rw t.printed (ap (λ n. some (be32 n ++ text)) size)

    framed_sent :
        (o : Option J) (v : J) (text sent : Bytes)
        → o ≡ some v
        → IsText v text
        → value_sent J to_string o ≡ some sent
        → sent ≡ frame text
    unfolding value_sent
    framed_sent none v text sent e t s = cc
    framed_sent (some w) v text sent e t s =
        let same : w ≡ v = cc in let framed = json_write_framed v text t in cc (same, framed, s)

    -- The parameters that the client sends are those that the server reads, and the bytes behind them are left: where
    -- the text is within the limit for parameters, and the derived conversions of the parameters undo one another.
    pub recv_params-send_params :
        (to_value : TestParams → Option J) (is_object : J → Bool)
        (from_value : J → Option TestParams) (p : TestParams) (v : J) (text sent after : Bytes)
        (c : Connection)
        → to_value p ≡ some v
        → is_object v ≡ true
        → from_value v ≡ some p
        → IsText v text
        → length text ≤ max_params_json_len
        → send_params J to_string to_value p ≡ some sent
        → Flowing c
        → content c ≡ sent ++ after
        → (c' : Connection) × (recv_params J
              (json_first_value J next from_slice)
              is_object
              from_value
              c
            ≡ (value p, c'))
          × (content c' ≡ after)
    unfolding send_params recv_params
    recv_params-send_params to_value is_object from_value p v text sent after c tv obj fv t
          short_text s f e =
        let framed = framed_sent (to_value p) v text sent tv t s in
        let plain = json_first_value_plain text v t.clean t.unmarked t.parsed in
        let (c', read, left) =
          json_read_bounded-frame J (json_first_value J next from_slice) max_params_json_len text
            after v c t.fits (ground (arith, short_text)) plain f
            (e ∙ ap (λ b. b ++ after) framed) in
        (c', rw (read, params_of_value, params_from_value, obj, fv) refl, left)

    -- The results that one side sends are those that the other reads, and the bytes behind them are left: where each
    -- stream has both of the omitted counts or none, and the derived conversions of the results undo one another.
    pub recv_test_results-send_results :
        {F : Float} (to_value : TestResults F J → Option J)
        (from_value : J → Option (TestResults F J)) (r : TestResults F J) (v : J)
        (text sent after : Bytes) (c : Connection)
        → to_value r ≡ some v
        → from_value v ≡ some r
        → half_omitted r.streams ≡ false
        → IsText v text
        → send_results J to_string to_value r ≡ some sent
        → Flowing c
        → content c ≡ sent ++ after
        → (c' : Connection) × (recv_test_results J (json_first_value J next from_slice) from_value c
            ≡ (valid r, c'))
          × (content c' ≡ after)
    unfolding send_results recv_test_results
    recv_test_results-send_results to_value from_value r v text sent after c tv fv whole t s f e =
        let framed = framed_sent (to_value r) v text sent tv t s in
        let plain = json_first_value_plain text v t.clean t.unmarked t.parsed in
        let (c', read, left) =
          recv_results-frame J (json_first_value J next from_slice) text after v c t.some_bytes
            t.fits plain f (e ∙ ap (λ b. b ++ after) framed) in
        (c', rw (read, results_read, validate_results, fv, validated, whole) refl, left)
