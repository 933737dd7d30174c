-- ===== src/Protocol/Messages.antt =====
-- The messages of riperf3/src/protocol.rs: cookies, state bytes, the payload of an error, and JSON values with
-- the parameters and the results in them. A message that is sent is its bytes.
pub mod Results
pub mod RoundTrip
use riperf.Base.{
  ℕ, ◌*◌, ◌%◌, ◌^◌, Bool, true, false, List, [], ◌∷◌, ◌++◌, map, Option, none, some, map_opt, Bytes,
  be32, word32, get_or, codes, length, as_u32, signed8, if◌then◌else◌, ◌==◌,
}
use riperf.Base.Float.{Float}
use riperf.Protocol.Params.{TestParams, default_params}
use riperf.Protocol.Messages.Results.{
  TestResults, Validated, valid, json_error, invalid, half_omitted,
}
use riperf.Protocol.State.{TestState, to_wire, from_wire, known, unknown}
use riperf.Protocol.Framing.{
  Connection, Read, bytes, end_of_stream, read_error, nread_step, Filled, full, short, broken,
  nread_exact, JsonRead, value, failure, ReadFailure, json_read_bounded, ResultsRead, results,
  recv_results_failed, Warning, recv_results,
}

abbrev pub cookie_size : ℕ
cookie_size = 37

abbrev pub cookie_charset : Bytes
cookie_charset = codes "abcdefghijklmnopqrstuvwxyz234567"

-- From 36 draws of the random generator, indices of the charset; and the NUL.
unfoldable pub make_cookie : List ℕ → Bytes
make_cookie draws = map (λ i. get_or cookie_charset i 0) draws ++ 0 ∷ []

abbrev pub send_cookie : Bytes → Bytes
send_cookie cookie = cookie

unfoldable pub recv_cookie : Connection → Filled × Connection
recv_cookie c = nread_exact cookie_size c

-- `state.to_wire() as u8`
unfoldable pub send_state : TestState → Bytes
unfolding to_wire
send_state s = as_u32 (to_wire s) % 256 ∷ []

pub data StateRead : Type 0 where
  state : TestState → StateRead
  peer_disconnected : StateRead
  unknown_control_message : StateRead
  state_failed : ℕ → StateRead

unfoldable pub state_of : Read × Connection → StateRead × Connection
unfolding from_wire
state_of (bytes b, c) = elim (from_wire (signed8 (get_or b 0 0))) [
  | known s ↦ (state s, c)
  | unknown u ↦ (unknown_control_message, c)
]
state_of (end_of_stream, c) = (peer_disconnected, c)
state_of (read_error e, c) = (state_failed e, c)

-- One read of a byte; it has no time limit, so the end is the peer's.
unfoldable pub recv_state : Connection → StateRead × Connection
unfolding state_of
recv_state c = state_of (nread_step 1 c)

unfoldable pub send_server_error_errno : ℕ → ℕ → Bytes
unfolding send_state
send_server_error_errno i_errno os_errno =
    send_state TestState.server_error ++ (be32 i_errno ++ be32 os_errno)

unfoldable pub send_server_error : ℕ → Bytes
unfolding send_server_error_errno
send_server_error i_errno = send_server_error_errno i_errno 0

payload_of : Filled × Connection → Option (ℕ × ℕ) × Connection
payload_of (full b, c) = (
  some (
    word32 (get_or b 0 0) (get_or b 1 0) (get_or b 2 0) (get_or b 3 0),
    word32 (get_or b 4 0) (get_or b 5 0) (get_or b 6 0) (get_or b 7 0),
  ),
  c,
)
payload_of (short b, c) = (none, c)
payload_of (broken e b, c) = (none, c)

unfoldable pub read_server_error_payload : Connection → Option (ℕ × ℕ) × Connection
unfolding payload_of
read_server_error_payload c = payload_of (nread_exact 8 c)

abbrev pub max_params_json_len : ℕ
max_params_json_len = 8 * 1024

-- serde's printer of a JSON value; the derived conversions of the two types are parameters as well.
module _ (J : Type 0) (to_string : J → Option Bytes) where
  -- Nothing is sent where the value has no text.
  unfoldable pub json_write : J → Option Bytes
  json_write v = map_opt (λ payload. be32 (length payload % 2 ^ 32) ++ payload) (to_string v)

  unfoldable pub value_sent : Option J → Option Bytes
  unfolding json_write
  value_sent none = none
  value_sent (some v) = json_write v

  unfoldable pub send_params : (TestParams → Option J) → TestParams → Option Bytes
  unfolding value_sent
  send_params to_value p = value_sent (to_value p)

  unfoldable pub send_results :
      {F : Float} → (TestResults F J → Option J) → TestResults F J → Option Bytes
  unfolding value_sent
  send_results to_value r = value_sent (to_value r)

module _ (J : Type 0) where
  -- A value that is no object stands for the default parameters.
  unfoldable pub params_from_value : (J → Bool) → (J → Option TestParams) → J → Option TestParams
  params_from_value is_object from_value v =
      if is_object v then from_value v else some default_params

  unfoldable pub validated : {F : Float} → Option (TestResults F J) → Validated F J
  unfolding half_omitted
  validated none = json_error
  validated (some r) = if half_omitted r.streams then invalid none else valid r

  unfoldable pub validate_results : {F : Float} → (J → Option (TestResults F J)) → J → Validated F J
  unfolding validated
  validate_results from_value v = validated (from_value v)

-- The parser with its cleaning: `json_first_value`.
module _ (J : Type 0) (json_first_value : Bytes → Option J) where
  unfoldable pub parameters : Option TestParams → Connection → JsonRead TestParams × Connection
  parameters none c = (failure ReadFailure.bad_json, c)
  parameters (some p) c = (value p, c)

  unfoldable pub params_of_value :
      (J → Bool)
      → (J → Option TestParams)
      → JsonRead J × Connection
      → JsonRead TestParams × Connection
  unfolding parameters params_from_value
  params_of_value is_object from_value (failure f, c) = (failure f, c)
  params_of_value is_object from_value (value v, c) =
      parameters (params_from_value J is_object from_value v) c

  unfoldable pub recv_params :
      (J → Bool) → (J → Option TestParams) → Connection → JsonRead TestParams × Connection
  unfolding params_of_value
  recv_params is_object from_value c =
      params_of_value is_object from_value
        (json_read_bounded J json_first_value max_params_json_len c)

  unfoldable pub results_read :
      {F : Float}
      → (J → Option (TestResults F J))
      → ResultsRead J × Connection
      → Validated F J × Connection
  unfolding validate_results
  results_read from_value (recv_results_failed w, c) = (invalid w, c)
  results_read from_value (results v, c) = (validate_results J from_value v, c)

  -- `recv_results` with the validation
  unfoldable pub recv_test_results :
      {F : Float} → (J → Option (TestResults F J)) → Connection → Validated F J × Connection
  unfolding results_read
  recv_test_results from_value c = results_read from_value (recv_results J json_first_value c)
