-- ===== src/Protocol/Messages/Results.antt =====
-- The results that the two sides exchange: `TestResultsJson` of riperf3/src/protocol.rs.
use riperf.Base.{
  ℕ, ◌^◌, ◌-◌, Bool, true, false, not, ◌||◌, List, [], ◌∷◌, Option, none, some, ℤ, pos, negsuc,
  Bytes, is_some, ltb, if◌then◌else◌,
}
use riperf.Base.Float.{Float}
use riperf.Protocol.Framing.{Warning}

-- An integer as serde visits it
pub data Integer : Type 0 where
  visit_i64 : ℤ → Integer
  visit_u64 : ℕ → Integer

-- What an i64 does not hold is -1.
unfoldable pub de_retransmit_sentinel : Integer → ℤ
de_retransmit_sentinel (visit_i64 v) = v
de_retransmit_sentinel (visit_u64 v) = if ltb (2 ^ 63 - 1) v then negsuc 0 else pos v

pub record StreamResult (F : Float) : Type 0 where
  pub id : ℤ
  pub bytes : ℕ
  pub retransmits : ℤ
  pub jitter : F.Carrier
  pub errors : ℤ
  pub omitted_errors : Option ℤ
  pub packets : ℤ
  pub omitted_packets : Option ℤ
  pub start_time : F.Carrier
  pub end_time : F.Carrier

pub record TestResults (F : Float) (J : Type 0) : Type 0 where
  pub cpu_util_total : F.Carrier
  pub cpu_util_user : F.Carrier
  pub cpu_util_system : F.Carrier
  pub sender_has_retransmits : ℤ
  pub congestion_used : Option Bytes
  pub server_output_text : Option Bytes
  pub server_output_json : Option J
  pub streams : List (StreamResult F)

-- `RecvResultsFailed` comes with the warning, if there was one; a value of another shape is a JSON error.
pub data Validated (F : Float) (J : Type 0) : Type 0 where
  valid : TestResults F J → Validated F J
  json_error : Validated F J
  invalid : Option Warning → Validated F J

module _ {F : Float} where
  -- `any(|x| x.omitted_errors.is_some() != x.omitted_packets.is_some())`
  unfoldable pub half_omitted : List (StreamResult F) → Bool
  half_omitted [] = false
  half_omitted (x ∷ r) =
      let rest = half_omitted r in
      elim (is_some x.omitted_errors) [
        | true ↦ not (is_some x.omitted_packets) || rest
        | false ↦ is_some x.omitted_packets || rest
      ]

  unfoldable pub resolve_peer_omitted : StreamResult F → ℤ → ℤ × ℤ
  resolve_peer_omitted x local_omitted = elim x.omitted_errors [
    | none ↦ (pos 0, local_omitted)
    | some e ↦ elim x.omitted_packets [ none ↦ (pos 0, local_omitted) | some p ↦ (e, p) ]
  ]
