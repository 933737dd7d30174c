-- ===== src/Client/Drive.antt =====
-- The data phase of a client's run: `run_test`, `watch_control`, `wait_byte_limit` and
-- `transferred_bytes` of riperf3/src/client.rs. What the selects of the phase wake up for is a list of
-- events, with the seconds since the start.
use riperf.Base.{
  ℕ, ◌-◌, ◌*◌, ◌%◌, ◌^◌, Bool, not, List, [], ◌∷◌, Option, none, some, Bytes, leb, ◌==◌, min, max,
  if◌then◌else◌, sum, map, keep,
}
use riperf.Errors.Runtime.{RiperfError}
use riperf.Protocol.State.{TestState}
use riperf.Stream.Counters.{StreamCounters, bytes_sent_net}
use riperf.Client.Types.{Env, Client}

-- What `recv_state` answers.
pub data Received : Type 0 where
  got : TestState → Received
  lost : RiperfError → Received

pub data ControlEvent : Type 0 where
  interrupted : Bytes → ControlEvent
  terminated server_errored closed : ControlEvent

-- What an answer means for the watch; it goes on behind every other state.
unfoldable pub watch_control : Received → Option ControlEvent
watch_control (got TestState.server_terminate) = some terminated
watch_control (got TestState.server_error) = some server_errored
watch_control (got other) = none
watch_control (lost e) = some closed

pub data EndCondition : Type 0 where
  bytes blocks duration : ℕ → EndCondition

unfoldable pub end_condition : {E : Env} → Client E → EndCondition
end_condition c = elim c.bytes_to_send [
  | some n ↦ bytes n
  | none ↦ elim c.blocks_to_send [ some n ↦ blocks n | none ↦ duration c.duration ]
]

module _ {S : Type 0} where
  -- Whether a stream sends, and its counters.
  unfoldable pub transferred_bytes : List (Bool × StreamCounters S) → ℕ
  unfolding bytes_sent_net
  transferred_bytes streams =
      let sent = sum (map (λ s. bytes_sent_net s.1) (keep (λ s. s.0) streams)) % 2 ^ 64 in
      let received = sum (map (λ s. s.1.bytes_received) (keep (λ s. not s.0) streams)) % 2 ^ 64 in
      max sent received

module _ (E : Env) (S : Type 0) where
  open E.f64 use {Carrier, sub, lt, of_ℕ}

  pub data DriveEvent : Type 0 where
    timer : DriveEvent
    -- a poll of the byte limit, which begins once the boundary of the omitted time has crossed
    polled : List (Bool × StreamCounters S) → Carrier → DriveEvent
    control : Received → Carrier → DriveEvent
    signalled : Bytes → Carrier → DriveEvent

  -- The bytes that end the test, if it ends by bytes.
  unfoldable pub byte_target : EndCondition → ℕ → Option ℕ
  byte_target (bytes n) blksize = some n
  byte_target (blocks n) blksize = some (min (n * blksize) (2 ^ 64 - 1))
  byte_target (duration d) blksize = none

  -- The seconds of a test that ends by its deadline: none where none is armed.
  unfoldable pub deadline : EndCondition → Option ℕ
  deadline (duration d) = if d == 0 then none else some d
  deadline (bytes n) = none
  deadline (blocks n) = none

  unfoldable pub watch_end_secs : ℕ → Carrier → Carrier
  watch_end_secs omit raw = if lt (of_ℕ omit) raw then sub raw (of_ℕ omit) else raw

  -- `max(0.0)`
  abbrev pub at_least_zero : Carrier → Carrier
  at_least_zero x = if lt (of_ℕ 0) x then x else of_ℕ 0

  -- How the phase ends, and when; `none` while it has not.
  unfoldable pub drive : Client E → ℕ → List DriveEvent → Option (Carrier × Option ControlEvent)
  unfolding end_condition byte_target deadline watch_control watch_end_secs transferred_bytes
  drive c blksize [] = none
  drive c blksize (timer ∷ r) = elim (deadline (end_condition c)) [
    | none ↦ drive c blksize r
    | some d ↦ some (of_ℕ d, none)
  ]
  drive c blksize (polled streams elapsed ∷ r) = elim (byte_target (end_condition c) blksize) [
    | none ↦ drive c blksize r
    | some target ↦
        let rest = drive c blksize r in
        if leb target (transferred_bytes streams)
        then some (at_least_zero (sub elapsed (of_ℕ c.omit)), none)
        else rest
  ]
  drive c blksize (control answer elapsed ∷ r) = elim (watch_control answer) [
    | none ↦ drive c blksize r
    | some event ↦ some (watch_end_secs c.omit elapsed, some event)
  ]
  drive c blksize (signalled msg elapsed ∷ r) =
      some (watch_end_secs c.omit elapsed, some (interrupted msg))
