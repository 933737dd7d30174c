-- ===== src/Stream/TcpSender.antt =====
-- `run_tcp_sender` of riperf3/src/stream.rs, the senders of a test over the byte budget that they
-- share. A sender acts in two steps, the claim of a block and its write, and those of several senders
-- interleave. At the omit boundary the reporter fills the budget up again (`spawn_interval_reporter` of
-- riperf3/src/reporter.rs), and senders that idle at its limit resume. The boundary is
-- the moment of that store; the baselines of the counters, which are read just before it, are the reporter's.
-- The limiter's waits and the bytes of the file are left out.
pub mod Steps
pub mod Budget
use riperf.Base.{
  ℕ, Bool, true, false, ◌&&◌, List, [], ◌∷◌, Option, none, some, ℤ, pos, ◌-ℤ◌, ltb_ℤ, ltb,
  if◌then◌else◌, get_elem?, set, map_opt,
}
use riperf.Errors.Runtime.{IoError, ErrorKind, broken_pipe, connection_reset, RiperfError, io}
use riperf.Stream.Counters.{StreamCounters, record_sent}

-- Where a sender stands: before the claim of a block, with a block claimed, or past its loop.
pub data Stage : Type 0 where
  looping claimed finished : Stage
  failed : RiperfError → Stage

pub record TcpSender (S : Type 0) : Type 0 where
  pub stage : Stage
  pub counters : StreamCounters S

-- What a step reads: the flag of the end, the error of rewinding the file, and that of the write.
pub record Reading : Type 0 where
  pub done : Bool
  pub seek_error : Option IoError
  pub write_error : Option IoError

-- The budget behind a claim, or none where it is exhausted. The i64 does not overflow: a positive
-- budget less a block.
unfoldable pub claim : ℕ → Option ℤ → Option (Option ℤ)
claim len none = some none
claim len (some v) = if ltb_ℤ (pos 0) v then some (some (v -ℤ pos len)) else none

-- The errors that end a sender quietly.
unfoldable pub is_hangup : ErrorKind → Bool
is_hangup broken_pipe = true
is_hangup connection_reset = true
is_hangup other = false

unfoldable pub write_failed : IoError → Stage
unfolding is_hangup
write_failed e = if is_hangup e.kind then finished else failed (io e)

module _ {S : Type 0} where
  unfoldable pub claiming : TcpSender S → Option ℤ → Option (Option ℤ) → TcpSender S × Option ℤ
  claiming s budget none = (s, budget)
  claiming s budget (some rest) = (record s { stage = claimed }, rest)

module _ {S : Type 0} (len : ℕ) where
  unfoldable pub writing : TcpSender S → Option IoError → TcpSender S
  unfolding record_sent write_failed
  writing s none = record s { stage = looping; counters = record_sent len s.counters }
  writing s (some e) = record s { stage = write_failed e }

module _ {S : Type 0} (len rate : ℕ) where
  -- With a block claimed: the limiter is there where the rate is not 0.
  unfoldable pub send_block : TcpSender S → Reading → Option IoError → TcpSender S
  unfolding writing
  send_block s r (some e) = record s { stage = failed (io e) }
  send_block s r none =
      if ltb 0 rate && r.done then record s { stage = finished } else writing len s r.write_error

  unfoldable pub step_at : Stage → TcpSender S → Reading → Option ℤ → TcpSender S × Option ℤ
  unfolding claim claiming send_block
  step_at looping s r budget =
      if r.done
      then (record s { stage = finished }, budget)
      else claiming s budget (claim len budget)
  step_at claimed s r budget = (send_block s r r.seek_error, budget)
  step_at finished s r budget = (s, budget)
  step_at (failed e) s r budget = (s, budget)

  unfoldable pub step : TcpSender S → Reading → Option ℤ → TcpSender S × Option ℤ
  unfolding step_at
  step s r budget = step_at s.stage s r budget

-- The senders of a test and their budget.
pub record Senders (S : Type 0) : Type 0 where
  pub senders : List (TcpSender S)
  pub byte_budget : Option ℤ

module _ {S : Type 0} (len rate : ℕ) where
  unfoldable pub moved : Senders S → ℕ → Reading → Option (TcpSender S) → Senders S
  unfolding step
  moved w i r none = w
  moved w i r (some s) =
      let (s', budget) = step len rate s r w.byte_budget in
      record { senders = set w.senders i s'; byte_budget = budget }

  -- The sender `i` makes a step.
  unfoldable pub act : Senders S → ℕ → Reading → Senders S
  unfolding moved
  act w i r = moved w i r (get_elem? w.senders i)

  -- A schedule of the senders, in the order of their steps.
  unfoldable pub interleaved : Senders S → List (ℕ × Reading) → Senders S
  unfolding act
  interleaved w [] = w
  interleaved w ((i, r) ∷ rs) = interleaved (act w i r) rs

-- The store of the target at the omit boundary, if there is a budget.
unfoldable pub refilled : {S : Type 0} → ℕ → Senders S → Senders S
refilled target w = record w { byte_budget = map_opt (λ b. pos target) w.byte_budget }

-- A test with a warm-up: the steps of the senders before its boundary and those behind it.
unfoldable pub warmed_up :
    {S : Type 0} (len rate target : ℕ)
    → Senders S
    → List (ℕ × Reading)
    → List (ℕ × Reading)
    → Senders S × Senders S
unfolding interleaved refilled
warmed_up len rate target w before behind =
    let boundary = interleaved len rate w before in
    (boundary, interleaved len rate (refilled target boundary) behind)
