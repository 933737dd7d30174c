-- ===== src/Server/Round/DataPhase.antt =====
-- `await_test_end` of riperf3/src/server.rs: the data phase of a served test. What its select wakes up
-- for is a list of events; instants are nanoseconds since the start of the test.
use riperf.Base.{
  ℕ, ◌+◌, ◌-◌, ◌*◌, ◌%◌, ◌^◌, Bool, true, not, ◌||◌, List, [], ◌∷◌, Option, none, some, Bytes,
  codes, leb, ltb, ◌==◌, min, if◌then◌else◌, sum, map, unwrap_or, filter_opt,
}
use riperf.Base.Float.{Float}
use riperf.Errors.Runtime.{RiperfError, unknown_control_message, peer_disconnected}
use riperf.Protocol.State.{TestState}
use riperf.Stream.Counters.{StreamCounters}
use riperf.Client.Drive.{Received, got, lost}
use riperf.Server.Config.{TestConfig}
use riperf.Server.RateWindow.{RateLimitWindow, from_interval_secs, push}
use riperf.Server.Round.{
  Server, Marks, state, relay, TestRunCtx, Phase, over, pending, broken, send, send_ignoring, mark,
}

abbrev pub default_rcv_timeout_ms : ℕ
default_rcv_timeout_ms = 120000

-- Zero where the watchdog is not armed.
unfoldable pub watchdog_secs : TestConfig → ℕ
watchdog_secs cfg = if cfg.duration == 0 then 0 else min (cfg.duration + cfg.omit) (2 ^ 64 - 1) + 40

unfoldable pub idle_armed : TestConfig → Bool
idle_armed cfg = not cfg.reverse || cfg.bidir

module _ {S : Type 0} where
  unfoldable pub total_bytes : List (StreamCounters S) → ℕ
  total_bytes streams = sum (map (λ s. s.bytes_sent + s.bytes_received) streams) % 2 ^ 64

  unfoldable pub received_bytes : List (StreamCounters S) → ℕ
  received_bytes streams = sum (map (λ s. s.bytes_received) streams) % 2 ^ 64

module _ (S : Type 0) where
  -- A tick reads the counters of the streams; `clock` is a look at the deadline of the watchdog.
  pub data PhaseEvent : Type 0 where
    control : Received → PhaseEvent
    signalled : Bytes → PhaseEvent
    rate_tick : List (StreamCounters S) → PhaseEvent
    idle_tick : List (StreamCounters S) → ℕ → PhaseEvent
    clock : ℕ → PhaseEvent

-- The variables of the loop.
pub record Watch : Type 0 where
  pub rate_window : RateLimitWindow
  pub rate_prev_total : ℕ
  pub idle_last_rx : ℕ
  pub idle_last_at : ℕ

pub data Woken (F : Float) (R : Type 0) : Type 0 where
  watching : Watch → Woken F R
  ends : TestRunCtx F R → Woken F R
  fails : TestRunCtx F R → RiperfError → Woken F R

module _ {F : Float} (s : Server F) where
  unfoldable pub idle_bound : ℕ
  idle_bound = unwrap_or s.rcv_timeout default_rcv_timeout_ms * 1000000

  unfoldable pub bitrate_limit : Option ℕ
  bitrate_limit = filter_opt (λ l. ltb 0 l) s.server_bitrate_limit

  -- Where the loop begins, at `now`.
  unfoldable pub watch : ℕ → Watch
  unfolding from_interval_secs
  watch now = record {
    rate_window = from_interval_secs F (unwrap_or s.server_bitrate_limit_interval (F.of_ℕ 5));
    rate_prev_total = 0;
    idle_last_rx = 0;
    idle_last_at = now;
  }

-- The marks of a test that the server ends itself.
abbrev pub expire : Marks → Bytes → Marks
expire m msg = record m { server_error = some msg; bare_end = true }

module _ {F : Float} {R : Type 0} where
  -- A byte that has no arm, known or not.
  unfoldable pub on_stray : TestRunCtx F R → Option RiperfError → Woken F R
  unfolding send_ignoring
  on_stray ctx e = ends (
      mark (send_ignoring ctx (relay 110 0) e)
        (record ctx.marks { unknown_message = true; bare_end = true }))

  unfoldable pub on_control : TestRunCtx F R → Watch → Option RiperfError → Received → Woken F R
  unfolding send_ignoring on_stray
  on_control ctx w e (got TestState.test_end) = ends ctx
  on_control ctx w e (got TestState.client_terminate) =
      ends
        (mark (send_ignoring ctx (relay 119 0) e) (record ctx.marks { client_terminated = true }))
  on_control ctx w e (got TestState.test_start) = watching w
  on_control ctx w e (got TestState.iperf_done) =
      ends (mark ctx (record ctx.marks { early_done = true; bare_end = true }))
  on_control ctx w e (got other) = on_stray ctx e
  on_control ctx w e (lost unknown_control_message) = on_stray ctx e
  on_control ctx w e (lost peer_disconnected) = ends (
      mark (send_ignoring ctx (relay 109 0) e)
        (record ctx.marks { ctrl_closed = true; bare_end = true }))
  on_control ctx w e (lost error) = fails ctx error

  -- Ends it behind a relay whose failure is the round's.
  unfoldable pub self_terminate : TestRunCtx F R → ℕ → Bytes → Option RiperfError → Woken F R
  self_terminate ctx code msg none = ends (mark (send ctx (relay code 0)) (expire ctx.marks msg))
  self_terminate ctx code msg (some e) = fails ctx e

  -- The verdict of the window on the bits per second.
  unfoldable pub judged : TestRunCtx F R → Watch → Option RiperfError → ℕ → Option ℕ → Woken F R
  unfolding self_terminate
  judged ctx w e limit none = watching w
  judged ctx w e limit (some bits_per_sec) =
      if ltb limit bits_per_sec
      then self_terminate ctx 27 (codes "total required bandwidth is larger than server limit") e
      else watching w

  unfoldable pub on_rate_tick :
      TestRunCtx F R → Watch → Option RiperfError → ℕ → Option ℕ → Woken F R
  unfolding judged push
  on_rate_tick ctx w e total none = watching w
  on_rate_tick ctx w e total (some limit) =
      let (verdict, window) = push F w.rate_window (total - w.rate_prev_total) in
      judged ctx (record w { rate_window = window; rate_prev_total = total }) e limit verdict

  unfoldable pub on_clock : TestRunCtx F R → Watch → Option RiperfError → ℕ → Woken F R
  unfolding self_terminate watchdog_secs
  on_clock ctx w e now =
      if ltb 0 (watchdog_secs ctx.cfg)
      then (if leb (watchdog_secs ctx.cfg * 1000000000) now
          then self_terminate ctx 160
              (codes "server test duration expired - test is terminated by the server") e
          else watching w)
      else watching w

  abbrev pub go_on : Woken F R → (Watch → TestRunCtx F R × Phase) → TestRunCtx F R × Phase
  go_on (watching w) k = k w
  go_on (ends ctx) k = (ctx, over)
  go_on (fails ctx e) k = (ctx, broken e)

module _ {F : Float} {R : Type 0} (s : Server F) where
  unfoldable pub on_idle_tick : TestRunCtx F R → Watch → Option RiperfError → ℕ → ℕ → Woken F R
  unfolding send_ignoring idle_bound
  on_idle_tick ctx w e rx now =
      if ltb w.idle_last_rx rx
      then watching (record w { idle_last_rx = rx; idle_last_at = now })
      else if leb (idle_bound s) (now - w.idle_last_at)
      then ends (
          mark (send_ignoring ctx (relay 144 0) e)
            (expire ctx.marks (codes "idle timeout for receiving data")))
      else watching w

module _ {F : Float} {R S : Type 0} (s : Server F) where
  unfoldable pub woken : TestRunCtx F R → Watch → Option RiperfError → PhaseEvent S → Woken F R
  unfolding on_control on_rate_tick on_idle_tick on_clock send_ignoring bitrate_limit total_bytes
      received_bytes idle_armed
  woken ctx w e (control answer) = on_control ctx w e answer
  woken ctx w e (signalled msg) = ends (
      mark (send_ignoring ctx (state TestState.server_terminate) e)
        (record ctx.marks { interrupted = some msg }))
  woken ctx w e (rate_tick streams) = on_rate_tick ctx w e (total_bytes streams) (bitrate_limit s)
  woken ctx w e (idle_tick streams now) =
      if idle_armed ctx.cfg then on_idle_tick s ctx w e (received_bytes streams) now else watching w
  woken ctx w e (clock now) = on_clock ctx w e now

  -- `e` is the error of the one farewell that the phase may send.
  unfoldable pub watched :
      TestRunCtx F R → Watch → Option RiperfError → List (PhaseEvent S) → TestRunCtx F R × Phase
  unfolding woken
  watched ctx w e [] = (ctx, pending)
  watched ctx w e (event ∷ r) = go_on (woken ctx w e event) (λ w'. watched ctx w' e r)

  unfoldable pub await_test_end :
      TestRunCtx F R → ℕ → Option RiperfError → List (PhaseEvent S) → TestRunCtx F R × Phase
  unfolding watch watched
  await_test_end ctx now e events = watched ctx (watch s now) e events
