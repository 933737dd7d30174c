-- ===== src/Server/Round/Exchange.antt =====
-- `exchange_results_phase` of riperf3/src/server.rs: the exchange of the results and the wait for
-- IPERF_DONE, over what its waits wake up with.
use riperf.Base.{
  Bool, true, not, ◌&&◌, List, [], ◌∷◌, Option, none, some, Bytes, if◌then◌else◌, is_some,
}
use riperf.Base.Float.{Float}
use riperf.Errors.Runtime.{
  RiperfError, io, exchange_send_message_failed, exchange_send_results_failed,
  exchange_recv_message_failed, unknown_control_message, peer_disconnected,
}
use riperf.Protocol.State.{TestState}
use riperf.Client.Drive.{Received, got, lost}
use riperf.Client.Handlers.{Exchanged, results, unreadable, signal}
use riperf.Server.Round.{
  Marks, Frame, state, relay, TestRunCtx, Phase, over, pending, broken, send, send_ignoring, mark,
}

unfoldable pub exchange_send_message_error : RiperfError → RiperfError
exchange_send_message_error (io e) = exchange_send_message_failed e
exchange_send_message_error other = other

unfoldable pub exchange_send_results_error : RiperfError → RiperfError
exchange_send_results_error (io e) = exchange_send_results_failed e
exchange_send_results_error other = other

-- What the wait for IPERF_DONE wakes up with.
pub data TailEvent : Type 0 where
  answered : Received → TailEvent
  signalled : Bytes → TailEvent

-- What the exchange reads: the errors of its sends, with that of its one farewell, the answer of the
-- client, if it comes, and the events of the wait.
pub record Exchanging (R : Type 0) : Type 0 where
  pub announce_error : Option RiperfError
  pub results_error : Option RiperfError
  pub display_error : Option RiperfError
  pub farewell_error : Option RiperfError
  pub answer : Option (Exchanged R)
  pub tail : List TailEvent

-- A test that ended by TEST_END.
unfoldable pub exchanges : Marks → Bool
exchanges m =
    not m.client_terminated
    && not m.unknown_message
    && not m.ctrl_closed
    && not m.early_done
    && not (is_some m.interrupted)
    && not (is_some m.server_error)

module _ {F : Float} {R : Type 0} where
  -- A frame whose failure is kept in the context and ends the exchange.
  unfoldable pub send_kept :
      TestRunCtx F R
      → Frame R
      → (RiperfError → RiperfError)
      → Option RiperfError
      → (TestRunCtx F R → TestRunCtx F R × Phase)
      → TestRunCtx F R × Phase
  send_kept ctx m class none k = k (send ctx m)
  send_kept ctx m class (some e) k =
      (mark ctx (record ctx.marks { exchange_send_error = some (class e) }), over)

  unfoldable pub interrupt : TestRunCtx F R → Option RiperfError → Bytes → TestRunCtx F R
  unfolding send_ignoring
  interrupt ctx e msg =
      mark (send_ignoring ctx (state TestState.server_terminate) e)
        (record ctx.marks { interrupted = some msg })

  unfoldable pub stray : TestRunCtx F R → Option RiperfError → TestRunCtx F R
  unfolding send_ignoring
  stray ctx e =
      mark (send_ignoring ctx (relay 110 0) e) (record ctx.marks { unknown_message = true })

  unfoldable pub await_done :
      TestRunCtx F R → Option RiperfError → List TailEvent → TestRunCtx F R × Phase
  unfolding interrupt stray send_ignoring
  await_done ctx e [] = (ctx, pending)
  await_done ctx e (signalled msg ∷ r) = (interrupt ctx e msg, over)
  await_done ctx e (answered (got TestState.iperf_done) ∷ r) = (ctx, over)
  await_done ctx e (answered (got TestState.test_start) ∷ r) = await_done ctx e r
  await_done ctx e (answered (got TestState.client_terminate) ∷ r) = (
    mark (send_ignoring ctx (relay 119 0) e) (record ctx.marks { client_terminated = true }),
    over,
  )
  await_done ctx e (answered (got other) ∷ r) = (stray ctx e, over)
  await_done ctx e (answered (lost unknown_control_message) ∷ r) = (stray ctx e, over)
  await_done ctx e (answered (lost peer_disconnected) ∷ r) =
      (mark (send_ignoring ctx (relay 109 0) e) (record ctx.marks { ctrl_closed = true }), over)
  await_done ctx e (answered (lost (io error)) ∷ r) = (
    mark ctx (record ctx.marks {
      exchange_recv_message_error = some (exchange_recv_message_failed error);
    }),
    over,
  )
  await_done ctx e (answered (lost error) ∷ r) = (ctx, broken error)

  -- Behind the answer of the client, which the server's report does not use.
  unfoldable pub answered_with :
      TestRunCtx F R → R → Exchanging R → Option (Exchanged R) → TestRunCtx F R × Phase
  unfolding send_kept await_done interrupt send_ignoring exchange_send_message_error
      exchange_send_results_error
  answered_with ctx own x none = (ctx, pending)
  answered_with ctx own x (some (signal msg)) = (interrupt ctx x.farewell_error msg, over)
  answered_with ctx own x (some unreadable) = (
    mark (send_ignoring ctx (relay 117 0) x.farewell_error)
        (record ctx.marks { exchange_recv_failed = true }),
    over,
  )
  answered_with ctx own x (some (results theirs)) =
      send_kept ctx (Frame.results own) exchange_send_results_error x.results_error (λ told.
        send_kept told (state TestState.display_results) exchange_send_message_error x.display_error
          (λ shown. await_done shown x.farewell_error x.tail))

  -- `own` are the server's results.
  unfoldable pub exchange_results_phase : TestRunCtx F R → R → Exchanging R → TestRunCtx F R × Phase
  unfolding exchanges send_kept answered_with exchange_send_message_error
  exchange_results_phase ctx own x =
      if exchanges ctx.marks
      then send_kept ctx (state TestState.exchange_results) exchange_send_message_error
          x.announce_error (λ told. answered_with told own x x.answer)
      else (ctx, over)
