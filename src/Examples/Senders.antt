-- ===== src/Examples/Senders.antt =====
-- Two TCP senders that share a budget of 25 bytes, with blocks of 10.
use riperf.Base.{
  ◌*◌, ℕ, ◌+◌, ◌≤◌, ◌<◌, refl, false, List, [], ◌∷◌, none, some, pos, ◌-ℤ◌, codes, arith,
}
use riperf.Errors.Runtime.{broken_pipe}
use riperf.Stream.Counters.{new}
use riperf.Stream.TcpSender.{TcpSender, looping, Reading, Senders, interleaved, claim, warmed_up}
use riperf.Stream.TcpSender.Steps.{Calm}
use riperf.Stream.TcpSender.Budget.{total_sent, warmed_up-bound, warmed_up-exhausted}

abbrev sender : TcpSender ℕ
unfolding new
sender = record { stage = looping; counters = new ℕ }

abbrev pair : Senders ℕ
pair = record { senders = sender ∷ sender ∷ []; byte_budget = some (pos 25) }

abbrev calm : Reading
calm = record { done = false; seek_error = none; write_error = none }

abbrev hangup : Reading
hangup = record {
  done = false;
  seek_error = none;
  write_error = some (record { kind = broken_pipe; text = codes "broken pipe" });
}

-- The second sender loses its peer.
abbrev torn : List (ℕ × Reading)
torn = (0, calm) ∷ (1, calm) ∷ (1, hangup) ∷ (0, calm) ∷ (0, calm) ∷ (0, calm) ∷ []

warmed_up-bound_example :
    (total_sent (warmed_up 10 0 25 pair torn []).0.senders < 25 + 10)
    × (total_sent (warmed_up 10 0 25 pair torn []).1.senders
        < total_sent (warmed_up 10 0 25 pair torn []).0.senders + 25 + 10 + 2 * 10)
unfolding new
warmed_up-bound_example =
    warmed_up-bound 10 0 25 pair torn [] (omega arith) ((refl, refl), ((refl, refl), tt)) refl

-- Both hold a block at the boundary.
abbrev warm_up : List (ℕ × Reading)
warm_up = (0, calm) ∷ (1, calm) ∷ []

abbrev turns : List (ℕ × Reading)
turns =
    (0, calm)
    ∷ (1, calm)
    ∷ (0, calm)
    ∷ (0, calm)
    ∷ (1, calm)
    ∷ (1, calm)
    ∷ (0, calm)
    ∷ (0, calm)
    ∷ []

calm_turn : Calm calm
calm_turn = (refl, refl, refl)

warmed_up-exhausted_example :
    total_sent (warmed_up 10 0 25 pair warm_up turns).0.senders + 25
    ≤ total_sent (warmed_up 10 0 25 pair warm_up turns).1.senders
unfolding new warmed_up interleaved claim ◌-ℤ◌
warmed_up-exhausted_example =
    warmed_up-exhausted 10 0 25 pair warm_up turns (omega arith) (omega arith)
      ((refl, refl), ((refl, refl), tt)) refl
      (
        calm_turn,
        (
          calm_turn,
          (calm_turn, (calm_turn, (calm_turn, (calm_turn, (calm_turn, (calm_turn, tt)))))),
        ),
      )
      (refl, (refl, tt)) refl
