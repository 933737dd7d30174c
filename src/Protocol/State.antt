-- ===== src/Protocol/State.antt =====
-- The control states of riperf3/src/protocol.rs: their wire bytes and the transition table.
pub mod Codec
pub mod Order
use riperf.Base.{ℕ, Bool, List, [], ◌∷◌, ℤ, pos, negsuc, eqb_ℤ, any, ◌==◌, if◌then◌else◌}

pub data TestState : Type 0 where
  test_start test_running test_end param_exchange create_streams : TestState
  server_terminate client_terminate exchange_results display_results : TestState
  iperf_start iperf_done access_denied server_error : TestState

pub data UnknownState : Type 0 where
  unknown_state : ℤ → UnknownState

pub data Decoded : Type 0 where
  known : TestState → Decoded
  unknown : UnknownState → Decoded

unfoldable pub to_wire : TestState → ℤ
to_wire test_start = pos 1
to_wire test_running = pos 2
to_wire test_end = pos 4
to_wire param_exchange = pos 9
to_wire create_streams = pos 10
to_wire server_terminate = pos 11
to_wire client_terminate = pos 12
to_wire exchange_results = pos 13
to_wire display_results = pos 14
to_wire iperf_start = pos 15
to_wire iperf_done = pos 16
to_wire access_denied = negsuc 0
to_wire server_error = negsuc 1

-- The arms of the `match` for the bytes that are not negative.
pos_from_wire : ℕ → Decoded
pos_from_wire n =
    if n == 1
    then known test_start
    else if n == 2
    then known test_running
    else if n == 4
    then known test_end
    else if n == 9
    then known param_exchange
    else if n == 10
    then known create_streams
    else if n == 11
    then known server_terminate
    else if n == 12
    then known client_terminate
    else if n == 13
    then known exchange_results
    else if n == 14
    then known display_results
    else if n == 15
    then known iperf_start
    else if n == 16
    then known iperf_done
    else unknown (unknown_state (pos n))

unfoldable pub from_wire : ℤ → Decoded
unfolding pos_from_wire
from_wire (pos n) = pos_from_wire n
from_wire (negsuc n) =
    if n == 0
    then known access_denied
    else if n == 1
    then known server_error
    else unknown (unknown_state (negsuc n))

pub data Role : Type 0 where
  client : Role

unfoldable pub legal_next : TestState → Role → List TestState
legal_next iperf_start client =
    param_exchange ∷ access_denied ∷ server_error ∷ server_terminate ∷ []
legal_next param_exchange client = create_streams ∷ server_error ∷ server_terminate ∷ []
legal_next create_streams client = test_start ∷ server_error ∷ server_terminate ∷ []
legal_next test_start client = test_running ∷ server_error ∷ server_terminate ∷ []
legal_next test_running client =
    test_running ∷ exchange_results ∷ server_error ∷ server_terminate ∷ []
legal_next exchange_results client = display_results ∷ server_error ∷ server_terminate ∷ []
legal_next display_results client = iperf_done ∷ server_error ∷ server_terminate ∷ []
legal_next server_terminate client = []
legal_next server_error client = []
legal_next access_denied client = []
legal_next _ client = []

-- The derived `PartialEq`: states are equal when their wire bytes are.
abbrev pub state_eq : TestState → TestState → Bool
unfolding to_wire
state_eq a b = eqb_ℤ (to_wire a) (to_wire b)

unfoldable pub is_legal_next : TestState → TestState → Role → Bool
unfolding legal_next to_wire
is_legal_next current got role = any (λ s. state_eq s got) (legal_next current role)
