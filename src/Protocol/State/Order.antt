-- ===== src/Protocol/State/Order.antt =====
-- The transition table is a path: what the client may receive next lies further along it.
use riperf.Base.{
  ℕ, suc, ◌+◌, ◌≤◌, ◌<◌, ◌≡◌, ◌⊎◌, true, false, List, [], ◌∷◌, arith, ◌&&◌, if◌then◌else◌,
}
use riperf.Protocol.State.{
  TestState, test_start, test_running, param_exchange, create_streams, server_terminate,
  exchange_results, display_results, iperf_start, server_error, client, legal_next, is_legal_next,
  state_eq, to_wire,
}

-- How far along a test a state stands.
abbrev pub rank : TestState → ℕ
rank iperf_start = 0
rank param_exchange = 1
rank create_streams = 2
rank test_start = 3
rank test_running = 4
rank exchange_results = 5
rank display_results = 6
rank _ = 7

-- A legal next state is further along, or it is a TEST_RUNNING sent again.
pub is_legal_next-rank :
    (c g : TestState)
    → is_legal_next c g client ≡ true
    → (rank c < rank g) ⊎ ((c ≡ test_running) × (g ≡ test_running))
unfolding is_legal_next
is_legal_next-rank iperf_start g h = ground arith
is_legal_next-rank _ g h = ground arith

-- SERVER_ERROR and SERVER_TERMINATE are legal in a state exactly when anything is.
pub abort_legal :
    (c : TestState)
    → ((legal_next c client ≡ [])
        × (is_legal_next c server_error client ≡ false)
        × (is_legal_next c server_terminate client ≡ false))
      ⊎ ((is_legal_next c server_error client ≡ true)
          × (is_legal_next c server_terminate client ≡ true))
unfolding is_legal_next
abort_legal iperf_start = ground arith
abort_legal _ = ground arith

-- The states received after `c`, each legal after the one before it.
abbrev pub LegalRun : TestState → List TestState → Type 0
LegalRun c [] = Unit
LegalRun c (g ∷ gs) = (is_legal_next c g client ≡ true) × LegalRun g gs

-- The states received, a TEST_RUNNING sent again left out.
abbrev pub advances : TestState → List TestState → ℕ
advances c [] = 0
advances c (g ∷ gs) =
    let rest = advances g gs in
    if state_eq c test_running && state_eq g test_running then rest else suc rest

rank-le : (c : TestState) → rank c ≤ 7
rank-le iperf_start = omega arith
rank-le _ = omega arith

-- A run of legal states advances at most seven times, whatever is sent again on the way.
pub LegalRun-advances :
    (c : TestState) (gs : List TestState) → LegalRun c gs → advances c gs + rank c ≤ 7
unfolding to_wire
LegalRun-advances c [] h = omega (arith, rank-le c)
LegalRun-advances c (g ∷ gs) h =
    ground (arith, is_legal_next-rank c g h.0, LegalRun-advances g gs h.1)
