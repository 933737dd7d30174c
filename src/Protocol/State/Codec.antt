-- ===== src/Protocol/State/Codec.antt =====
-- `to_wire` and `from_wire` undo one another, on every byte.
use riperf.Base.{◌≡◌, refl, sym, ◌∙◌, ap, ◌≢◌, ◌↔◌, arith, ℤ, pos, negsuc}
use riperf.Protocol.State.{
  TestState, test_start, known, unknown, UnknownState, unknown_state, to_wire, from_wire,
}

from_wire-to_wire : (s : TestState) → from_wire (to_wire s) ≡ known s
unfolding from_wire to_wire
from_wire-to_wire test_start = refl
from_wire-to_wire _ = refl

to_wire_of_known : (b : ℤ) (s : TestState) → from_wire b ≡ known s → to_wire s ≡ b
unfolding from_wire to_wire
to_wire_of_known (pos n) s h = ground arith
to_wire_of_known (negsuc n) s h = ground arith

-- A byte decodes to a state exactly when it is the byte that this state is sent as.
pub from_wire-known_iff : (b : ℤ) (s : TestState) → (from_wire b ≡ known s) ↔ (to_wire s ≡ b)
from_wire-known_iff b s = (to_wire_of_known b s, λ e. ap from_wire (sym e) ∙ from_wire-to_wire s)

unknown_carries : (b : ℤ) (u : UnknownState) → from_wire b ≡ unknown u → u ≡ unknown_state b
unfolding from_wire
unknown_carries (pos n) u h = ground arith
unknown_carries (negsuc n) u h = ground arith

-- A byte that is refused is the byte of no state, and the error carries it unchanged.
pub from_wire-unknown :
    (b : ℤ) (u : UnknownState)
    → from_wire b ≡ unknown u
    → (u ≡ unknown_state b) × ((s : TestState) → to_wire s ≢ b)
from_wire-unknown b u h =
    (unknown_carries b u h, λ s e. cc (from_wire-to_wire s, ap from_wire e, h))
