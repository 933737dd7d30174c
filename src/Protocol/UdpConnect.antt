-- ===== src/Protocol/UdpConnect.antt =====
-- The client's side of the UDP handshake: `udp_connect_client` of riperf3/src/protocol.rs. Times are in
-- nanoseconds; a handshake is what its passes through the loop meet.
pub mod Resends
pub mod Answered
use riperf.Base.{
  ℕ, ◌+◌, Bool, true, false, not, ◌&&◌, ◌||◌, List, [], ◌∷◌, Option, none, some, Bytes, codes,
  length, take, ltb, leb, ◌==◌, if◌then◌else◌,
}
use riperf.Errors.Runtime.{ErrorKind, connection_reset, connection_refused, IoError, RiperfError}

abbrev pub udp_connect_reply : ℕ
udp_connect_reply = 0x39383736

-- The reply of older servers
abbrev pub legacy_udp_connect_reply : ℕ
legacy_udp_connect_reply = 0xb168de3a

abbrev pub udp_connect_total_timeout : ℕ
udp_connect_total_timeout = 30000000000

abbrev pub udp_connect_retry_interval : ℕ
udp_connect_retry_interval = 500000000

unfoldable pub transient_udp_handshake_error : IoError → Bool
transient_udp_handshake_error e = elim e.kind [
  | connection_reset ↦ true
  | connection_refused ↦ true
  | _ ↦ false
]

-- What the wait of a pass meets: a datagram, an error, or the end of the interval.
pub data Heard : Type 0 where
  datagram : Bytes → Heard
  socket_error : IoError → Heard
  silence : Heard

-- A pass: the readings of the clock at the loop's test, at the test of `next_send` and behind a send; what
-- a send meets, if there is one; and what the wait meets.
pub record Pass : Type 0 where
  pub checked : ℕ
  pub due : ℕ
  pub sent : Option IoError
  pub sent_at : ℕ
  pub heard : Heard

pub record Waiting : Type 0 where
  pub next_send : ℕ
  pub saw_traffic : Bool
  pub saw_icmp_feedback : Bool

-- `unfinished` is no result: the list ended before the loop.
pub data Handshake : Type 0 where
  connected : Handshake
  handshake_failed : RiperfError → Handshake
  unfinished : Handshake

-- (saw_icmp_feedback, saw_traffic)
unfoldable pub diagnosis : Bool → Bool → Bytes
diagnosis true false =
    codes
      "UDP connect handshake failed: ICMP port unreachable received and no valid reply for the whole budget"
diagnosis true true =
    codes
      "UDP connect handshake failed: no valid reply (unexpected datagrams and ICMP feedback received)"
diagnosis false true =
    codes "UDP connect handshake failed: no valid reply (only unexpected datagrams received)"
diagnosis false false = codes "UDP connect handshake timed out (no server reply)"

-- Behind a send: either the loop goes on, or it ends.
pub data Flow : Type 0 where
  go_on : Waiting → Flow
  finish : Handshake → Flow

abbrev pub resends : Waiting → Pass → Bool
resends w p = leb w.next_send p.due

abbrev pub rearmed : Waiting → Pass → Bool → Waiting
rearmed w p icmp = record w {
  next_send = p.sent_at + udp_connect_retry_interval;
  saw_icmp_feedback = icmp;
}

unfoldable pub send_magic : Waiting → Pass → Flow
unfolding transient_udp_handshake_error
send_magic w p = elim p.sent [
  | none ↦ go_on (rearmed w p w.saw_icmp_feedback)
  | some e ↦
      if transient_udp_handshake_error e
      then go_on (rearmed w p true)
      else finish (handshake_failed (RiperfError.io e))
]

abbrev pub counted : Bool → ℕ → List ℕ → List ℕ
counted true t ts = t ∷ ts
counted false t ts = ts

unfoldable pub followed : Bool → ℕ → (Waiting → Handshake × List ℕ) → Flow → Handshake × List ℕ
followed sends t rest (finish o) = (o, counted sends t [])
followed sends t rest (go_on w) = let (o, ts) = rest w in (o, counted sends t ts)

-- The native order of the bytes of a u32; a datagram is read into four bytes.
module _ (from_ne_bytes : Bytes → ℕ) where
  unfoldable pub is_reply : Bytes → Bool
  is_reply d =
      leb 4 (length d)
      && (from_ne_bytes (take 4 d) == udp_connect_reply
          || from_ne_bytes (take 4 d) == legacy_udp_connect_reply)

  unfoldable pub hear : Waiting → Heard → Flow
  unfolding is_reply transient_udp_handshake_error
  hear w (datagram d) =
      if is_reply d then finish connected else go_on (record w { saw_traffic = true })
  hear w (socket_error e) =
      if transient_udp_handshake_error e
      then go_on (record w { saw_icmp_feedback = true })
      else finish (handshake_failed (RiperfError.io e))
  hear w silence = go_on w

  unfoldable pub hear_behind : Heard → Flow → Flow
  unfolding hear
  hear_behind h (go_on w) = hear w h
  hear_behind h (finish o) = finish o

  -- A pass from the test of `next_send` on
  unfoldable pub pass : Waiting → Pass → Flow
  unfolding send_magic hear_behind
  pass w p = hear_behind p.heard (if resends w p then send_magic w p else go_on w)

  -- The outcome, and the times of the sends.
  unfoldable pub handshake : ℕ → Waiting → List Pass → Handshake × List ℕ
  unfolding pass diagnosis followed
  handshake deadline w [] = (unfinished, [])
  handshake deadline w (p ∷ ps) =
      if ltb p.checked deadline
      then followed (resends w p) p.due (λ w'. handshake deadline w' ps) (pass w p)
      else (
        handshake_failed (RiperfError.protocol (diagnosis w.saw_icmp_feedback w.saw_traffic)),
        [],
      )

  -- `began` and `armed` are the readings of the clock for the deadline and the first send.
  unfoldable pub udp_connect_client : ℕ → ℕ → List Pass → Handshake × List ℕ
  unfolding handshake
  udp_connect_client began armed passes =
      handshake (began + udp_connect_total_timeout)
        (record { next_send = armed; saw_traffic = false; saw_icmp_feedback = false }) passes
