-- ===== src/Protocol/UdpConnect/Answered.antt =====
-- When the handshake connects.
use riperf.Base.{
  ℕ, ◌+◌, ◌≤◌, ◌<◌, ◌≡◌, ◌↔◌, refl, sym, ◌∙◌, ap, Bool, true, false, ◌&&◌, List, [], ◌∷◌, Option,
  none, some, Bytes, any, ltb, arith, Bool-cases, inl, inr, if◌then◌else◌,
}
use riperf.Errors.Runtime.{IoError}
use riperf.Protocol.UdpConnect.{
  Pass, Waiting, go_on, finish, connected, Heard, datagram, socket_error, silence,
  transient_udp_handshake_error, udp_connect_total_timeout, resends, rearmed, is_reply, send_magic,
  hear, hear_behind, pass, followed, handshake, udp_connect_client,
}
use riperf.Protocol.UdpConnect.Resends.{InOrder}

-- No socket operation of the pass fails for good.
abbrev pub TransientHeard : Heard → Type 0
TransientHeard (datagram d) = Unit
TransientHeard (socket_error e) = transient_udp_handshake_error e ≡ true
TransientHeard silence = Unit

abbrev pub TransientSent : Option IoError → Type 0
TransientSent none = Unit
TransientSent (some e) = transient_udp_handshake_error e ≡ true

abbrev pub Transient : List Pass → Type 0
Transient [] = Unit
Transient (p ∷ ps) = TransientSent p.sent × TransientHeard p.heard × Transient ps

false-ne-true : false ≡ true → ⊥
false-ne-true e = cc

module _ (from_ne_bytes : Bytes → ℕ) where
  abbrev pub hears_reply : Heard → Bool
  unfolding is_reply
  hears_reply (datagram d) = is_reply from_ne_bytes d
  hears_reply (socket_error e) = false
  hears_reply silence = false

  -- A reply comes in a pass that begins before the deadline.
  abbrev pub answered : ℕ → List Pass → Bool
  answered deadline = any (λ p. ltb p.checked deadline && hears_reply p.heard)

  late_unanswered :
      (deadline t : ℕ) (ps : List Pass) → InOrder t ps → deadline ≤ t → answered deadline ps ≡ false
  late_unanswered deadline t [] o l = refl
  late_unanswered deadline t (p ∷ ps) (a, b, c, o) l =
      ground (arith, l, a, late_unanswered deadline p.sent_at ps o (omega (arith, l, a, b, c)))

  sent_goes_on :
      (w : Waiting) (p : Pass) (o : Option IoError)
      → p.sent ≡ o
      → TransientSent o
      → (w' : Waiting) × ((if resends w p then send_magic w p else go_on w) ≡ go_on w')
  unfolding send_magic
  sent_goes_on w p none e s = elim (Bool-cases (resends w p)) [
    | inl y ↦ (rearmed w p w.saw_icmp_feedback, rw (y, e) refl)
    | inr n ↦ (w, rw n refl)
  ]
  sent_goes_on w p (some x) e s = elim (Bool-cases (resends w p)) [
    | inl y ↦ (rearmed w p true, rw (y, e, s) refl)
    | inr n ↦ (w, rw n refl)
  ]

  hear_goes_on :
      (w : Waiting) (h : Heard)
      → TransientHeard h
      → hears_reply h ≡ false
      → (w' : Waiting) × (hear from_ne_bytes w h ≡ go_on w')
  unfolding hear
  hear_goes_on w (datagram d) s e = (record w { saw_traffic = true }, rw e refl)
  hear_goes_on w (socket_error x) s e = (record w { saw_icmp_feedback = true }, rw s refl)
  hear_goes_on w silence s e = (w, refl)

  hear_connects :
      (w : Waiting) (h : Heard) → hears_reply h ≡ true → hear from_ne_bytes w h ≡ finish connected
  unfolding hear
  hear_connects w (datagram d) e = rw e refl
  hear_connects w (socket_error x) e = cc
  hear_connects w silence e = cc

  pass_goes_on :
      (w : Waiting) (p : Pass)
      → TransientSent p.sent
      → TransientHeard p.heard
      → hears_reply p.heard ≡ false
      → (w' : Waiting) × (pass from_ne_bytes w p ≡ go_on w')
  unfolding pass hear_behind
  pass_goes_on w p s h e =
      let (w1, sent) = sent_goes_on w p p.sent refl s in
      let (w2, heard) = hear_goes_on w1 p.heard h e in
      (w2, ap (hear_behind from_ne_bytes p.heard) sent ∙ heard)

  pass_connects :
      (w : Waiting) (p : Pass)
      → TransientSent p.sent
      → hears_reply p.heard ≡ true
      → pass from_ne_bytes w p ≡ finish connected
  unfolding pass hear_behind
  pass_connects w p s e =
      let (w1, sent) = sent_goes_on w p p.sent refl s in
      ap (hear_behind from_ne_bytes p.heard) sent ∙ hear_connects w1 p.heard e

  answered_now :
      (deadline : ℕ) (p : Pass) (ps : List Pass)
      → p.checked < deadline
      → hears_reply p.heard ≡ true
      → answered deadline (p ∷ ps) ≡ true
  answered_now deadline p ps in_time reply = ground (arith, in_time, reply)

  answered_later :
      (deadline : ℕ) (p : Pass) (ps : List Pass)
      → hears_reply p.heard ≡ false
      → answered deadline (p ∷ ps) ≡ answered deadline ps
  answered_later deadline p ps none_yet = ground (arith, none_yet)

  ends_late :
      (deadline : ℕ) (w : Waiting) (p : Pass) (ps : List Pass)
      → ltb p.checked deadline ≡ false
      → (handshake from_ne_bytes deadline w (p ∷ ps)).0 ≡ connected
      → false ≡ true
  unfolding handshake
  ends_late deadline w p ps late e = cc (rw late at e)

  handshake-answered :
      (deadline t : ℕ) (w : Waiting) (ps : List Pass)
      → InOrder t ps
      → Transient ps
      → ((handshake from_ne_bytes deadline w ps).0 ≡ connected) ↔ (answered deadline ps ≡ true)
  unfolding handshake followed
  handshake-answered deadline t w [] o s = (λ e. cc, λ e. cc)
  handshake-answered deadline t w (p ∷ ps) (a, b, c, o) (s, h, rest) =
      elim (Bool-cases (ltb p.checked deadline)) [
        | inr late ↦ (
          λ e. absurd (false-ne-true (ends_late deadline w p ps late e)),
          λ e. absurd (
              false-ne-true (
                sym (
                  late_unanswered deadline p.checked (p ∷ ps) (omega arith, b, c, o)
                    (ground (arith, late)))
                ∙ e)),
        )
        | inl in_time ↦ elim (Bool-cases (hears_reply p.heard)) [
          | inl reply ↦ (
            λ e. answered_now deadline p ps (ground (arith, in_time)) reply,
            λ e. rw (in_time, pass_connects w p s reply) refl,
          )
          | inr none_yet ↦
              let (w', goes_on) = pass_goes_on w p s h none_yet in
              let (gives, takes) = handshake-answered deadline p.sent_at w' ps o rest in
              let out : (handshake from_ne_bytes deadline w (p ∷ ps)).0
                  ≡ (handshake from_ne_bytes deadline w' ps).0 =
                rw (in_time, goes_on) refl in
              let later = answered_later deadline p ps none_yet in
              (λ e. later ∙ gives (sym out ∙ e), λ e. out ∙ takes (sym later ∙ e))
        ]
      ]

  -- When the clock does not go back and the socket reports nothing but refused and reset connections, the handshake
  -- connects exactly when a valid reply comes in a pass that begins before the deadline: stray datagrams, lost ones
  -- and ICMP feedback do not end it.
  pub udp_connect_client-answered :
      (began armed : ℕ) (ps : List Pass)
      → InOrder armed ps
      → Transient ps
      → ((udp_connect_client from_ne_bytes began armed ps).0 ≡ connected)
        ↔ (answered (began + udp_connect_total_timeout) ps ≡ true)
  unfolding udp_connect_client
  udp_connect_client-answered began armed ps o s =
      handshake-answered (began + udp_connect_total_timeout) armed
        (record { next_send = armed; saw_traffic = false; saw_icmp_feedback = false }) ps o s
