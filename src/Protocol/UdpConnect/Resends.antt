-- ===== src/Protocol/UdpConnect/Resends.antt =====
-- How often the handshake sends.
use riperf.Base.{
  ◌∙◌, ℕ, ◌+◌, ◌-◌, ◌*◌, ◌≤◌, ◌<◌, ◌≡◌, refl, false, List, [], ◌∷◌, Bytes, length, ltb, arith,
  Bool-cases, inl, inr, if◌then◌else◌,
}
use riperf.Protocol.UdpConnect.{
  Pass, Waiting, Flow, go_on, finish, Handshake, resends, send_magic, hear, hear_behind, pass,
  followed, handshake, udp_connect_client,
}

-- The clock does not go back, from `t` on.
abbrev pub InOrder : ℕ → List Pass → Type 0
InOrder t [] = Unit
InOrder t (p ∷ ps) =
    (t ≤ p.checked) × (p.checked ≤ p.due) × (p.due ≤ p.sent_at) × InOrder p.sent_at ps

module _ (from_ne_bytes : Bytes → ℕ) where
  hear_keeps :
      (w w' : Waiting) (p : Pass)
      → hear from_ne_bytes w p.heard ≡ go_on w'
      → w'.next_send ≡ w.next_send
  unfolding hear
  hear_keeps w w' p e = ground (arith, e)

  send_magic_next :
      (w w' : Waiting) (p : Pass) → send_magic w p ≡ go_on w' → w'.next_send ≡ p.sent_at + 500000000
  unfolding send_magic
  send_magic_next w w' p e = ground (arith, e)

  heard_keeps :
      (f : Flow) (w' : Waiting) (p : Pass) (n : ℕ)
      → ((w : Waiting) → f ≡ go_on w → w.next_send ≡ n)
      → hear_behind from_ne_bytes p.heard f ≡ go_on w'
      → w'.next_send ≡ n
  unfolding hear_behind
  heard_keeps (go_on w) w' p n same e = hear_keeps w w' p e ∙ same w refl
  heard_keeps (finish o) w' p n same e = cc

  pass_next :
      (w w' : Waiting) (p : Pass)
      → pass from_ne_bytes w p ≡ go_on w'
      → w'.next_send ≡ (if resends w p then p.sent_at + 500000000 else w.next_send)
  unfolding pass
  pass_next w w' p = heard_keeps (if resends w p then send_magic w p else go_on w) w' p _ (λ v e.
      elim (Bool-cases (resends w p)) [
        | inl yes_send ↦ rw yes_send (send_magic_next w v p (rw yes_send at e))
        | inr no_send ↦ rw no_send (ground (arith, no_send, e))
      ])

  -- The sends of a handshake that waits until `next_send`, from time `t` on: the first is before the deadline, and
  -- each further one takes an interval more.
  abbrev Bounded : ℕ → ℕ → Waiting → List ℕ → Type 0
  Bounded deadline t w sends =
      (1 ≤ length sends → t < deadline)
      × (2 ≤ length sends → w.next_send + (length sends - 2) * 500000000 < deadline)

  followed-Bounded :
      (deadline t : ℕ) (w : Waiting) (p : Pass) (rest : Waiting → Handshake × List ℕ) (f : Flow)
      → t ≤ p.checked
      → p.checked ≤ p.due
      → p.due ≤ p.sent_at
      → p.checked < deadline
      → ((w' : Waiting) → Bounded deadline p.sent_at w' (rest w').1)
      → ((w' : Waiting)
          → f ≡ go_on w'
          → w'.next_send ≡ (if resends w p then p.sent_at + 500000000 else w.next_send))
      → Bounded deadline t w (followed (resends w p) p.due rest f).1
  unfolding followed
  followed-Bounded deadline t w p rest (finish o) a b c in_time r next =
      (λ h. omega arith, λ h. ground (arith, h))
  followed-Bounded deadline t w p rest (go_on v) a b c in_time r next =
      (λ h. omega arith, λ h. ground (arith, h, next v refl, (r v).0, (r v).1))

  handshake-Bounded :
      (deadline t : ℕ) (w : Waiting) (ps : List Pass)
      → InOrder t ps
      → Bounded deadline t w (handshake from_ne_bytes deadline w ps).1
  unfolding handshake
  handshake-Bounded deadline t w [] o = (λ h. absurd (omega arith), λ h. absurd (omega arith))
  handshake-Bounded deadline t w (p ∷ ps) (a, b, c, o) =
      elim (Bool-cases (ltb p.checked deadline)) [
        | inl in_time ↦ rw in_time (
            followed-Bounded deadline t w p (λ w'. handshake from_ne_bytes deadline w' ps)
              (pass from_ne_bytes w p) a b c (ground (arith, in_time))
              (λ w'. handshake-Bounded deadline p.sent_at w' ps o) (λ w'. pass_next w w' p))
        | inr late ↦ rw late (λ h. absurd (omega arith), λ h. absurd (omega arith))
      ]

  -- When the clock does not go back, the handshake sends its magic at most 61 times, whatever arrives meanwhile.
  pub udp_connect_client_resends :
      (began armed : ℕ) (ps : List Pass)
      → began ≤ armed
      → InOrder armed ps
      → length (udp_connect_client from_ne_bytes began armed ps).1 ≤ 61
  unfolding udp_connect_client
  udp_connect_client_resends began armed ps h o =
      let start : Waiting = record {
        next_send = armed;
        saw_traffic = false;
        saw_icmp_feedback = false;
      } in
      let b = handshake-Bounded (began + 30000000000) armed start ps o in ground (arith, h, b.1)
