-- ===== src/Reporter/Live/Slots.antt =====
-- The streams of the interval reporter, one by one: what an interval takes from them, and what waits.
use riperf.Base.{
  ℕ, zero, suc, ◌+◌, ◌≤◌, ◌≡◌, refl, Bool, List, [], ◌∷◌, ◌++◌, Option, none, some, get_elem?, map,
  sum, arith, if◌then◌else◌,
}
use riperf.Base.Float.{Float}
use riperf.Stream.Counters.{
  record_sent, record_received, peek_sent_interval, peek_received_interval,
}
use riperf.Stream.RecvStats.{UdpRecvStats}
use riperf.Stream.Counters.{
  take_sent_interval, take_received_interval, snapshot_omit, set_omit_retransmits,
}
use riperf.Reporter.Reading.{TcpInfoSnapshot, Slot, take_bytes, peek_bytes, read_stream}
use riperf.Reporter.Interval.{
  IntervalReporterConfig, Span, Interval, IntervalStream, interval_stream,
}
use riperf.Reporter.Live.{reset}
use riperf.Reporter.Live.Task.{modify, on_counters, on_stats}
use riperf.Reporter.Live.Books.{Booked, Booked-read, read_stream-drains}

split_sum : (w : Bool) (h n : ℕ) → h + (if w then 0 else n) ≡ (if w then h else h + n)
split_sum w h n = ground arith

-- A predicate on the element, if there is one.
abbrev pub At {ℓ κ} : {A : Type ℓ} → (A → Type κ) → Option A → Type κ
At P none = Unit
At P (some a) = P a

module _ {ℓ κ μ} {A : Type ℓ} {B : Type μ} where
  pub At-map :
      (P : A → Type κ) (Q : B → Type κ) (f : A → B)
      → ((a : A) → P a → Q (f a))
      → (xs : List A) (i : ℕ) → At P (get_elem? xs i)
      → At Q (get_elem? (map f xs) i)
  At-map P Q f step [] i p = tt
  At-map P Q f step (x ∷ xs) zero p = step x p
  At-map P Q f step (x ∷ xs) (suc i) p = At-map P Q f step xs i p

module _ {ℓ κ} {A : Type ℓ} where
  pub At-modify :
      (P Q : A → Type κ) (f : A → A)
      → ((a : A) → P a → Q (f a))
      → ((a : A) → P a → Q a)
      → (xs : List A) (j i : ℕ) → At P (get_elem? xs i)
      → At Q (get_elem? (modify xs j f) i)
  At-modify P Q f step stay [] j i p = tt
  At-modify P Q f step stay (x ∷ xs) zero zero p = step x p
  At-modify P Q f step stay (x ∷ xs) zero (suc i) p = At-stay xs i p
    where
      At-stay : (ys : List A) (k : ℕ) → At P (get_elem? ys k) → At Q (get_elem? ys k)
      At-stay [] k q = tt
      At-stay (y ∷ ys) zero q = stay y q
      At-stay (y ∷ ys) (suc k) q = At-stay ys k q
  At-modify P Q f step stay (x ∷ xs) (suc j) zero p = stay x p
  At-modify P Q f step stay (x ∷ xs) (suc j) (suc i) p = At-modify P Q f step stay xs j i p

module _ {F : Float} where
  -- The bytes of a stream in an interval, and in the intervals behind the warm-up.
  abbrev pub bytes_at : ℕ → Interval F → ℕ
  bytes_at i iv = elim (get_elem? iv.streams i) [
    | none ↦ 0
    | some row ↦ if row.span.omitted then 0 else row.bytes
  ]

  abbrev pub history : ℕ → List (Interval F) → ℕ
  history i ivs = sum (map (bytes_at i) ivs)

  pub history-append :
      (i : ℕ) (ivs : List (Interval F)) (iv : Interval F)
      → history i (ivs ++ iv ∷ []) ≡ history i ivs + bytes_at i iv
  history-append i [] iv = omega arith
  history-append i (j ∷ ivs) iv = omega (arith, history-append i ivs iv)

  -- The bytes that wait in the interval counters
  abbrev pub waiting : List (Slot F) → ℕ
  waiting slots = sum (map peek_bytes slots)

  pub waiting-modify :
      (f : Slot F → Slot F) (n : ℕ)
      → ((s : Slot F) → peek_bytes (f s) ≤ peek_bytes s + n)
      → (slots : List (Slot F)) (j : ℕ) → waiting (modify slots j f) ≤ waiting slots + n
  waiting-modify f n grows [] j = omega arith
  waiting-modify f n grows (s ∷ ss) zero = omega (arith, grows s)
  waiting-modify f n grows (s ∷ ss) (suc j) = omega (arith, waiting-modify f n grows ss j)

  pub waiting-map :
      (f : Slot F → Slot F)
      → ((s : Slot F) → peek_bytes (f s) ≤ peek_bytes s)
      → (slots : List (Slot F)) → waiting (map f slots) ≤ waiting slots
  waiting-map f shrinks [] = omega arith
  waiting-map f shrinks (s ∷ ss) = omega (arith, shrinks s, waiting-map f shrinks ss)

  pub peek_read : (b : Bool) (s : Slot F) → peek_bytes (read_stream b s).1 ≡ 0
  unfolding peek_bytes peek_sent_interval peek_received_interval take_bytes take_sent_interval
      take_received_interval
  peek_read b s = ground (arith, read_stream-drains b s)

  pub peek_reset : (b : Bool) (s : Slot F) → peek_bytes (reset b s) ≡ 0
  unfolding reset peek_bytes peek_sent_interval peek_received_interval take_sent_interval
      take_received_interval snapshot_omit set_omit_retransmits
  peek_reset b s = ground arith

  pub peek_record_sent :
      (n : ℕ) (s : Slot F) → peek_bytes (on_counters (record_sent n) s) ≤ peek_bytes s + n
  unfolding peek_bytes peek_sent_interval peek_received_interval record_sent
  peek_record_sent n s = ground arith

  pub peek_record_received :
      (n : ℕ) (s : Slot F) → peek_bytes (on_counters (record_received n) s) ≤ peek_bytes s + n
  unfolding peek_bytes peek_sent_interval peek_received_interval record_received
  peek_record_received n s = ground arith

  pub peek_on_stats :
      (f : UdpRecvStats F → UdpRecvStats F) (s : Slot F)
      → peek_bytes (on_stats f s) ≤ peek_bytes s + 0
  unfolding peek_bytes peek_sent_interval peek_received_interval
  peek_on_stats f s = ground arith

  pub peek_samples :
      (info : Option TcpInfoSnapshot) (s : Slot F)
      → peek_bytes (record s { tcp_info = info }) ≤ peek_bytes s + 0
  unfolding peek_bytes
  peek_samples info s = ground arith

  -- The slots behind an emission
  abbrev pub emptied : Bool → List (Slot F) → List (Slot F)
  emptied b slots = map (λ x. x.1) (map (read_stream b) slots)

  pub waiting-emptied : (b : Bool) (slots : List (Slot F)) → waiting (emptied b slots) ≡ 0
  waiting-emptied b [] = refl
  waiting-emptied b (s ∷ ss) = omega (arith, peek_read b s, waiting-emptied b ss)

  unfoldable pub row_bytes : ℕ → List (IntervalStream F) → ℕ
  row_bytes i rows = elim (get_elem? rows i) [
    | none ↦ 0
    | some row ↦ if row.span.omitted then 0 else row.bytes
  ]

  pub Booked-emptied :
      (cfg : IntervalReporterConfig F) (span : Span F) (b : Bool) (h room i : ℕ)
      (slots : List (Slot F))
      → At (Booked span.omitted h room) (get_elem? slots i)
      → At
          (Booked span.omitted
            (h + row_bytes i (map (interval_stream cfg span) (map (read_stream b) slots)))
            room)
          (get_elem? (emptied b slots) i)
  unfolding interval_stream row_bytes
  Booked-emptied cfg span b h room i [] p = tt
  Booked-emptied cfg span b h room zero (s ∷ ss) p =
      rw (split_sum span.omitted h (read_stream b s).0.bytes) (Booked-read b s p)
  Booked-emptied cfg span b h room (suc i) (s ∷ ss) p = Booked-emptied cfg span b h room i ss p
