-- ===== src/Server/Serve/Greeting.antt =====
-- What a server prints of a client that it admits: the announcement of its connection.
use riperf.Base.{
  ℕ, suc, ◌≡◌, refl, Bool, true, false, List, [], ◌∷◌, ◌++◌, Option, none, some, ℤ, Bytes, arith,
  ◌+◌, ap, codes, is_some, if◌then◌else◌, eqb_ℤ, pos, ◌==◌, Bool-cases, inl, inr,
}
use riperf.Base.Text.{strip_prefix}
use riperf.Protocol.Params.{TestParams}
use riperf.Server.Config.{TestConfig}
use riperf.Server.Accept.{
  Daemon, Said, error_stream_events, refusal_document, line, printed, banner,
}
use riperf.Server.Serve.{
  json_mode, Peer, text, when, user_line, mss_line, bitrate_line, print_connect_block,
}

abbrev pub docs : List Said → ℕ
docs [] = 0
docs (error_stream_events e ∷ s) = suc (docs s)
docs (refusal_document e rate ∷ s) = suc (docs s)
docs (line e ∷ s) = docs s
docs (printed e ∷ s) = docs s
docs (banner n ∷ s) = docs s

abbrev pub lines : List Said → ℕ
lines [] = 0
lines (line e ∷ s) = suc (lines s)
lines (printed e ∷ s) = lines s
lines (error_stream_events e ∷ s) = lines s
lines (refusal_document e rate ∷ s) = lines s
lines (banner n ∷ s) = lines s

-- The line that a text report begins a connection with
abbrev pub is_greeting : Bytes → Bool
unfolding strip_prefix
is_greeting text = is_some (strip_prefix (codes "Accepted connection from ") text)

abbrev pub greetings : List Said → ℕ
greetings [] = 0
greetings (printed t ∷ s) = (if is_greeting t then 1 else 0) + greetings s
greetings (line e ∷ s) = greetings s
greetings (error_stream_events e ∷ s) = greetings s
greetings (refusal_document e rate ∷ s) = greetings s
greetings (banner n ∷ s) = greetings s

-- Only lines of the text report, and so many greetings among them.
pub record Greets (n : ℕ) (said : List Said) : Type 0 where
  pub no_document : docs said ≡ 0
  pub no_line : lines said ≡ 0
  pub greeted : greetings said ≡ n

docs-append : (a b : List Said) → docs (a ++ b) ≡ docs a + docs b
docs-append [] b = omega arith
docs-append (printed t ∷ s) b = docs-append s b
docs-append (line e ∷ s) b = docs-append s b
docs-append (error_stream_events e ∷ s) b = omega (arith, docs-append s b)
docs-append (refusal_document e rate ∷ s) b = omega (arith, docs-append s b)
docs-append (banner n ∷ s) b = docs-append s b

lines-append : (a b : List Said) → lines (a ++ b) ≡ lines a + lines b
lines-append [] b = omega arith
lines-append (printed t ∷ s) b = lines-append s b
lines-append (line e ∷ s) b = omega (arith, lines-append s b)
lines-append (error_stream_events e ∷ s) b = lines-append s b
lines-append (refusal_document e rate ∷ s) b = lines-append s b
lines-append (banner n ∷ s) b = lines-append s b

greetings-append : (a b : List Said) → greetings (a ++ b) ≡ greetings a + greetings b
greetings-append [] b = omega arith
greetings-append (printed t ∷ s) b = omega (arith, greetings-append s b)
greetings-append (line e ∷ s) b = greetings-append s b
greetings-append (error_stream_events e ∷ s) b = greetings-append s b
greetings-append (refusal_document e rate ∷ s) b = greetings-append s b
greetings-append (banner n ∷ s) b = greetings-append s b

Greets-append : {n m : ℕ} {a b : List Said} → Greets n a → Greets m b → Greets (n + m) (a ++ b)
Greets-append {a = a} {b = b} x y = record {
  no_document = omega (arith, docs-append a b, x.no_document, y.no_document);
  no_line = omega (arith, lines-append a b, x.no_line, y.no_line);
  greeted = omega (arith, greetings-append a b, x.greeted, y.greeted);
}

pub Greets-behind : {m : ℕ} {a b : List Said} → Greets 0 a → Greets m b → Greets m (a ++ b)
Greets-behind {a = a} {b = b} x y = record {
  no_document = omega (arith, docs-append a b, x.no_document, y.no_document);
  no_line = omega (arith, lines-append a b, x.no_line, y.no_line);
  greeted = omega (arith, greetings-append a b, x.greeted, y.greeted);
}

module _ (d : Daemon) where
  nothing-Greets : Greets 0 []
  nothing-Greets = record { no_document = refl; no_line = refl; greeted = refl }

  text-Greets :
      (msg : Bytes) (b : Bool)
      → is_greeting msg ≡ b
      → d.output_quiet ≡ false
      → Greets (if b then 1 else 0) (text d msg)
  text-Greets msg b h q = rw q (record {
    no_document = refl;
    no_line = refl;
    greeted = omega (arith, ap {B = ℕ} (λ c. if c then 1 else 0) h);
  })

  when-Greets : (b : Bool) {s : List Said} → Greets 0 s → Greets 0 (when d b s)
  when-Greets true h = h
  when-Greets false h = nothing-Greets

  pub user_line-Greets :
      (user : Option Bytes) → d.output_quiet ≡ false → Greets 0 (user_line d user)
  unfolding user_line is_greeting
  user_line-Greets none q = nothing-Greets
  user_line-Greets (some name) q = when-Greets d.verbose (text-Greets _ false refl q)

  mss_line-Greets : (mss : Option ℤ) → d.output_quiet ≡ false → Greets 0 (mss_line d mss)
  unfolding mss_line is_greeting
  mss_line-Greets none q = text-Greets _ false refl q
  mss_line-Greets (some m) q = elim (Bool-cases (eqb_ℤ m (pos 0))) [
    | inl b ↦ rw b (text-Greets _ false refl q)
    | inr b ↦ rw b (text-Greets _ false refl q)
  ]

  bitrate_line-Greets : (rate : Option ℕ) → d.output_quiet ≡ false → Greets 0 (bitrate_line d rate)
  unfolding bitrate_line is_greeting
  bitrate_line-Greets none q = nothing-Greets
  bitrate_line-Greets (some n) q = elim (Bool-cases (n == 0)) [
    | inl b ↦ rw b nothing-Greets
    | inr b ↦ rw b (text-Greets _ false refl q)
  ]

  pub print_connect_block-Greets :
      (peer : Peer) (cookie : Bytes) (params : TestParams) (cfg : TestConfig)
      → d.output_quiet ≡ false
      → Greets (if json_mode d then 0 else 1) (print_connect_block d peer cookie params cfg)
  unfolding print_connect_block is_greeting
  print_connect_block-Greets peer cookie params cfg q = elim (Bool-cases (json_mode d)) [
    | inl j ↦ rw j nothing-Greets
    | inr j ↦ rw j (
        Greets-append (when-Greets d.verbose (text-Greets _ false refl q)) (
          Greets-append (text-Greets _ true refl q) (
            when-Greets d.verbose (
              Greets-append (text-Greets _ false refl q) (
                Greets-append (when-Greets _ (mss_line-Greets params.mss q))
                  (bitrate_line-Greets params.bandwidth q))))))
  ]
