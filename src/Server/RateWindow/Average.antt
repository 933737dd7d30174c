-- ===== src/Server/RateWindow/Average.antt =====
-- The window holds the last intervals, however often the ring has wrapped.
use riperf.Base.{
  ℕ, zero, suc, ◌+◌, ◌-◌, ◌%◌, ◌^◌, ◌<◌, ◌≡◌, ◌≢◌, inl, inr, refl, ◌∙◌, ap, List, [], ◌∷◌, none,
  some, ltb, leb, ◌==◌, if◌then◌else◌, length, get_or, set, take, replicate, sum, arith, Bool-cases,
  length-set, length-replicate,
}
use native.Mathlib.Nat.{mod_self, mod-eq_of_lt}
use riperf.Base.Float.{Float}
use riperf.Server.RateWindow.{RateLimitWindow, from_interval_secs, average, push, pushed, samples}

sum-set : (xs : List ℕ) (i v : ℕ) → i < length xs → sum (set xs i v) + get_or xs i 0 ≡ sum xs + v
sum-set [] i v h = absurd (omega arith)
sum-set (x ∷ xs) zero v h = omega arith
sum-set (x ∷ xs) (suc i) v h = omega (arith, sum-set xs i v)

get_or-set_same : (xs : List ℕ) (i v : ℕ) → i < length xs → get_or (set xs i v) i 0 ≡ v
get_or-set_same [] i v h = absurd (omega arith)
get_or-set_same (x ∷ xs) zero v h = refl
get_or-set_same (x ∷ xs) (suc i) v h = get_or-set_same xs i v (omega arith)

get_or-set_other : (xs : List ℕ) (i j v : ℕ) → i ≢ j → get_or (set xs i v) j 0 ≡ get_or xs j 0
get_or-set_other [] i j v h = refl
get_or-set_other (x ∷ xs) zero zero v h = absurd (omega arith)
get_or-set_other (x ∷ xs) zero (suc j) v h = refl
get_or-set_other (x ∷ xs) (suc i) zero v h = refl
get_or-set_other (x ∷ xs) (suc i) (suc j) v h = get_or-set_other xs i j v (λ e. h (ap suc e))

sum-take-suc : (n : ℕ) (xs : List ℕ) → sum (take (suc n) xs) ≡ sum (take n xs) + get_or xs n 0
sum-take-suc zero [] = refl
sum-take-suc (suc n) [] = refl
sum-take-suc zero (x ∷ xs) = omega arith
sum-take-suc (suc n) (x ∷ xs) = omega (arith, sum-take-suc n xs)

get_or-replicate : (n i : ℕ) → get_or (replicate n zero) i zero ≡ zero
get_or-replicate zero i = refl
get_or-replicate (suc n) zero = refl
get_or-replicate (suc n) (suc i) = get_or-replicate n i

sum-replicate_zero : (n : ℕ) → sum (replicate n 0) ≡ 0
sum-replicate_zero zero = refl
sum-replicate_zero (suc n) = omega (arith, sum-replicate_zero n)

-- The place of the k-th last value.
abbrev place : ℕ → ℕ → ℕ → ℕ
place n idx k = if leb k idx then idx - k else idx + n - k

-- The next place, around the ring.
next_place : (n idx : ℕ) → idx < n → (idx + 1) % n ≡ (if idx + 1 == n then 0 else idx + 1)
next_place n idx h =
    let small : idx + 1 < n → (idx + 1) % n ≡ idx + 1 = λ l. mod-eq_of_lt l in
    elim (Bool-cases (idx + 1 == n)) [
      | inl e ↦ let last : idx + 1 ≡ n = ground (arith, e) in rw (e, last) (mod_self n)
      | inr e ↦ rw e (small (ground (arith, e)))
    ]

-- The ring holds the last values, zeros before the first.
record Holds (n : ℕ) (w : RateLimitWindow) (values : List ℕ) : Type 0 where
  size : length w.ring ≡ n
  index : w.idx < n
  total : sum w.ring ≡ sum (take n values)
  each : (k : ℕ) → k < n → get_or w.ring (place n w.idx k) 0 ≡ get_or values k 0

place_zero : (n idx : ℕ) → place n idx 0 ≡ idx
place_zero n idx = ground arith

place-suc :
    (n idx j : ℕ)
    → idx < n
    → suc j < n
    → let next = if idx + 1 == n then 0 else idx + 1 in
      (place n next (suc j) ≡ place n idx j) × (next ≢ place n idx j)
place-suc n idx j h l = ground arith

place_last :
    (m idx : ℕ) → idx < suc m → place (suc m) idx m ≡ (if idx + 1 == suc m then 0 else idx + 1)
place_last m idx h = ground arith

-- A value written at the next place.
Holds-set :
    (n : ℕ) (w : RateLimitWindow) (values : List ℕ) (v next c : ℕ)
    → Holds n w values
    → next ≡ (if w.idx + 1 == n then 0 else w.idx + 1)
    → Holds n (record { ring = set w.ring next v; idx = next; count = c }) (v ∷ values)
Holds-set zero w values v next c h e = absurd (omega (arith, h.index))
Holds-set (suc m) w values v next c h e =
    let inside : next < suc m = ground (arith, h.index) in
    let last = place_last m w.idx h.index in
    record {
      size = omega (arith, length-set w.ring next v, h.size);
      index = inside;
      total =
          let oldest : get_or w.ring next 0 ≡ get_or values m 0 =
            rw (e, ← last) (h.each m (omega arith)) in
          omega (
            arith,
            sum-set w.ring next v (omega (arith, inside, h.size)),
            oldest,
            sum-take-suc m values,
            h.total,
          );
      each = λ k l. newest k l;
    }
  where
    newest :
        (k : ℕ)
        → k < suc m
        → get_or (set w.ring next v) (place (suc m) next k) 0 ≡ get_or (v ∷ values) k 0
    newest zero l =
        rw (place_zero (suc m) next)
          (get_or-set_same w.ring next v (ground (arith, h.index, h.size)))
    newest (suc j) l =
        let (moved, apart) = place-suc (suc m) w.idx j h.index l in
        let other : next ≢ place (suc m) w.idx j = rw e apart in
        rw (e, moved, ← e, get_or-set_other w.ring next (place (suc m) w.idx j) v other)
          (h.each j (omega arith))

Holds-push :
    (F : Float) (n : ℕ) (w : RateLimitWindow) (values : List ℕ) (v : ℕ)
    → Holds n w values
    → Holds n (push F w v).1 (v ∷ values)
unfolding push
Holds-push F n w values v h =
    let next : (w.idx + 1) % length w.ring ≡ (if w.idx + 1 == n then 0 else w.idx + 1) =
      rw h.size (next_place n w.idx h.index) in
    Holds-set n w values v _ _ h next

sum-take_nil : (n : ℕ) → sum (take n []) ≡ 0
sum-take_nil zero = refl
sum-take_nil (suc n) = refl

Holds-new : (n : ℕ) → 0 < n → Holds n (record { ring = replicate n 0; idx = 0; count = 0 }) []
Holds-new n h = record {
  size = length-replicate n 0;
  index = h;
  total = omega (arith, sum-replicate_zero n, sum-take_nil n);
  each = λ k l. get_or-replicate n _;
}

Holds-pushed :
    (F : Float) (n : ℕ) (w : RateLimitWindow) (values : List ℕ)
    → Holds n w []
    → Holds n (pushed F w values) values
unfolding pushed
Holds-pushed F n w [] h = h
Holds-pushed F n w (v ∷ r) h = Holds-push F n (pushed F w r) r v (Holds-pushed F n w r h)

count-pushed :
    (F : Float) (w : RateLimitWindow) (values : List ℕ)
    → w.count ≡ 0
    → length values < 2 ^ 64
    → (pushed F w values).count ≡ length values
unfolding pushed push
count-pushed F w [] z h = z
count-pushed F w (v ∷ r) z h = omega (arith, count-pushed F w r z (omega arith))

answer :
    (F : Float) (w : RateLimitWindow) (v : ℕ)
    → (push F w v).0 ≡ (
        if ltb ((w.count + 1) % 2 ^ 64) (length w.ring)
        then none
        else some (average F (sum (push F w v).1.ring % 2 ^ 64) (length w.ring)))
unfolding push
answer F w v = refl

size_new :
    (F : Float) (interval : F.Carrier)
    → length (from_interval_secs F interval).ring ≡ samples F interval
unfolding from_interval_secs
size_new F interval = length-replicate (samples F interval) 0

push_answer :
    (F : Float) (n : ℕ) (w : RateLimitWindow) (earlier : List ℕ) (v : ℕ)
    → Holds n w earlier
    → w.count ≡ length earlier
    → length (v ∷ earlier) < 2 ^ 64
    → sum (take n (v ∷ earlier)) < 2 ^ 64
    → (push F w v).0 ≡ (
        if ltb (length (v ∷ earlier)) n
        then none
        else some (average F (sum (take n (v ∷ earlier))) n))
push_answer F n w earlier v h counted few small =
    let after = Holds-push F n w earlier v h in
    let start : (push F w v).0 ≡ (
        if ltb ((w.count + 1) % 2 ^ 64) (length w.ring)
        then none
        else some (average F (sum (push F w v).1.ring % 2 ^ 64) (length w.ring))) =
      answer F w v in
    let count : (w.count + 1) % 2 ^ 64 ≡ length (v ∷ earlier) = omega arith in
    let total : sum (push F w v).1.ring % 2 ^ 64 ≡ sum (take n (v ∷ earlier)) =
      omega (arith, after.total) in
    start ∙ rw (count, total, h.size)

-- A window for n > 0 samples answers nothing until n intervals are in; from then on each push
-- answers the average over exactly the last n intervals, the pushed one included, as long as their
-- sum and their number are below 2^64.
pub push-average :
    (F : Float) (interval : F.Carrier) (v : ℕ) (earlier : List ℕ)
    → let w = from_interval_secs F interval in
      let n = length w.ring in
      0 < n
      → length (v ∷ earlier) < 2 ^ 64
      → sum (take n (v ∷ earlier)) < 2 ^ 64
      → (push F (pushed F w earlier) v).0 ≡ (
          if ltb (length (v ∷ earlier)) n
          then none
          else some (average F (sum (take n (v ∷ earlier))) n))
unfolding push from_interval_secs
push-average F interval v earlier some_samples few small =
    let w = from_interval_secs F interval in
    let n = length w.ring in
    let fresh : Holds n w [] =
      rw (size_new F interval) (Holds-new _ (rw (← size_new F interval) some_samples)) in
    push_answer F n (pushed F w earlier) earlier v (Holds-pushed F n w earlier fresh)
      (count-pushed F w earlier refl (omega arith)) few small
