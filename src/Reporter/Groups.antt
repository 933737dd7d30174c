-- ===== src/Reporter/Groups.antt =====
-- Sums over the groups of a list, as `sum_summaries` of riperf3/src/reporter.rs forms them.
use riperf.Base.{
  ℕ, ◌+◌, ◌≡◌, refl, Bool, true, false, Bool-cases, List, [], ◌∷◌, any, keep, sum, map, arith,
  if◌then◌else◌, inl, inr, All, ap, ◌∙◌,
}

module _ {K : Type 0} (same : K → K → Bool) where
  -- No key stands twice in the list.
  abbrev pub Separate : List K → Type 0
  Separate [] = Unit
  Separate (k ∷ ks) = (any (same k) ks ≡ false) × Separate ks

module _ {K A : Type 0} (same : K → K → Bool) (key : A → K) (w : A → ℕ) (counts : K → Bool)
    (sound : (a b : K) → same a b ≡ true → a ≡ b) where
  abbrev pub weight : List A → ℕ
  weight xs = sum (map w xs)

  abbrev pub members : K → List A → List A
  members k = keep (λ x. same (key x) k)

  -- The weights of the groups that count.
  abbrev pub grouped : List K → List A → ℕ
  grouped [] xs = 0
  grouped (k ∷ ks) xs = (if counts k then weight (members k xs) else 0) + grouped ks xs

  grouped-absent :
      (ks : List K) (x : A) (xs : List A)
      → any (same (key x)) ks ≡ false
      → grouped ks (x ∷ xs) ≡ grouped ks xs
  grouped-absent [] x xs h = refl
  grouped-absent (k ∷ ks) x xs h = elim (Bool-cases (same (key x) k)) [
    | inl e ↦ ground arith
    | inr e ↦ let rest = grouped-absent ks x xs (ground arith) in rw e (omega arith)
  ]

  grouped-present :
      (ks : List K) (x : A) (xs : List A)
      → Separate same ks
      → any (same (key x)) ks ≡ true
      → grouped ks (x ∷ xs) ≡ (if counts (key x) then w x else 0) + grouped ks xs
  grouped-present [] x xs d h = absurd (ground arith)
  grouped-present (k ∷ ks) x xs d h = elim (Bool-cases (same (key x) k)) [
    | inl e ↦
        let is_k = sound (key x) k e in
        let none_left : any (same (key x)) ks ≡ false = rw is_k d.0 in
        let rest = grouped-absent ks x xs none_left in rw (e, ap counts is_k, rest) (ground arith)
    | inr e ↦ let rest = grouped-present ks x xs d.1 (ground arith) in rw e (omega arith)
  ]

  grouped-none : (ks : List K) → grouped ks [] ≡ 0
  grouped-none [] = refl
  grouped-none (k ∷ ks) = ground (arith, grouped-none ks)

  -- When every key is in the list, the groups that count weigh what their members weigh.
  pub grouped-keep :
      (ks : List K) (xs : List A)
      → Separate same ks
      → All (λ x. any (same (key x)) ks ≡ true) xs
      → grouped ks xs ≡ weight (keep (λ x. counts (key x)) xs)
  grouped-keep ks [] d h = grouped-none ks
  grouped-keep ks (x ∷ xs) d h =
      let rest = grouped-keep ks xs d h.1 in
      let first = grouped-present ks x xs d h.0 in
      elim (Bool-cases (counts (key x))) [
        | inl e ↦ rw e (first ∙ rw (e, rest) refl)
        | inr e ↦ rw e (first ∙ rw (e, rest) (omega arith))
      ]
