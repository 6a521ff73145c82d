-- ===== src/GoLib/Float64/Bounds.antt =====
-- How far rounding may go up: by no more than 2^-52 of the exact value.
use mcp_searxng_relay.Base.{
  ℕ, zero, suc, ◌/◌, ◌%◌, ◌^◌, ◌+◌, ◌*◌, ◌≤◌, ◌<◌, ◌≡◌, refl, ap, ◌∙◌, ◌⊎◌, inl, inr, List, [], ◌∷◌,
  arith, ltb, Bool-cases,
}
use native.Mathlib.Nat.{mul-le-mul_left, mul-div-le, div-add-mod, div-one}
use mcp_searxng_relay.GoLib.Float64.{scale, quantum, nearest_even, round}

scaled : (u x n : ℕ) → 4503599627370496 * x ≤ n / u → 4503599627370496 * (u * x) ≤ n
scaled u x n h =
    let more : u * (4503599627370496 * x) ≤ u * (n / u) = mul-le-mul_left u h in
    omega (arith, mul-div-le n u, more)

-- What is left of the value after dividing is at least 2^52, if anything was divided.
scale-small : (us : List ℕ) (n : ℕ) → (scale us n ≡ 1) ⊎ (4503599627370496 * scale us n ≤ n)
unfolding scale
scale-small [] n = inl refl
scale-small (u ∷ us) n = elim (Bool-cases (ltb n (4503599627370496 * u))) [
  | inl e ↦
      let same : 1 * scale us (n / 1) ≡ scale us n =
        ap (λ k. 1 * scale us k) (div-one n) ∙ (omega arith) in
      rw (scale, e)
        (elim (scale-small us n) [ inl x ↦ inl (same ∙ x) | inr x ↦ inr (omega (arith, same, x)) ])
  | inr e ↦
      let fits : 4503599627370496 * u ≤ n = ground arith in
      let more : 4503599627370496 * (u * scale us (n / u)) ≤ n = elim (scale-small us (n / u)) [
        | inl x ↦
            let same : u * scale us (n / u) ≡ u = ap (λ k. u * k) x ∙ (omega arith) in
            omega (arith, same, fits)
        | inr x ↦ scaled u (scale us (n / u)) n x
      ] in
      rw (scale, e) (inr more)
]

quantum-small : (n : ℕ) → (quantum n ≡ 1) ⊎ (4503599627370496 * quantum n ≤ n)
unfolding quantum
quantum-small n =
    scale-small
      (2 ^ 2048
        ∷ 2 ^ 1024
        ∷ 2 ^ 512
        ∷ 2 ^ 256
        ∷ 2 ^ 128
        ∷ 2 ^ 64
        ∷ 2 ^ 32
        ∷ 2 ^ 16
        ∷ 256
        ∷ 16
        ∷ 4
        ∷ 2
        ∷ [])
      n

up : (s m : ℕ) → s * suc m ≡ s * m + s
up s m = grind arith

near : (m : ℕ) → m + m % 2 ≤ suc m
near m = omega arith

nearest_even-above : (p s : ℕ) → 0 < s → s * nearest_even p s ≤ p + s
unfolding nearest_even
nearest_even-above p s h =
    let split = div-add-mod p s in
    let grown = up s (p / s) in
    let even : s * (p / s + p / s % 2) ≤ s * suc (p / s) = mul-le-mul_left s (near (p / s)) in
    elim (Bool-cases (ltb (2 * (p % s)) s)) [
      | inl e ↦ rw e (omega (arith, split))
      | inr e ↦ elim (Bool-cases (ltb s (2 * (p % s)))) [
        | inl f ↦ rw (e, f) (omega (arith, split, grown))
        | inr f ↦ rw (e, f) (omega (arith, split, grown, even))
      ]
    ]

nearest_even-whole : (p : ℕ) → nearest_even p 1 ≡ p
unfolding nearest_even
nearest_even-whole p = ground arith

rounded :
    (p u : ℕ)
    → (u ≡ 1) ⊎ (4503599627370496 * u ≤ p)
    → 4503599627370496 * (nearest_even p (1 * u) * u) ≤ 4503599627370496 * p + p
rounded p u (inl e) = rw e (omega (arith, nearest_even-whole p))
rounded p zero (inr e) = omega arith
rounded p (suc u) (inr e) =
    let one_u : 1 * suc u ≡ suc u = omega arith in
    let above = nearest_even-above p (suc u) (omega arith) in rw one_u (omega (arith, above, e))

-- The nearest value to a whole number of units.
pub round-above : (p : ℕ) → 4503599627370496 * round p 1 ≤ 4503599627370496 * p + p
unfolding round
round-above p = let q : p / 1 ≡ p = div-one p in rw q (rounded p (quantum p) (quantum-small p))

shuffle : (q m u : ℕ) → q * (m * u) ≡ q * u * m
shuffle q m u = grind arith

pos_mul : (q u : ℕ) → 0 < q → 0 < q * suc u
pos_mul q u h = omega (arith, up q u, h)

quotient :
    (p q u : ℕ)
    → 0 < q
    → (u ≡ 1) ⊎ (4503599627370496 * u ≤ p / q)
    → 4503599627370496 * (q * (nearest_even p (q * u) * u))
      ≤ 4503599627370496 * p + p + 4503599627370496 * q
quotient p q zero h e = omega (arith)
quotient p q (suc u) h e =
    let s = q * suc u in
    let above = nearest_even-above p s (pos_mul q u h) in
    let moved : q * (nearest_even p s * suc u) ≡ s * nearest_even p s = shuffle q _ (suc u) in
    let step : (s ≡ q) ⊎ (4503599627370496 * s ≤ p) = elim e [
      | inl x ↦ inl (ap (λ k. q * k) x ∙ (omega arith))
      | inr x ↦ inr (scaled q (suc u) p x)
    ] in
    elim step [ inl x ↦ omega (arith, above, moved, x) | inr x ↦ omega (arith, above, moved, x) ]

-- The nearest value to a quotient.
pub round-quotient :
    (p q : ℕ)
    → 0 < q
    → 4503599627370496 * (q * round p q) ≤ 4503599627370496 * p + p + 4503599627370496 * q
unfolding round
round-quotient p q h = quotient p q (quantum (p / q)) h (quantum-small (p / q))
