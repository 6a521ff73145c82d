-- ===== src/RateLimit/Bucket/Gain.antt =====
-- What the float64 arithmetic makes of an interval: at most its length times the rate, but for the
-- rounding of five operations.
use mcp_searxng_relay.Base.{ℕ, ◌/◌, ◌%◌, ◌+◌, ◌*◌, ◌≤◌, ◌<◌, ◌≡◌, refl, sym, ap, ◌∙◌, arith}
use native.Mathlib.Nat.{mul-le-mul_right, div-add-mod, le_of_mul-le-mul_left}
use mcp_searxng_relay.GoLib.Float64.{
  one, of_nat, add, mul, div, round, quantum, scale, nearest_even,
}
use mcp_searxng_relay.GoLib.Float64.Bounds.{round-above, round-quotient}
use mcp_searxng_relay.RateLimit.Bucket.{second, seconds}

-- 2^52
abbrev pub precision : ℕ
precision = 4503599627370496

one-pos : 0 < one
unfolding one
one-pos = omega arith

of_nat-second : of_nat second ≡ second * one
unfolding of_nat one round quantum scale nearest_even
of_nat-second = refl

of_nat-above : (n : ℕ) → precision * of_nat n ≤ precision * (n * one) + n * one
unfolding of_nat
of_nat-above n = round-above (n * one)

add-above : (x y : ℕ) → precision * add x y ≤ precision * (x + y) + (x + y)
unfolding add
add-above x y = round-above (x + y)

common :
    (w r x : ℕ)
    → precision * (second * w * r) ≤ precision * (x * w) + x * w + precision * (second * w)
    → w * (precision * (second * r)) ≤ w * (precision * x + x + precision * second)
common w r x h = grind (arith, h)

spread : (m n w : ℕ) → (second * m + n) * w ≡ second * (m * w) + n * w
spread m n w = grind arith

-- The seconds that a whole number of nanoseconds is.
fraction-above :
    (x : ℕ) → precision * (second * div x (of_nat second)) ≤ precision * x + x + precision * second
unfolding div
fraction-above x =
    let exact = of_nat-second in
    let q : 0 < second * one = omega (arith, one-pos) in
    let above = round-quotient (x * one) (second * one) q in
    rw exact (le_of_mul-le-mul_left (common one (round (x * one) (second * one)) x above) one-pos)

seconds-above :
    (d : ℕ)
    → precision * (precision * (precision * (second * seconds d)))
      ≤ (precision + 1) * ((precision + 1) * ((precision + 1) * (d * one)))
        + (precision + 1) * (precision * (precision * second))
unfolding seconds
seconds-above d =
    let whole = of_nat-above (d / second) in
    let part = of_nat-above (d % second) in
    let frac = fraction-above (of_nat (d % second)) in
    let sum = add-above (of_nat (d / second)) (div (of_nat (d % second)) (of_nat second)) in
    let split : d * one ≡ second * (d / second * one) + d % second * one =
      ap (λ k. k * one) (sym (div-add-mod d second)) ∙ spread (d / second) (d % second) one in
    omega (arith, whole, part, frac, sum, split)

mul-above : (x y : ℕ) → precision * (one * mul x y) ≤ precision * (x * y) + x * y + precision * one
unfolding mul
mul-above x y = round-quotient (x * y) one one-pos

-- What the code counts as regenerated in an interval of d nanoseconds, in units of 2^-1074 token, is
-- at most d times the rate, each rounding adding no more than 2^-52 of its result and a unit.
pub gain-above :
    (d rate : ℕ)
    → precision * (precision * (precision * (precision * (second * (one * mul (seconds d) rate)))))
      ≤ (precision + 1)
          * ((precision + 1) * ((precision + 1) * ((precision + 1) * (d * one * rate))))
        + (precision + 1) * ((precision + 1) * (precision * (precision * (second * rate))))
        + precision * (precision * (precision * (precision * (second * one))))
gain-above d rate =
    let times = mul-le-mul_right rate (seconds-above d) in
    let product = mul-above (seconds d) rate in grind (arith, times, product)
