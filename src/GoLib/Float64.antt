-- ===== src/GoLib/Float64.antt =====
-- float64 values that are not negative, and the arithmetic on them, as IEEE 754 rounds it: to the
-- nearest of the numbers with 53 bits, and to the even one of two that are as near. A value is the
-- number of times that it holds 2^-1074, the least positive one. There is no greatest value here;
-- what is 2^1024 and more stands for +Inf.
pub mod Bounds
use mcp_searxng_relay.Base.{
  ℕ, zero, suc, ◌+◌, ◌-◌, ◌*◌, ◌/◌, ◌%◌, ◌^◌, ltb, List, [], ◌∷◌, if◌then◌else◌,
}

unfoldable pub one : ℕ
one = 2 ^ 1074

-- The distance of the 53-bit numbers around n: each step divides n by its power of 2 if 53 bits
-- are left then.
unfoldable pub scale : List ℕ → ℕ → ℕ
scale [] n = 1
scale (u ∷ us) n = let v = if ltb n (4503599627370496 * u) then 1 else u in v * scale us (n / v)

-- Enough for a number of 4,148 bits; the numbers here have 3,300 at most.
unfoldable pub quantum : ℕ → ℕ
quantum n =
    scale
      (2 ^ 2048
        ∷ 2 ^ 1024
        ∷ 2 ^ 512
        ∷ 2 ^ 256
        ∷ 2 ^ 128
        ∷ 2 ^ 64
        ∷ 2 ^ 32
        ∷ 2 ^ 16
        ∷ 256
        ∷ 16
        ∷ 4
        ∷ 2
        ∷ [])
      n

-- p / s to the nearest whole number, to the even one of two.
unfoldable pub nearest_even : ℕ → ℕ → ℕ
nearest_even p s =
    let m = p / s in
    let twice = 2 * (p % s) in if ltb twice s then m else if ltb s twice then suc m else m + m % 2

-- The value nearest to p / q.
unfoldable pub round : ℕ → ℕ → ℕ
round p q = let u = quantum (p / q) in nearest_even p (q * u) * u

unfoldable pub of_nat : ℕ → ℕ
of_nat n = round (n * one) 1

unfoldable pub add : ℕ → ℕ → ℕ
add x y = round (x + y) 1

-- Of a value that is not greater.
unfoldable pub sub : ℕ → ℕ → ℕ
sub x y = round (x - y) 1

unfoldable pub mul : ℕ → ℕ → ℕ
mul x y = round (x * y) one

unfoldable pub div : ℕ → ℕ → ℕ
div x y = round (x * one) y

-- math.Ceil, as a whole number.
unfoldable pub ceil : ℕ → ℕ
ceil x = (x + one - 1) / one
