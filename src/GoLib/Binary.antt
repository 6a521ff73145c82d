-- ===== src/GoLib/Binary.antt =====
-- encoding/binary: BigEndian.PutUint64 and Uint64 on eight bytes.
use mcp_searxng_relay.Base.{ℕ, ◌+◌, ◌*◌, ◌/◌, ◌%◌, ◌^◌, ◌<◌, ◌≡◌, arith, [], ◌∷◌, Text}

abbrev pub put_uint64 : ℕ → Text
put_uint64 n =
    n / 2 ^ 56 % 256
    ∷ n / 2 ^ 48 % 256
    ∷ n / 2 ^ 40 % 256
    ∷ n / 2 ^ 32 % 256
    ∷ n / 2 ^ 24 % 256
    ∷ n / 2 ^ 16 % 256
    ∷ n / 2 ^ 8 % 256
    ∷ n % 256
    ∷ []

abbrev pub uint64_from : ℕ → Text → ℕ
uint64_from acc [] = acc
uint64_from acc (b ∷ bs) = uint64_from (acc * 256 + b) bs

pub uint64_round : (n : ℕ) → n < 2 ^ 64 → uint64_from 0 (put_uint64 n) ≡ n
uint64_round n h = omega (arith, h)
