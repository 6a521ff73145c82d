-- ===== src/Base/Int.antt =====
-- Signed integers over the native numbers, under the library's names; Go's `int` where a value may
-- be negative. `negsuc n` is -(n + 1).
use mcp_searxng_relay.Base.{ℕ, zero, suc, Bool, false, leb}

pub data ℤ : Type 0 where
  pos : ℕ → ℤ
  negsuc : ℕ → ℤ

-- `-n`
abbrev pub opposite : ℕ → ℤ
opposite zero = pos 0
opposite (suc n) = negsuc n

-- `max(a, 0)`, which is what clamping a negative number to 0 gives.
abbrev pub pos_part : ℤ → ℕ
pos_part (pos n) = n
pos_part (negsuc n) = 0

-- `a <= n` against an integer.
abbrev pub le_ℤ : ℕ → ℤ → Bool
le_ℤ n (pos m) = leb n m
le_ℤ n (negsuc m) = false
