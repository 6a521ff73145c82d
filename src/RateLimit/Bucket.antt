-- ===== src/RateLimit/Bucket.antt =====
-- One token bucket of rate_limit.go: tokenBucket, take, allow and peek. Token counts and rates are
-- float64 values (GoLib.Float64), a rate in tokens per second, and times are nanoseconds.
pub mod Window
pub mod Gain
pub mod Limit
use mcp_searxng_relay.GoLib.Float64.{one, of_nat, add, sub, mul, div, ceil}
use mcp_searxng_relay.Base.{
  ℕ, suc, ◌+◌, ◌-◌, ◌*◌, ◌/◌, ◌%◌, Bool, true, false, ◌&&◌, Option, none, some, min, List, [], ◌∷◌,
  ltb, leb, if◌then◌else◌,
}

-- time.Second
abbrev pub second : ℕ
second = 1_000_000_000

-- `last` is `none` while the time is zero, before the first request.
pub record TokenBucket : Type 0 where
  pub tokens : ℕ
  pub last : Option ℕ

-- `&tokenBucket{}`
abbrev pub new_bucket : TokenBucket
new_bucket = record { tokens = 0; last = none }

-- Time.Sub of an earlier time: a Duration is an int64, and Sub stops at its greatest.
abbrev pub since : ℕ → ℕ → ℕ
since now last = min (now - last) 9223372036854775807

-- Duration.Seconds, of a duration that is not negative.
unfoldable pub seconds : ℕ → ℕ
seconds d = add (of_nat (d / second)) (div (of_nat (d % second)) (of_nat second))

-- The token count after the refill: full on the first use, and untouched by a clock that stepped
-- back or stood still.
unfoldable pub refill : ℕ → ℕ → ℕ → TokenBucket → ℕ
unfolding seconds
refill rate burst now b = elim b.last [
  | none ↦ of_nat burst
  | some last ↦
      if ltb last now
      then min (of_nat burst) (add b.tokens (mul (seconds (since now last)) rate))
      else b.tokens
]

-- Seconds until a whole token is there, rounded up, and at least one. The product with time.Second
-- is that of int64 values, which wraps around. A quotient that is no int64 converts to one that the
-- platform chooses: on amd64 and arm64 its product is not positive.
unfoldable pub retry_after : ℕ → ℕ → ℕ
retry_after rate tokens =
    let whole = ceil (div (sub one tokens) rate) in
    let retry = whole * second % 18446744073709551616 in
    if ltb whole 9223372036854775808 && ltb retry 9223372036854775808 && leb second retry
    then retry
    else second

-- The decision is whether the request is admitted, and otherwise how long to wait.
unfoldable pub take : ℕ → ℕ → ℕ → Bool → TokenBucket → (Bool × ℕ) × TokenBucket
unfolding refill retry_after
take rate burst now consume b =
    let tokens = refill rate burst now b in
    if leb one tokens
    then (
      (true, 0),
      record { tokens = if consume then sub tokens one else tokens; last = some now },
    )
    else ((false, retry_after rate tokens), record { tokens = tokens; last = some now })

unfoldable pub allow : ℕ → ℕ → ℕ → TokenBucket → (Bool × ℕ) × TokenBucket
unfolding take
allow rate burst now b = take rate burst now true b

unfoldable pub peek : ℕ → ℕ → ℕ → TokenBucket → (Bool × ℕ) × TokenBucket
unfolding take
peek rate burst now b = take rate burst now false b

-- A history of `allow` calls at the given times: how many were admitted, and the bucket after it.
unfoldable pub run : ℕ → ℕ → List ℕ → TokenBucket → ℕ × TokenBucket
run rate burst [] b = (0, b)
run rate burst (now ∷ times) b =
    let (n, b') = run rate burst times (allow rate burst now b).1 in
    (if (allow rate burst now b).0.0 then suc n else n, b')
