-- ===== src/RateLimit/Bucket/Window.antt =====
-- What a history of calls does to one bucket: the rate limit proper. A float64 operation rounds up
-- by no more than 2^-52 of its result, which is a bucket's content at most.
use mcp_searxng_relay.Base.{
  ℕ, zero, suc, ◌+◌, ◌-◌, ◌*◌, ◌≤◌, min, ◌≡◌, inl, inr, Bool, true, false, some, List, [], ◌∷◌,
  arith, ltb, leb, if◌then◌else◌, length, Bool-cases,
}
use mcp_searxng_relay.GoLib.Float64.{one, of_nat, add, sub, mul}
use mcp_searxng_relay.GoLib.Float64.Bounds.{round-above}
use mcp_searxng_relay.RateLimit.Bucket.Gain.{precision}
use mcp_searxng_relay.RateLimit.Bucket.{
  TokenBucket, new_bucket, since, seconds, refill, take, allow, run,
}

-- The tokens that come in from `t` to `now`, as the code counts them.
abbrev pub gain : ℕ → ℕ → ℕ → ℕ
gain rate t now = if ltb t now then mul (seconds (since now t)) rate else 0

-- From call to call.
abbrev pub gains : ℕ → ℕ → List ℕ → ℕ
gains rate t [] = 0
gains rate t (now ∷ times) = gain rate t now + gains rate now times

add-above : (x y : ℕ) → precision * add x y ≤ precision * (x + y) + (x + y)
unfolding add
add-above x y = round-above (x + y)

sub-above : (x y : ℕ) → precision * sub x y ≤ precision * (x - y) + (x - y)
unfolding sub
sub-above x y = round-above (x - y)

cap : (b y z : ℕ) → precision * y ≤ precision * z + z → precision * min b y ≤ precision * z + b
cap b y z h = omega (arith, h)

refill-bounds :
    (rate burst t now : ℕ) (b : TokenBucket)
    → b.last ≡ some t
    → b.tokens ≤ of_nat burst
    → (refill rate burst now b ≤ of_nat burst)
      × (precision * refill rate burst now b
          ≤ precision * (b.tokens + gain rate t now) + of_nat burst)
unfolding refill
refill-bounds rate burst t now b e full =
    let above = add-above b.tokens (mul (seconds (since now t)) rate) in
    elim (Bool-cases (ltb t now)) [
      | inl f ↦ rw (refill, e, f) (omega arith, cap (of_nat burst) _ _ above)
      | inr f ↦ rw (refill, e, f) (omega (arith, full), omega arith)
    ]

abbrev cost : Bool → ℕ
cost admitted = if admitted then one else 0

spend-bounds :
    (x burst : ℕ)
    → x ≤ of_nat burst
    → of_nat burst ≤ precision * one
    → one ≤ x
    → (precision * (one + sub x one) ≤ precision * x + of_nat burst) × (sub x one ≤ of_nat burst)
spend-bounds x burst full fits whole =
    let above = sub-above x one in (omega (arith, above, full), omega (arith, above, full, fits))

allow_budget :
    (rate burst t now : ℕ) (b : TokenBucket)
    → b.last ≡ some t
    → b.tokens ≤ of_nat burst
    → of_nat burst ≤ precision * one
    → (precision * (cost (allow rate burst now b).0.0 + (allow rate burst now b).1.tokens)
        ≤ precision * (b.tokens + gain rate t now) + 2 * of_nat burst)
      × ((allow rate burst now b).1.tokens ≤ of_nat burst)
unfolding allow take
allow_budget rate burst t now b e full fits =
    let (within, above) = refill-bounds rate burst t now b e full in
    elim (Bool-cases (leb one (refill rate burst now b))) [
      | inl f ↦
          let spent = spend-bounds (refill rate burst now b) burst within fits (ground arith) in
          rw (take, f) (omega (arith, spent.0, above), spent.1)
      | inr f ↦ rw (take, f) (omega (arith, above), within)
    ]

allow-last : (rate burst now : ℕ) (b : TokenBucket) → (allow rate burst now b).1.last ≡ some now
unfolding allow take
allow-last rate burst now b = ground arith

charge :
    (admitted : Bool) (n x : ℕ)
    → (if admitted then suc n else n) * one + x ≡ cost admitted + (n * one + x)
charge true n x = omega arith
charge false n x = omega arith

-- What rounding may add in so many calls.
abbrev pub slack : ℕ → ℕ → ℕ
slack burst zero = 0
slack burst (suc calls) = 2 * of_nat burst + slack burst calls

run_budget :
    (rate burst t : ℕ) (times : List ℕ) (b : TokenBucket)
    → b.last ≡ some t
    → b.tokens ≤ of_nat burst
    → of_nat burst ≤ precision * one
    → precision * ((run rate burst times b).0 * one + (run rate burst times b).1.tokens)
      ≤ precision * (b.tokens + gains rate t times) + slack burst (length times)
unfolding run
run_budget rate burst t [] b e full fits = omega arith
run_budget rate burst t (now ∷ times) b e full fits =
    let b' = (allow rate burst now b).1 in
    let (n, b'') = run rate burst times b' in
    let (spent, full') = allow_budget rate burst t now b e full fits in
    omega (
      arith,
      charge (allow rate burst now b).0.0 n b''.tokens,
      spent,
      run_budget rate burst now times b' (allow-last rate burst now b) full' fits,
    )

fresh_budget :
    (rate burst now : ℕ)
    → of_nat burst ≤ precision * one
    → (precision
          * (cost (allow rate burst now new_bucket).0.0
              + (allow rate burst now new_bucket).1.tokens)
        ≤ precision * of_nat burst + of_nat burst)
      × ((allow rate burst now new_bucket).1.tokens ≤ of_nat burst)
unfolding allow take refill
fresh_budget rate burst now fits = elim (Bool-cases (leb one (of_nat burst))) [
  | inl f ↦
      let spent = spend-bounds (of_nat burst) burst (omega arith) fits (ground arith) in
      rw (take, f) (omega (arith, spent.0), spent.1)
  | inr f ↦ rw (take, f) (omega arith, omega arith)
]

pub run_spent :
    (rate burst t : ℕ) (times : List ℕ)
    → of_nat burst ≤ precision * one
    → precision * ((run rate burst (t ∷ times) new_bucket).0 * one)
      ≤ precision * (of_nat burst + gains rate t times) + slack burst (suc (length times))
unfolding run
run_spent rate burst t times fits =
    let b' = (allow rate burst t new_bucket).1 in
    let (n, b'') = run rate burst times b' in
    let (spent, full) = fresh_budget rate burst t fits in
    omega (
      arith,
      charge (allow rate burst t new_bucket).0.0 n b''.tokens,
      spent,
      run_budget rate burst t times b' (allow-last rate burst t new_bucket) full fits,
    )

-- The times do not step back, from `t` on.
abbrev pub Ordered : ℕ → List ℕ → Type 0
Ordered t [] = Unit {0}
Ordered t (now ∷ times) = (t ≤ now) × Ordered now times

-- The time of the last call.
abbrev pub end_time : ℕ → List ℕ → ℕ
end_time t [] = t
end_time t (now ∷ times) = end_time now times

pub le-end_time : (t : ℕ) (times : List ℕ) → Ordered t times → t ≤ end_time t times
le-end_time t [] h = omega arith
le-end_time t (now ∷ times) h = omega (arith, le-end_time now times h.1)
