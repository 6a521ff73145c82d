-- ===== src/RateLimit/Bucket/Limit.antt =====
-- The rate limit: how often a caller is admitted over a history of calls.
use mcp_searxng_relay.Base.{
  ℕ, zero, suc, ◌+◌, ◌-◌, ◌*◌, ◌≤◌, ◌≡◌, inl, inr, List, [], ◌∷◌, arith, ltb, length, Bool-cases,
}
use native.Mathlib.Nat.{mul-le-mul_right}
use mcp_searxng_relay.GoLib.Float64.{one, of_nat}
use mcp_searxng_relay.RateLimit.Bucket.{second, new_bucket, since, run}
use mcp_searxng_relay.RateLimit.Bucket.Gain.{precision, gain-above}
use mcp_searxng_relay.RateLimit.Bucket.Window.{
  gain, gains, slack, run_spent, Ordered, end_time, le-end_time,
}

-- A count of tokens against a product of nanoseconds and a rate.
abbrev pub weigh : ℕ → ℕ
weigh x = precision * (precision * (precision * (precision * (second * (one * x)))))

-- That product, grown by the rounding of four operations.
abbrev pub worth : ℕ → ℕ → ℕ
worth d rate =
    (precision + 1) * ((precision + 1) * ((precision + 1) * ((precision + 1) * (d * one * rate))))

-- What the units that rounding may add weigh.
abbrev pub units : ℕ → ℕ
units rate =
    (precision + 1) * ((precision + 1) * (precision * (precision * (second * rate))))
    + precision * (precision * (precision * (precision * (second * one))))

-- For so many calls.
abbrev pub all_units : ℕ → ℕ → ℕ
all_units rate zero = 0
all_units rate (suc calls) = units rate + all_units rate calls

span : (t now e k : ℕ) → t ≤ now → now ≤ e → (now - t) * k + (e - now) * k ≡ (e - t) * k
span t now e k h g = grind arith

assoc : (d w r : ℕ) → d * w * r ≡ d * (w * r)
assoc d w r = grind arith

gain-worth :
    (rate t now : ℕ) → t ≤ now → weigh (gain rate t now) ≤ worth (now - t) rate + units rate
gain-worth rate t now h =
    let short : since now t * (one * rate) ≤ (now - t) * (one * rate) =
      mul-le-mul_right (one * rate) (omega arith) in
    let above = gain-above (since now t) rate in
    elim (Bool-cases (ltb t now)) [
      | inl e ↦
          rw e (omega (arith, short, above, assoc (since now t) one rate, assoc (now - t) one rate))
      | inr e ↦ rw e (omega arith)
    ]

gains-worth :
    (rate t : ℕ) (times : List ℕ)
    → Ordered t times
    → weigh (gains rate t times) ≤ worth (end_time t times - t) rate + all_units rate (length times)
gains-worth rate t [] h = omega arith
gains-worth rate t (now ∷ times) h =
    let e = end_time now times in
    omega (
      arith,
      gain-worth rate t now h.0,
      gains-worth rate now times h.1,
      span t now e (one * rate) h.0 (le-end_time now times h.1),
      assoc (now - t) one rate,
      assoc (e - now) one rate,
      assoc (e - t) one rate,
    )

-- The rate limit, in float64 arithmetic: a caller whose bucket starts fresh, and whose calls come at
-- times that do not step back, is admitted no more often than the burst and the regenerated tokens
-- allow, but for 2^-51 of the burst at each call; and these tokens are the time between the first
-- and the last call times the rate, grown at most by a factor of 1 + 2^-52 for each of four
-- operations, and at each call by `units`, the errors of one unit of 2^-1074 that an operation may
-- make. The burst is at most 2^52.
pub run_limit :
    (rate burst t : ℕ) (times : List ℕ)
    → Ordered t times
    → of_nat burst ≤ precision * one
    → (regenerated : ℕ) × (precision * ((run rate burst (t ∷ times) new_bucket).0 * one)
        ≤ precision * (of_nat burst + regenerated) + slack burst (suc (length times)))
      × (weigh regenerated ≤ worth (end_time t times - t) rate + all_units rate (length times))
run_limit rate burst t times h fits =
    (gains rate t times, run_spent rate burst t times fits, gains-worth rate t times h)
