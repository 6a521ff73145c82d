-- ===== src/RateLimit/Tests.antt =====
-- Runs of the throttle, and its theorems at concrete inputs.
use mcp_searxng_relay.Base.{
  ◌-◌, ◌+◌, ◌≤◌, ℕ, ◌^◌, ◌*◌, ◌≡◌, inl, refl, true, false, get_elem?, some, [], ◌∷◌, Text, codes,
  arith,
}
use mcp_searxng_relay.Base.{text_eq}
use mcp_searxng_relay.Base.Dict.{lookup, insert}
use mcp_searxng_relay.GoLib.Strings.{equal_fold, trim_space}
use mcp_searxng_relay.GoLib.Net.{split_host_port}
use mcp_searxng_relay.GoLib.Lru.Unbounded.{unbounded}
use mcp_searxng_relay.RateLimit.Bucket
use mcp_searxng_relay.RateLimit.Bucket.{second, TokenBucket, new_bucket, take, run}
use mcp_searxng_relay.GoLib.Float64.{one, of_nat}
use mcp_searxng_relay.RateLimit.Bucket.Window.{slack, end_time}
use mcp_searxng_relay.RateLimit.Bucket.Gain.{precision}
use mcp_searxng_relay.RateLimit.Bucket.Limit.{weigh, worth, all_units, run_limit}
use mcp_searxng_relay.RateLimit.Limiter
use mcp_searxng_relay.RateLimit.Limiter.{RateLimiter, Table, empty_table, peek_or_add}
use mcp_searxng_relay.RateLimit.Limiter.Found.{race_converges, empty-IsValid}
use mcp_searxng_relay.RateLimit.Limiter.Laws.{Refines, allow_peek_refine}
use mcp_searxng_relay.RateLimit.Gate.{
  Request, served, AuthConfig, Server, auth_gate, mcp_root, caller_key, bearer_token,
}
use mcp_searxng_relay.RateLimit.Gate.Laws.{fresh, credentials, auth_gate-authenticated}

-- one request every two seconds
abbrev half : ℕ
half = 2 ^ 1073

-- The float64 that 0.3333333333333333 reads as, a little less than a third.
abbrev third : ℕ
third = 6004799503160661 * 2 ^ 1020

-- About one request in five hundred years.
abbrev rare : ℕ
rare = 2 ^ 1040

abbrev drained : TokenBucket
drained = record { tokens = 0; last = some 0 }

bucket_run : (run half 2 (0 ∷ 1 ∷ 2 ∷ 2 * second ∷ []) new_bucket).0 ≡ 3
unfolding run Bucket.allow mcp_searxng_relay.GoLib.Float64.one
    mcp_searxng_relay.GoLib.Float64.of_nat mcp_searxng_relay.GoLib.Float64.add
    mcp_searxng_relay.GoLib.Float64.sub mcp_searxng_relay.GoLib.Float64.mul
    mcp_searxng_relay.GoLib.Float64.div mcp_searxng_relay.GoLib.Float64.ceil
    mcp_searxng_relay.GoLib.Float64.round mcp_searxng_relay.GoLib.Float64.quantum
    mcp_searxng_relay.GoLib.Float64.scale mcp_searxng_relay.GoLib.Float64.nearest_even
bucket_run = refl

-- The product rounds up to a whole token.
rounded_up_run : (run third 1 (0 ∷ 3 * second ∷ []) new_bucket).0 ≡ 2
unfolding run Bucket.allow mcp_searxng_relay.GoLib.Float64.one
    mcp_searxng_relay.GoLib.Float64.of_nat mcp_searxng_relay.GoLib.Float64.add
    mcp_searxng_relay.GoLib.Float64.sub mcp_searxng_relay.GoLib.Float64.mul
    mcp_searxng_relay.GoLib.Float64.div mcp_searxng_relay.GoLib.Float64.ceil
    mcp_searxng_relay.GoLib.Float64.round mcp_searxng_relay.GoLib.Float64.quantum
    mcp_searxng_relay.GoLib.Float64.scale mcp_searxng_relay.GoLib.Float64.nearest_even
rounded_up_run = refl

bucket_refusal : (Bucket.allow half 1 0 drained).0 ≡ (false, 2 * second)
unfolding run Bucket.allow mcp_searxng_relay.GoLib.Float64.one
    mcp_searxng_relay.GoLib.Float64.of_nat mcp_searxng_relay.GoLib.Float64.add
    mcp_searxng_relay.GoLib.Float64.sub mcp_searxng_relay.GoLib.Float64.mul
    mcp_searxng_relay.GoLib.Float64.div mcp_searxng_relay.GoLib.Float64.ceil
    mcp_searxng_relay.GoLib.Float64.round mcp_searxng_relay.GoLib.Float64.quantum
    mcp_searxng_relay.GoLib.Float64.scale mcp_searxng_relay.GoLib.Float64.nearest_even
bucket_refusal = refl

-- 2^34 seconds are no Duration: the product wraps around to a negative one.
wrapped_refusal : (Bucket.allow rare 1 0 drained).0 ≡ (false, second)
unfolding run Bucket.allow mcp_searxng_relay.GoLib.Float64.one
    mcp_searxng_relay.GoLib.Float64.of_nat mcp_searxng_relay.GoLib.Float64.add
    mcp_searxng_relay.GoLib.Float64.sub mcp_searxng_relay.GoLib.Float64.mul
    mcp_searxng_relay.GoLib.Float64.div mcp_searxng_relay.GoLib.Float64.ceil
    mcp_searxng_relay.GoLib.Float64.round mcp_searxng_relay.GoLib.Float64.quantum
    mcp_searxng_relay.GoLib.Float64.scale mcp_searxng_relay.GoLib.Float64.nearest_even
wrapped_refusal = refl

one_fits : of_nat 1 ≤ precision * one
unfolding mcp_searxng_relay.GoLib.Float64.one mcp_searxng_relay.GoLib.Float64.of_nat
    mcp_searxng_relay.GoLib.Float64.round mcp_searxng_relay.GoLib.Float64.quantum
    mcp_searxng_relay.GoLib.Float64.scale mcp_searxng_relay.GoLib.Float64.nearest_even
one_fits = omega arith

run_limit_example :
    (regenerated : ℕ) × (precision * ((run third 1 (0 ∷ 3 * second ∷ []) new_bucket).0 * one)
      ≤ precision * (of_nat 1 + regenerated) + slack 1 2)
    × (weigh regenerated ≤ worth (end_time 0 (3 * second ∷ []) - 0) third + all_units third 1)
run_limit_example = run_limit third 1 0 (3 * second ∷ []) (omega arith, _) one_fits

abbrev alice : Text
alice = codes "id:alice"

abbrev start : Table (unbounded ℕ)
start = record { heap = []; cache = [] }

race_converges_example :
    let first = peek_or_add (unbounded ℕ) alice start in
    let second_call = peek_or_add (unbounded ℕ) alice first.1 in
    (second_call.0 ≡ first.0)
    × (get_elem? second_call.1.heap second_call.0 ≡ some new_bucket)
    × ((unbounded ℕ).peek second_call.1.cache alice ≡ some first.0)
unfolding lookup
race_converges_example = race_converges (unbounded ℕ) alice start refl

abbrev limiter : RateLimiter
limiter = record { rate = half; burst = 2; exempt = codes "ci" ∷ [] }

allow_peek_refine_example :
    Refines
      (unbounded ℕ)
      (Bucket.allow half 2 5)
      alice
      (empty_table (unbounded ℕ))
      (Limiter.allow (unbounded ℕ) limiter 5 alice (empty_table (unbounded ℕ)))
    × Refines
        (unbounded ℕ)
        (Bucket.peek half 2 5)
        alice
        (empty_table (unbounded ℕ))
        (Limiter.peek (unbounded ℕ) limiter 5 alice (empty_table (unbounded ℕ)))
allow_peek_refine_example =
    allow_peek_refine (unbounded ℕ) limiter 5 alice (empty_table (unbounded ℕ)) (omega arith)
      (empty-IsValid (unbounded ℕ))

-- alice has a static token, and any JWT that says "good" is bob's
abbrev config : AuthConfig
config = record {
  static_tokens = (codes "Bearer s3cret", codes "alice") ∷ [];
  oauth_enabled = true;
  sha256 = λ t. t;
  verify = λ t. some (codes "bob");
  exchange_enabled = true;
  sdk_accepts = λ r. true;
}

abbrev server : Server (unbounded ℕ)
server = record {
  limiter = limiter;
  auth = config;
  table = start;
  rate_limit_rejections = 0;
  auth_failures = 0;
}

abbrev by_jwt : Request
by_jwt = record {
  authorization = codes "Bearer good";
  remote_addr = codes "10.0.0.1:4711";
  arrived = 5;
  authenticated = 6;
}

bob_served :
    (auth_gate (unbounded ℕ) (mcp_root (unbounded ℕ)) by_jwt fresh server).0
    ≡ served (record { identity = codes "bob"; deferred_key = codes "ip:10.0.0.1" })
unfolding auth_gate caller_key bearer_token Limiter.exempted Limiter.allow Limiter.peek Bucket.allow
    Bucket.peek lookup text_eq equal_fold trim_space insert split_host_port
    mcp_searxng_relay.GoLib.Float64.one mcp_searxng_relay.GoLib.Float64.of_nat
    mcp_searxng_relay.GoLib.Float64.round mcp_searxng_relay.GoLib.Float64.nearest_even
    mcp_searxng_relay.GoLib.Float64.quantum mcp_searxng_relay.GoLib.Float64.scale
bob_served = refl

auth_gate-authenticated_example : credentials config by_jwt ≡ some (codes "bob")
auth_gate-authenticated_example =
    auth_gate-authenticated (unbounded ℕ) by_jwt server
      {c = record { identity = codes "bob"; deferred_key = codes "ip:10.0.0.1" }} (inl refl)
      bob_served
