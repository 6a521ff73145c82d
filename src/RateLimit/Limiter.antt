-- ===== src/RateLimit/Limiter.antt =====
-- The table of buckets of rate_limit.go: rateLimiter, newRateLimiter, bucketFor, allow, peek and
-- exempted. The cache holds pointers, so buckets stand on a heap and are named by their index;
-- a bucket that a request still holds lives on when the cache drops it.
pub mod Found
pub mod Laws
use mcp_searxng_relay.Base.{
  ℕ, zero, suc, Bool, true, false, not, ◌&&◌, ◌||◌, Option, none, some, List, [], ◌∷◌, ◌++◌, Text,
  text_eq, ltb, ◌==◌, if◌then◌else◌, length, get_elem?, set, max,
}
use mcp_searxng_relay.GoLib.Lru.{Lru}
use mcp_searxng_relay.RateLimit.Bucket
use mcp_searxng_relay.RateLimit.Bucket.{TokenBucket, new_bucket}

-- `rate`, a float64, is 0 for every rate that is not positive.
pub record RateLimiter : Type 0 where
  pub rate : ℕ
  pub burst : ℕ
  pub exempt : List Text

abbrev pub member : Text → List Text → Bool
member k [] = false
member k (j ∷ js) = text_eq j k || member k js

unfoldable pub new_rate_limiter : ℕ → ℕ → List Text → RateLimiter
new_rate_limiter rate burst exempt =
    if rate == 0
    then record { rate = rate; burst = burst; exempt = [] }
    else record { rate = rate; burst = if ltb burst 1 then 1 else burst; exempt = exempt }

unfoldable pub enabled : RateLimiter → Bool
enabled rl = ltb 0 rl.rate

unfoldable pub exempted : RateLimiter → Text → Bool
exempted rl identity = not (text_eq identity []) && member identity rl.exempt

module _ (L : Lru ℕ) where
  pub record Table : Type 0 where
    pub heap : List TokenBucket
    pub cache : L.Cache

  unfoldable pub empty_table : Table
  empty_table = record { heap = []; cache = L.empty }

  -- The first half of bucketFor, one atomic `Get`.
  unfoldable pub get_bucket : Text → Table → Option ℕ × Table
  get_bucket key t = (L.peek t.cache key, record t { cache = L.get t.cache key })

  -- The second half: a new bucket, and one atomic `PeekOrAdd` of it.
  unfoldable pub peek_or_add : Text → Table → ℕ × Table
  peek_or_add key t =
      let candidate = length t.heap in
      let heap = t.heap ++ new_bucket ∷ [] in
      elim (L.peek t.cache key) [
        | some existing ↦ (existing, record { heap = heap; cache = t.cache })
        | none ↦ (candidate, record { heap = heap; cache = L.add t.cache key candidate })
      ]

  unfoldable pub bucket_for : Text → Table → ℕ × Table
  unfolding get_bucket peek_or_add
  bucket_for key t = elim (get_bucket key t).0 [
    | some b ↦ (b, (get_bucket key t).1)
    | none ↦ peek_or_add key (get_bucket key t).1
  ]

  -- A method of the bucket that the pointer `b` names, called for its effect and its decision.
  unfoldable pub at_bucket :
      (TokenBucket → (Bool × ℕ) × TokenBucket) → ℕ → Table → (Bool × ℕ) × Table
  at_bucket method b t = elim (get_elem? t.heap b) [
    | none ↦ ((true, 0), t)
    | some bucket ↦ ((method bucket).0, record t { heap = set t.heap b (method bucket).1 })
  ]

  module _ (rl : RateLimiter) where
    unfoldable pub allow : ℕ → Text → Table → (Bool × ℕ) × Table
    unfolding enabled bucket_for at_bucket
    allow now key t =
        if enabled rl
        then at_bucket (Bucket.allow rl.rate rl.burst now) (bucket_for key t).0 (bucket_for key t).1
        else ((true, 0), t)

    unfoldable pub peek : ℕ → Text → Table → (Bool × ℕ) × Table
    unfolding enabled bucket_for at_bucket
    peek now key t =
        if enabled rl
        then at_bucket (Bucket.peek rl.rate rl.burst now) (bucket_for key t).0 (bucket_for key t).1
        else ((true, 0), t)
