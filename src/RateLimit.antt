-- ===== src/RateLimit.antt =====
-- The per-caller throttle of rate_limit.go: one token bucket (Bucket), the table of buckets behind
-- an LRU cache (Limiter), and the HTTP middleware around authentication (Gate).
pub mod Bucket
pub mod Limiter
pub mod Gate
mod Tests
