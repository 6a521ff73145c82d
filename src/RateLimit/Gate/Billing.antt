-- ===== src/RateLimit/Gate/Billing.antt =====
-- Who pays for a request: one caller, once, and before it is served.
use mcp_searxng_relay.Base.{
  ℕ, ◌≡◌, Bool, true, false, not, ◌&&◌, Option, none, some, ◌++◌, Text, codes, if◌then◌else◌,
}
use mcp_searxng_relay.GoLib.Lru.{Lru}
use mcp_searxng_relay.RateLimit.Limiter.{RateLimiter, Table, enabled, exempted, allow, peek}
use mcp_searxng_relay.RateLimit.Gate.{
  Request, AuthConfig, bearer_token, is_empty, host_of, static_identity, Server,
}

-- Who is to pay for a request, and when.
pub data Billing : Type 0 where
  exempt : Billing
  on_arrival : Text → Billing
  after_auth : Text → Option Text → Billing

abbrev ip_key : Request → Text
ip_key r = codes "ip:" ++ host_of r.remote_addr

-- The key of a caller whose identity is known, or of the address where it is "".
abbrev id_or_ip : Text → Text → Text
id_or_ip ip id = if is_empty id then ip else codes "id:" ++ id

pub billing : AuthConfig → RateLimiter → Request → Billing
billing cfg rl r = elim (static_identity cfg r) [
  | some id ↦ if exempted rl id then exempt else on_arrival (codes "id:" ++ id)
  | none ↦
      if cfg.oauth_enabled && not (is_empty (bearer_token r.authorization))
      then after_auth (ip_key r) (elim (cfg.verify (bearer_token r.authorization)) [
        | none ↦ some (ip_key r)
        | some id ↦
            if cfg.exchange_enabled && not (cfg.sdk_accepts r)
            then none
            else if exempted rl id
            then none
            else some (id_or_ip (ip_key r) id)
      ])
      else on_arrival (ip_key r)
]

module _ (L : Lru ℕ) where
  -- The buckets after the payment, and whether the caller could pay.
  pub settle : RateLimiter → Request → Billing → Table L → Bool × Table L
  settle rl r exempt t = (true, t)
  settle rl r (on_arrival key) t =
      ((allow L rl r.arrived key t).0.0, (allow L rl r.arrived key t).1)
  settle rl r (after_auth ip none) t =
      ((peek L rl r.arrived ip t).0.0, (peek L rl r.arrived ip t).1)
  settle rl r (after_auth ip (some key)) t =
      let (d, t') = peek L rl r.arrived ip t in
      if d.0
      then ((allow L rl r.authenticated key t').0.0, (allow L rl r.authenticated key t').1)
      else (false, t')

  module _ (r : Request) (s : Server L) (on : enabled s.limiter ≡ true) where
    abbrev settled : Bool × Table L
    settled = settle s.limiter r (billing s.auth s.limiter r) s.table
