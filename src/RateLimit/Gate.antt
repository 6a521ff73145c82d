-- ===== src/RateLimit/Gate.antt =====
-- The admission middleware of the MCP root: callerKey, rateLimit, rateLimitVerified,
-- chargeFailedAuth and rejectRateLimited of rate_limit.go, requireAuth and authGate of
-- transport_http.go, and bearerToken of oauth.go. A handler takes the request, its context and the
-- server's state, and gives a response and the new state. SHA-256, the verification of a JWT and
-- the bearer middleware of the MCP SDK are parameters. Logging and response headers but Retry-After are left out.
pub mod Laws
pub mod Billing
use mcp_searxng_relay.Base.{
  ℕ, suc, Bool, true, false, not, ◌&&◌, ◌||◌, Option, none, some, List, [], ◌∷◌, ◌++◌, Text,
  text_eq, codes, ltb, leb, if◌then◌else◌, length, take, drop, is_some,
}
use mcp_searxng_relay.Base.Dict.{lookup}
use mcp_searxng_relay.GoLib.Lru.{Lru}
use mcp_searxng_relay.GoLib.Strings.{trim_space, equal_fold}
use mcp_searxng_relay.GoLib.Net.{split_host_port}
use mcp_searxng_relay.RateLimit.Limiter
use mcp_searxng_relay.RateLimit.Limiter.{RateLimiter, Table, enabled, exempted, allow, peek}

-- The parts of an *http.Request that these handlers read, and the clock at the two moments at
-- which a request may be charged: on arrival, and once authentication has decided.
pub record Request : Type 0 where
  pub authorization : Text
  pub remote_addr : Text
  pub arrived : ℕ
  pub authenticated : ℕ

-- The values that the handlers hand on in the request's context; "" where none was set.
pub record Context : Type 0 where
  pub identity : Text
  pub deferred_key : Text

pub data Response : Type 0 where
  served : Context → Response
  too_many_requests : ℕ → Response
  unauthorized : Response

-- `static_tokens` is cfg.AuthTokens, from digests to identities. `verify` is
-- oauthSettings.verifyWithExpiry: the identity of a token that verifies. `exchange_enabled` is
-- cfg.UserTokenExchange.enabled(); then such a request passes withSDKTokenInfo, the bearer middleware
-- of the MCP SDK, which answers 401 itself where `sdk_accepts` is false.
pub record AuthConfig : Type 0 where
  pub static_tokens : List (Text × Text)
  pub oauth_enabled : Bool
  pub sha256 : Text → Text
  pub verify : Text → Option Text
  pub exchange_enabled : Bool
  pub sdk_accepts : Request → Bool

abbrev bearer_prefix : Text
bearer_prefix = codes "Bearer "

unfoldable pub bearer_token : Text → Text
bearer_token header =
    if leb (length bearer_prefix) (length header)
      && equal_fold (take (length bearer_prefix) header) bearer_prefix
    then trim_space (drop (length bearer_prefix) header)
    else []

abbrev pub is_empty : Text → Bool
is_empty [] = true
is_empty (c ∷ s) = false

-- The static table's identity for a request; `none` when it does not know the header.
unfoldable pub static_identity : AuthConfig → Request → Option Text
static_identity cfg r = lookup (cfg.sha256 r.authorization) cfg.static_tokens

abbrev pub host_of : Text → Text
host_of remote = elim (split_host_port remote) [ some (host, port) ↦ host | none ↦ remote ]

unfoldable pub caller_key : AuthConfig → Request → Text × Text
unfolding static_identity
caller_key cfg r = elim (static_identity cfg r) [
  | some id ↦ (codes "id:" ++ id, id)
  | none ↦ (codes "ip:" ++ host_of r.remote_addr, [])
]

abbrev pub no_tokens : List (Text × Text) → Bool
no_tokens [] = true
no_tokens (x ∷ xs) = false

-- The OAuth half of requireAuth: the identity of a bearer token that verifies.
unfoldable pub oauth_identity : AuthConfig → Request → Option Text
oauth_identity cfg r =
    if cfg.oauth_enabled && not (is_empty (bearer_token r.authorization))
    then cfg.verify (bearer_token r.authorization)
    else none

module _ (L : Lru ℕ) where
  pub record Server : Type 0 where
    pub limiter : RateLimiter
    pub auth : AuthConfig
    pub table : Table L
    pub rate_limit_rejections : ℕ
    pub auth_failures : ℕ

  abbrev pub Handler : Type 0
  Handler = Request → Context → Server → Response × Server

  abbrev reject_rate_limited : ℕ → Server → Response × Server
  reject_rate_limited retry s =
      (too_many_requests retry, record s { rate_limit_rejections = suc s.rate_limit_rejections })

  -- `if ok, retry := decide(key); !ok { reject; return }; next`
  unfoldable pub gate :
      (Bool × ℕ) × Table L → (Server → Response × Server) → Server → Response × Server
  gate ((true, retry), t) next s = next (record s { table = t })
  gate ((false, retry), t) next s = reject_rate_limited retry (record s { table = t })

  unfoldable pub charge_failed_auth : Request → Context → Server → Server
  charge_failed_auth r ctx s =
      if is_empty ctx.deferred_key
      then s
      else record s { table = (allow L s.limiter r.authenticated ctx.deferred_key s.table).1 }

  unfoldable pub rate_limit : Handler → Handler
  unfolding gate
  rate_limit next r ctx s =
      let (key, identity) = caller_key s.auth r in
      if not (enabled s.limiter)
      then next r ctx s
      else if exempted s.limiter identity
      then next r ctx s
      else if is_empty identity
          && s.auth.oauth_enabled
          && not (is_empty (bearer_token r.authorization))
      then gate (peek L s.limiter r.arrived key s.table)
          (next r (record ctx { deferred_key = key })) s
      else gate (allow L s.limiter r.arrived key s.table) (next r ctx) s

  -- The call of `next` once a JWT has been verified.
  unfoldable pub with_sdk_token_info : Handler → Handler
  with_sdk_token_info next r ctx s =
      if s.auth.exchange_enabled && not (s.auth.sdk_accepts r)
      then (unauthorized, s)
      else next r ctx s

  unfoldable pub require_auth : Handler → Handler
  unfolding with_sdk_token_info static_identity oauth_identity charge_failed_auth
  require_auth next r ctx s =
      if no_tokens s.auth.static_tokens && not s.auth.oauth_enabled
      then next r ctx s
      else elim (static_identity s.auth r) [
        | some identity ↦ next r (record ctx { identity = identity }) s
        | none ↦ elim (oauth_identity s.auth r) [
          | some identity ↦ with_sdk_token_info next r (record ctx { identity = identity }) s
          | none ↦ (
            unauthorized,
            charge_failed_auth r ctx (record s { auth_failures = suc s.auth_failures }),
          )
        ]
      ]

  unfoldable pub rate_limit_verified : Handler → Handler
  unfolding gate
  rate_limit_verified next r ctx s =
      if not (enabled s.limiter)
      then next r ctx s
      else if is_empty ctx.deferred_key
      then next r ctx s
      else if exempted s.limiter ctx.identity
      then next r ctx s
      else gate
          (allow L s.limiter r.authenticated
            (if is_empty ctx.identity then ctx.deferred_key else codes "id:" ++ ctx.identity)
            s.table)
          (next r ctx) s

  unfoldable pub auth_gate : Handler → Handler
  unfolding rate_limit require_auth rate_limit_verified
  auth_gate next = rate_limit (require_auth (rate_limit_verified next))

  -- The MCP handler behind the gate, which ends the chain.
  abbrev pub mcp_root : Handler
  mcp_root r ctx s = (served ctx, s)
