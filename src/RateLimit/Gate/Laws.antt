-- ===== src/RateLimit/Gate/Laws.antt =====
-- What passes the gate: only authenticated callers, and only callers who have paid.
use mcp_searxng_relay.Base.{
  ℕ, ◌≡◌, refl, ◌⊎◌, inl, inr, Bool, true, false, Option, none, some, [], Text, arith, Option-cases,
}
use mcp_searxng_relay.GoLib.Lru.{Lru}
use mcp_searxng_relay.RateLimit.Limiter.{Table, allow, peek}
use mcp_searxng_relay.RateLimit.Gate.{
  Request, Context, Response, served, AuthConfig, static_identity, caller_key, oauth_identity,
  no_tokens, Server, mcp_root, rate_limit, require_auth, rate_limit_verified, auth_gate, gate,
}

-- A request's context on arrival.
abbrev pub fresh : Context
fresh = record { identity = []; deferred_key = [] }

-- The identity that the request's credential proves, by the static table or by a JWT.
abbrev pub credentials : AuthConfig → Request → Option Text
credentials cfg r = elim (static_identity cfg r) [ some id ↦ some id | none ↦ oauth_identity cfg r ]

module _ (L : Lru ℕ) where
  served_gate :
      (d : (Bool × ℕ) × Table L) (next : Server L → Response × Server L) (s : Server L)
      {c : Context}
      → (gate L d next s).0 ≡ served c
      → (d.0.0 ≡ true) × ((next (record s { table = d.1 })).0 ≡ served c)
  unfolding gate
  served_gate ((true, retry), t) next s h = (refl, h)
  served_gate ((false, retry), t) next s h = cc

  served_verified :
      (r : Request) (ctx : Context) (s : Server L) {c : Context}
      → (rate_limit_verified L (mcp_root L) r ctx s).0 ≡ served c
      → ctx ≡ c
  unfolding rate_limit_verified gate
  served_verified r ctx s h = ground arith

  served_auth :
      (r : Request) (ctx : Context) (s : Server L) {c : Context}
      → (no_tokens s.auth.static_tokens ≡ false) ⊎ (s.auth.oauth_enabled ≡ true)
      → (require_auth L (rate_limit_verified L (mcp_root L)) r ctx s).0 ≡ served c
      → credentials s.auth r ≡ some c.identity
  unfolding require_auth
  served_auth r ctx s {c} on h = elim (Option-cases (static_identity s.auth r)) [
    | inr (id, e) ↦
        let ctx' = record ctx { identity = id } in
        ground (arith, e, served_verified r ctx' s {c = c})
    | inl e ↦ elim (Option-cases (oauth_identity s.auth r)) [
      | inr (id, e') ↦
          let ctx' = record ctx { identity = id } in
          ground (arith, e, e', served_verified r ctx' s {c = c})
      | inl e' ↦ ground (arith, e, e')
    ]
  ]

  served_rate_limit :
      (r : Request) (s : Server L) {c : Context}
      → (no_tokens s.auth.static_tokens ≡ false) ⊎ (s.auth.oauth_enabled ≡ true)
      → (rate_limit L (require_auth L (rate_limit_verified L (mcp_root L))) r fresh s).0 ≡ served c
      → credentials s.auth r ≡ some c.identity
  unfolding rate_limit
  served_rate_limit r s {c} on h =
      let key = (caller_key s.auth r).0 in
      let ask = peek L s.limiter r.arrived key s.table in
      let pay = allow L s.limiter r.arrived key s.table in
      let next = require_auth L (rate_limit_verified L (mcp_root L)) in
      let ctx' = record fresh { deferred_key = key } in
      ground (
        arith,
        served_gate ask (next r ctx') s {c = c},
        served_gate pay (next r fresh) s {c = c},
        served_auth r fresh s {c = c} on,
        served_auth r ctx' (record s { table = ask.1 }) {c = c} on,
        served_auth r fresh (record s { table = pay.1 }) {c = c} on,
      )

  -- Where a credential is configured at all, a request reaches the MCP handler only under the
  -- identity that its own credential proves: the static table's, or else that of a JWT that
  -- verifies.
  pub auth_gate-authenticated :
      (r : Request) (s : Server L) {c : Context}
      → (no_tokens s.auth.static_tokens ≡ false) ⊎ (s.auth.oauth_enabled ≡ true)
      → (auth_gate L (mcp_root L) r fresh s).0 ≡ served c
      → credentials s.auth r ≡ some c.identity
  unfolding auth_gate
  auth_gate-authenticated r s {c} on h = served_rate_limit r s on h
