-- ===== src/Sessions/Endpoints/Secret.antt =====
-- The endpoints' secrets, from the environment to the request.
use mcp_searxng_relay.Base.{
  List-cases, ℕ, ◌≡◌, refl, sym, ◌∙◌, ◌≢◌, ◌↔◌, ◌⊎◌, inl, inr, List, [], ◌∷◌, arith, Text,
  text_eq_iff, ltb, length, Bool-cases,
}
use mcp_searxng_relay.GoLib.Strings.{trim_space}
use mcp_searxng_relay.Config.Tokens.{parse_shared_secret_token, bearer, min_auth_token_len}
use mcp_searxng_relay.Sessions.Endpoints.{
  Verdict, passed, unauthorized, require_shared_secret, require_health_auth, require_metrics_auth,
}

module _ (sha256 : Text → Text) where
  -- The verdicts under a token: with none, /health is open and /metrics closed.
  pub record Guarded (token authorization : Text) (health metrics : Verdict) : Type 0 where
    pub no_token : token ≡ [] → (health ≡ passed) × (metrics ≡ unauthorized)
    pub by_token :
        token ≢ []
        → (health ≡ metrics) × ((metrics ≡ passed) ↔ (sha256 (bearer token) ≡ sha256 authorization))

  set_of :
      (var : Text) (m : List Text)
      → parse_shared_secret_token sha256 var ≡ inr m
      → ((trim_space var ≡ []) × (m ≡ []))
        ⊎ ((trim_space var ≢ []) × (m ≡ sha256 (bearer (trim_space var)) ∷ []))
  unfolding parse_shared_secret_token
  set_of var m h = elim (List-cases (trim_space var)) [
    | inl e ↦ inl (e, cc (rw (parse_shared_secret_token, e) at h))
    | inr (c, t, e) ↦ elim (Bool-cases (ltb (length (c ∷ t)) min_auth_token_len)) [
      | inl f ↦ absurd (cc (rw (parse_shared_secret_token, e, f) at h))
      | inr f ↦ inr (λ z. cc (sym e ∙ z), rw e (cc (rw (parse_shared_secret_token, e, f) at h)))
    ]
  ]

  require_shared_secret-passed :
      (d authorization : Text) (failures : ℕ)
      → ((require_shared_secret sha256 (d ∷ []) authorization failures).0 ≡ passed)
        ↔ (d ≡ sha256 authorization)
  unfolding require_shared_secret
  require_shared_secret-passed d authorization failures =
      ground (arith, text_eq_iff d (sha256 authorization))

  -- Whatever is read from the environment as the secret of an endpoint: with a token, /health and
  -- /metrics let a request through just when the digest of its header is that of `Bearer ` and
  -- the token. Without one, /health lets every request through and /metrics none.
  pub shared_secret-Guarded :
      (var authorization : Text) (m : List Text) (failures : ℕ)
      → parse_shared_secret_token sha256 var ≡ inr m
      → Guarded
          (trim_space var)
          authorization
          (require_health_auth sha256 m authorization failures).0
          (require_metrics_auth sha256 m authorization failures).0
  unfolding require_health_auth require_metrics_auth
  shared_secret-Guarded var authorization m failures h = elim (set_of var m h) [
    | inl (e, none_set) ↦
        rw none_set (record { no_token = λ z. (refl, refl); by_token = λ ne. absurd (ne e) })
    | inr (ne, one) ↦ rw one (record {
      no_token = λ z. absurd (ne z);
      by_token = λ z. (refl, require_shared_secret-passed _ authorization failures);
    })
  ]
