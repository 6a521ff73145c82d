-- ===== src/Sessions/Endpoints.antt =====
-- requireSharedSecret, requireHealthAuth, requireMetricsAuth, limitSessions and
-- sanitizeClientSessionID of transport_http.go. SHA-256 is a parameter; a handler that lets a
-- request through gives `passed`.
pub mod Secret
use mcp_searxng_relay.Base.{
  ℕ, zero, suc, ◌+◌, ◌-◌, ◌*◌, ◌≤◌, ◌<◌, min, max, ◌≡◌, refl, sym, ap, subst, ◌∙◌, ◌≢◌, ◌↔◌, ◌⊎◌,
  inl, inr, Bool, true, false, not, ◌&&◌, ◌||◌, Option, none, some, List, [], ◌∷◌, ◌++◌, map,
  append_assoc, append-nil, arith, Text, codes, text_eq, text_eq_iff, text_eq_refl, text_eq-cases,
  ltb, leb, ◌==◌, ==_iff, if◌then◌else◌, length, get_elem?, set, take, drop, length-append,
  length-set, length-take, length-drop, get_elem?-set_self, get_elem?-set_ne, get_elem?-lt, All,
  All-append, get_elem?-append_left, get_elem?-concat_last, get_elem?-set_cases,
  get_elem?-concat_cases, Bool-cases, Option-cases, is_some,
}

pub data Verdict : Type 0 where
  passed : Verdict
  unauthorized : Verdict
  too_many_sessions : Verdict

-- Whether the set of digests has one.
abbrev pub has_digest : Text → List Text → Bool
has_digest got [] = false
has_digest got (d ∷ ds) = text_eq d got || has_digest got ds

abbrev all_printable : Text → Bool
all_printable [] = true
all_printable (c ∷ s) = not (ltb c b'!' || ltb b'~' c) && all_printable s

unfoldable pub sanitize_client_session_id : Text → Text
sanitize_client_session_id id =
    if length id == 0 || ltb 128 (length id) then [] else if all_printable id then id else []

abbrev pub max_sessions : ℕ
max_sessions = 1000

-- The method's test, the session header and the number of sessions.
unfoldable pub limit_sessions : Text → Text → ℕ → Verdict
limit_sessions method session_id count =
    if text_eq method (codes "POST") && length session_id == 0 && leb max_sessions count
    then too_many_sessions
    else passed

-- With the number of recorded authentication failures.
module _ (sha256 : Text → Text) where
  unfoldable pub require_shared_secret : List Text → Text → ℕ → Verdict × ℕ
  require_shared_secret tokens authorization failures =
      if has_digest (sha256 authorization) tokens
      then (passed, failures)
      else (unauthorized, suc failures)

  unfoldable pub require_health_auth : List Text → Text → ℕ → Verdict × ℕ
  require_health_auth [] authorization failures = (passed, failures)
  require_health_auth (d ∷ ds) authorization failures =
      require_shared_secret (d ∷ ds) authorization failures

  unfoldable pub require_metrics_auth : List Text → Text → ℕ → Verdict × ℕ
  require_metrics_auth [] authorization failures = (unauthorized, suc failures)
  require_metrics_auth (d ∷ ds) authorization failures =
      require_shared_secret (d ∷ ds) authorization failures
