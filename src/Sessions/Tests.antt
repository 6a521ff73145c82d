-- ===== src/Sessions/Tests.antt =====
-- Runs of the janitor and of the endpoints' checks.
use mcp_searxng_relay.Base.{
  ℕ, zero, suc, ◌+◌, ◌-◌, ◌*◌, ◌≤◌, ◌<◌, min, max, ◌≡◌, refl, sym, ap, subst, ◌∙◌, ◌≢◌, ◌↔◌, ◌⊎◌,
  inl, inr, Bool, true, false, not, ◌&&◌, ◌||◌, Option, none, some, List, [], ◌∷◌, ◌++◌, map,
  append_assoc, append-nil, arith, Text, codes, text_eq, text_eq_iff, text_eq_refl, text_eq-cases,
  ltb, leb, ◌==◌, ==_iff, if◌then◌else◌, length, get_elem?, set, take, drop, length-append,
  length-set, length-take, length-drop, get_elem?-set_self, get_elem?-set_ne, get_elem?-lt, All,
  All-append, get_elem?-append_left, get_elem?-concat_last, get_elem?-set_cases,
  get_elem?-concat_cases, Bool-cases, Option-cases, is_some,
}
use mcp_searxng_relay.Config.Tokens.{parse_shared_secret_token}
use mcp_searxng_relay.GoLib.Strings.{trim_space}
use mcp_searxng_relay.Sessions.Janitor.{
  Sessions, Pass, live_map, handle_initialized, reap_stale_sessions,
}
use mcp_searxng_relay.Sessions.Janitor.Reaped.{
  IsMap, nil, Reaped, reap_stale_sessions-Reaped, handle_initialized-IsMap,
}
use mcp_searxng_relay.Sessions.Endpoints.{
  passed, unauthorized, too_many_sessions, limit_sessions, sanitize_client_session_id,
  require_health_auth, require_metrics_auth,
}
use mcp_searxng_relay.Sessions.Endpoints.Secret.{Guarded, shared_secret-Guarded}

abbrev tracked : Sessions
tracked = handle_initialized (codes "c") (codes "bob") 90 (
    handle_initialized (codes "b") (codes "bob") 10
      (handle_initialized (codes "a") (codes "alice") 10 []))

tracked-IsMap : IsMap tracked
tracked-IsMap = handle_initialized-IsMap (codes "c") (codes "bob") 90 _ (
    handle_initialized-IsMap (codes "b") (codes "bob") 10 _
      (handle_initialized-IsMap (codes "a") (codes "alice") 10 [] nil))

abbrev listed : List (Text × ℕ)
listed = (codes "a", 1) ∷ (codes "c", 3) ∷ []

-- "a" is too old, "b" is gone and "c" stays.
one_pass : reap_stale_sessions listed 100 50 tracked ≡ record {
  sessions = handle_initialized (codes "c") (codes "bob") 90 [];
  to_close = 1 ∷ [];
  closed = 1;
  stale = 1;
}
unfolding reap_stale_sessions mcp_searxng_relay.Sessions.Janitor.reap handle_initialized
    mcp_searxng_relay.Base.Dict.insert text_eq mcp_searxng_relay.Sessions.Janitor.reap_one
    mcp_searxng_relay.Base.Dict.lookup live_map
one_pass = refl

reap_stale_sessions-Reaped_example :
    Reaped (live_map listed []) 100 50 tracked (reap_stale_sessions listed 100 50 tracked)
reap_stale_sessions-Reaped_example = reap_stale_sessions-Reaped listed 100 50 tracked tracked-IsMap

cap_reached : limit_sessions (codes "POST") [] 1000 ≡ too_many_sessions
unfolding limit_sessions text_eq
cap_reached = refl

space_rejected : sanitize_client_session_id (codes "a b") ≡ []
unfolding sanitize_client_session_id
space_rejected = refl

-- A digest that shows the text.
abbrev shown : Text → Text
shown t = t

abbrev secret : Text
secret = codes " 0123456789abcdef0123456789abcdef"

abbrev digests : List Text
digests = codes "Bearer 0123456789abcdef0123456789abcdef" ∷ []

secret_read : parse_shared_secret_token shown secret ≡ inr digests
unfolding parse_shared_secret_token trim_space
secret_read = refl

scraper_passes :
    (require_metrics_auth shown digests (codes "Bearer 0123456789abcdef0123456789abcdef") 4)
    ≡ (passed, 4)
unfolding require_metrics_auth mcp_searxng_relay.Sessions.Endpoints.require_shared_secret text_eq
scraper_passes = refl

shared_secret-Guarded_example :
    Guarded shown
      (trim_space secret)
      (codes "Bearer x")
      (require_health_auth shown digests (codes "Bearer x") 4).0
      (require_metrics_auth shown digests (codes "Bearer x") 4).0
shared_secret-Guarded_example =
    shared_secret-Guarded shown secret (codes "Bearer x") digests 4 secret_read
