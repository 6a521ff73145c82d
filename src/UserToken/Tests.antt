-- ===== src/UserToken/Tests.antt =====
-- Runs of the token exchange on small inputs.
use mcp_searxng_relay.Base.{
  ℕ, zero, suc, ◌+◌, ◌-◌, ◌*◌, ◌≤◌, ◌<◌, min, max, ◌≡◌, refl, sym, ap, subst, ◌∙◌, ◌≢◌, ◌↔◌, ◌⊎◌,
  inl, inr, Bool, true, false, not, ◌&&◌, ◌||◌, Option, none, some, List, [], ◌∷◌, ◌++◌, map,
  append_assoc, append-nil, arith, Text, codes, text_eq, text_eq_iff, text_eq_refl, text_eq-cases,
  ltb, leb, ◌==◌, ==_iff, if◌then◌else◌, length, get_elem?, set, take, drop, length-append,
  length-set, length-take, length-drop, get_elem?-set_self, get_elem?-set_ne, get_elem?-lt, All,
  All-append, get_elem?-append_left, get_elem?-concat_last, get_elem?-set_cases,
  get_elem?-concat_cases, Bool-cases, Option-cases, is_some,
}
use mcp_searxng_relay.Base.Int.{pos}
use mcp_searxng_relay.GoLib.Lru.Unbounded.{unbounded}
use mcp_searxng_relay.UserToken.Answer.{
  seconds, early_renewal, max_lifetime, CachedUserToken, Answer, RequestError, expiry, request,
  log_safe, no_access_token, is_empty, refused,
}
use mcp_searxng_relay.UserToken.Answer.Lifetime.{Accepted, request-Accepted}
use mcp_searxng_relay.GoLib.Ip.{Ip}
use mcp_searxng_relay.UserToken.Settings.{
  Settings, ParsedUrl, UserTokenExchanger, SettingError, insecure_token_url, no_oauth, describe,
  new_user_token_exchanger,
}
use mcp_searxng_relay.UserToken.Settings.Ready.{Ready, new_user_token_exchanger-Ready}
use mcp_searxng_relay.UserToken.Exchange.{
  Form, form_of, sent, unavailable, exchanged, cached, failed, no_user, no_user_token, SearchToken,
  Outcome, store, user_token_for_search,
}
use mcp_searxng_relay.UserToken.Exchange.Issued.{
  Reachable, start, keep, Issued, user_token_for_search-Issued,
}

abbrev granted : Answer
granted = record {
  status_code = 200;
  status = codes "200 OK";
  access_token = codes "tok";
  token_type = codes "Bearer";
  expires_in = pos 300;
  error_code = [];
  description = [];
}

abbrev denied : Answer
denied = record granted {
  status_code = 400;
  status = codes "400 Bad Request";
  access_token = [];
  error_code = codes "invalid_grant";
}

abbrev held : CachedUserToken
held = record { token = codes "tok"; expires = 1000 + seconds 270 }

granted_kept : request (some granted) 1000 ≡ inr held
unfolding request mcp_searxng_relay.GoLib.Strings.equal_fold
    mcp_searxng_relay.UserToken.Answer.all_visible
granted_kept = refl

denied_refused :
    request (some denied) 1000 ≡ inl (refused (codes "400 Bad Request") (codes "invalid_grant") [])
unfolding request log_safe
denied_refused = refl

-- A duration overflows for about 292 years and more: the token has expired when it is stored.
overflow_expired :
    expiry (seconds 10000000000) (pos 9223372037) ≡ seconds 10000000000 - 4611686018354775808
unfolding expiry
overflow_expired = refl

request-Accepted_example : (a : Answer) × (some granted ≡ some a) × Accepted a 1000 held
request-Accepted_example = request-Accepted (some granted) 1000 held granted_kept

abbrev Cached : Type 0
Cached = List (Text × CachedUserToken)

-- A digest that shows the text.
abbrev shown : Text → Text
shown t = t

abbrev endpoint : ℕ → Form → Option Answer
endpoint n form = some (if n == 0 then granted else denied)

abbrev filled : Cached
filled = store (unbounded CachedUserToken) shown (codes "alice") held []

filled_Reachable : Reachable (unbounded CachedUserToken) shown endpoint (codes "search") filled
filled_Reachable = keep 0 (codes "alice") 1000 held [] granted_kept start

abbrev search : Text → ℕ → (SearchToken × Option Outcome) × Cached
search subject now =
    user_token_for_search (unbounded CachedUserToken) shown endpoint (codes "search") true 1 subject
      now filled

alice_cached : (search (codes "alice") 2000).0 ≡ (sent (codes "tok"), some cached)
unfolding user_token_for_search mcp_searxng_relay.UserToken.Exchange.exchange
    mcp_searxng_relay.UserToken.Exchange.cached_token mcp_searxng_relay.Base.Dict.lookup store
    mcp_searxng_relay.Base.Dict.insert text_eq
alice_cached = refl

bob_refused :
    (search (codes "bob") 2000).0
    ≡ (unavailable (refused (codes "400 Bad Request") (codes "invalid_grant") []), some failed)
unfolding user_token_for_search mcp_searxng_relay.UserToken.Exchange.exchange
    mcp_searxng_relay.UserToken.Exchange.cached_token mcp_searxng_relay.Base.Dict.lookup store
    mcp_searxng_relay.Base.Dict.insert text_eq mcp_searxng_relay.UserToken.Exchange.fetch_token
    request log_safe
bob_refused = refl

nobody : (search [] 2000).0 ≡ (no_user, some no_user_token)
unfolding user_token_for_search
nobody = refl

user_token_for_search-Issued_example :
    (true ≡ true)
    × (is_empty (codes "alice") ≡ false)
    × Reachable
        (unbounded CachedUserToken)
        shown
        endpoint
        (codes "search")
        (search (codes "alice") 2000).1
    × (t : CachedUserToken) × (t.token ≡ codes "tok")
    × (((search (codes "alice") 2000).0.1 ≡ some exchanged)
          × (request (endpoint 1 (form_of (codes "search") (codes "alice"))) 2000 ≡ inr t)
        ⊎ ((search (codes "alice") 2000).0.1 ≡ some cached)
          × (2000 < t.expires)
          × Issued (unbounded CachedUserToken) shown endpoint (codes "search") (codes "alice") t)
unfolding user_token_for_search
user_token_for_search-Issued_example =
    user_token_for_search-Issued (unbounded CachedUserToken) shown endpoint (codes "search") true 1
      (codes "alice") 2000 filled (codes "tok") filled_Reachable (ap (λ p. p.0) alice_cached)

abbrev settings : Settings
settings = record {
  mode = codes "exchange";
  token_url = codes "t";
  client_id = codes "relay";
  client_secret = codes "s3cret";
  client_secret_file = [];
  audience = [];
  allow_plaintext = false;
  searxng_url = codes "s";
}

-- Both URLs have the scheme https.
abbrev secure_url : Text → Option ParsedUrl
secure_url t = some (record { scheme = codes "https"; host = codes "h"; hostname = codes "h" })

abbrev plain_url : Text → Option ParsedUrl
plain_url t = some (record { scheme = codes "http"; host = codes "h"; hostname = codes "h" })

abbrev no_ip : Text → Option Ip
no_ip t = none

abbrev no_file : Text → Option Text
no_file t = none

abbrev exchanger : UserTokenExchanger
exchanger = record {
  token_url = codes "t";
  client_id = codes "relay";
  client_secret = codes "s3cret";
  audience = [];
}

exchanger_made :
    new_user_token_exchanger no_ip secure_url no_file settings true ≡ inr (some exchanger)
unfolding new_user_token_exchanger mcp_searxng_relay.GoLib.Strings.to_lower
    mcp_searxng_relay.GoLib.Strings.trim_space text_eq
    mcp_searxng_relay.UserToken.Settings.secret_of mcp_searxng_relay.UserToken.Settings.with_secret
    mcp_searxng_relay.UserToken.Settings.missing_of
    mcp_searxng_relay.UserToken.Settings.token_url_ok
    mcp_searxng_relay.UserToken.Settings.check_searxng
exchanger_made = refl

plain_refused :
    new_user_token_exchanger no_ip plain_url no_file settings true ≡ inl insecure_token_url
unfolding new_user_token_exchanger mcp_searxng_relay.GoLib.Strings.to_lower
    mcp_searxng_relay.GoLib.Strings.trim_space text_eq
    mcp_searxng_relay.UserToken.Settings.secret_of mcp_searxng_relay.UserToken.Settings.with_secret
    mcp_searxng_relay.UserToken.Settings.missing_of
    mcp_searxng_relay.UserToken.Settings.token_url_ok
    mcp_searxng_relay.UserToken.Settings.is_loopback_host mcp_searxng_relay.GoLib.Strings.equal_fold
plain_refused = refl

oauth_needed : new_user_token_exchanger no_ip secure_url no_file settings false ≡ inl no_oauth
unfolding new_user_token_exchanger mcp_searxng_relay.GoLib.Strings.to_lower
    mcp_searxng_relay.GoLib.Strings.trim_space text_eq
oauth_needed = refl

exchanger_described :
    describe (some exchanger) ≡ codes "exchange (client relay, header X-Relay-User-Token)"
unfolding describe
exchanger_described = refl

new_user_token_exchanger-Ready_example :
    (new_user_token_exchanger no_ip secure_url no_file settings true ≡ inr (some exchanger))
    ↔ Ready no_ip secure_url no_file settings true exchanger
new_user_token_exchanger-Ready_example =
    new_user_token_exchanger-Ready no_ip secure_url no_file settings true exchanger
