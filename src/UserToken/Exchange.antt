-- ===== src/UserToken/Exchange.antt =====
-- userTokenExchanger.Exchange and Server.userTokenForSearch. The two parts of Exchange that hold
-- the mutex are `cached_token` and `store`, so that calls can be interleaved between them.
pub mod Issued
use mcp_searxng_relay.Base.{
  ℕ, zero, suc, ◌+◌, ◌-◌, ◌*◌, ◌≤◌, ◌<◌, min, max, ◌≡◌, refl, sym, ap, subst, ◌∙◌, ◌≢◌, ◌↔◌, ◌⊎◌,
  inl, inr, Bool, true, false, not, ◌&&◌, ◌||◌, Option, none, some, List, [], ◌∷◌, ◌++◌, map,
  append_assoc, append-nil, arith, Text, codes, text_eq, text_eq_iff, text_eq_refl, text_eq-cases,
  ltb, leb, ◌==◌, ==_iff, if◌then◌else◌, length, get_elem?, set, take, drop, length-append,
  length-set, length-take, length-drop, get_elem?-set_self, get_elem?-set_ne, get_elem?-lt, All,
  All-append, get_elem?-append_left, get_elem?-concat_last, get_elem?-set_cases,
  get_elem?-concat_cases, Bool-cases, Option-cases, is_some,
}
use mcp_searxng_relay.GoLib.Lru.{Lru}
use mcp_searxng_relay.UserToken.Answer.{CachedUserToken, Answer, RequestError, request, is_empty}

abbrev pub Form : Type 0
Form = List (Text × Text)

-- url.Values.Encode sorts the keys, so their order here does not matter.
unfoldable pub form_of : Text → Text → Form
form_of audience subject =
    (codes "grant_type", codes "urn:ietf:params:oauth:grant-type:token-exchange")
    ∷ (codes "subject_token", subject)
    ∷ (codes "subject_token_type", codes "urn:ietf:params:oauth:token-type:access_token")
    ∷ (codes "requested_token_type", codes "urn:ietf:params:oauth:token-type:access_token")
    ∷ (if is_empty audience then [] else (codes "audience", audience) ∷ [])

-- userTokenOutcomes
pub data Outcome : Type 0 where
  exchanged : Outcome
  cached : Outcome
  no_user_token : Outcome
  failed : Outcome

-- What a search is sent with, or why it is not.
pub data SearchToken : Type 0 where
  off : SearchToken
  no_user : SearchToken
  unavailable : RequestError → SearchToken
  sent : Text → SearchToken

module _ (L : Lru CachedUserToken) (sha256 : Text → Text) where
  unfoldable pub cached_token : Text → ℕ → L.Cache → Option Text × L.Cache
  cached_token key now c =
      let c' = L.get c key in
      elim (L.peek c key) [
        | none ↦ (none, c')
        | some t ↦ if ltb now t.expires then (some t.token, c') else (none, L.remove c' key)
      ]

  unfoldable pub store : Text → CachedUserToken → L.Cache → L.Cache
  store key t c = L.add c key t

  -- `endpoint n` is how the token endpoint answers the `n`-th request; the Boolean says that the
  -- token comes from the cache.
  module _ (endpoint : ℕ → Form → Option Answer) (audience : Text) where
    unfoldable pub fetch_token : ℕ → Text → ℕ → L.Cache → (RequestError ⊎ Text × Bool) × L.Cache
    fetch_token n subject now c = elim (request (endpoint n (form_of audience subject)) now) [
      | inl e ↦ (inl e, c)
      | inr t ↦ (inr (t.token, false), store (sha256 subject) t c)
    ]

    unfoldable pub exchange : ℕ → Text → ℕ → L.Cache → (RequestError ⊎ Text × Bool) × L.Cache
    exchange n subject now c =
        let r = cached_token (sha256 subject) now c in
        elim r.0 [ some tok ↦ (inr (tok, true), r.1) | none ↦ fetch_token n subject now r.1 ]

    abbrev pub outcome_of : Bool → Outcome
    outcome_of true = cached
    outcome_of false = exchanged

    abbrev pub answer_search : (RequestError ⊎ Text × Bool) → SearchToken × Option Outcome
    answer_search (inl e) = (unavailable e, some failed)
    answer_search (inr (tok, hit)) = (sent tok, some (outcome_of hit))

    -- `enabled` says whether there is an exchanger, the `Outcome` which counter goes up.
    unfoldable pub user_token_for_search :
        Bool → ℕ → Text → ℕ → L.Cache → (SearchToken × Option Outcome) × L.Cache
    user_token_for_search enabled n subject now c =
        if not enabled
        then ((off, none), c)
        else if is_empty subject
        then ((no_user, some no_user_token), c)
        else let r = exchange n subject now c in (answer_search r.0, r.1)
