-- ===== src/UserToken/Answer.antt =====
-- userTokenExchanger.request from the answer on, validHeaderToken and logSafe. A time is its
-- nanoseconds from Go's zero time, so no time in use is less than the longest negative duration.
pub mod Lifetime
use mcp_searxng_relay.Base.{
  ◌%◌, ◌/◌, ℕ, zero, suc, ◌+◌, ◌-◌, ◌*◌, ◌≤◌, ◌<◌, min, max, ◌≡◌, refl, sym, ap, subst, ◌∙◌, ◌≢◌,
  ◌↔◌, ◌⊎◌, inl, inr, Bool, true, false, not, ◌&&◌, ◌||◌, Option, none, some, List, [], ◌∷◌, ◌++◌,
  map, append_assoc, append-nil, arith, Text, codes, text_eq, text_eq_iff, text_eq_refl,
  text_eq-cases, ltb, leb, ◌==◌, ==_iff, if◌then◌else◌, length, get_elem?, set, take, drop,
  length-append, length-set, length-take, length-drop, get_elem?-set_self, get_elem?-set_ne,
  get_elem?-lt, All, All-append, get_elem?-append_left, get_elem?-concat_last, get_elem?-set_cases,
  get_elem?-concat_cases, Bool-cases, Option-cases, is_some,
}
use mcp_searxng_relay.Base.Int.{ℤ, pos, negsuc}
use mcp_searxng_relay.GoLib.Strings.{equal_fold}

-- A duration of so many seconds, in nanoseconds.
abbrev pub seconds : ℕ → ℕ
seconds n = n * 1000000000

abbrev pub early_renewal : ℕ
early_renewal = 30000000000

abbrev pub default_lifetime : ℕ
default_lifetime = 60000000000

abbrev pub max_lifetime : ℕ
max_lifetime = 600000000000

abbrev pub max_user_token_bytes : ℕ
max_user_token_bytes = 8192

pub record CachedUserToken : Type 0 where
  pub token : Text
  pub expires : ℕ

-- What the endpoint sends: the status line with its code, and the decoded fields of the body.
pub record Answer : Type 0 where
  pub status_code : ℕ
  pub status : Text
  pub access_token : Text
  pub token_type : Text
  pub expires_in : ℤ
  pub error_code : Text
  pub description : Text

pub data HeaderError : Type 0 where
  too_long : ℕ → HeaderError
  not_visible_ascii : HeaderError

pub data RequestError : Type 0 where
  -- No answer, or a body that cannot be read.
  unreachable : RequestError
  -- The status, the provider's error code and its description.
  refused : Text → Text → Text → RequestError
  bad_status : Text → RequestError
  no_access_token : RequestError
  not_bearer : Text → RequestError
  unusable : HeaderError → RequestError

abbrev pub is_visible : ℕ → Bool
is_visible c = not (leb c 32 || leb 127 c)

unfoldable pub all_visible : Text → Bool
all_visible [] = true
all_visible (c ∷ s) = is_visible c && all_visible s

unfoldable pub valid_header_token : Text → Option HeaderError
valid_header_token tok =
    if ltb max_user_token_bytes (length tok)
    then some (too_long (length tok))
    else if all_visible tok
    then none
    else some not_visible_ascii

abbrev pub blank_control : ℕ → ℕ
blank_control c = if ltb c 32 || c == 127 then 32 else c

unfoldable pub log_safe : Text → ℕ → Text
log_safe s max' = map blank_control (if ltb max' (length s) then take max' s else s)

-- The 64 bits of a product as an int64.
abbrev pub to_int64 : ℕ → ℤ
to_int64 n =
    let w = n % 18446744073709551616 in
    if ltb w 9223372036854775808 then pos w else negsuc (18446744073709551615 - w)

-- The lifetime that the answer states or, without one, the default.
unfoldable pub lifetime : ℤ → ℤ
lifetime (negsuc n) = pos default_lifetime
lifetime (pos zero) = pos default_lifetime
lifetime (pos (suc n)) = to_int64 (seconds (suc n))

unfoldable pub capped : ℤ → ℤ
capped (negsuc l) = negsuc l
capped (pos l) = if ltb max_lifetime l then pos max_lifetime else pos l

-- The division of a negative duration is towards 0.
unfoldable pub expires_at : ℕ → ℤ → ℕ
expires_at started (negsuc l) = started - suc l / 2
expires_at started (pos l) =
    if leb l early_renewal then started + l / 2 else started + (l - early_renewal)

unfoldable pub expiry : ℕ → ℤ → ℕ
unfolding lifetime capped expires_at
expiry started expires_in = expires_at started (capped (lifetime expires_in))

abbrev pub is_empty : Text → Bool
is_empty [] = true
is_empty (c ∷ s) = false

unfoldable pub refusal : Answer → RequestError
refusal a =
    if is_empty a.error_code
    then bad_status a.status
    else refused a.status (log_safe a.error_code 64) (log_safe a.description 256)

-- `none` when the exchange over HTTP fails.
unfoldable pub request : Option Answer → ℕ → RequestError ⊎ CachedUserToken
unfolding expiry refusal valid_header_token
request none started = inl unreachable
request (some a) started =
    if not (a.status_code == 200)
    then inl (refusal a)
    else if is_empty a.access_token
    then inl no_access_token
    else if not (is_empty a.token_type) && not (equal_fold a.token_type (codes "bearer"))
    then inl (not_bearer (log_safe a.token_type 32))
    else elim (valid_header_token a.access_token) [
      | some e ↦ inl (unusable e)
      | none ↦ inr (record { token = a.access_token; expires = expiry started a.expires_in })
    ]
