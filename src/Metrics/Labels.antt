-- ===== src/Metrics/Labels.antt =====
-- The counters of metrics.go that stand under a closed set of labels, an array with a slot for
-- each, and classifyFetchError of fetch_error_reason.go. An error is the list of the errors that
-- errors.Is and errors.As meet when they unwrap it, in their order.
use mcp_searxng_relay.Base.{
  ℕ, zero, suc, ◌+◌, Bool, true, false, ◌||◌, Option, none, some, List, [], ◌∷◌, Text, codes,
  text_eq, if◌then◌else◌,
}

abbrev pub ssrf_block_reasons : List Text
ssrf_block_reasons =
    codes "loopback"
    ∷ codes "link_local"
    ∷ codes "private"
    ∷ codes "unspecified"
    ∷ codes "multicast"
    ∷ codes "non_global_unicast"
    ∷ codes "reserved"
    ∷ []

abbrev pub provenance_outcomes : List Text
provenance_outcomes =
    codes "seen"
    ∷ codes "trusted_host"
    ∷ codes "unseen_plain"
    ∷ codes "would_block"
    ∷ codes "asked"
    ∷ codes "confirmed"
    ∷ codes "declined"
    ∷ codes "blocked"
    ∷ []

abbrev pub auth_failure_endpoints : List Text
auth_failure_endpoints = codes "mcp" ∷ codes "metrics" ∷ codes "health" ∷ []

abbrev pub fetch_error_reasons : List Text
fetch_error_reasons =
    codes "invalid_url"
    ∷ codes "scheme_rejected"
    ∷ codes "ssrf_blocked"
    ∷ codes "dns"
    ∷ codes "timeout"
    ∷ codes "refused"
    ∷ codes "http_status"
    ∷ codes "extract_failed"
    ∷ codes "image_disabled"
    ∷ codes "other"
    ∷ []

-- The loop that looks for a label; `none` is -1.
unfoldable pub label_index : List Text → Text → Option ℕ
label_index [] label = none
label_index (r ∷ rs) label =
    let rest = label_index rs label in
    if text_eq r label then some 0 else elim rest [ none ↦ none | some i ↦ some (suc i) ]

abbrev pub add_at : ℕ → List ℕ → List ℕ
add_at i [] = []
add_at zero (n ∷ ns) = (n + 1) ∷ ns
add_at (suc i) (n ∷ ns) = n ∷ add_at i ns

-- A label that is not in the set is dropped.
unfoldable pub add_label : List Text → Text → List ℕ → List ℕ
unfolding label_index
add_label labels label counts = elim (label_index labels label) [
  | none ↦ counts
  | some i ↦ add_at i counts
]

unfoldable pub ssrf_reason_index : Text → Option ℕ
unfolding label_index
ssrf_reason_index reason = label_index ssrf_block_reasons reason

unfoldable pub auth_endpoint_index : Text → Option ℕ
unfolding label_index
auth_endpoint_index endpoint = label_index auth_failure_endpoints endpoint

unfoldable pub record_ssrf_block : Text → List ℕ → List ℕ
unfolding ssrf_reason_index
record_ssrf_block reason counts = elim (ssrf_reason_index reason) [
  | none ↦ counts
  | some i ↦ add_at i counts
]

unfoldable pub record_auth_failure : Text → List ℕ → List ℕ
unfolding auth_endpoint_index
record_auth_failure endpoint counts = elim (auth_endpoint_index endpoint) [
  | none ↦ counts
  | some i ↦ add_at i counts
]

unfoldable pub record_provenance : Text → List ℕ → List ℕ
unfolding add_label
record_provenance outcome counts = add_label provenance_outcomes outcome counts

-- What an unwrapped error is, as far as the classification asks.
pub data Cause : Type 0 where
  invalid_url scheme_rejected http_status extract_failed image_disabled : Cause
  blocked_addr dns_error deadline_exceeded connection_refused unknown : Cause
  -- Another net.Error, with its Timeout().
  net_error : Bool → Cause

abbrev pub same_cause : Cause → Cause → Bool
same_cause invalid_url invalid_url = true
same_cause scheme_rejected scheme_rejected = true
same_cause http_status http_status = true
same_cause extract_failed extract_failed = true
same_cause image_disabled image_disabled = true
same_cause blocked_addr blocked_addr = true
same_cause dns_error dns_error = true
same_cause deadline_exceeded deadline_exceeded = true
same_cause connection_refused connection_refused = true
same_cause _ _ = false

-- errors.Is, and errors.As for a type that one constructor stands for
unfoldable pub is : Cause → List Cause → Bool
is c [] = false
is c (e ∷ es) = same_cause c e || is c es

-- errors.As for net.Error: the first one, and its Timeout(). A refused connection, a syscall.Errno,
-- is one itself; *net.DNSError and context.DeadlineExceeded are handled before this is asked.
unfoldable pub first_net_timeout : List Cause → Bool
first_net_timeout [] = false
first_net_timeout (net_error timeout ∷ es) = timeout
first_net_timeout (connection_refused ∷ es) = false
first_net_timeout (e ∷ es) = first_net_timeout es

-- classifyFetchError for an error that is not nil
unfoldable pub classify_fetch_error : List Cause → Text
unfolding is first_net_timeout
classify_fetch_error err =
    if is invalid_url err
    then codes "invalid_url"
    else if is scheme_rejected err
    then codes "scheme_rejected"
    else if is http_status err
    then codes "http_status"
    else if is extract_failed err
    then codes "extract_failed"
    else if is image_disabled err
    then codes "image_disabled"
    else if is blocked_addr err
    then codes "ssrf_blocked"
    else if is dns_error err
    then codes "dns"
    else if is deadline_exceeded err
    then codes "timeout"
    else if first_net_timeout err
    then codes "timeout"
    else if is connection_refused err
    then codes "refused"
    else codes "other"

unfoldable pub record_fetch_error : List Cause → List ℕ → List ℕ
unfolding label_index classify_fetch_error add_label
record_fetch_error err counts = elim (label_index fetch_error_reasons (classify_fetch_error err)) [
  | some i ↦ add_at i counts
  | none ↦ add_label fetch_error_reasons (codes "other") counts
]
