-- ===== src/Metrics/Tests.antt =====
-- Runs of the counters.
use mcp_searxng_relay.Base.{
  ℕ, zero, suc, ◌+◌, ◌-◌, ◌*◌, ◌≤◌, ◌<◌, min, max, ◌≡◌, refl, sym, ap, subst, ◌∙◌, ◌≢◌, ◌↔◌, ◌⊎◌,
  inl, inr, Bool, true, false, not, ◌&&◌, ◌||◌, Option, none, some, List, [], ◌∷◌, ◌++◌, map,
  append_assoc, append-nil, arith, Text, codes, text_eq, text_eq_iff, text_eq_refl, text_eq-cases,
  ltb, leb, ◌==◌, ==_iff, if◌then◌else◌, length, get_elem?, set, take, drop, length-append,
  length-set, length-take, length-drop, get_elem?-set_self, get_elem?-set_ne, get_elem?-lt, All,
  All-append, get_elem?-append_left, get_elem?-concat_last, get_elem?-set_cases,
  get_elem?-concat_cases, Bool-cases, Option-cases, is_some,
}
use mcp_searxng_relay.Base.Dict.{lookup}
use mcp_searxng_relay.Metrics.Tables.{record_fetch_by_domain, record_engine_failure}
use mcp_searxng_relay.Metrics.Tables.Ledger.{Ledger, after_fetches, after_fetches-Ledger}
use mcp_searxng_relay.Metrics.Histogram.{latency_buckets, sum, write_series, observe}
use mcp_searxng_relay.Metrics.Histogram.Cumulative.{observe_all, at_most, write_series-observe_all}
use mcp_searxng_relay.Metrics.Labels.{
  net_error, blocked_addr, connection_refused, unknown, classify_fetch_error, record_fetch_error,
  record_ssrf_block,
}

abbrev fetches : List (Text × Bool)
fetches = (codes "a.example", true) ∷ ([], false) ∷ (codes "a.example", false) ∷ []

fetched :
    (after_fetches fetches).domains
    ≡ (codes "a.example", record { successes = 1; failures = 1 })
      ∷ (codes "unknown", record { successes = 0; failures = 1 })
      ∷ []
unfolding record_fetch_by_domain lookup mcp_searxng_relay.Base.Dict.insert text_eq
fetched = refl

after_fetches-Ledger_example : Ledger fetches (after_fetches fetches)
after_fetches-Ledger_example = after_fetches-Ledger fetches

engine_failed :
    record_engine_failure (codes "bing") (record { engine_errors = []; overflow = 0 })
    ≡ record { engine_errors = (codes "bing", 1) ∷ []; overflow = 0 }
unfolding record_engine_failure lookup mcp_searxng_relay.Base.Dict.insert
engine_failed = refl

abbrev durations : List ℕ
durations = 75_000_000 ∷ 40_000_000_000 ∷ 50_000_000 ∷ []

series_of : (write_series (observe_all durations)).le ≡ 1 ∷ 2 ∷ 2 ∷ 2 ∷ 2 ∷ 2 ∷ 2 ∷ 2 ∷ 2 ∷ []
unfolding write_series observe
series_of = refl

write_series-observe_all_example : write_series (observe_all durations) ≡ record {
  le = map (λ ub. at_most ub durations) latency_buckets;
  le_inf = length durations;
  sum_nanos = sum durations;
  count = length durations;
}
write_series-observe_all_example = write_series-observe_all durations

timed_out :
    classify_fetch_error (unknown ∷ net_error true ∷ connection_refused ∷ []) ≡ codes "timeout"
unfolding classify_fetch_error
timed_out = refl

blocked : classify_fetch_error (net_error true ∷ blocked_addr ∷ []) ≡ codes "ssrf_blocked"
unfolding classify_fetch_error
blocked = refl

error_counted :
    record_fetch_error (unknown ∷ []) (1 ∷ 1 ∷ 1 ∷ 1 ∷ 1 ∷ 1 ∷ 1 ∷ 1 ∷ 1 ∷ 1 ∷ [])
    ≡ 1 ∷ 1 ∷ 1 ∷ 1 ∷ 1 ∷ 1 ∷ 1 ∷ 1 ∷ 1 ∷ 2 ∷ []
unfolding record_fetch_error text_eq
error_counted = refl

private_blocked : record_ssrf_block (codes "private") (0 ∷ 0 ∷ 0 ∷ 0 ∷ []) ≡ 0 ∷ 0 ∷ 1 ∷ 0 ∷ []
unfolding record_ssrf_block text_eq
private_blocked = refl
