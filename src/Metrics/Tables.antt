-- ===== src/Metrics/Tables.antt =====
-- recordFetchByDomain and recordEngineFailure of metrics.go. An entry of a table is never taken
-- out, so the pointer that the code holds names the entry.
pub mod Sums
pub mod Ledger
use mcp_searxng_relay.Base.{
  ℕ, zero, suc, ◌+◌, ◌-◌, ◌*◌, ◌≤◌, ◌<◌, min, max, ◌≡◌, refl, sym, ap, subst, ◌∙◌, ◌≢◌, ◌↔◌, ◌⊎◌,
  inl, inr, Bool, true, false, not, ◌&&◌, ◌||◌, Option, none, some, List, [], ◌∷◌, ◌++◌, map,
  append_assoc, append-nil, arith, Text, codes, text_eq, text_eq_iff, text_eq_refl, text_eq-cases,
  ltb, leb, ◌==◌, ==_iff, if◌then◌else◌, length, get_elem?, set, take, drop, length-append,
  length-set, length-take, length-drop, get_elem?-set_self, get_elem?-set_ne, get_elem?-lt, All,
  All-append, get_elem?-append_left, get_elem?-concat_last, get_elem?-set_cases,
  get_elem?-concat_cases, Bool-cases, Option-cases, is_some,
}
use mcp_searxng_relay.Base.Dict.{lookup, insert}

abbrev pub max_tracked_domains : ℕ
max_tracked_domains = 512

abbrev pub max_tracked_engines : ℕ
max_tracked_engines = 256

pub record DomainStats : Type 0 where
  pub successes : ℕ
  pub failures : ℕ

pub record DomainTable : Type 0 where
  pub domains : List (Text × DomainStats)
  pub overflow_ok : ℕ
  pub overflow_error : ℕ

pub record EngineTable : Type 0 where
  pub engine_errors : List (Text × ℕ)
  pub overflow : ℕ

abbrev pub or_unknown : Text → Text
or_unknown [] = codes "unknown"
or_unknown (c ∷ s) = c ∷ s

abbrev pub no_fetches : DomainStats
no_fetches = record { successes = 0; failures = 0 }

abbrev pub bump_stats : Bool → DomainStats → DomainStats
bump_stats ok ds =
    if ok
    then record ds { successes = ds.successes + 1 }
    else record ds { failures = ds.failures + 1 }

unfoldable pub record_fetch_by_domain : Text → Bool → DomainTable → DomainTable
record_fetch_by_domain domain ok m =
    let name = or_unknown domain in
    elim (lookup name m.domains) [
      | some ds ↦ record m { domains = insert name (bump_stats ok ds) m.domains }
      | none ↦
          if leb max_tracked_domains (length m.domains)
          then if ok
            then record m { overflow_ok = m.overflow_ok + 1 }
            else record m { overflow_error = m.overflow_error + 1 }
          else record m { domains = insert name (bump_stats ok no_fetches) m.domains }
    ]

unfoldable pub record_engine_failure : Text → EngineTable → EngineTable
record_engine_failure engine m =
    let name = or_unknown engine in
    elim (lookup name m.engine_errors) [
      | some n ↦ record m { engine_errors = insert name (n + 1) m.engine_errors }
      | none ↦
          if leb max_tracked_engines (length m.engine_errors)
          then record m { overflow = m.overflow + 1 }
          else record m { engine_errors = insert name 1 m.engine_errors }
    ]
