-- ===== src/Metrics/Histogram.antt =====
-- latencyBuckets, Observe and the series of writeSeries of metrics.go. A duration is a number of
-- nanoseconds, at which the float comparison of the code is exact.
pub mod Cumulative
use mcp_searxng_relay.Base.{
  ℕ, zero, suc, ◌+◌, ◌-◌, ◌*◌, ◌≤◌, ◌<◌, min, max, ◌≡◌, refl, sym, ap, subst, ◌∙◌, ◌≢◌, ◌↔◌, ◌⊎◌,
  inl, inr, Bool, true, false, not, ◌&&◌, ◌||◌, Option, none, some, List, [], ◌∷◌, ◌++◌, map,
  append_assoc, append-nil, arith, Text, codes, text_eq, text_eq_iff, text_eq_refl, text_eq-cases,
  ltb, leb, ◌==◌, ==_iff, if◌then◌else◌, length, get_elem?, set, take, drop, length-append,
  length-set, length-take, length-drop, get_elem?-set_self, get_elem?-set_ne, get_elem?-lt, All,
  All-append, get_elem?-append_left, get_elem?-concat_last, get_elem?-set_cases,
  get_elem?-concat_cases, Bool-cases, Option-cases, is_some,
}

-- latencyBuckets, in nanoseconds
abbrev pub latency_buckets : List ℕ
latency_buckets =
    50_000_000 ∷ 100_000_000 ∷ 250_000_000 ∷ 500_000_000 ∷ 1_000_000_000 ∷ 2_500_000_000
    ∷ 5_000_000_000 ∷ 10_000_000_000 ∷ 30_000_000_000 ∷ []

pub record Histogram : Type 0 where
  pub buckets : List ℕ
  pub overflow : ℕ
  pub sum_nanos : ℕ
  pub count : ℕ

-- The loop over the bounds; `none` when the duration is above them all.
unfoldable pub place : ℕ → List ℕ → List ℕ → Option (List ℕ)
place d [] ns = none
place d (ub ∷ ubs) [] = none
place d (ub ∷ ubs) (n ∷ ns) =
    let rest = place d ubs ns in
    if leb d ub
    then some ((n + 1) ∷ ns)
    else elim rest [ none ↦ none | some placed ↦ some (n ∷ placed) ]

unfoldable pub observe : ℕ → Histogram → Histogram
unfolding place
observe d h =
    let sum_nanos = h.sum_nanos + d in
    let count = h.count + 1 in
    elim (place d latency_buckets h.buckets) [
      | some placed ↦ record h { buckets = placed; sum_nanos = sum_nanos; count = count }
      | none ↦ record h { overflow = h.overflow + 1; sum_nanos = sum_nanos; count = count }
    ]

-- What the loop of writeSeries writes for the bounds, counted up from `cum`.
abbrev pub cumulate : ℕ → List ℕ → List ℕ
cumulate cum [] = []
cumulate cum (n ∷ ns) = (cum + n) ∷ cumulate (cum + n) ns

abbrev pub sum : List ℕ → ℕ
sum [] = 0
sum (n ∷ ns) = n + sum ns

pub record Series : Type 0 where
  -- The value for each bound, and for `+Inf`.
  pub le : List ℕ
  pub le_inf : ℕ
  pub sum_nanos : ℕ
  pub count : ℕ

-- `+Inf` and `_count` are both the last cumulated value.
unfoldable pub write_series : Histogram → Series
write_series h =
    let cum = sum h.buckets + h.overflow in
    record { le = cumulate 0 h.buckets; le_inf = cum; sum_nanos = h.sum_nanos; count = cum }
