-- ===== src/Metrics/Histogram/Cumulative.antt =====
-- What the series of a histogram say of the durations observed.
use mathlib.Core.Option.{some-injective}
use mcp_searxng_relay.Base.{
  leb→le, ℕ, suc, ◌+◌, ◌≤◌, ◌≡◌, refl, sym, ap, ◌∙◌, inl, inr, true, none, some, List, [], ◌∷◌, map,
  arith, leb, if◌then◌else◌, length, Bool-cases, Option-cases,
}
use mcp_searxng_relay.Metrics.Histogram.{
  latency_buckets, Histogram, place, observe, cumulate, sum, write_series,
}

abbrev pub new_histogram : Histogram
new_histogram = record {
  buckets = map (λ ub. 0) latency_buckets;
  overflow = 0;
  sum_nanos = 0;
  count = 0;
}

abbrev pub observe_all : List ℕ → Histogram
observe_all [] = new_histogram
observe_all (d ∷ earlier) = observe d (observe_all earlier)

-- How many durations are at most `ub`.
abbrev pub at_most : ℕ → List ℕ → ℕ
at_most ub [] = 0
at_most ub (d ∷ ds) = let rest = at_most ub ds in if leb d ub then suc rest else rest

-- Bounds in ascending order, all above `lo`.
abbrev Ascending : ℕ → List ℕ → Type 0
Ascending lo [] = Unit
Ascending lo (ub ∷ ubs) = (lo ≤ ub) × Ascending ub ubs

cumulate-suc : (cum : ℕ) (ns : List ℕ) → cumulate (suc cum) ns ≡ map suc (cumulate cum ns)
cumulate-suc cum [] = refl
cumulate-suc cum (n ∷ ns) =
    let e : suc cum + n ≡ suc (cum + n) = omega arith in rw (e, cumulate-suc (cum + n) ns) refl

-- One duration more, at bounds that are all at least it.
above :
    (d : ℕ) (ds ubs : List ℕ) (lo : ℕ)
    → d ≤ lo
    → Ascending lo ubs
    → map (λ ub. at_most ub (d ∷ ds)) ubs ≡ map suc (map (λ ub. at_most ub ds) ubs)
above d ds [] lo h a = refl
above d ds (ub ∷ ubs) lo h (l, a) =
    let in_reach : leb d ub ≡ true = ground (arith, h, l) in
    rw (in_reach, above d ds ubs ub (omega (arith, h, l)) a) refl

place-cumulate :
    (d : ℕ) (ds ubs ns placed : List ℕ) (lo cum : ℕ)
    → Ascending lo ubs
    → cumulate cum ns ≡ map (λ ub. at_most ub ds) ubs
    → place d ubs ns ≡ some placed
    → (cumulate cum placed ≡ map (λ ub. at_most ub (d ∷ ds)) ubs) × (sum placed ≡ suc (sum ns))
unfolding place
place-cumulate d ds [] ns placed lo cum a e h = cc
place-cumulate d ds (ub ∷ ubs) [] placed lo cum a e h = cc
place-cumulate d ds (ub ∷ ubs) (n ∷ ns) placed lo cum (l, a) e h = elim (Bool-cases (leb d ub)) [
  | inl b ↦
      let first : cum + n ≡ at_most ub ds = cc in
      let rest : cumulate (cum + n) ns ≡ map (λ u. at_most u ds) ubs = cc in
      let grown : cum + (n + 1) ≡ suc (cum + n) = omega arith in
      rw (← some-injective _ _ (rw (place, b) at h)) (
        rw (b, grown, cumulate-suc (cum + n) ns, rest, first, above d ds ubs ub (leb→le d ub b) a)
            refl,
        omega arith,
      )
  | inr b ↦ elim (Option-cases (place d ubs ns)) [
    | inl missing ↦ cc (rw (place, b, missing) at h)
    | inr (rest, found) ↦
        let behind : cumulate (cum + n) ns ≡ map (λ u. at_most u ds) ubs = cc in
        let (ih, more) = place-cumulate d ds ubs ns rest ub (cum + n) a behind found in
        rw (← some-injective _ _ (rw (place, b, found) at h))
          (rw (b, ih) (ap (λ r. r ∷ map (λ u. at_most u (d ∷ ds)) ubs) cc), omega (arith, more))
  ]
]

-- A duration above all bounds changes none of the counts.
place-none :
    (d : ℕ) (ds ubs ns : List ℕ)
    → length ns ≡ length ubs
    → place d ubs ns ≡ none
    → map (λ ub. at_most ub (d ∷ ds)) ubs ≡ map (λ ub. at_most ub ds) ubs
unfolding place
place-none d ds [] ns l h = refl
place-none d ds (ub ∷ ubs) [] l h = absurd (omega (arith, l))
place-none d ds (ub ∷ ubs) (n ∷ ns) l h = elim (Bool-cases (leb d ub)) [
  | inl b ↦ cc (rw (place, b) at h)
  | inr b ↦ elim (Option-cases (place d ubs ns)) [
    | inl missing ↦
        rw b (ap (λ r. at_most ub ds ∷ r) (place-none d ds ubs ns (omega (arith, l)) missing))
    | inr (rest, found) ↦ cc (rw (place, b, found) at h)
  ]
]

-- The series after some durations, against the durations themselves.
record Counts (ds : List ℕ) (h : Histogram) : Type 0 where
  buckets : cumulate 0 h.buckets ≡ map (λ ub. at_most ub ds) latency_buckets
  all : sum h.buckets + h.overflow ≡ length ds
  count : h.count ≡ length ds
  total : h.sum_nanos ≡ sum ds

length-cumulate : (cum : ℕ) (ns : List ℕ) → length (cumulate cum ns) ≡ length ns
length-cumulate cum [] = refl
length-cumulate cum (n ∷ ns) = ap suc (length-cumulate (cum + n) ns)

observe-Counts : (d : ℕ) (ds : List ℕ) (h : Histogram) → Counts ds h → Counts (d ∷ ds) (observe d h)
unfolding observe
observe-Counts d ds h c = elim (Option-cases (place d latency_buckets h.buckets)) [
  | inl e ↦
      rw (observe, e)
        (record {
          buckets =
              c.buckets
              ∙ sym (
                  place-none d ds latency_buckets h.buckets
                    (sym (length-cumulate 0 h.buckets) ∙ ap length c.buckets) e);
          all = omega (arith, c.all);
          count = omega (arith, c.count);
          total = omega (arith, c.total);
        })
  | inr (placed, e) ↦
      let (b, s) =
        place-cumulate d ds latency_buckets h.buckets placed 0 0 (omega arith) c.buckets e in
      rw (observe, e)
        (record {
          buckets = b;
          all = omega (arith, c.all, s);
          count = omega (arith, c.count);
          total = omega (arith, c.total);
        })
]

observe_all-Counts : (ds : List ℕ) → Counts ds (observe_all ds)
observe_all-Counts [] = record { buckets = refl; all = refl; count = refl; total = refl }
observe_all-Counts (d ∷ ds) = observe-Counts d ds (observe_all ds) (observe_all-Counts ds)

-- Whatever durations were observed, the series give for each bound the number of durations that
-- are at most it, and for `+Inf` and the count the number of them all, with their sum.
pub write_series-observe_all :
    (ds : List ℕ)
    → write_series (observe_all ds) ≡ record {
      le = map (λ ub. at_most ub ds) latency_buckets;
      le_inf = length ds;
      sum_nanos = sum ds;
      count = length ds;
    }
unfolding write_series
write_series-observe_all ds = let c = observe_all-Counts ds in simp (c.buckets, c.all, c.total)
