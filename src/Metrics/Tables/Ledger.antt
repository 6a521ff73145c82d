-- ===== src/Metrics/Tables/Ledger.antt =====
-- What the table of domains holds after any sequence of fetches.
use mcp_searxng_relay.Base.{
  ◌∙◌, ap, ◌<◌, Option-cases, Bool-cases, leb, text_eq-cases, ◌≢◌, sym, inl, inr, inr, subst, inl,
  text_eq_refl, ℕ, suc, ◌+◌, ◌≤◌, ◌≡◌, refl, ◌⊎◌, Bool, true, false, not, ◌&&◌, none, some, List,
  [], ◌∷◌, arith, Text, text_eq, if◌then◌else◌, length,
}
use mcp_searxng_relay.Base.Dict.{
  lookup-insert_ne, lookup-insert_self, lookup-insert_cases, lookup, insert,
}
use mcp_searxng_relay.Metrics.Tables.Sums.{
  sum_by, length-insert-some, length-insert-none, sum_by-insert-some, sum_by-insert-none,
}
use mcp_searxng_relay.Metrics.Tables.{
  no_fetches, bump_stats, max_tracked_domains, DomainStats, DomainTable, or_unknown,
  record_fetch_by_domain,
}

abbrev pub no_domains : DomainTable
no_domains = record { domains = []; overflow_ok = 0; overflow_error = 0 }

-- The table after some fetches, the last of them first.
abbrev pub after_fetches : List (Text × Bool) → DomainTable
after_fetches [] = no_domains
after_fetches ((domain, ok) ∷ earlier) = record_fetch_by_domain domain ok (after_fetches earlier)

abbrev pub same : Bool → Bool → Bool
same true o = o
same false o = not o

-- The fetches of one domain with one outcome, and all with one outcome.
abbrev pub fetches_of : Text → Bool → List (Text × Bool) → ℕ
fetches_of name ok [] = 0
fetches_of name ok ((domain, o) ∷ earlier) =
    let rest = fetches_of name ok earlier in
    if text_eq (or_unknown domain) name && same ok o then suc rest else rest

abbrev pub fetches_with : Bool → List (Text × Bool) → ℕ
fetches_with ok [] = 0
fetches_with ok ((domain, o) ∷ earlier) =
    let rest = fetches_with ok earlier in if same ok o then suc rest else rest

-- What the table says of one domain, and that it holds every fetch.
pub record Ledger (fetches : List (Text × Bool)) (m : DomainTable) : Type 0 where
  pub bounded : length m.domains ≤ max_tracked_domains
  pub tracked :
      (name : Text) (ds : DomainStats)
      → lookup name m.domains ≡ some ds
      → (ds.successes ≡ fetches_of name true fetches)
        × (ds.failures ≡ fetches_of name false fetches)
  pub untracked :
      (name : Text)
      → lookup name m.domains ≡ none
      → ((fetches_of name true fetches ≡ 0) × (fetches_of name false fetches ≡ 0))
        ⊎ (length m.domains ≡ max_tracked_domains)
  pub successes : sum_by (λ ds. ds.successes) m.domains + m.overflow_ok ≡ fetches_with true fetches
  pub failures :
      sum_by (λ ds. ds.failures) m.domains + m.overflow_error ≡ fetches_with false fetches

fetches_of_other :
    (domain name : Text) (ok o : Bool) (earlier : List (Text × Bool))
    → or_unknown domain ≢ name
    → fetches_of name ok ((domain, o) ∷ earlier) ≡ fetches_of name ok earlier
fetches_of_other domain name ok o earlier ne = elim (text_eq-cases (or_unknown domain) name) [
  | inl (_, e) ↦ absurd (ne e)
  | inr (f, _) ↦ rw f refl
]

fetches_of_own :
    (domain : Text) (ok o : Bool) (earlier : List (Text × Bool))
    → fetches_of (or_unknown domain) ok ((domain, o) ∷ earlier) ≡ (
        if same ok o
        then suc (fetches_of (or_unknown domain) ok earlier)
        else fetches_of (or_unknown domain) ok earlier)
fetches_of_own domain ok o earlier = rw (text_eq_refl (or_unknown domain)) refl

-- A fetch that is entered in the table: the domain's entry was `held` and had counted `ds`.
module _ (domain : Text) (ok : Bool) (earlier : List (Text × Bool)) (m : DomainTable)
    (ds : DomainStats) where
  abbrev entered : DomainTable
  entered = record m { domains = insert (or_unknown domain) (bump_stats ok ds) m.domains }

  entered_own :
      (ds.successes ≡ fetches_of (or_unknown domain) true earlier)
      → (ds.failures ≡ fetches_of (or_unknown domain) false earlier)
      → ((bump_stats ok ds).successes
          ≡ fetches_of (or_unknown domain) true ((domain, ok) ∷ earlier))
        × ((bump_stats ok ds).failures
            ≡ fetches_of (or_unknown domain) false ((domain, ok) ∷ earlier))
  entered_own s f = rw (text_eq_refl (or_unknown domain)) (ground (arith, s, f))

  entered-tracked :
      Ledger earlier m
      → (ds.successes ≡ fetches_of (or_unknown domain) true earlier)
      → (ds.failures ≡ fetches_of (or_unknown domain) false earlier)
      → (name : Text) (d : DomainStats) → lookup name entered.domains ≡ some d
      → (d.successes ≡ fetches_of name true ((domain, ok) ∷ earlier))
        × (d.failures ≡ fetches_of name false ((domain, ok) ∷ earlier))
  entered-tracked l s f name d h =
      elim (lookup-insert_cases (or_unknown domain) name (bump_stats ok ds) d m.domains h) [
        | inl (e, v) ↦
            subst
              (λ n.
                (d.successes ≡ fetches_of n true ((domain, ok) ∷ earlier))
                × (d.failures ≡ fetches_of n false ((domain, ok) ∷ earlier)))
              e (rw (← v) (entered_own s f))
        | inr (ne, old) ↦
            rw
              (
                fetches_of_other domain name true ok earlier ne,
                fetches_of_other domain name false ok earlier ne,
              )
              (l.tracked name d old)
      ]

  entered-untracked :
      Ledger earlier m
      → (name : Text)
      → (length entered.domains ≡ length m.domains) ⊎ (length m.domains < max_tracked_domains)
      → lookup name entered.domains ≡ none
      → ((fetches_of name true ((domain, ok) ∷ earlier) ≡ 0)
          × (fetches_of name false ((domain, ok) ∷ earlier) ≡ 0))
        ⊎ (length entered.domains ≡ max_tracked_domains)
  entered-untracked l name grown h = elim (text_eq-cases (or_unknown domain) name) [
    | inl (_, e) ↦ cc (
      lookup-insert_self (or_unknown domain) (bump_stats ok ds) m.domains,
      ap (λ n. lookup n entered.domains) e,
    )
    | inr (_, ne) ↦
        elim (l.untracked name
          (sym (lookup-insert_ne (or_unknown domain) name (bump_stats ok ds) m.domains ne) ∙ h)) [
            | inl zeros ↦ inl (
                rw
                  (
                    fetches_of_other domain name true ok earlier ne,
                    fetches_of_other domain name false ok earlier ne,
                  )
                  zeros)
            | inr full ↦ elim grown [
              | inl same_length ↦ inr (same_length ∙ full)
              | inr room ↦ absurd (omega (arith, full, room))
            ]
          ]
  ]

  entered-Ledger :
      Ledger earlier m
      → (ds.successes ≡ fetches_of (or_unknown domain) true earlier)
      → (ds.failures ≡ fetches_of (or_unknown domain) false earlier)
      → (length entered.domains ≡ length m.domains)
        ⊎ (length entered.domains ≡ suc (length m.domains))
          × (length m.domains < max_tracked_domains)
      → sum_by (λ d. d.successes) entered.domains + ds.successes
        ≡ sum_by (λ d. d.successes) m.domains + (bump_stats ok ds).successes
      → sum_by (λ d. d.failures) entered.domains + ds.failures
        ≡ sum_by (λ d. d.failures) m.domains + (bump_stats ok ds).failures
      → Ledger ((domain, ok) ∷ earlier) entered
  entered-Ledger l s f grown sums_ok sums_error = record {
    bounded = elim grown [ inl e ↦ omega (arith, l.bounded, e) | inr (e, r) ↦ omega (arith, e, r) ];
    tracked = entered-tracked l s f;
    untracked =
        λ name. entered-untracked l name (elim grown [ inl e ↦ inl e | inr (_, r) ↦ inr r ]);
    successes = ground (arith, l.successes, sums_ok);
    failures = ground (arith, l.failures, sums_error);
  }

-- A fetch that finds no room is counted in the overflow.
abbrev overflowed : Bool → DomainTable → DomainTable
overflowed ok m =
    if ok
    then record m { overflow_ok = m.overflow_ok + 1 }
    else record m { overflow_error = m.overflow_error + 1 }

overflowed-Ledger :
    (domain : Text) (ok : Bool) (earlier : List (Text × Bool)) (m : DomainTable)
    → Ledger earlier m
    → lookup (or_unknown domain) m.domains ≡ none
    → length m.domains ≡ max_tracked_domains
    → Ledger ((domain, ok) ∷ earlier) (overflowed ok m)
overflowed-Ledger domain true earlier m l missing full = record {
  bounded = l.bounded;
  tracked = λ name ds h.
      let ne : or_unknown domain ≢ name = λ e. cc (h, missing, ap (λ n. lookup n m.domains) e) in
      rw
        (
          fetches_of_other domain name true true earlier ne,
          fetches_of_other domain name false true earlier ne,
        )
        (l.tracked name ds h);
  untracked = λ name h. inr full;
  successes = omega (arith, l.successes);
  failures = l.failures;
}
overflowed-Ledger domain false earlier m l missing full = record {
  bounded = l.bounded;
  tracked = λ name ds h.
      let ne : or_unknown domain ≢ name = λ e. cc (h, missing, ap (λ n. lookup n m.domains) e) in
      rw
        (
          fetches_of_other domain name true false earlier ne,
          fetches_of_other domain name false false earlier ne,
        )
        (l.tracked name ds h);
  untracked = λ name h. inr full;
  successes = l.successes;
  failures = omega (arith, l.failures);
}

record_fetch_by_domain-Ledger :
    (domain : Text) (ok : Bool) (earlier : List (Text × Bool)) (m : DomainTable)
    → Ledger earlier m
    → Ledger ((domain, ok) ∷ earlier) (record_fetch_by_domain domain ok m)
unfolding record_fetch_by_domain
record_fetch_by_domain-Ledger domain ok earlier m l =
    let name = or_unknown domain in
    elim (Option-cases (lookup name m.domains)) [
      | inr (ds, e) ↦
          let (s, f) = l.tracked name ds e in
          rw (record_fetch_by_domain, e)
            (entered-Ledger domain ok earlier m ds l s f
              (inl (length-insert-some name (bump_stats ok ds) ds m.domains e))
              (sum_by-insert-some (λ d. d.successes) name (bump_stats ok ds) ds m.domains e)
              (sum_by-insert-some (λ d. d.failures) name (bump_stats ok ds) ds m.domains e))
      | inl e ↦ elim (Bool-cases (leb max_tracked_domains (length m.domains))) [
        | inl full ↦
            rw (record_fetch_by_domain, e, full)
              (overflowed-Ledger domain ok earlier m l e (ground (arith, full, l.bounded)))
        | inr room ↦ elim (l.untracked name e) [
          | inr full ↦ absurd (ground (arith, full, room))
          | inl (s, f) ↦
              rw (record_fetch_by_domain, e, room)
                (entered-Ledger domain ok earlier m no_fetches l (sym s) (sym f)
                  (inr (
                    length-insert-none name (bump_stats ok no_fetches) m.domains e,
                    ground (arith, room),
                  ))
                  (omega (
                    arith,
                    sum_by-insert-none (λ d. d.successes) name (bump_stats ok no_fetches) m.domains
                        e,
                  ))
                  (omega (
                    arith,
                    sum_by-insert-none (λ d. d.failures) name (bump_stats ok no_fetches) m.domains
                        e,
                  )))
        ]
      ]
    ]

-- After any sequence of fetches the table has at most 512 domains, the counters of a domain in it
-- are the numbers of all its successes and failures, a domain that is not in it was never fetched
-- unless the table is full, and the table and the overflow together count every fetch.
pub after_fetches-Ledger : (fetches : List (Text × Bool)) → Ledger fetches (after_fetches fetches)
unfolding lookup
after_fetches-Ledger [] = record {
  bounded = omega arith;
  tracked = λ name ds h. cc;
  untracked = λ name h. inl (refl, refl);
  successes = refl;
  failures = refl;
}
after_fetches-Ledger ((domain, ok) ∷ earlier) =
    record_fetch_by_domain-Ledger domain ok earlier (after_fetches earlier)
      (after_fetches-Ledger earlier)
