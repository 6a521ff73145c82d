-- ===== src/Ssrf/Dial/Counted.antt =====
-- What a dial adds to the metric of blocked addresses.
use mcp_searxng_relay.Base.{
  ℕ, suc, ◌≡◌, refl, sym, ap, ◌∙◌, ◌≢◌, inl, inr, Option, some, List, [], ◌∷◌, arith, Text, ◌==◌,
  if◌then◌else◌, Bool-cases, Option-cases,
}
use mcp_searxng_relay.GoLib.Ip.{Ip}
use mcp_searxng_relay.GoLib.Net.{split_host_port}
use mcp_searxng_relay.Ssrf.Address.{
  Reason, loopback, link_local, private, unspecified, multicast, non_global_unicast, reserved,
}
use mcp_searxng_relay.Ssrf.Acl.{FetchAcl, host_allowed}
use mcp_searxng_relay.Ssrf.Dial.{
  code, is_proxy_authority, Counts, count_ssrf_block, Dialled, dial, dial_proxy, failed, blocked,
  invalid_address, unresolved, no_addresses, check_all, safe_dial_context,
}

reason_at : ℕ → Reason
reason_at n =
    if n == 0
    then loopback
    else if n == 1
    then link_local
    else if n == 2
    then private
    else if n == 3
    then unspecified
    else if n == 4
    then multicast
    else if n == 5
    then non_global_unicast
    else reserved

reason_at-code : (r : Reason) → reason_at (code r) ≡ r
unfolding reason_at
reason_at-code loopback = refl
reason_at-code link_local = refl
reason_at-code private = refl
reason_at-code unspecified = refl
reason_at-code multicast = refl
reason_at-code non_global_unicast = refl
reason_at-code reserved = refl

code-injective : (r q : Reason) → code r ≡ code q → r ≡ q
code-injective r q e = sym (reason_at-code r) ∙ ap reason_at e ∙ reason_at-code q

-- The counts stay, but that a refusal by the policy adds one under its own reason.
abbrev pub Tallied : Dialled → (Reason → ℕ) → (Reason → ℕ) → Type 0
Tallied (failed (blocked reason)) before after =
    (after reason ≡ suc (before reason))
    × ((other : Reason) → reason ≢ other → after other ≡ before other)
Tallied (failed invalid_address) before after = (q : Reason) → after q ≡ before q
Tallied (failed unresolved) before after = (q : Reason) → after q ≡ before q
Tallied (failed no_addresses) before after = (q : Reason) → after q ≡ before q
Tallied (dial_proxy addr) before after = (q : Reason) → after q ≡ before q
Tallied (dial ip port) before after = (q : Reason) → after q ≡ before q

count-Tallied :
    (reason : Reason) (before : Reason → ℕ)
    → (after : Reason → ℕ) × (count_ssrf_block reason (some before) ≡ some after)
      × Tallied (failed (blocked reason)) before after
unfolding count_ssrf_block
count-Tallied reason before =
    let after : Reason → ℕ = λ q. if code reason == code q then suc (before q) else before q in
    (
      after,
      refl,
      (
        ground arith,
        λ other ne. elim (Bool-cases (code reason == code other)) [
          | inl same ↦ absurd (ne (code-injective reason other (ground arith)))
          | inr e ↦ rw e refl
        ],
      ),
    )

module _ (a : FetchAcl) (resolve : Text → Option (List Ip)) where
  abbrev After : (Dialled × Counts) → (Reason → ℕ) → Type 0
  After r before = (after : Reason → ℕ) × (r.1 ≡ some after) × Tallied r.0 before after

  dialled-After :
      (addr host port : Text) (before : Reason → ℕ)
      → split_host_port addr ≡ some (host, port)
      → After (safe_dial_context a resolve addr (some before)) before
  unfolding safe_dial_context
  dialled-After addr host port before e = elim (Bool-cases (is_proxy_authority a host port)) [
    | inl p ↦ rw (safe_dial_context, e, p) (before, refl, λ q. refl)
    | inr p ↦ elim (Option-cases (resolve host)) [
      | inl none_there ↦ rw (safe_dial_context, e, p, none_there) (before, refl, λ q. refl)
      | inr ([], there) ↦ rw (safe_dial_context, e, p, there) (before, refl, λ q. refl)
      | inr (first ∷ ips, there) ↦ elim (Bool-cases (host_allowed a host port)) [
        | inl listed ↦ rw (safe_dial_context, e, p, there, listed) (before, refl, λ q. refl)
        | inr unlisted ↦ elim (Option-cases (check_all a (first ∷ ips) port)) [
          | inr (reason, bad) ↦
              rw (safe_dial_context, e, p, there, unlisted, bad) (count-Tallied reason before)
          | inl good ↦ rw (safe_dial_context, e, p, there, unlisted, good) (before, refl, λ q. refl)
        ]
      ]
    ]
  ]

  -- Where metrics are wired, a refusal by the policy adds one under its own reason and nothing under
  -- any other; every other outcome of a dial leaves all counts as they are.
  pub safe_dial_context-counted :
      (addr : Text) (before : Reason → ℕ)
      → (after : Reason → ℕ) × ((safe_dial_context a resolve addr (some before)).1 ≡ some after)
        × Tallied (safe_dial_context a resolve addr (some before)).0 before after
  unfolding safe_dial_context
  safe_dial_context-counted addr before = elim (Option-cases (split_host_port addr)) [
    | inl e ↦ rw (safe_dial_context, e) (before, refl, λ q. refl)
    | inr ((host, port), e) ↦ dialled-After addr host port before e
  ]
