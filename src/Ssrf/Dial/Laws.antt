-- ===== src/Ssrf/Dial/Laws.antt =====
-- What the dialler, the redirect check and the proxy choice let through.
use mcp_searxng_relay.Base.{
  ℕ, suc, ◌<◌, ◌≡◌, refl, sym, ap, ◌∙◌, ◌≢◌, ◌⊎◌, inl, inr, true, false, Option, none, some, List,
  [], ◌∷◌, arith, Text, text_eq_iff, text_eq-cases, leb, get_elem?, All, Bool-cases, Option-cases,
}
use mcp_searxng_relay.Ssrf.Dial.{
  request_authority, url_host_port, through, Url, failed, Dialled, safe_check_redirect, proxy_for,
}
use mathlib.Core.Option.{some-injective}
use mcp_searxng_relay.GoLib.Ip.{Ip}
use mcp_searxng_relay.GoLib.Net.{split_host_port, join_host_port}
use mcp_searxng_relay.Ssrf.Address.{Reason}
use mcp_searxng_relay.Ssrf.Acl.{Proxy, FetchAcl, host_allowed, assert_reachable, normalise_host}
use mcp_searxng_relay.Ssrf.Dial.{
  is_proxy_authority, Counts, dial, dial_proxy, blocked, invalid_address, unresolved, no_addresses,
  check_all, safe_dial_context,
}

-- Every one of the addresses is reachable under the policy.
abbrev pub AllReachable : FetchAcl → Text → List Ip → Type 0
AllReachable a port ips = All (λ ip. assert_reachable a ip port ≡ none) ips

check_all-AllReachable :
    (a : FetchAcl) (port : Text) (ips : List Ip)
    → check_all a ips port ≡ none
    → AllReachable a port ips
unfolding check_all
check_all-AllReachable a port [] h = _
check_all-AllReachable a port (ip ∷ ips) h = elim (Option-cases (assert_reachable a ip port)) [
  | inl e ↦ (e, check_all-AllReachable a port ips (rw (e, check_all) at h))
  | inr (r, e) ↦ cc (rw (e, check_all) at h)
]

-- One of the addresses is refused for this reason.
abbrev pub Unreachable : FetchAcl → Text → List Ip → Reason → Type 0
Unreachable a port ips reason =
    (j : ℕ) × (ip : Ip) × (get_elem? ips j ≡ some ip) × (assert_reachable a ip port ≡ some reason)

check_all-Unreachable :
    (a : FetchAcl) (port : Text) (ips : List Ip) (reason : Reason)
    → check_all a ips port ≡ some reason
    → Unreachable a port ips reason
unfolding check_all
check_all-Unreachable a port [] reason h = cc
check_all-Unreachable a port (ip ∷ ips) reason h =
    elim (Option-cases (assert_reachable a ip port)) [
      | inl e ↦
          let (j, bad, there, refused) =
            check_all-Unreachable a port ips reason (rw (e, check_all) at h) in
          (suc j, bad, there, refused)
      | inr (r, e) ↦ (0, ip, refl, e ∙ (rw (e, check_all) at h))
    ]

-- The authority that a host and a port make is the configured proxy's.
abbrev pub IsProxy : FetchAcl → Text → Text → Type 0
IsProxy a host port =
    (p : Proxy) × (a.proxy ≡ some p) × (join_host_port (normalise_host host) port ≡ p.authority)

is_proxy_authority-IsProxy :
    (a : FetchAcl) (host port : Text)
    → (is_proxy_authority a host port ≡ true) × IsProxy a host port
      ⊎ (is_proxy_authority a host port ≡ false) × ¬ IsProxy a host port
unfolding is_proxy_authority
is_proxy_authority-IsProxy a host port = elim (Option-cases a.proxy) [
  | inl e ↦ inr (rw (is_proxy_authority, e) refl, λ (p, g, _). cc)
  | inr (p, e) ↦ elim (text_eq-cases (join_host_port (normalise_host host) port) p.authority) [
    | inl (t, same) ↦ inl (rw (is_proxy_authority, e, t) refl, (p, e, same))
    | inr (t, ne) ↦ inr (
      rw (is_proxy_authority, e, t) refl,
      λ (q, g, same). ne (same ∙ ap (λ (x : Proxy). x.authority) (some-injective q p (sym g ∙ e))),
    )
  ]
]

module _ (a : FetchAcl) (resolve : Text → Option (List Ip)) where
  -- What the outcome of a dial for the host and the port shows.
  abbrev pub Shown : Text → Text → Text → Dialled → Type 0
  Shown addr host port (dial_proxy text) = (text ≡ addr) × IsProxy a host port
  Shown addr host port (dial ip named) =
      (named ≡ port)
      × (¬ IsProxy a host port)
      × (others : List Ip) × (resolve host ≡ some (ip ∷ others))
      × ((host_allowed a host port ≡ true) ⊎ AllReachable a port (ip ∷ others))
  Shown addr host port (failed (blocked reason)) =
      (¬ IsProxy a host port)
      × (host_allowed a host port ≡ false)
      × (ips : List Ip) × (resolve host ≡ some ips)
      × Unreachable a port ips reason
  Shown addr host port (failed unresolved) = (¬ IsProxy a host port) × (resolve host ≡ none)
  Shown addr host port (failed no_addresses) = (¬ IsProxy a host port) × (resolve host ≡ some [])
  Shown addr host port (failed invalid_address) = ⊥

  -- What a dial for an address may come to.
  abbrev pub Permitted : Text → Dialled → Type 0
  Permitted addr outcome =
      (split_host_port addr ≡ none) × (outcome ≡ failed invalid_address)
      ⊎ (host : Text) × (port : Text) × (split_host_port addr ≡ some (host, port))
        × Shown addr host port outcome

  dialled :
      (addr host port : Text) (counts : Counts)
      → split_host_port addr ≡ some (host, port)
      → Shown addr host port (safe_dial_context a resolve addr counts).0
  unfolding safe_dial_context
  dialled addr host port counts e = elim (is_proxy_authority-IsProxy a host port) [
    | inl (proxied, p) ↦ rw (safe_dial_context, e, proxied) (refl, p)
    | inr (other, ne) ↦ elim (Option-cases (resolve host)) [
      | inl none_there ↦ rw (safe_dial_context, e, other, none_there) (ne, none_there)
      | inr ([], there) ↦ rw (safe_dial_context, e, other, there) (ne, there)
      | inr (first ∷ ips, there) ↦ elim (Bool-cases (host_allowed a host port)) [
        | inl listed ↦
            rw (safe_dial_context, e, other, there, listed) (refl, ne, ips, there, inl listed)
        | inr unlisted ↦ elim (Option-cases (check_all a (first ∷ ips) port)) [
          | inr (reason, bad) ↦
              rw (safe_dial_context, e, other, there, unlisted, bad)
                (
                  ne,
                  unlisted,
                  first ∷ ips,
                  there,
                  check_all-Unreachable a port (first ∷ ips) reason bad,
                )
          | inl good ↦
              rw (safe_dial_context, e, other, there, unlisted, good)
                (refl, ne, ips, there, inr (check_all-AllReachable a port (first ∷ ips) good))
        ]
      ]
    ]
  ]

  -- Every outcome of a dial: an address is dialled unchecked just where it is the configured
  -- proxy's. Any other connection is to the first address of a host that the operator listed with
  -- this very port, or of one all of whose addresses are reachable under the policy; one of them
  -- is not where the policy refuses. The other errors are those of an address that does not parse
  -- and of a host that does not resolve.
  pub safe_dial_context-Permitted :
      (addr : Text) (counts : Counts) → Permitted addr (safe_dial_context a resolve addr counts).0
  unfolding safe_dial_context
  safe_dial_context-Permitted addr counts = elim (Option-cases (split_host_port addr)) [
    | inl e ↦ inl (e, rw (safe_dial_context, e) refl)
    | inr ((host, port), e) ↦ inr (host, port, e, dialled addr host port counts e)
  ]

  -- A redirect is followed only while fewer than five requests were made, and only to a host that
  -- is listed with its port, or through a proxy that takes all fetches, or to a host that resolves
  -- and all of whose addresses are reachable under the policy.
  pub safe_check_redirect-AllReachable :
      (u : Url) (via : ℕ) (counts : Counts)
      → (safe_check_redirect a resolve u via counts).0 ≡ true
      → (via < 5)
        × ((host_allowed a (url_host_port u).0 (url_host_port u).1 ≡ true)
            ⊎ (a.proxy_all ≡ true)
            ⊎ (ips : List Ip) × (resolve (url_host_port u).0 ≡ some ips)
              × AllReachable a (url_host_port u).1 ips)
  unfolding safe_check_redirect
  safe_check_redirect-AllReachable u via counts h = elim (Bool-cases (leb 5 via)) [
    | inl late ↦ cc (rw (safe_check_redirect, late) at h)
    | inr early ↦ (
      ground arith,
      elim (Bool-cases (host_allowed a (url_host_port u).0 (url_host_port u).1)) [
        | inl listed ↦ inl listed
        | inr unlisted ↦ elim (Bool-cases a.proxy_all) [
          | inl all ↦ inr (inl all)
          | inr some_only ↦ elim (Option-cases (resolve (url_host_port u).0)) [
            | inl e ↦ cc (rw (safe_check_redirect, early, unlisted, some_only, e) at h)
            | inr (ips, e) ↦ elim (Option-cases (check_all a ips (url_host_port u).1)) [
              | inr (reason, bad) ↦
                  cc (rw (safe_check_redirect, early, unlisted, some_only, e, bad) at h)
              | inl good ↦ inr (inr (ips, e, check_all-AllReachable a (url_host_port u).1 ips good))
            ]
          ]
        ]
      ],
    )
  ]

-- With a proxy configured, a request goes through a proxy only if that is the configured one, the
-- request is not for the proxy itself, and the proxy takes all fetches or the host is listed with
-- its port.
proxy_for_through :
    (a : FetchAcl) (u : Url) (p : Proxy) (text : Text)
    → a.proxy ≡ some p
    → proxy_for a u ≡ through text
    → (text ≡ p.url)
      × (p.authority ≢ request_authority u)
      × ((a.proxy_all ≡ true) ⊎ (host_allowed a (url_host_port u).0 (url_host_port u).1 ≡ true))
unfolding proxy_for
proxy_for_through a u p text e h = ground (arith, text_eq_iff p.authority (request_authority u))
