-- ===== src/Ssrf/Acl/Hosts.antt =====
-- Which hosts the allow-list admits, in terms of the entries that the operator wrote.
use mcp_searxng_relay.GoLib.Net.{split_host_port-nil}
use mcp_searxng_relay.GoLib.Strings.{index_byte, contains_byte}
use mathlib.Core.Option.{some-injective}
use mcp_searxng_relay.Base.{
  ◌∙◌, text_eq_iff, true, arith, Option-cases, Bool-cases, sym, ap, ◌≡◌, refl, inl, inr, Bool,
  false, ◌&&◌, ◌||◌, Option, none, some, List, [], ◌∷◌, Text, text_eq, text_eq-cases,
}
use mcp_searxng_relay.Base.Dict.{lookup, insert, lookup-insert}
use mcp_searxng_relay.RateLimit.Limiter.{member}
use mcp_searxng_relay.Ssrf.Acl.{
  parse_allowed_cidr_entry, empty_fetch_acl, trim_space, normalise_host, host_allowed,
  new_fetch_acl, contains_byte, add_cidrs, FetchAcl, IpNet, add_hosts, AllowedPorts, ports_of,
  parse_allowed_host_entry,
}

or_false : (b : Bool) → (b || false) ≡ b
or_false b = ground arith

-- Whether an entry names exactly this host and port.
abbrev pub names : Option (Text × Text) → Text → Text → Bool
names none k p = false
names (some (host, port)) k p = text_eq host k && text_eq port p

-- Whether one of the entries does.
abbrev pub listed : List Text → Text → Text → Bool
listed [] k p = false
listed (raw ∷ hosts) k p = names (parse_allowed_host_entry raw) k p || listed hosts k p

module _ (k p : Text) where
  held : List (Text × AllowedPorts) → Bool
  held m = member p (ports_of (lookup k m))

  held-insert :
      (host port : Text) (m : List (Text × AllowedPorts))
      → held (insert host (port ∷ ports_of (lookup host m)) m)
        ≡ (text_eq host k && text_eq port p || held m)
  unfolding held
  held-insert host port m = elim (text_eq-cases host k) [
    | inl (e, same) ↦ rw (lookup-insert host k (port ∷ ports_of (lookup host m)) m, e, same) refl
    | inr (e, ne) ↦ rw (lookup-insert host k (port ∷ ports_of (lookup host m)) m, e) refl
  ]

  -- A blank entry names nothing.
  names-blank :
      (raw : Text)
      → text_eq (trim_space raw) [] ≡ true
      → names (parse_allowed_host_entry raw) k p ≡ false
  unfolding parse_allowed_host_entry contains_byte index_byte
  names-blank raw h = rw ((text_eq_iff (trim_space raw) []).0 h, split_host_port-nil) refl

  add_hosts-held :
      (hosts : List Text) (a a' : FetchAcl)
      → add_hosts hosts a ≡ some a'
      → held a'.allowed_hosts ≡ (listed hosts k p || held a.allowed_hosts)
  unfolding add_hosts
  add_hosts-held [] a a' h =
      ap (λ (b : FetchAcl). held b.allowed_hosts) (sym (some-injective a a' h))
  add_hosts-held (raw ∷ hosts) a a' h = elim (Bool-cases (text_eq (trim_space raw) [])) [
    | inl blank ↦ rw (names-blank raw blank) (add_hosts-held hosts a a' (rw blank at h))
    | inr some_text ↦ elim (Option-cases (parse_allowed_host_entry raw)) [
      | inl bad ↦ cc (rw (some_text, bad) at h)
      | inr ((host, port), e) ↦
          let m = insert host (port ∷ ports_of (lookup host a.allowed_hosts)) a.allowed_hosts in
          let ih =
            add_hosts-held hosts (record a { allowed_hosts = m }) a' (rw (some_text, e) at h) in
          rw e (ground (arith, ih, held-insert host port a.allowed_hosts))
    ]
  ]

module _ (parse_cidr : Text → Option IpNet) where
  add_cidrs-hosts :
      (cidrs : List Text) (a a' : FetchAcl)
      → add_cidrs parse_cidr cidrs a ≡ some a'
      → a'.allowed_hosts ≡ a.allowed_hosts
  unfolding add_cidrs
  add_cidrs-hosts [] a a' h = ap (λ (b : FetchAcl). b.allowed_hosts) (sym (some-injective a a' h))
  add_cidrs-hosts (raw ∷ cidrs) a a' h = elim (Bool-cases (text_eq (trim_space raw) [])) [
    | inl blank ↦ add_cidrs-hosts cidrs a a' (rw blank at h)
    | inr some_text ↦ elim (Option-cases (parse_allowed_cidr_entry parse_cidr raw)) [
      | inl bad ↦ cc (rw (some_text, bad) at h)
      | inr ((n, port), e) ↦ add_cidrs-hosts cidrs _ a' (rw (some_text, e) at h)
    ]
  ]

  -- The allow-list that the configured entries make admits a host on a port just where one of the
  -- host entries names that host, up to case, surrounding space and a trailing dot, with that very
  -- port. The address ranges have no part in it.
  pub new_fetch_acl-listed :
      (hosts cidrs : List Text) (a : FetchAcl) (host port : Text)
      → new_fetch_acl parse_cidr hosts cidrs ≡ some a
      → host_allowed a host port ≡ listed hosts (normalise_host host) port
  unfolding new_fetch_acl host_allowed held lookup
  new_fetch_acl-listed hosts cidrs a host port h =
      elim (Option-cases (add_hosts hosts empty_fetch_acl)) [
        | inl bad ↦ cc (rw (bad, new_fetch_acl) at h)
        | inr (b, e) ↦
            let kept = add_cidrs-hosts cidrs b a (rw (e, new_fetch_acl) at h) in
            let spec = add_hosts-held (normalise_host host) port hosts empty_fetch_acl b e in
            rw kept (spec ∙ or_false (listed hosts (normalise_host host) port))
      ]
