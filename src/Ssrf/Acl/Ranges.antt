-- ===== src/Ssrf/Acl/Ranges.antt =====
-- Which addresses the allow-list admits, in terms of its ranges.
use mathlib.Core.Option.{some-injective}
use mcp_searxng_relay.Base.{
  ◌==◌, ℕ, ◌<◌, ◌≡◌, refl, sym, ap, ◌∙◌, ◌↔◌, ◌⊎◌, inl, inr, arith, Bool, true, false, not, ◌&&◌,
  ◌||◌, Option, none, some, List, [], ◌∷◌, Text, text_eq, Bool-cases, Option-cases,
}
use mcp_searxng_relay.GoLib.Ip.{ones, Ip, v4, v6, IpNet, net4, net6, mapped, contains}
use mcp_searxng_relay.GoLib.Strings.{trim_space}
use mcp_searxng_relay.RateLimit.Limiter.{member}
use mcp_searxng_relay.Ssrf.Address.{assert_public_ip}
use mcp_searxng_relay.Ssrf.Acl.{
  FetchAcl, AllowedCidr, empty_fetch_acl, add_hosts, parse_allowed_host_entry, validate_port,
  parse_allowed_cidr_entry, same_net, add_range, add_cidrs, new_fetch_acl, ip_port_in_ranges,
  ip_port_in_allowed_cidr, assert_reachable,
}

module _ (ip : Ip) (port : Text) where
  -- Whether one of the ranges holds the address and the port.
  abbrev pub covered : List AllowedCidr → Bool
  covered [] = false
  covered (c ∷ cs) = contains c.network ip && member port c.ports || covered cs

  in_ranges-covered :
      (cs : List AllowedCidr) (matched : Bool)
      → (ip_port_in_ranges cs ip port matched).0 ≡ covered cs
  unfolding ip_port_in_ranges
  in_ranges-covered [] matched = refl
  in_ranges-covered (c ∷ cs) matched =
      ground (arith, in_ranges-covered cs matched, in_ranges-covered cs true)

  -- The IPv4 network in either form.
  mapped-contains : (p a : ℕ) → contains (mapped p a) ip ≡ contains (net4 p a) ip
  mapped-contains p a = elim ip as (λ j. contains (mapped p a) j ≡ contains (net4 p a) j) [
    | v4 b ↦ refl
    | v6 b ↦ refl
  ]

  same_net4 :
      (p a q b : ℕ) → (p == q && a == b) ≡ true → contains (net4 p a) ip ≡ contains (net4 q b) ip
  same_net4 p a q b h =
      let same : (p ≡ q) × (a ≡ b) = ground arith in
      ap (λ (x : ℕ × ℕ). contains (net4 x.0 x.1) ip) ((λ i. (same.0 i, same.1 i)))

  same_net-contains : (n m : IpNet) → same_net n m ≡ true → contains n ip ≡ contains m ip
  same_net-contains (net4 p a) (net4 q b) h = same_net4 p a q b h
  same_net-contains (net4 p a) (mapped q b) h = same_net4 p a q b h ∙ sym (mapped-contains q b)
  same_net-contains (mapped p a) (net4 q b) h = mapped-contains p a ∙ same_net4 p a q b h
  same_net-contains (mapped p a) (mapped q b) h =
      mapped-contains p a ∙ same_net4 p a q b h ∙ sym (mapped-contains q b)
  same_net-contains (net6 p a) (net6 q b) h =
      let same : (p ≡ q) × (a ≡ b) = ground arith in
      ap (λ (x : ℕ × ℕ). contains (net6 x.0 x.1) ip) ((λ i. (same.0 i, same.1 i)))
  same_net-contains (net4 p a) (net6 q b) h = cc
  same_net-contains (net6 p a) (net4 q b) h = cc
  same_net-contains (mapped p a) (net6 q b) h = cc
  same_net-contains (net6 p a) (mapped q b) h = cc

  add_range-covered :
      (n : IpNet) (named : Text) (cs : List AllowedCidr)
      → covered (add_range n named cs) ≡ (contains n ip && text_eq named port || covered cs)
  unfolding add_range
  add_range-covered n named [] = ground arith
  add_range-covered n named (c ∷ cs) = elim (Bool-cases (same_net c.network n)) [
    | inl e ↦ rw (e, same_net-contains c.network n e) (ground arith)
    | inr e ↦ rw e (ground (arith, add_range-covered n named cs))
  ]

  module _ (parse_cidr : Text → Option IpNet) where
    -- Whether an entry, and whether one of the entries, names a range that holds the address with
    -- exactly this port.
    abbrev pub entry_covers : Option (IpNet × Text) → Bool
    entry_covers none = false
    entry_covers (some (n, named)) = contains n ip && text_eq named port

    abbrev pub listed_range : List Text → Bool
    listed_range [] = false
    listed_range (raw ∷ cidrs) =
        not (text_eq (trim_space raw) []) && entry_covers (parse_allowed_cidr_entry parse_cidr raw)
        || listed_range cidrs

    add_cidrs-covered :
        (cidrs : List Text) (a a' : FetchAcl)
        → add_cidrs parse_cidr cidrs a ≡ some a'
        → covered a'.allowed_cidrs ≡ (listed_range cidrs || covered a.allowed_cidrs)
    unfolding add_cidrs
    add_cidrs-covered [] a a' h =
        ap (λ (b : FetchAcl). covered b.allowed_cidrs) (sym (some-injective a a' h))
    add_cidrs-covered (raw ∷ cidrs) a a' h = elim (Bool-cases (text_eq (trim_space raw) [])) [
      | inl blank ↦ rw blank (add_cidrs-covered cidrs a a' (rw blank at h))
      | inr some_text ↦ elim (Option-cases (parse_allowed_cidr_entry parse_cidr raw)) [
        | inl bad ↦ cc (rw (some_text, bad) at h)
        | inr ((n, named), e) ↦
            let b = record a { allowed_cidrs = add_range n named a.allowed_cidrs } in
            let ih = add_cidrs-covered cidrs b a' (rw (some_text, e) at h) in
            rw (some_text, e) (ground (arith, ih, add_range-covered n named a.allowed_cidrs))
      ]
    ]

add_hosts-cidrs :
    (hosts : List Text) (a a' : FetchAcl)
    → add_hosts hosts a ≡ some a'
    → a'.allowed_cidrs ≡ a.allowed_cidrs
unfolding add_hosts
add_hosts-cidrs [] a a' h = ap (λ (b : FetchAcl). b.allowed_cidrs) (sym (some-injective a a' h))
add_hosts-cidrs (raw ∷ hosts) a a' h = elim (Bool-cases (text_eq (trim_space raw) [])) [
  | inl blank ↦ add_hosts-cidrs hosts a a' (rw blank at h)
  | inr some_text ↦ elim (Option-cases (parse_allowed_host_entry raw)) [
    | inl bad ↦ cc (rw (some_text, bad) at h)
    | inr ((host, port), e) ↦ add_hosts-cidrs hosts _ a' (rw (some_text, e) at h)
  ]
]

or_false : (b : Bool) → (b || false) ≡ b
or_false b = ground arith

new_fetch_acl-covered :
    (parse_cidr : Text → Option IpNet) (hosts cidrs : List Text) (a : FetchAcl) (ip : Ip)
    (port : Text)
    → new_fetch_acl parse_cidr hosts cidrs ≡ some a
    → (ip_port_in_allowed_cidr a ip port).0 ≡ listed_range ip port parse_cidr cidrs
unfolding new_fetch_acl ip_port_in_allowed_cidr
new_fetch_acl-covered parse_cidr hosts cidrs a ip port h =
    elim (Option-cases (add_hosts hosts empty_fetch_acl)) [
      | inl bad ↦ cc (rw (bad, new_fetch_acl) at h)
      | inr (b, e) ↦
          in_ranges-covered ip port a.allowed_cidrs false
          ∙ add_cidrs-covered ip port parse_cidr cidrs b a (rw (e, new_fetch_acl) at h)
          ∙ ap (λ cs. listed_range ip port parse_cidr cidrs || covered ip port cs)
              (add_hosts-cidrs hosts empty_fetch_acl b e)
          ∙ or_false (listed_range ip port parse_cidr cidrs)
    ]

-- Under the policy that the configured entries make, an address is reachable on a port just where
-- one of the range entries names a range that holds it, with that very port, or it is public. The
-- host entries have no part in it.
pub assert_reachable-listed :
    (parse_cidr : Text → Option IpNet) (hosts cidrs : List Text) (a : FetchAcl) (ip : Ip)
    (port : Text)
    → new_fetch_acl parse_cidr hosts cidrs ≡ some a
    → (assert_reachable a ip port ≡ none)
      ↔ ((listed_range ip port parse_cidr cidrs ≡ true) ⊎ (assert_public_ip ip ≡ none))
unfolding assert_reachable
assert_reachable-listed parse_cidr hosts cidrs a ip port h =
    let e = new_fetch_acl-covered parse_cidr hosts cidrs a ip port h in
    ((λ r. ground (arith, e)), (λ r. ground (arith, e)))

-- An accepted range entry names a port that validatePort accepts and a range other than the
-- default route, which would admit every address.
pub parse_allowed_cidr_entry_bounded :
    (parse_cidr : Text → Option IpNet) (raw port : Text) (n : IpNet)
    → parse_allowed_cidr_entry parse_cidr raw ≡ some (n, port)
    → (0 < ones n) × (validate_port port ≡ true)
unfolding parse_allowed_cidr_entry
parse_allowed_cidr_entry_bounded parse_cidr raw port n h = ground arith
