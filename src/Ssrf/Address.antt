-- ===== src/Ssrf/Address.antt =====
-- Which addresses are public: reservedCIDRs, matchReservedCIDR and assertPublicIP of ssrf.go. The
-- refusal carries the reason that the metric counts; the more detailed text of the log is left out.
pub mod Ranges
use mcp_searxng_relay.Base.{
  ℕ, ◌+◌, ◌*◌, ◌/◌, ◌^◌, Bool, true, false, not, ◌||◌, Option, none, some, List, [], ◌∷◌,
  if◌then◌else◌,
}
use mcp_searxng_relay.GoLib.Ip.{
  Ip, IpNet, net4, net6, contains, is_loopback, is_link_local_unicast, is_link_local_multicast,
  is_private, is_unspecified, is_multicast, is_global_unicast,
}

pub data Reason : Type 0 where
  loopback link_local private unspecified multicast non_global_unicast reserved : Reason

-- The first octets of an IPv4 network, and the first 16-bit groups of an IPv6 one.
abbrev octets : List ℕ → ℕ → ℕ
octets [] acc = acc
octets (o ∷ os) acc = octets os (acc * 256 + o)

abbrev groups : List ℕ → ℕ → ℕ
groups [] acc = acc
groups (g ∷ gs) acc = groups gs (acc * 65536 + g)

abbrev pub reserved_cidrs : List IpNet
reserved_cidrs =
    net4 (octets (0 ∷ []) 0) 8
    ∷ net4 (octets (100 ∷ 64 ∷ []) 0 / 2 ^ 6) 10
    ∷ net4 (octets (192 ∷ 0 ∷ 0 ∷ []) 0) 24
    ∷ net4 (octets (192 ∷ 0 ∷ 2 ∷ []) 0) 24
    ∷ net4 (octets (192 ∷ 88 ∷ 99 ∷ []) 0) 24
    ∷ net4 (octets (198 ∷ 18 ∷ []) 0 / 2) 15
    ∷ net4 (octets (198 ∷ 51 ∷ 100 ∷ []) 0) 24
    ∷ net4 (octets (203 ∷ 0 ∷ 113 ∷ []) 0) 24
    ∷ net4 (octets (240 ∷ []) 0 / 2 ^ 4) 4
    ∷ net6 (groups (0x64 ∷ 0xFF9B ∷ 0 ∷ 0 ∷ 0 ∷ 0 ∷ []) 0) 96
    ∷ net6 (groups (0x64 ∷ 0xFF9B ∷ 1 ∷ []) 0) 48
    ∷ net6 (groups (0x100 ∷ 0 ∷ 0 ∷ 0 ∷ []) 0) 64
    ∷ net6 (groups (0x2001 ∷ 0 ∷ []) 0) 32
    ∷ net6 (groups (0x2001 ∷ 2 ∷ 0 ∷ []) 0) 48
    ∷ net6 (groups (0x2001 ∷ 0x10 ∷ []) 0 / 2 ^ 4) 28
    ∷ net6 (groups (0x2001 ∷ 0x20 ∷ []) 0 / 2 ^ 4) 28
    ∷ net6 (groups (0x2001 ∷ 0xDB8 ∷ []) 0) 32
    ∷ net6 (groups (0x2002 ∷ []) 0) 16
    ∷ []

abbrev pub first_match : List IpNet → Ip → Option IpNet
first_match [] ip = none
first_match (n ∷ ns) ip = if contains n ip then some n else first_match ns ip

unfoldable pub match_reserved_cidr : Ip → Option IpNet
match_reserved_cidr ip = first_match reserved_cidrs ip

-- `none` is a nil error.
unfoldable pub assert_public_ip : Ip → Option Reason
unfolding match_reserved_cidr
assert_public_ip ip =
    if is_loopback ip
    then some loopback
    else if is_link_local_unicast ip || is_link_local_multicast ip
    then some link_local
    else if is_private ip
    then some private
    else if is_unspecified ip
    then some unspecified
    else if is_multicast ip
    then some multicast
    else if not (is_global_unicast ip)
    then some non_global_unicast
    else elim (match_reserved_cidr ip) [ none ↦ none | some n ↦ some reserved ]
