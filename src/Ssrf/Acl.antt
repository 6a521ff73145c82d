-- ===== src/Ssrf/Acl.antt =====
-- The operator's allow-lists of ssrf.go: fetchACL with its hosts and ranges, and the parsers of
-- their entries. An error's text is left out; net.ParseCIDR is a parameter.
pub mod Hosts
pub mod Ranges
use mcp_searxng_relay.Base.{
  ℕ, suc, ◌+◌, Bool, true, false, not, ◌&&◌, ◌||◌, Option, none, some, List, [], ◌∷◌, ◌++◌, Text,
  text_eq, codes, leb, ◌==◌, if◌then◌else◌, take, drop, is_some,
}
use mcp_searxng_relay.Base.Int.{ℤ, pos, negsuc}
use mcp_searxng_relay.Base.Dict.{lookup, insert}
use mcp_searxng_relay.GoLib.Ip.{Ip, IpNet, net4, net6, mapped, contains, ones}
use mcp_searxng_relay.GoLib.Net.{split_host_port}
use mcp_searxng_relay.GoLib.Strconv.{atoi}
use mcp_searxng_relay.GoLib.Strings.{
  trim_space, trim_suffix, to_lower, last_index_byte, contains_byte,
}
use mcp_searxng_relay.RateLimit.Limiter.{member}
use mcp_searxng_relay.Ssrf.Address.{Reason, assert_public_ip}

-- A set of port texts.
abbrev pub AllowedPorts : Type 0
AllowedPorts = List Text

pub record AllowedCidr : Type 0 where
  pub network : IpNet
  pub ports : AllowedPorts

-- The proxy's URL stays a text, and its authority is kept beside it.
pub record Proxy : Type 0 where
  pub url : Text
  pub authority : Text

pub record FetchAcl : Type 0 where
  pub allowed_hosts : List (Text × AllowedPorts)
  pub allowed_cidrs : List AllowedCidr
  pub proxy : Option Proxy
  pub proxy_all : Bool

unfoldable pub normalise_host : Text → Text
normalise_host h = to_lower (trim_suffix (trim_space h) (codes "."))

abbrev pub in_port_range : Option ℤ → Bool
in_port_range (some (pos n)) = leb 1 n && leb n 65535
in_port_range (some (negsuc n)) = false
in_port_range none = false

-- Whether validatePort gives no error.
unfoldable pub validate_port : Text → Bool
validate_port [] = false
validate_port (c ∷ s) = in_port_range (atoi (c ∷ s))

unfoldable pub parse_allowed_host_entry : Text → Option (Text × Text)
unfolding normalise_host validate_port
parse_allowed_host_entry raw =
    let entry = trim_space raw in
    if contains_byte entry b'/' then none else elim (split_host_port entry) [
      | none ↦ none
      | some (h, p) ↦ if validate_port p then some (normalise_host h, p) else none
    ]

-- Whether rejectCatastrophicCIDR refuses the range: the default route, which is no policy at all.
-- The same route of IPv4 in IPv6 form has a mask of 96 ones, and passes.
abbrev pub catastrophic : IpNet → Bool
catastrophic n = ones n == 0

module _ (parse_cidr : Text → Option IpNet) where
  unfoldable pub parse_allowed_cidr_entry : Text → Option (IpNet × Text)
  unfolding validate_port
  parse_allowed_cidr_entry raw =
      let entry = trim_space raw in
      elim (last_index_byte entry b'/') [
        | none ↦ none
        | some slash ↦ elim (last_index_byte (drop slash entry) b':') [
          | none ↦ none
          | some colon ↦
              let cidr = take (colon + slash) entry in
              let port = drop (suc (colon + slash)) entry in
              if not (validate_port port) then none else elim (parse_cidr cidr) [
                | none ↦ none
                | some n ↦ if catastrophic n then none else some (n, port)
              ]
        ]
      ]

abbrev pub empty_fetch_acl : FetchAcl
empty_fetch_acl = record { allowed_hosts = []; allowed_cidrs = []; proxy = none; proxy_all = false }

abbrev pub ports_of : Option AllowedPorts → AllowedPorts
ports_of none = []
ports_of (some ports) = ports

-- The loop over the host entries; `none` is its first error.
unfoldable pub add_hosts : List Text → FetchAcl → Option FetchAcl
unfolding parse_allowed_host_entry
add_hosts [] a = some a
add_hosts (raw ∷ hosts) a =
    if text_eq (trim_space raw) [] then add_hosts hosts a else elim (parse_allowed_host_entry raw) [
      | none ↦ none
      | some (host, port) ↦ add_hosts hosts (record a {
        allowed_hosts = insert host (port ∷ ports_of (lookup host a.allowed_hosts)) a.allowed_hosts;
      })
    ]

-- Whether IPNet.String gives the same text, which an IPv4 network in IPv6 form shares with its own.
abbrev pub same_net : IpNet → IpNet → Bool
same_net (net4 p n) (net4 q m) = p == q && n == m
same_net (net6 p n) (net6 q m) = p == q && n == m
same_net (net4 p n) (mapped q m) = p == q && n == m
same_net (mapped p n) (net4 q m) = p == q && n == m
same_net (mapped p n) (mapped q m) = p == q && n == m
same_net (net4 p n) (net6 q m) = false
same_net (mapped p n) (net6 q m) = false
same_net (net6 p n) (mapped q m) = false
same_net (net6 p n) (net4 q m) = false

-- A range that is named twice keeps its place and takes the further port.
unfoldable pub add_range : IpNet → Text → List AllowedCidr → List AllowedCidr
add_range n port [] = record { network = n; ports = port ∷ [] } ∷ []
add_range n port (c ∷ cs) =
    if same_net c.network n
    then record { network = c.network; ports = port ∷ c.ports } ∷ cs
    else c ∷ add_range n port cs

module _ (parse_cidr : Text → Option IpNet) where
  unfoldable pub add_cidrs : List Text → FetchAcl → Option FetchAcl
  unfolding parse_allowed_cidr_entry add_range
  add_cidrs [] a = some a
  add_cidrs (raw ∷ cidrs) a =
      if text_eq (trim_space raw) []
      then add_cidrs cidrs a
      else elim (parse_allowed_cidr_entry parse_cidr raw) [
        | none ↦ none
        | some (n, port) ↦
            add_cidrs cidrs (record a { allowed_cidrs = add_range n port a.allowed_cidrs })
      ]

  unfoldable pub new_fetch_acl : List Text → List Text → Option FetchAcl
  unfolding add_hosts add_cidrs
  new_fetch_acl hosts cidrs = elim (add_hosts hosts empty_fetch_acl) [
    | none ↦ none
    | some a ↦ add_cidrs cidrs a
  ]

unfoldable pub host_allowed : FetchAcl → Text → Text → Bool
unfolding normalise_host
host_allowed a host port = member port (ports_of (lookup (normalise_host host) a.allowed_hosts))

-- Whether the address and the port are allowed, and whether a range matched at all.
unfoldable pub ip_port_in_ranges : List AllowedCidr → Ip → Text → Bool → Bool × Bool
ip_port_in_ranges [] ip port matched = (false, matched)
ip_port_in_ranges (c ∷ cs) ip port matched = elim (contains c.network ip) [
  | false ↦ ip_port_in_ranges cs ip port matched
  | true ↦ elim (member port c.ports) [
    | true ↦ (true, true)
    | false ↦ ip_port_in_ranges cs ip port true
  ]
]

unfoldable pub ip_port_in_allowed_cidr : FetchAcl → Ip → Text → Bool × Bool
unfolding ip_port_in_ranges
ip_port_in_allowed_cidr a ip port = ip_port_in_ranges a.allowed_cidrs ip port false

unfoldable pub assert_reachable : FetchAcl → Ip → Text → Option Reason
unfolding ip_port_in_allowed_cidr
assert_reachable a ip port =
    if (ip_port_in_allowed_cidr a ip port).0 then none else assert_public_ip ip
