-- ===== src/Ssrf/Dial.antt =====
-- Where a fetch may connect to: setProxy, urlHostPort, requestAuthority, proxyFor, safeDialContext
-- and safeCheckRedirect of ssrf.go. The resolver and url.Parse are parameters; a dial is the
-- address that is dialled. The metric of blocked addresses is a count for each reason, `none` where
-- metrics are not wired. Logging, with warnHostPortNearMiss, is left out.
pub mod Laws
pub mod Counted
use mcp_searxng_relay.Base.{
  ℕ, suc, Bool, true, false, not, ◌&&◌, ◌||◌, Option, none, some, List, [], ◌∷◌, Text, text_eq,
  codes, leb, ◌==◌, if◌then◌else◌, length,
}
use mcp_searxng_relay.GoLib.Ip.{Ip}
use mcp_searxng_relay.GoLib.Net.{split_host_port, join_host_port}
use mcp_searxng_relay.GoLib.Strings.{trim_space}
use mcp_searxng_relay.Ssrf.Address.{
  Reason, loopback, link_local, private, unspecified, multicast, non_global_unicast, reserved,
}
use mcp_searxng_relay.Ssrf.Acl.{FetchAcl, Proxy, normalise_host, host_allowed, assert_reachable}

-- The parts of a *url.URL that the policy reads.
pub record Url : Type 0 where
  pub text : Text
  pub scheme : Text
  pub hostname : Text
  pub port : Text

unfoldable pub proxy_default_port : Text → Text
proxy_default_port scheme =
    if text_eq scheme (codes "https")
    then codes "443"
    else if text_eq scheme (codes "socks5") || text_eq scheme (codes "socks5h")
    then codes "1080"
    else codes "80"

abbrev pub or_port : Text → Text → Text
or_port [] d = d
or_port (c ∷ s) d = c ∷ s

abbrev pub proxy_scheme : Text → Bool
proxy_scheme s =
    text_eq s (codes "http")
    || text_eq s (codes "https")
    || text_eq s (codes "socks5")
    || text_eq s (codes "socks5h")

-- `none` is an error.
unfoldable pub set_proxy : (Text → Option Url) → Text → Bool → FetchAcl → Option FetchAcl
unfolding proxy_default_port normalise_host
set_proxy parse raw all a =
    if text_eq (trim_space raw) []
    then if all then none else some a
    else elim (parse (trim_space raw)) [
      | none ↦ none
      | some u ↦
          if not (proxy_scheme u.scheme) || text_eq u.hostname []
          then none
          else some (record a {
            proxy = some (record {
              url = u.text;
              authority =
                  join_host_port (normalise_host u.hostname)
                    (or_port u.port (proxy_default_port u.scheme));
            });
            proxy_all = all;
          })
    ]

unfoldable pub url_host_port : Url → Text × Text
unfolding normalise_host
url_host_port u = (
  normalise_host u.hostname,
  or_port u.port (if text_eq u.scheme (codes "https") then codes "443" else codes "80"),
)

unfoldable pub request_authority : Url → Text
unfolding url_host_port
request_authority u = join_host_port (url_host_port u).0 (url_host_port u).1

-- Which proxy a request goes through.
pub data Route : Type 0 where
  direct : Route
  through : Text → Route
  -- A fetch of the proxy itself is an error.
  refused : Route

unfoldable pub proxy_for : FetchAcl → Url → Route
unfolding request_authority url_host_port host_allowed
proxy_for a u = elim a.proxy [
  | none ↦ direct
  | some p ↦
      if text_eq p.authority (request_authority u)
      then refused
      else if a.proxy_all || host_allowed a (url_host_port u).0 (url_host_port u).1
      then through p.url
      else direct
]

unfoldable pub is_proxy_authority : FetchAcl → Text → Text → Bool
unfolding normalise_host
is_proxy_authority a host port = elim a.proxy [
  | none ↦ false
  | some p ↦ text_eq (join_host_port (normalise_host host) port) p.authority
]

abbrev pub code : Reason → ℕ
code loopback = 0
code link_local = 1
code private = 2
code unspecified = 3
code multicast = 4
code non_global_unicast = 5
code reserved = 6

abbrev pub Counts : Type 0
Counts = Option (Reason → ℕ)

unfoldable pub count_ssrf_block : Reason → Counts → Counts
count_ssrf_block reason none = none
count_ssrf_block reason (some counts) =
    some (λ q. if code reason == code q then suc (counts q) else counts q)

pub data DialError : Type 0 where
  invalid_address unresolved no_addresses : DialError
  blocked : Reason → DialError

pub data Dialled : Type 0 where
  -- To the configured proxy, whose address is not checked.
  dial_proxy : Text → Dialled
  dial : Ip → Text → Dialled
  failed : DialError → Dialled

-- The loop over the resolved addresses: the first refusal.
unfoldable pub check_all : FetchAcl → List Ip → Text → Option Reason
unfolding assert_reachable
check_all a [] port = none
check_all a (ip ∷ ips) port = elim (assert_reachable a ip port) [
  | some reason ↦ some reason
  | none ↦ check_all a ips port
]

-- The resolver gives `none` for an error.
module _ (a : FetchAcl) (resolve : Text → Option (List Ip)) where
  unfoldable pub safe_dial_context : Text → Counts → Dialled × Counts
  unfolding is_proxy_authority host_allowed check_all count_ssrf_block
  safe_dial_context addr counts = elim (split_host_port addr) [
    | none ↦ (failed invalid_address, counts)
    | some (host, port) ↦
        if is_proxy_authority a host port then (dial_proxy addr, counts) else elim (resolve host) [
          | none ↦ (failed unresolved, counts)
          | some [] ↦ (failed no_addresses, counts)
          | some (ip ∷ ips) ↦
              if host_allowed a host port
              then (dial ip port, counts)
              else elim (check_all a (ip ∷ ips) port) [
                | some reason ↦ (failed (blocked reason), count_ssrf_block reason counts)
                | none ↦ (dial ip port, counts)
              ]
        ]
  ]

  -- `true` follows the redirect. `via` is how many requests were made already.
  unfoldable pub safe_check_redirect : Url → ℕ → Counts → Bool × Counts
  unfolding url_host_port host_allowed check_all count_ssrf_block
  safe_check_redirect u via counts =
      let host = (url_host_port u).0 in
      let port = (url_host_port u).1 in
      if leb 5 via
      then (false, counts)
      else if host_allowed a host port
      then (true, counts)
      else if a.proxy_all
      then (true, counts)
      else elim (resolve host) [
        | none ↦ (false, counts)
        | some ips ↦ elim (check_all a ips port) [
          | some reason ↦ (false, count_ssrf_block reason counts)
          | none ↦ (true, counts)
        ]
      ]
