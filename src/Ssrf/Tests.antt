-- ===== src/Ssrf/Tests.antt =====
-- Runs of the address policy, and its theorems at concrete inputs.
use mcp_searxng_relay.Ssrf.Acl.Hosts.{listed, new_fetch_acl-listed}
use mcp_searxng_relay.Ssrf.Acl.Ranges.{listed_range, assert_reachable-listed}
use mcp_searxng_relay.Ssrf.Dial.Laws.{
  Permitted, AllReachable, safe_dial_context-Permitted, safe_check_redirect-AllReachable,
}
use mcp_searxng_relay.Ssrf.Dial.Counted.{Tallied, safe_dial_context-counted}
use mcp_searxng_relay.Base.{
  ℕ, arith, ◌⊎◌, All, ◌↔◌, ◌<◌, ◌*◌, ◌+◌, ◌≡◌, refl, true, false, Option, some, none, List, [], ◌∷◌,
  Text, codes, text_eq, if◌then◌else◌,
}
use mcp_searxng_relay.Base.Dict.{lookup, insert}
use mcp_searxng_relay.GoLib.Ip.{Ip, v4, IpNet, net4, mapped, contains}
use mcp_searxng_relay.GoLib.Net.{split_host_port}
use mcp_searxng_relay.GoLib.Strconv.{atoi}
use mcp_searxng_relay.GoLib.Strings.{trim_space, trim_suffix, to_lower, contains_byte}
use mcp_searxng_relay.Ssrf.Address.{Reason, assert_public_ip, link_local, reserved}
use mcp_searxng_relay.Ssrf.Address.Ranges.{assert_public_ip-Outside, special_ranges, Outside, quad}
use mcp_searxng_relay.Ssrf.Acl.{
  catastrophic, normalise_host, host_allowed, parse_allowed_cidr_entry, assert_reachable, FetchAcl,
  new_fetch_acl,
}
use mcp_searxng_relay.Ssrf.Dial.{
  url_host_port, through, proxy_for, Url, dial, safe_dial_context, safe_check_redirect,
}

-- A parser that knows one range.
abbrev parse_cidr : Text → Option IpNet
parse_cidr s = if text_eq s (codes "10.1.2.0/24") then some (net4 (10 * 65536 + 258) 24) else none

abbrev acl : FetchAcl
acl = record {
  allowed_hosts = (codes "wiki.corp", codes "8443" ∷ []) ∷ [];
  allowed_cidrs = record { network = net4 (10 * 65536 + 258) 24; ports = codes "443" ∷ [] } ∷ [];
  proxy = none;
  proxy_all = false;
}

abbrev host_entries : List Text
host_entries = codes " Wiki.corp.:8443" ∷ codes " " ∷ []

abbrev cidr_entries : List Text
cidr_entries = codes "10.1.2.0/24:443" ∷ []

configured : new_fetch_acl parse_cidr host_entries cidr_entries ≡ some acl
unfolding new_fetch_acl text_eq trim_space contains_byte split_host_port atoi
    mathlib.Core.Option.bind insert to_lower lookup trim_suffix
configured = refl

metadata_blocked : assert_public_ip (v4 (quad 169 254 169 254)) ≡ some link_local
unfolding assert_public_ip
metadata_blocked = refl

test_net_blocked : assert_public_ip (v4 (quad 203 0 113 9)) ≡ some reserved
unfolding assert_public_ip
test_net_blocked = refl

abbrev resolve : Text → Option (List Ip)
resolve host = if text_eq host (codes "public.example") then some (v4 (quad 8 8 8 8) ∷ []) else none

dials :
    (safe_dial_context acl resolve (codes "public.example:80") none).0
    ≡ dial (v4 (quad 8 8 8 8)) (codes "80")
unfolding safe_dial_context split_host_port text_eq lookup to_lower trim_suffix trim_space
    assert_public_ip
dials = refl

abbrev link : Url
link = record {
  text = codes "http://public.example/";
  scheme = codes "http";
  hostname = codes "public.example";
  port = [];
}

follows : (safe_check_redirect acl resolve link 1 none).0 ≡ true
unfolding safe_check_redirect lookup text_eq to_lower trim_suffix trim_space assert_public_ip
follows = refl

assert_public_ip-Outside_example :
    (assert_public_ip (v4 (quad 8 8 8 8)) ≡ none) ↔ All (Outside (quad 8 8 8 8)) special_ranges
assert_public_ip-Outside_example = assert_public_ip-Outside (quad 8 8 8 8) (omega arith)

new_fetch_acl-listed_example :
    host_allowed acl (codes "WIKI.corp") (codes "8443")
    ≡ listed host_entries (normalise_host (codes "WIKI.corp")) (codes "8443")
new_fetch_acl-listed_example =
    new_fetch_acl-listed parse_cidr host_entries cidr_entries acl (codes "WIKI.corp") (codes "8443")
      configured

assert_reachable-listed_example :
    (assert_reachable acl (v4 (quad 10 1 2 3)) (codes "443") ≡ none) ↔ (
      (listed_range (v4 (quad 10 1 2 3)) (codes "443") parse_cidr cidr_entries ≡ true)
      ⊎ (assert_public_ip (v4 (quad 10 1 2 3)) ≡ none))
assert_reachable-listed_example =
    assert_reachable-listed parse_cidr host_entries cidr_entries acl (v4 (quad 10 1 2 3))
      (codes "443") configured

entry :
    parse_allowed_cidr_entry parse_cidr (codes "10.1.2.0/24:443")
    ≡ some (net4 (10 * 65536 + 258) 24, codes "443")
unfolding parse_allowed_cidr_entry mcp_searxng_relay.GoLib.Strings.last_index_byte trim_space atoi
    mathlib.Core.Option.bind text_eq
entry = refl

-- All of IPv4 in IPv6 form is not refused as the default route is.
all_mapped :
    (catastrophic (mapped 0 0) ≡ false) × (contains (mapped 0 0) (v4 (quad 127 0 0 1)) ≡ true)
all_mapped = (refl, refl)

safe_dial_context-Permitted_example :
    Permitted acl resolve
      (codes "public.example:80")
      (safe_dial_context acl resolve (codes "public.example:80") none).0
safe_dial_context-Permitted_example =
    safe_dial_context-Permitted acl resolve (codes "public.example:80") none

safe_dial_context-counted_example :
    (after : Reason → ℕ) × ((safe_dial_context acl resolve
        (codes "public.example:80")
        (some (λ q. 0))).1
      ≡ some after)
    × Tallied
        (safe_dial_context acl resolve (codes "public.example:80") (some (λ q. 0))).0
        (λ q. 0)
        after
safe_dial_context-counted_example =
    safe_dial_context-counted acl resolve (codes "public.example:80") (λ q. 0)

safe_check_redirect-AllReachable_example :
    (1 < 5)
    × ((host_allowed acl (url_host_port link).0 (url_host_port link).1 ≡ true)
        ⊎ (false ≡ true)
        ⊎ (ips : List Ip) × (resolve (url_host_port link).0 ≡ some ips)
          × AllReachable acl (url_host_port link).1 ips)
safe_check_redirect-AllReachable_example =
    safe_check_redirect-AllReachable acl resolve link 1 none follows

abbrev listed_link : Url
listed_link = record {
  text = codes "http://wiki.corp:8443/";
  scheme = codes "http";
  hostname = codes "wiki.corp";
  port = codes "8443";
}

abbrev proxied : FetchAcl
proxied = record acl {
  proxy = some (record { url = codes "http://proxy.corp"; authority = codes "proxy.corp:80" });
}

goes_through : proxy_for proxied listed_link ≡ through (codes "http://proxy.corp")
unfolding proxy_for text_eq mcp_searxng_relay.GoLib.Net.join_host_port to_lower trim_suffix
    trim_space lookup
goes_through = refl
