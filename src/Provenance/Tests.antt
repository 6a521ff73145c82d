-- ===== src/Provenance/Tests.antt =====
-- Runs of the guard, and its theorems at concrete inputs.
use mcp_searxng_relay.Base.{
  ℕ, drop, ap, ◌-◌, ◌+◌, ◌*◌, ◌≤◌, ◌≡◌, ◌↔◌, inl, refl, arith, true, false, Option, some, none, [],
  ◌∷◌, Text, codes, text_eq, is_some, length, ltb, ◌||◌,
}
use mcp_searxng_relay.Base.Dict.{insert, lookup}
use mcp_searxng_relay.GoLib.Strings.{index_byte, to_lower, split}
use mcp_searxng_relay.Provenance.Confirm.{Codec, nanos, issue, redeem, purge}
use mcp_searxng_relay.Provenance.Confirm.Single.{Call, overlap, redeem_once}
use mcp_searxng_relay.Provenance.Confirm.Issued.{expiry, nonce_exp, redeem-issue}
use mcp_searxng_relay.Provenance.Data.{Url, enforce, looks_encoded, max_plain_part, carries_data}
use mcp_searxng_relay.Provenance.Data.Runs.{runs, any_run, looks_encoded-runs}
use mcp_searxng_relay.Provenance.Seen.{no_urls, add, has}
use mcp_searxng_relay.Provenance.Seen.Valid.{IsValid, add-IsValid}
use mcp_searxng_relay.Provenance.Check.{ToolCall, State, Env, allowed, check_url_provenance}
use mcp_searxng_relay.Provenance.Check.Allowed.{Ground, check_url_provenance-Ground}

-- A codec that shifts each byte past the dot, in place of base64.
abbrev shift_up : Text → Text
shift_up [] = []
shift_up (c ∷ s) = (c + 47) ∷ shift_up s

abbrev shift_down : Text → Text
shift_down [] = []
shift_down (c ∷ s) = (c - 47) ∷ shift_down s

down_up : (s : Text) → shift_down (shift_up s) ≡ s
down_up [] = refl
down_up (c ∷ s) = ground (arith, down_up s)

no_dot_up : (s : Text) → index_byte (shift_up s) b'.' ≡ none
unfolding index_byte
no_dot_up [] = refl
no_dot_up (c ∷ s) = ground (arith, no_dot_up s)

abbrev codec : Codec
codec = record {
  encode = shift_up;
  decode = λ s. some (shift_down s);
  decode-encode = λ s. ap some (down_up s);
  no_dot = no_dot_up;
}

-- A MAC of no strength, which shows that only its value is used.
abbrev mac : Text → Text → Text
mac nonce_exp binding = length nonce_exp ∷ binding

abbrev nonce : Text
nonce = codes "0123456789abcdef"

abbrev issued : Text
issued = issue codec mac (5 * nanos) nonce (codes "alice")

redeemed : (redeem codec mac (6 * nanos) issued (codes "alice") []).0 ≡ true
unfolding redeem index_byte issue text_eq lookup
redeemed = refl

-- Another user's confirmation.
abbrev foreign : Text
foreign = issue codec mac (9 * nanos) (9 ∷ drop 1 nonce) (codes "bob")

abbrev bob_redeems : ℕ → Call codec mac
bob_redeems t = record { time = t; state = foreign; binding = codes "bob" }

redeem_once_example :
    (redeem codec mac (11 * nanos) issued (codes "alice") (
      overlap codec mac
        (bob_redeems (10 * nanos) ∷ [])
        (redeem codec mac (6 * nanos) issued (codes "alice") []).1)).0
    ≡ false
redeem_once_example =
    redeem_once codec mac (6 * nanos) (11 * nanos) issued (codes "alice") []
      (bob_redeems (10 * nanos) ∷ []) redeemed (omega arith, _)

-- Where the call in between read a later clock, the one that waited for it redeems again: both
-- readings for alice are at the expiry of her confirmation, the one for bob is after it.
redeemed_twice :
    (redeem codec mac (605 * nanos) issued (codes "alice") (
      overlap codec mac
        (bob_redeems (606 * nanos) ∷ [])
        (redeem codec mac (605 * nanos) issued (codes "alice") []).1)).0
    ≡ true
unfolding redeem index_byte issue text_eq lookup purge insert
redeemed_twice = refl

none_used : lookup nonce (purge (6 * nanos) []) ≡ none
unfolding lookup purge
none_used = refl

redeem-issue_example :
    ((redeem codec mac
        (6 * nanos)
        (issue codec mac (5 * nanos) nonce (codes "alice"))
        (codes "mallory")
        []).0
      ≡ true)
    ↔ ((mac
            (nonce_exp codec mac (5 * nanos) (6 * nanos) nonce (codes "alice") (codes "mallory") [])
            (codes "alice")
          ≡ mac
              (nonce_exp codec mac
                (5 * nanos)
                (6 * nanos)
                nonce
                (codes "alice")
                (codes "mallory")
                [])
              (codes "mallory"))
        × (6 * nanos
            ≤ expiry codec mac (5 * nanos) (6 * nanos) nonce (codes "alice") (codes "mallory") []
              * nanos))
redeem-issue_example =
    redeem-issue codec mac (5 * nanos) (6 * nanos) nonce (codes "alice") (codes "mallory") [] refl
      (omega arith) none_used

looks_encoded-runs_example : looks_encoded (codes "c2VjcmV0c2VjcmV0c2VjcmV0MTIz") ≡ (
    ltb max_plain_part (length (codes "c2VjcmV0c2VjcmV0c2VjcmV0MTIz"))
    || any_run (
        (runs (codes "c2VjcmV0c2VjcmV0c2VjcmV0MTIz")).0
        ∷ (runs (codes "c2VjcmV0c2VjcmV0c2VjcmV0MTIz")).1))
looks_encoded-runs_example = looks_encoded-runs (codes "c2VjcmV0c2VjcmV0c2VjcmV0MTIz")

-- Every address is its own key here.
abbrev own_key : Text → Option Text
own_key raw = some raw

nothing_shown : IsValid no_urls
unfolding lookup
nothing_shown = record { same = λ k. refl; nodup = _; bounded = omega arith }

add-IsValid_example :
    IsValid (add own_key (codes "http://a/") no_urls)
    × (has own_key (codes "http://a/") (add own_key (codes "http://a/") no_urls)
        ≡ is_some (own_key (codes "http://a/")))
add-IsValid_example = add-IsValid own_key (codes "http://a/") no_urls nothing_shown

-- A parser that takes everything for the path of one host.
abbrev parse : Text → Option Url
parse raw = some (record {
  scheme = codes "https";
  user = none;
  host = codes "example.org";
  hostname = codes "example.org";
  port = [];
  path = raw;
  raw_query = [];
  force_query = false;
})

abbrev env : Env
env = record {
  parse = parse;
  unescape = λ q. some q;
  codec = codec;
  mac = mac;
  mode = enforce;
  trusted_hosts = [];
}

abbrev req : ToolCall
req = record { request_state = []; has_responses = false; accepted = false; can_elicit = false }

abbrev start : State
start = record { history = some no_urls; used = []; recorded = [] }

plain_allowed :
    (check_url_provenance env 0 nonce req
      (codes "k")
      (codes "searxng_read_url")
      (codes "/wiki")
      start).0
    ≡ allowed
unfolding check_url_provenance has mcp_searxng_relay.Provenance.Data.url_key text_eq to_lower lookup
    mcp_searxng_relay.Provenance.Data.trusted_host carries_data split
plain_allowed = refl

check_url_provenance-Ground_example :
    Ground env 0 req (codes "k") (codes "searxng_read_url") (codes "/wiki") start
check_url_provenance-Ground_example =
    check_url_provenance-Ground env 0 nonce req (codes "k") (codes "searxng_read_url")
      (codes "/wiki") start (inl refl) plain_allowed
