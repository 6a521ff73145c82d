-- ===== src/Provenance/Data.antt =====
-- What an address may carry beyond a place: urlKey, carriesData, looksEncoded, trustedHost,
-- parseProvenanceMode and parseTrustedHosts of provenance.go. url.Parse and url.QueryUnescape are
-- parameters.
pub mod Runs
use mcp_searxng_relay.Base.{
  ℕ, zero, suc, Bool, true, false, not, ◌&&◌, ◌||◌, Option, none, some, List, [], ◌∷◌, ◌++◌, Text,
  text_eq, codes, ltb, leb, ◌==◌, if◌then◌else◌, length,
}
use mcp_searxng_relay.GoLib.Net.{join_host_port}
use mcp_searxng_relay.GoLib.Strings.{
  trim_space, trim_right, to_lower, has_prefix, has_suffix, cut_prefix, contains_byte, replace_all,
  split,
}

-- The parts of a *url.URL that are read here; `user` is `u.User.String()`, `none` for nil.
pub record Url : Type 0 where
  pub scheme : Text
  pub user : Option Text
  pub host : Text
  pub hostname : Text
  pub port : Text
  pub path : Text
  pub raw_query : Text
  pub force_query : Bool

abbrev pub is_empty : Text → Bool
is_empty [] = true
is_empty (c ∷ s) = false

abbrev default_port : Text → Text → Bool
default_port scheme port =
    text_eq scheme (codes "http") && text_eq port (codes "80")
    || text_eq scheme (codes "https") && text_eq port (codes "443")

abbrev key_host : Text → Text → Text → Text
key_host scheme host port =
    if not (is_empty port) && not (default_port scheme port)
    then join_host_port host port
    else if contains_byte host b':'
    then b'[' ∷ (host ++ b']' ∷ [])
    else host

abbrev key_user : Option Text → Text
key_user none = []
key_user (some user) = user ++ codes "@"

module _ (parse : Text → Option Url) (unescape : Text → Option Text) where
  abbrev key_query : Text → Text
  key_query [] = []
  key_query (c ∷ q) = elim (unescape (c ∷ q)) [ none ↦ b'?' ∷ c ∷ q | some plain ↦ b'?' ∷ plain ]

  -- `none` for an address that is not one of the web.
  unfoldable pub url_key : Text → Option Text
  url_key raw = elim (parse (replace_all (trim_space raw) (codes "&amp;") (codes "&"))) [
    | none ↦ none
    | some u ↦
        let scheme = to_lower u.scheme in
        if not (text_eq scheme (codes "http")) && not (text_eq scheme (codes "https"))
          || is_empty u.host
        then none
        else some (
            scheme
            ++ (codes "://"
                ++ (key_user u.user
                    ++ (key_host scheme (to_lower u.hostname) u.port
                        ++ (trim_right u.path b'/' ++ key_query u.raw_query)))))
  ]

abbrev pub max_plain_part : ℕ
max_plain_part = 64

abbrev pub min_encoded_run : ℕ
min_encoded_run = 24

abbrev pub max_plain_path : ℕ
max_plain_path = 200

abbrev pub is_digit : ℕ → Bool
is_digit c = leb b'0' c && leb c b'9'

abbrev pub is_letter : ℕ → Bool
is_letter c = leb b'a' c && leb c b'z' || leb b'A' c && leb c b'Z' || c == b'+' || c == b'='

abbrev pub ends_encoded : ℕ → Bool → Bool → Bool
ends_encoded run letters digits = leb min_encoded_run run && letters && digits

-- The loop, with the byte 0 that it sees past the end.
scan_part : Text → ℕ → Bool → Bool → Bool
scan_part [] run letters digits = ends_encoded run letters digits
scan_part (c ∷ s) run letters digits =
    let digit = scan_part s (suc run) letters true in
    let letter = scan_part s (suc run) true digits in
    let reset = scan_part s 0 false false in
    if is_digit c
    then digit
    else if is_letter c
    then letter
    else if ends_encoded run letters digits
    then true
    else reset

unfoldable pub looks_encoded : Text → Bool
unfolding scan_part
looks_encoded part = ltb max_plain_part (length part) || scan_part part 0 false false

abbrev pub any_encoded : List Text → Bool
any_encoded [] = false
any_encoded (p ∷ ps) = looks_encoded p || any_encoded ps

pub data Carried : Type 0 where
  unparseable credentials query_string long_path encoded_host encoded_path : Carried

-- `none` is "", a plain address.
unfoldable pub carries_data : (Text → Option Url) → Text → Option Carried
unfolding looks_encoded
carries_data parse raw = elim (parse raw) [
  | none ↦ some unparseable
  | some u ↦ elim u.user [
    | some user ↦ some credentials
    | none ↦
        if not (is_empty u.raw_query) || u.force_query
        then some query_string
        else if ltb max_plain_path (length u.path)
        then some long_path
        else if any_encoded (split u.hostname b'.')
        then some encoded_host
        else if any_encoded (split u.path b'/')
        then some encoded_path
        else none
  ]
]

unfoldable pub trusted_host : Text → List Text → Bool
trusted_host host [] = false
trusted_host host (t ∷ trusted) = elim (cut_prefix t (codes "*.")) [
  | some base ↦ has_suffix (to_lower host) (b'.' ∷ base) || trusted_host host trusted
  | none ↦ text_eq (to_lower host) t || trusted_host host trusted
]

pub data Mode : Type 0 where
  enforce strict log off : Mode

-- `none` is an error.
unfoldable pub parse_provenance_mode : Text → Option Mode
parse_provenance_mode raw =
    let m = to_lower (trim_space raw) in
    if is_empty m || text_eq m (codes "enforce")
    then some enforce
    else if text_eq m (codes "strict")
    then some strict
    else if text_eq m (codes "log")
    then some log
    else if text_eq m (codes "off")
    then some off
    else none

abbrev contains_any : Text → Text → Bool
contains_any s [] = false
contains_any s (c ∷ cs) = contains_byte s c || contains_any s cs

abbrev without_star : Text → Text
without_star h = elim (cut_prefix h (codes "*.")) [ some base ↦ base | none ↦ h ]

unfoldable pub parse_trusted_hosts : List Text → Option (List Text)
parse_trusted_hosts [] = some []
parse_trusted_hosts (e ∷ entries) =
    let h = to_lower (trim_space e) in
    if is_empty (without_star h) || contains_any (without_star h) (codes ":/?#@*[] ")
    then none
    else elim (parse_trusted_hosts entries) [ none ↦ none | some hosts ↦ some (h ∷ hosts) ]
