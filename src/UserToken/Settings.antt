-- ===== src/UserToken/Settings.antt =====
-- newUserTokenExchanger, isLoopbackHost and describe. url.Parse, net.ParseIP and the reading of the
-- secret's file are parameters; the HTTP client and the cache are not part of the settings.
pub mod Ready
use mcp_searxng_relay.Base.{
  ℕ, zero, suc, ◌+◌, ◌-◌, ◌*◌, ◌≤◌, ◌<◌, min, max, ◌≡◌, refl, sym, ap, subst, ◌∙◌, ◌≢◌, ◌↔◌, ◌⊎◌,
  inl, inr, Bool, true, false, not, ◌&&◌, ◌||◌, Option, none, some, List, [], ◌∷◌, ◌++◌, map,
  append_assoc, append-nil, arith, Text, codes, text_eq, text_eq_iff, text_eq_refl, text_eq-cases,
  ltb, leb, ◌==◌, ==_iff, if◌then◌else◌, length, get_elem?, set, take, drop, length-append,
  length-set, length-take, length-drop, get_elem?-set_self, get_elem?-set_ne, get_elem?-lt, All,
  All-append, get_elem?-append_left, get_elem?-concat_last, get_elem?-set_cases,
  get_elem?-concat_cases, Bool-cases, Option-cases, is_some,
}
use mcp_searxng_relay.GoLib.Strings.{trim_space, to_lower, equal_fold}
use mcp_searxng_relay.GoLib.Ip.{Ip, is_loopback}
use mcp_searxng_relay.UserToken.Answer.{is_empty}

-- The SEARXNG_USER_TOKEN_* settings and SEARXNG_URL, of type Config in the source.
pub record Settings : Type 0 where
  pub mode : Text
  pub token_url : Text
  pub client_id : Text
  pub client_secret : Text
  pub client_secret_file : Text
  pub audience : Text
  pub allow_plaintext : Bool
  pub searxng_url : Text

-- What is used of a url.URL.
pub record ParsedUrl : Type 0 where
  pub scheme : Text
  pub host : Text
  pub hostname : Text

pub record UserTokenExchanger : Type 0 where
  pub token_url : Text
  pub client_id : Text
  pub client_secret : Text
  pub audience : Text

pub data SettingError : Type 0 where
  set_but_off : SettingError
  passthrough : SettingError
  unknown_mode : Text → SettingError
  no_oauth : SettingError
  two_secrets : SettingError
  unreadable_secret : SettingError
  missing : List Text → SettingError
  insecure_token_url : SettingError
  invalid_searxng_url : SettingError
  plaintext_searxng : SettingError

abbrev pub any_set : Settings → Bool
any_set cfg =
    not (is_empty cfg.token_url)
    || not (is_empty cfg.client_id)
    || not (is_empty cfg.client_secret)
    || not (is_empty cfg.client_secret_file)
    || not (is_empty cfg.audience)
    || cfg.allow_plaintext

-- An Option where the source has a pointer: `none` is that the feature is off.
unfoldable pub describe : Option UserTokenExchanger → Text
describe none = codes "off"
describe (some x) =
    codes "exchange (client "
    ++ x.client_id
    ++ (if is_empty x.audience then [] else codes ", audience " ++ x.audience)
    ++ codes ", header X-Relay-User-Token)"

abbrev pub required : Text → Text → List Text
required value name = if is_empty value then name ∷ [] else []

unfoldable pub missing_of : Settings → Text → List Text
missing_of cfg secret =
    required cfg.token_url (codes "SEARXNG_USER_TOKEN_URL")
    ++ required cfg.client_id (codes "SEARXNG_USER_TOKEN_CLIENT_ID")
    ++ required secret (codes "SEARXNG_USER_TOKEN_CLIENT_SECRET (or _FILE)")

module _ (parse_ip : Text → Option Ip) where
  unfoldable pub is_loopback_host : Text → Bool
  is_loopback_host host =
      if equal_fold host (codes "localhost")
      then true
      else elim (parse_ip host) [ none ↦ false | some ip ↦ is_loopback ip ]

  module _ (parse_url : Text → Option ParsedUrl) (read_file : Text → Option Text) where
    -- The secret itself, or what the file of the secret holds.
    unfoldable pub secret_of : Settings → SettingError ⊎ Text
    secret_of cfg =
        if not (is_empty cfg.client_secret) && not (is_empty cfg.client_secret_file)
        then inl two_secrets
        else if is_empty cfg.client_secret_file
        then inr cfg.client_secret
        else elim (read_file cfg.client_secret_file) [
          | none ↦ inl unreadable_secret
          | some b ↦ inr (trim_space b)
        ]

    unfoldable pub token_url_ok : Text → Bool
    token_url_ok url = elim (parse_url url) [
      | none ↦ false
      | some u ↦
          not (is_empty u.host)
          && (text_eq u.scheme (codes "https")
              || text_eq u.scheme (codes "http") && is_loopback_host u.hostname)
    ]

    unfoldable pub check_searxng : Settings → Option SettingError
    check_searxng cfg = elim (parse_url cfg.searxng_url) [
      | none ↦ some invalid_searxng_url
      | some u ↦
          if is_empty u.host
          then some invalid_searxng_url
          else if not (text_eq u.scheme (codes "https"))
              && not (is_loopback_host u.hostname)
              && not cfg.allow_plaintext
          then some plaintext_searxng
          else none
    ]

    -- From the secret on.
    unfoldable pub with_secret : Settings → Text → SettingError ⊎ Option UserTokenExchanger
    with_secret cfg secret = elim (missing_of cfg secret) [
      | name ∷ names ↦ inl (missing (name ∷ names))
      | [] ↦
          if not (token_url_ok cfg.token_url)
          then inl insecure_token_url
          else elim (check_searxng cfg) [
            | some e ↦ inl e
            | none ↦ inr (
                some (record {
                  token_url = cfg.token_url;
                  client_id = cfg.client_id;
                  client_secret = secret;
                  audience = cfg.audience;
                }))
          ]
    ]

    unfoldable pub new_user_token_exchanger :
        Settings → Bool → SettingError ⊎ Option UserTokenExchanger
    new_user_token_exchanger cfg oauth_on =
        let mode = to_lower (trim_space cfg.mode) in
        if is_empty mode || text_eq mode (codes "off")
        then (if any_set cfg then inl set_but_off else inr none)
        else if text_eq mode (codes "passthrough")
        then inl passthrough
        else if not (text_eq mode (codes "exchange"))
        then inl (unknown_mode cfg.mode)
        else if not oauth_on
        then inl no_oauth
        else elim (secret_of cfg) [ inl e ↦ inl e | inr secret ↦ with_secret cfg secret ]
