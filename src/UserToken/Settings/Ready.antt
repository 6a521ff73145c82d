-- ===== src/UserToken/Settings/Ready.antt =====
-- Just when the exchange is on: what the settings then satisfy.
use mcp_searxng_relay.Base.{
  ◌^◌, ◌*◌, ◌≤◌, ◌<◌, ◌≡◌, refl, sym, ap, subst, ◌∙◌, ◌≢◌, ◌↔◌, ◌⊎◌, inl, inr, Bool, true, not,
  ◌&&◌, ◌||◌, Option, none, some, [], ◌∷◌, arith, Text, codes, text_eq, text_eq_iff, if◌then◌else◌,
  Bool-cases, Option-cases,
}
use mathlib.Core.Option.{some-injective}
use mcp_searxng_relay.GoLib.Strings.{trim_space, to_lower, equal_fold}
use mcp_searxng_relay.GoLib.Ip.{Ip, v4, v6, is_loopback}
use mcp_searxng_relay.UserToken.Answer.{is_empty}
use mcp_searxng_relay.UserToken.Settings.{
  Settings, ParsedUrl, UserTokenExchanger, invalid_searxng_url, plaintext_searxng, is_loopback_host,
  secret_of, token_url_ok, check_searxng, with_secret, new_user_token_exchanger, missing_of,
}

-- 127.0.0.0 to 127.255.255.255, and ::1.
abbrev pub Loopback : Ip → Type 0
Loopback (v4 a) = (127 * 2 ^ 24 ≤ a) × (a < 128 * 2 ^ 24)
Loopback (v6 a) = a ≡ 1

is_loopback-Loopback : (ip : Ip) → (is_loopback ip ≡ true) ↔ Loopback ip
is_loopback-Loopback (v4 a) = ground arith
is_loopback-Loopback (v6 a) = ground arith

is_empty-nil : (s : Text) → (is_empty s ≡ true) ↔ (s ≡ [])
is_empty-nil [] = (λ h. refl, λ h. refl)
is_empty-nil (c ∷ s) = (λ h. cc, λ h. cc)

-- The one secret that is set: itself, or what its file holds.
abbrev pub OneSecret : (Text → Option Text) → Settings → Text → Type 0
OneSecret read_file cfg secret =
    (cfg.client_secret_file ≡ []) × (secret ≡ cfg.client_secret)
    ⊎ (cfg.client_secret_file ≢ [])
      × (cfg.client_secret ≡ [])
      × (b : Text) × (read_file cfg.client_secret_file ≡ some b)
      × (secret ≡ trim_space b)

secure_test :
    {P : Type 0} (u : ParsedUrl) (local : Bool)
    → (local ≡ true) ↔ P
    → ((not (is_empty u.host)
          && (text_eq u.scheme (codes "https") || text_eq u.scheme (codes "http") && local))
        ≡ true)
      ↔ ((u.host ≢ []) × ((u.scheme ≡ codes "https") ⊎ (u.scheme ≡ codes "http") × P))
secure_test u local iff =
    let https = text_eq_iff u.scheme (codes "https") in
    let http = text_eq_iff u.scheme (codes "http") in
    let empty = is_empty-nil u.host in
    (λ h. ground (arith, https, http, empty, iff), λ h. ground (arith, https, http, empty, iff))

private_test :
    {P : Type 0} (u : ParsedUrl) (local plaintext : Bool)
    → (local ≡ true) ↔ P
    → ((if is_empty u.host
          then some invalid_searxng_url
          else if not (text_eq u.scheme (codes "https")) && not local && not plaintext
          then some plaintext_searxng
          else none)
        ≡ none)
      ↔ ((u.host ≢ []) × ((u.scheme ≡ codes "https") ⊎ P ⊎ (plaintext ≡ true)))
private_test u local plaintext iff =
    let https = text_eq_iff u.scheme (codes "https") in
    let empty = is_empty-nil u.host in
    (λ h. ground (arith, https, empty, iff), λ h. ground (arith, https, empty, iff))

none_missing :
    (cfg : Settings) (secret : Text)
    → (missing_of cfg secret ≡ []) ↔ ((cfg.token_url ≢ []) × (cfg.client_id ≢ []) × (secret ≢ []))
unfolding missing_of
none_missing cfg secret =
    let a = is_empty-nil cfg.token_url in
    let b = is_empty-nil cfg.client_id in
    let c = is_empty-nil secret in (λ h. ground (arith, a, b, c), λ h. ground (arith, a, b, c))

module _ (parse_ip : Text → Option Ip) (parse_url : Text → Option ParsedUrl)
    (read_file : Text → Option Text) where
  -- The name or an address of this machine.
  abbrev pub IsLocal : Text → Type 0
  IsLocal host =
      (equal_fold host (codes "localhost") ≡ true)
      ⊎ (ip : Ip) × (parse_ip host ≡ some ip) × Loopback ip

  is_loopback_host-IsLocal : (host : Text) → (is_loopback_host parse_ip host ≡ true) ↔ IsLocal host
  unfolding is_loopback_host
  is_loopback_host-IsLocal host = elim (Bool-cases (equal_fold host (codes "localhost"))) [
    | inl e ↦ (λ h. inl e, λ h. rw (is_loopback_host, e) refl)
    | inr e ↦ elim (Option-cases (parse_ip host)) [
      | inl none_there ↦ (
        λ h. absurd (cc (rw (is_loopback_host, e, none_there) at h)),
        λ h. elim h [ inl f ↦ absurd (cc) | inr (ip, f, _) ↦ absurd (cc) ],
      )
      | inr (ip, there) ↦ (
        λ h. inr (ip, there, (is_loopback-Loopback ip).0 (rw (is_loopback_host, e, there) at h)),
        λ h. elim h [
          | inl f ↦ absurd (cc)
          | inr (other, f, l) ↦
              rw (is_loopback_host, e, there)
                ((is_loopback-Loopback ip).1
                  (subst Loopback (some-injective other ip (sym f ∙ there)) l))
        ],
      )
    ]
  ]

  -- The token endpoint is reached by https, or by http on this machine.
  abbrev pub TokenUrl : Text → Type 0
  TokenUrl url =
      (u : ParsedUrl) × (parse_url url ≡ some u)
      × (u.host ≢ [])
      × ((u.scheme ≡ codes "https") ⊎ (u.scheme ≡ codes "http") × IsLocal u.hostname)

  -- SearXNG is reached by https, or on this machine, or plain text is allowed for it.
  abbrev pub SearxngUrl : Text → Bool → Type 0
  SearxngUrl url plaintext =
      (u : ParsedUrl) × (parse_url url ≡ some u)
      × (u.host ≢ [])
      × ((u.scheme ≡ codes "https") ⊎ IsLocal u.hostname ⊎ (plaintext ≡ true))

  pub record Ready (cfg : Settings) (oauth_on : Bool) (x : UserTokenExchanger) : Type 0 where
    pub mode : to_lower (trim_space cfg.mode) ≡ codes "exchange"
    pub oauth : oauth_on ≡ true
    pub secret : OneSecret read_file cfg x.client_secret
    pub has_secret : x.client_secret ≢ []
    pub client : (x.client_id ≡ cfg.client_id) × (cfg.client_id ≢ [])
    pub audience : x.audience ≡ cfg.audience
    pub token_url : (x.token_url ≡ cfg.token_url) × (cfg.token_url ≢ []) × TokenUrl cfg.token_url
    pub searxng : SearxngUrl cfg.searxng_url cfg.allow_plaintext

  token_url_ok-TokenUrl :
      (url : Text) → (token_url_ok parse_ip parse_url read_file url ≡ true) ↔ TokenUrl url
  unfolding token_url_ok
  token_url_ok-TokenUrl url = elim (Option-cases (parse_url url)) [
    | inl e ↦ (λ h. absurd (cc (rw (token_url_ok, e) at h)), λ (u, f, _, _). absurd (cc))
    | inr (u, e) ↦
        let test = secure_test u _ (is_loopback_host-IsLocal u.hostname) in
        (
          λ h. let (a, b) = test.0 (rw (token_url_ok, e) at h) in (u, e, a, b),
          λ (v, f, a, b).
              let same : v ≡ u = some-injective v u (sym f ∙ e) in
              rw (token_url_ok, e) (test.1 (rw (same) at a, rw (same) at b)),
        )
  ]

  check_searxng-SearxngUrl :
      (cfg : Settings)
      → (check_searxng parse_ip parse_url read_file cfg ≡ none)
        ↔ SearxngUrl cfg.searxng_url cfg.allow_plaintext
  unfolding check_searxng
  check_searxng-SearxngUrl cfg = elim (Option-cases (parse_url cfg.searxng_url)) [
    | inl e ↦ (λ h. absurd (cc (rw (check_searxng, e) at h)), λ (u, f, _, _). absurd (cc))
    | inr (u, e) ↦
        let test = private_test u _ cfg.allow_plaintext (is_loopback_host-IsLocal u.hostname) in
        (
          λ h. let (a, b) = test.0 (rw (check_searxng, e) at h) in (u, e, a, b),
          λ (v, f, a, b).
              let same : v ≡ u = some-injective v u (sym f ∙ e) in
              rw (check_searxng, e) (test.1 (rw (same) at a, rw (same) at b)),
        )
  ]

  secret_of-OneSecret :
      (cfg : Settings) (secret : Text)
      → (secret_of parse_ip parse_url read_file cfg ≡ inr secret) ↔ OneSecret read_file cfg secret
  unfolding secret_of
  secret_of-OneSecret cfg secret =
      let a = is_empty-nil cfg.client_secret in
      let b = is_empty-nil cfg.client_secret_file in
      (λ h. ground (arith, a, b), λ h. ground (arith, a, b))

  abbrev made : Settings → Text → UserTokenExchanger
  made cfg secret = record {
    token_url = cfg.token_url;
    client_id = cfg.client_id;
    client_secret = secret;
    audience = cfg.audience;
  }

  with_secret-made :
      (cfg : Settings) (secret : Text) (x : UserTokenExchanger)
      → (with_secret parse_ip parse_url read_file cfg secret ≡ inr (some x)) ↔ (
          (made cfg secret ≡ x)
          × (missing_of cfg secret ≡ [])
          × (token_url_ok parse_ip parse_url read_file cfg.token_url ≡ true)
          × (check_searxng parse_ip parse_url read_file cfg ≡ none))
  unfolding with_secret
  with_secret-made cfg secret x = (
    λ h. ground arith,
    λ (same, m, t, c). rw (with_secret, m, t, c) (ap (λ y. inr (some y)) same),
  )

  -- The guards before the secret is read.
  switched_on :
      (cfg : Settings) (oauth_on : Bool) (x : UserTokenExchanger)
      → (new_user_token_exchanger parse_ip parse_url read_file cfg oauth_on ≡ inr (some x)) ↔ (
          (to_lower (trim_space cfg.mode) ≡ codes "exchange")
          × (oauth_on ≡ true)
          × (secret : Text) × (secret_of parse_ip parse_url read_file cfg ≡ inr secret)
          × (with_secret parse_ip parse_url read_file cfg secret ≡ inr (some x)))
  unfolding new_user_token_exchanger text_eq
  switched_on cfg oauth_on x = (
    λ h. ground (arith, text_eq_iff (to_lower (trim_space cfg.mode)) (codes "exchange")),
    λ (m, o, secret, from, rest). rw (new_user_token_exchanger, m, o, from) rest,
  )

  ready :
      (cfg : Settings) (oauth_on : Bool) (x : UserTokenExchanger)
      → new_user_token_exchanger parse_ip parse_url read_file cfg oauth_on ≡ inr (some x)
      → Ready cfg oauth_on x
  ready cfg oauth_on x h =
      let (mode, oauth, secret, from, rest) = (switched_on cfg oauth_on x).0 h in
      let (same, m, t, s) = (with_secret-made cfg secret x).0 rest in
      let (u, c, k) = (none_missing cfg secret).0 m in
      subst (Ready cfg oauth_on) same (record {
        mode = mode;
        oauth = oauth;
        secret = (secret_of-OneSecret cfg secret).0 from;
        has_secret = k;
        client = (refl, c);
        audience = refl;
        token_url = (refl, u, (token_url_ok-TokenUrl cfg.token_url).0 t);
        searxng = (check_searxng-SearxngUrl cfg).0 s;
      })

  made-same :
      (cfg : Settings) (x : UserTokenExchanger)
      → x.token_url ≡ cfg.token_url
      → x.client_id ≡ cfg.client_id
      → x.audience ≡ cfg.audience
      → made cfg x.client_secret ≡ x
  made-same cfg x u c a = λ i. record {
    token_url = sym u i;
    client_id = sym c i;
    client_secret = x.client_secret;
    audience = sym a i;
  }

  -- An exchanger is made just when the mode is "exchange", up to case and space around it, the relay
  -- verifies OAuth tokens, one secret is set, by itself or in a file that can be read, which is not
  -- empty, and neither are the client and the token endpoint's URL; the endpoint is reached by https
  -- or by http on this machine, and SearXNG by https or on this machine, unless plain text is
  -- allowed for it. The exchanger then holds those very settings.
  pub new_user_token_exchanger-Ready :
      (cfg : Settings) (oauth_on : Bool) (x : UserTokenExchanger)
      → (new_user_token_exchanger parse_ip parse_url read_file cfg oauth_on ≡ inr (some x))
        ↔ Ready cfg oauth_on x
  new_user_token_exchanger-Ready cfg oauth_on x = (
    ready cfg oauth_on x,
    λ r. (switched_on cfg oauth_on x).1 (
      r.mode,
      r.oauth,
      x.client_secret,
      (secret_of-OneSecret cfg x.client_secret).1 r.secret,
      (with_secret-made cfg x.client_secret x).1 (
        made-same cfg x r.token_url.0 r.client.0 r.audience,
        (none_missing cfg x.client_secret).1 (r.token_url.1, r.client.1, r.has_secret),
        (token_url_ok-TokenUrl cfg.token_url).1 r.token_url.2,
        (check_searxng-SearxngUrl cfg).1 r.searxng,
      ),
    ),
  )
