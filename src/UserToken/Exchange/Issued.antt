-- ===== src/UserToken/Exchange/Issued.antt =====
-- Whose token a search is sent with, however the calls are interleaved.
use mcp_searxng_relay.Base.{
  ℕ, ◌<◌, ◌≡◌, refl, sym, ap, ◌∙◌, ◌⊎◌, inl, inr, Bool, true, false, Option, some, arith, Text,
  text_eq-cases, ltb, Bool-cases, Option-cases,
}
use mcp_searxng_relay.GoLib.Lru.{Lru}
use mcp_searxng_relay.UserToken.Answer.{CachedUserToken, Answer, RequestError, request, is_empty}
use mcp_searxng_relay.UserToken.Exchange.{
  Form, form_of, sent, exchanged, cached, cached_token, store, fetch_token, exchange, answer_search,
  user_token_for_search,
}

module _ (L : Lru CachedUserToken) (sha256 : Text → Text) (endpoint : ℕ → Form → Option Answer)
    (audience : Text) where
  -- The caches that the calls can leave behind, each part under the mutex a step of its own.
  pub data Reachable : L.Cache → Type 0 where
    start : Reachable L.empty
    look :
        (key : Text) (now : ℕ) (c : L.Cache)
        → Reachable c
        → Reachable (cached_token L sha256 key now c).1
    keep :
        (n : ℕ) (subject : Text) (started : ℕ) (t : CachedUserToken) (c : L.Cache)
        → request (endpoint n (form_of audience subject)) started ≡ inr t
        → Reachable c
        → Reachable (store L sha256 (sha256 subject) t c)

  -- The endpoint gave the token to a subject with this digest.
  pub record Issued (key : Text) (t : CachedUserToken) : Type 0 where
    pub n : ℕ
    pub subject : Text
    pub started : ℕ
    pub digest : sha256 subject ≡ key
    pub answered : request (endpoint n (form_of audience subject)) started ≡ inr t

  removed_old :
      (c : L.Cache) (key j : Text) (t : CachedUserToken)
      → L.peek (L.remove c key) j ≡ some t
      → L.peek c j ≡ some t
  removed_old c key j t h = elim (text_eq-cases key j) [
    | inl (_, e) ↦ absurd (cc (rw (← e) at h, L.peek-remove_self c key))
    | inr (_, ne) ↦ cc (L.peek-remove_ne c key j ne)
  ]

  cached_token_old :
      (key j : Text) (now : ℕ) (c : L.Cache) (t : CachedUserToken)
      → L.peek (cached_token L sha256 key now c).1 j ≡ some t
      → L.peek c j ≡ some t
  unfolding cached_token
  cached_token_old key j now c t h =
      let same = L.peek-get c key j in
      let gone = removed_old (L.get c key) key j t in
      elim (Option-cases (L.peek c key)) [
        | inl e ↦ sym same ∙ (rw (cached_token, e) at h)
        | inr (u, e) ↦ elim (Bool-cases (ltb now u.expires)) [
          | inl f ↦ sym same ∙ (rw (cached_token, e, f) at h)
          | inr f ↦ sym same ∙ gone (rw (cached_token, e, f) at h)
        ]
      ]

  store_cases :
      (key j : Text) (t u : CachedUserToken) (c : L.Cache)
      → L.peek (store L sha256 key t c) j ≡ some u
      → ((key ≡ j) × (t ≡ u)) ⊎ (L.peek c j ≡ some u)
  unfolding store
  store_cases key j t u c h = elim (text_eq-cases key j) [
    | inl (_, e) ↦ inl (e, cc (rw (← e) at h, L.peek-add_self c key t))
    | inr (_, ne) ↦ inr (elim (L.peek-add_ne c key j t ne) [ inl gone ↦ cc | inr kept ↦ cc ])
  ]

  peek-Issued :
      (c : L.Cache)
      → Reachable c
      → (key : Text) (t : CachedUserToken) → L.peek c key ≡ some t
      → Issued key t
  peek-Issued c start key t h = absurd (cc (L.peek-empty key))
  peek-Issued c (look k now c0 r) key t h =
      peek-Issued c0 r key t (cached_token_old k key now c0 t h)
  peek-Issued c (keep n s started t0 c0 a r) key t h = elim (store_cases (sha256 s) key t0 t c0 h) [
    | inl (k, e) ↦ record {
      n = n;
      subject = s;
      started = started;
      digest = k;
      answered = a ∙ ap inr e;
    }
    | inr old ↦ peek-Issued c0 r key t old
  ]

  cached_token_hit :
      (key : Text) (now : ℕ) (c : L.Cache) (tok : Text)
      → (cached_token L sha256 key now c).0 ≡ some tok
      → (t : CachedUserToken) × (L.peek c key ≡ some t) × (t.token ≡ tok) × (now < t.expires)
  unfolding cached_token
  cached_token_hit key now c tok h = elim (Option-cases (L.peek c key)) [
    | inl e ↦ absurd (cc (rw (cached_token, e) at h))
    | inr (u, e) ↦ elim (Bool-cases (ltb now u.expires)) [
      | inl f ↦ (u, e, cc (rw (cached_token, e, f) at h), ground (arith, f))
      | inr f ↦ absurd (cc (rw (cached_token, e, f) at h))
    ]
  ]

  -- How an exchange ends: with the cached token, a new one or an error.
  pub data Ended (n : ℕ) (subject : Text) (now : ℕ) (c : L.Cache) : Type 0 where
    hit :
        (tok : Text)
        → (cached_token L sha256 (sha256 subject) now c).0 ≡ some tok
        → exchange L sha256 endpoint audience n subject now c
          ≡ (inr (tok, true), (cached_token L sha256 (sha256 subject) now c).1)
        → Ended n subject now c
    given :
        (t : CachedUserToken)
        → request (endpoint n (form_of audience subject)) now ≡ inr t
        → exchange L sha256 endpoint audience n subject now c ≡ (
          inr (t.token, false),
          store L sha256 (sha256 subject) t (cached_token L sha256 (sha256 subject) now c).1,
        )
        → Ended n subject now c
    lost :
        (e : RequestError)
        → exchange L sha256 endpoint audience n subject now c
          ≡ (inl e, (cached_token L sha256 (sha256 subject) now c).1)
        → Ended n subject now c

  result-cases :
      (s : RequestError ⊎ CachedUserToken)
      → ((e : RequestError) × (s ≡ inl e)) ⊎ ((t : CachedUserToken) × (s ≡ inr t))
  result-cases (inl e) = inl (e, refl)
  result-cases (inr t) = inr (t, refl)

  exchange-Ended : (n : ℕ) (subject : Text) (now : ℕ) (c : L.Cache) → Ended n subject now c
  unfolding exchange fetch_token
  exchange-Ended n subject now c =
      elim (Option-cases (cached_token L sha256 (sha256 subject) now c).0) [
        | inr (tok, e) ↦ hit tok e (rw (exchange, e) refl)
        | inl e ↦ elim (result-cases (request (endpoint n (form_of audience subject)) now)) [
          | inl (x, f) ↦ lost x (rw (exchange, e, fetch_token, f) refl)
          | inr (t, f) ↦ given t f (rw (exchange, e, fetch_token, f) refl)
        ]
      ]

  exchange-Reachable :
      (n : ℕ) (subject : Text) (now : ℕ) (c : L.Cache)
      → Reachable c
      → Reachable (exchange L sha256 endpoint audience n subject now c).1
  exchange-Reachable n subject now c r =
      let looked = look (sha256 subject) now c r in
      elim (exchange-Ended n subject now c) [
        | hit tok e same ↦ rw same looked
        | given t f same ↦ rw same (keep n subject now t _ f looked)
        | lost x same ↦ rw same looked
      ]

  search_ready :
      (enabled : Bool) (n : ℕ) (subject : Text) (now : ℕ) (c : L.Cache)
      → enabled ≡ true
      → is_empty subject ≡ false
      → user_token_for_search L sha256 endpoint audience enabled n subject now c ≡ (
        answer_search L sha256 endpoint audience
            (exchange L sha256 endpoint audience n subject now c).0,
        (exchange L sha256 endpoint audience n subject now c).1,
      )
  unfolding user_token_for_search exchange
  search_ready enabled n subject now c e f = rw (user_token_for_search, e, f) refl

  -- Whichever way the calls were interleaved before, a search is sent with a token that the
  -- endpoint gave to a caller of the same digest: in this very call, which is then counted as
  -- exchanged, or earlier and not expired yet, which is then counted as cached. The caller has a
  -- verified token, and the cache that is left behind is reachable again.
  pub user_token_for_search-Issued :
      (enabled : Bool) (n : ℕ) (subject : Text) (now : ℕ) (c : L.Cache) (tok : Text)
      → Reachable c
      → let r = user_token_for_search L sha256 endpoint audience enabled n subject now c in
        r.0.0 ≡ sent tok
        → (enabled ≡ true)
          × (is_empty subject ≡ false)
          × Reachable r.1
          × (t : CachedUserToken) × (t.token ≡ tok)
          × ((r.0.1 ≡ some exchanged)
                × (request (endpoint n (form_of audience subject)) now ≡ inr t)
              ⊎ (r.0.1 ≡ some cached) × (now < t.expires) × Issued (sha256 subject) t)
  unfolding user_token_for_search
  user_token_for_search-Issued enabled n subject now c tok r h = elim (Bool-cases enabled) [
    | inr e ↦ absurd (cc (rw (user_token_for_search, e) at h))
    | inl e ↦ elim (Bool-cases (is_empty subject)) [
      | inl f ↦ absurd (cc (rw (user_token_for_search, e, f) at h))
      | inr f ↦
          let whole = search_ready enabled n subject now c e f in
          elim (exchange-Ended n subject now c) [
            | hit old q same ↦
                let (t, p, k, live) = cached_token_hit (sha256 subject) now c old q in
                let h' = rw (whole, same) at h in
                rw (whole, same)
                  (
                    e,
                    f,
                    look (sha256 subject) now c r,
                    t,
                    cc,
                    inr (refl, live, peek-Issued c r (sha256 subject) t p),
                  )
            | given t a same ↦
                let h' = rw (whole, same) at h in
                rw (whole, same)
                  (
                    e,
                    f,
                    keep n subject now t _ a (look (sha256 subject) now c r),
                    t,
                    cc,
                    inl (refl, a),
                  )
            | lost x same ↦ absurd (cc (rw (whole, same) at h))
          ]
    ]
  ]
