-- ===== src/Provenance/Confirm/Single.antt =====
-- A confirmation is redeemed at most once.
use mcp_searxng_relay.Base.{
  ℕ, ◌≤◌, ◌≡◌, refl, ap, ◌∙◌, ◌⊎◌, inl, inr, true, false, none, some, List, [], ◌∷◌, arith, Text,
  All, Bool-cases, Option-cases,
}
use mcp_searxng_relay.Base.Dict.{lookup, lookup-insert_self, lookup-insert_ne}
use mcp_searxng_relay.Provenance.Confirm.{
  Codec, Used, after, purge, authentic, unexpired, live_nonce, spend, redeem,
}

-- What has not expired is not forgotten; nothing else comes up in its place if nonces are there
-- once, so the first entry counts.
purge-kept :
    (now e : ℕ) (n : Text) (used : Used)
    → lookup n used ≡ some e
    → after now e ≡ false
    → lookup n (purge now used) ≡ some e
unfolding lookup purge
purge-kept now e n [] h g = cc
purge-kept now e n ((j, d) ∷ used) h g = ground (arith, purge-kept now e n used)

-- A nonce is spent for an expiry: it is noted with it, or `later` is past the expiry.
abbrev pub Spent : Text → ℕ → ℕ → Used → Type 0
Spent nonce exp later used = (lookup nonce used ≡ some exp) ⊎ (after later exp ≡ true)

after-later : (now later exp : ℕ) → now ≤ later → after now exp ≡ true → after later exp ≡ true
after-later now later exp le h = ground arith

spend-noted :
    (now e exp : ℕ) (nonce n : Text) (used : Used)
    → lookup nonce used ≡ some exp
    → after now exp ≡ false
    → lookup nonce (spend now (n, e) used).1 ≡ some exp
unfolding spend
spend-noted now e exp nonce n used noted live =
    let kept = purge-kept now exp nonce used noted live in
    elim (Option-cases (lookup n (purge now used))) [
      | inr (v, seen) ↦ rw (spend, seen) kept
      | inl unseen ↦
          rw (spend, unseen)
            (lookup-insert_ne n nonce e (purge now used)
                (λ same. absurd (cc (ap (λ k. lookup k (purge now used)) same)))
              ∙ kept)
    ]

-- What a successful locked part leaves behind.
spend-true :
    (now e : ℕ) (n : Text) (used : Used)
    → (spend now (n, e) used).0 ≡ true
    → lookup n (spend now (n, e) used).1 ≡ some e
unfolding spend
spend-true now e n used h = elim (Option-cases (lookup n (purge now used))) [
  | inr (v, seen) ↦ cc (rw (spend, seen) at h)
  | inl unseen ↦ rw (spend, unseen) (lookup-insert_self n e (purge now used))
]

spend-again :
    (now e : ℕ) (n : Text) (used : Used)
    → lookup n used ≡ some e
    → after now e ≡ false
    → (spend now (n, e) used).0 ≡ false
unfolding spend
spend-again now e n used noted live = rw (spend, purge-kept now e n used noted live) refl

-- Which nonce it is does not depend on the reading, only whether it is live.
unexpired-same :
    (now later : ℕ) (ne n : Text) (exp : ℕ)
    → unexpired now ne ≡ some (n, exp)
    → (unexpired later ne ≡ none) ⊎ (unexpired later ne ≡ some (n, exp)) × (after later exp ≡ false)
unfolding unexpired
unexpired-same now later ne n exp h = ground arith

module _ (codec : Codec) (mac : Text → Text → Text) where
  -- A call: its reading of the clock, taken before it waits for the lock, and its arguments.
  pub record Call : Type 0 where
    pub time : ℕ
    pub state : Text
    pub binding : Text

  -- Calls in the order in which they get the lock, whenever they read the clock.
  abbrev pub overlap : List Call → Used → Used
  overlap [] used = used
  overlap (c ∷ cs) used = overlap cs (redeem codec mac c.time c.state c.binding used).1

  redeem-Spent :
      (later exp : ℕ) (nonce : Text) (c : Call) (used : Used)
      → c.time ≤ later
      → Spent nonce exp later used
      → Spent nonce exp later (redeem codec mac c.time c.state c.binding used).1
  unfolding redeem
  redeem-Spent later exp nonce c used le (inr past) = inr past
  redeem-Spent later exp nonce c used le (inl noted) = elim (Bool-cases (after c.time exp)) [
    | inl past ↦ inr (after-later c.time later exp le past)
    | inr live ↦ elim (Option-cases (live_nonce codec mac c.time c.state c.binding)) [
      | inl e ↦ inl (rw (redeem, e) noted)
      | inr ((n, d), e) ↦ inl (rw (redeem, e) (spend-noted c.time d exp nonce n used noted live))
    ]
  ]

  overlap-Spent :
      (later exp : ℕ) (nonce : Text) (cs : List Call) (used : Used)
      → All (λ c. c.time ≤ later) cs
      → Spent nonce exp later used
      → Spent nonce exp later (overlap cs used)
  overlap-Spent later exp nonce [] used le h = h
  overlap-Spent later exp nonce (c ∷ cs) used le h =
      overlap-Spent later exp nonce cs (redeem codec mac c.time c.state c.binding used).1 le.1
        (redeem-Spent later exp nonce c used le.0 h)

  live_nonce-same :
      (now later : ℕ) (state binding : Text) (n : Text) (exp : ℕ)
      → live_nonce codec mac now state binding ≡ some (n, exp)
      → (live_nonce codec mac later state binding ≡ none)
        ⊎ (live_nonce codec mac later state binding ≡ some (n, exp)) × (after later exp ≡ false)
  unfolding live_nonce
  live_nonce-same now later state binding n exp h =
      elim (Option-cases (authentic codec mac state binding)) [
        | inl e ↦ absurd (cc (rw (live_nonce, e) at h))
        | inr (ne, e) ↦
            rw (live_nonce, e) (unexpired-same now later ne n exp (rw (live_nonce, e) at h))
      ]

  redeemed :
      (now : ℕ) (state binding : Text) (used : Used)
      → (redeem codec mac now state binding used).0 ≡ true
      → (n : Text) × (exp : ℕ) × (live_nonce codec mac now state binding ≡ some (n, exp))
        × (lookup n (redeem codec mac now state binding used).1 ≡ some exp)
  unfolding redeem
  redeemed now state binding used h = elim (Option-cases (live_nonce codec mac now state binding)) [
    | inl e ↦ absurd (cc (rw (redeem, e) at h))
    | inr ((n, exp), e) ↦
        (n, exp, e, rw (redeem, e) (spend-true now exp n used (rw (redeem, e) at h)))
  ]

  Spent-refused :
      (now later : ℕ) (state binding n : Text) (exp : ℕ) (used : Used)
      → live_nonce codec mac now state binding ≡ some (n, exp)
      → Spent n exp later used
      → (redeem codec mac later state binding used).0 ≡ false
  unfolding redeem
  Spent-refused now later state binding n exp used e spent =
      elim (live_nonce-same now later state binding n exp e) [
        | inl dead ↦ rw (redeem, dead) refl
        | inr (same, live) ↦ elim spent [
          | inr past ↦ absurd (cc)
          | inl noted ↦ rw (redeem, same) (spend-again later exp n used noted live)
        ]
      ]

  -- A state that was redeemed for a call is not redeemed for it again, whatever is redeemed in
  -- between and however the calls overlap, as long as those that get the lock in between read the
  -- clock no later than the last call does: its nonce stays noted until the clock is past its
  -- expiry.
  pub redeem_once :
      (now later : ℕ) (state binding : Text) (used : Used) (between : List Call)
      → (redeem codec mac now state binding used).0 ≡ true
      → All (λ c. c.time ≤ later) between
      → (redeem codec mac later state binding
          (overlap between (redeem codec mac now state binding used).1)).0
        ≡ false
  redeem_once now later state binding used between h le =
      let (n, exp, e, noted) = redeemed now state binding used h in
      Spent-refused now later state binding n exp
        (overlap between (redeem codec mac now state binding used).1) e
        (overlap-Spent later exp n between (redeem codec mac now state binding used).1 le
          (inl noted))
