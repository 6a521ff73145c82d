-- ===== src/Sessions/Janitor/Reaped.antt =====
-- What a pass of the janitor leaves, closes and counts.
use mcp_searxng_relay.Base.{
  sym, ℕ, suc, ◌+◌, ◌-◌, ◌≡◌, refl, ◌∙◌, inl, inr, Bool, not, ◌&&◌, Option, none, some, List, [],
  ◌∷◌, arith, Text, text_eq, text_eq-cases, ltb, if◌then◌else◌, length, Bool-cases, Option-cases,
  is_some,
}
use mcp_searxng_relay.Base.Dict.{lookup, insert, lookup-insert_ne}
use mcp_searxng_relay.Sessions.Janitor.{
  handle_initialized, reap, reap_one, SessionInfo, Sessions, Pass, live_map, reap_stale_sessions,
}

-- No id stands twice.
pub data IsMap : Sessions → Type 0 where
  nil : IsMap []
  cons :
      (sid : Text) (info : SessionInfo) (ss : Sessions)
      → lookup sid ss ≡ none
      → IsMap ss
      → IsMap ((sid, info) ∷ ss)

-- What is left of an entry.
abbrev pub left_of : Bool → ℕ → ℕ → Option SessionInfo → Option SessionInfo
left_of alive now max_age none = none
left_of alive now max_age (some info) =
    if alive && not (ltb max_age (now - info.created_at)) then some info else none

pub record Reaped (live : List (Text × ℕ)) (now max_age : ℕ) (ss : Sessions) (p : Pass)
    : Type 0 where
  pub left :
      (sid : Text)
      → lookup sid p.sessions ≡ left_of (is_some (lookup sid live)) now max_age (lookup sid ss)
  pub counted : length p.sessions + p.closed + p.stale ≡ length ss
  pub closing : length p.to_close ≡ p.closed
  pub map_ : IsMap p.sessions

reap_one-cases :
    (live : List (Text × ℕ)) (now max_age : ℕ) (sid : Text) (info : SessionInfo) (p : Pass)
    → (length (reap_one live now max_age sid info p).sessions
          + (reap_one live now max_age sid info p).closed
          + (reap_one live now max_age sid info p).stale
        ≡ suc (length p.sessions + p.closed + p.stale))
      × (length p.to_close ≡ p.closed
          → length (reap_one live now max_age sid info p).to_close
            ≡ (reap_one live now max_age sid info p).closed)
unfolding reap_one
reap_one-cases live now max_age sid info p = ground arith

reap_one-lookup :
    (live : List (Text × ℕ)) (now max_age : ℕ) (sid : Text) (info : SessionInfo) (p : Pass)
    → (k : Text) → lookup sid p.sessions ≡ none
    → lookup k (reap_one live now max_age sid info p).sessions ≡ (
        if text_eq sid k
        then left_of (is_some (lookup sid live)) now max_age (some info)
        else lookup k p.sessions)
unfolding reap_one lookup
reap_one-lookup live now max_age sid info p k h = elim (text_eq-cases sid k) [
  | inl (t, same) ↦ elim (Option-cases (lookup sid live)) [
    | inl e ↦ rw (reap_one, e, t) (rw (← same) h)
    | inr (x, e) ↦ elim (Bool-cases (ltb max_age (now - info.created_at))) [
      | inl f ↦ rw (reap_one, e, f, t) (rw (← same) h)
      | inr f ↦ rw (reap_one, e, f, t, lookup) refl
    ]
  ]
  | inr (t, _) ↦ elim (Option-cases (lookup sid live)) [
    | inl e ↦ rw (reap_one, e, t) refl
    | inr (x, e) ↦ elim (Bool-cases (ltb max_age (now - info.created_at))) [
      | inl f ↦ rw (reap_one, e, f, t) refl
      | inr f ↦ rw (reap_one, e, f, t, lookup) refl
    ]
  ]
]

reap_one-IsMap :
    (live : List (Text × ℕ)) (now max_age : ℕ) (sid : Text) (info : SessionInfo) (p : Pass)
    → lookup sid p.sessions ≡ none
    → IsMap p.sessions
    → IsMap (reap_one live now max_age sid info p).sessions
unfolding reap_one
reap_one-IsMap live now max_age sid info p h m = elim (Option-cases (lookup sid live)) [
  | inl e ↦ rw (reap_one, e) m
  | inr (x, e) ↦ elim (Bool-cases (ltb max_age (now - info.created_at))) [
    | inl f ↦ rw (reap_one, e, f) m
    | inr f ↦ rw (reap_one, e, f) (cons sid info p.sessions h m)
  ]
]

step-Reaped :
    (live : List (Text × ℕ)) (now max_age : ℕ) (sid : Text) (info : SessionInfo) (ss : Sessions)
    (p : Pass)
    → lookup sid ss ≡ none
    → Reaped live now max_age ss p
    → Reaped live now max_age ((sid, info) ∷ ss) (reap_one live now max_age sid info p)
unfolding lookup
step-Reaped live now max_age sid info ss p fresh r =
    let gone : lookup sid p.sessions ≡ none = r.left sid ∙ (rw fresh refl) in
    let (all, close) = reap_one-cases live now max_age sid info p in
    record {
      left = λ k. reap_one-lookup live now max_age sid info p k gone ∙ elim (text_eq-cases sid k) [
        | inl (t, same) ↦ rw (t, same) refl
        | inr (t, _) ↦ rw (t) (r.left k)
      ];
      counted = omega (arith, all, r.counted);
      closing = close r.closing;
      map_ = reap_one-IsMap live now max_age sid info p gone r.map_;
    }

reap-Reaped :
    (live : List (Text × ℕ)) (now max_age : ℕ) (ss : Sessions)
    → IsMap ss
    → Reaped live now max_age ss (reap live now max_age ss)
unfolding reap lookup
reap-Reaped live now max_age [] nil = record {
  left = λ sid. refl;
  counted = refl;
  closing = refl;
  map_ = nil;
}
reap-Reaped live now max_age _ (cons sid info ss fresh m) =
    step-Reaped live now max_age sid info ss (reap live now max_age ss) fresh
      (reap-Reaped live now max_age ss m)

-- A pass of the janitor keeps just the tracked sessions that are live and no older than the
-- greatest age, with what is noted of them; it counts every other session once, as closed or as
-- stale, and closes as many sessions as it counts.
pub reap_stale_sessions-Reaped :
    (all_sessions : List (Text × ℕ)) (now max_age : ℕ) (ss : Sessions)
    → IsMap ss
    → Reaped
        (live_map all_sessions [])
        now
        max_age
        ss
        (reap_stale_sessions all_sessions now max_age ss)
unfolding reap_stale_sessions
reap_stale_sessions-Reaped all_sessions now max_age ss m =
    reap-Reaped (live_map all_sessions []) now max_age ss m

-- A session that is initialized keeps the map in shape.
pub handle_initialized-IsMap :
    (sid identity : Text) (now : ℕ) (ss : Sessions)
    → IsMap ss
    → IsMap (handle_initialized sid identity now ss)
unfolding handle_initialized insert lookup
handle_initialized-IsMap sid identity now [] nil =
    cons sid (record { identity = identity; created_at = now }) [] refl nil
handle_initialized-IsMap sid identity now _ (cons k info ss fresh m) =
    let new : SessionInfo = record { identity = identity; created_at = now } in
    elim (text_eq-cases k sid) [
      | inl (t, same) ↦ rw (insert, t) (cons sid new ss (rw (← same) fresh) m)
      | inr (t, ne) ↦
          rw (insert, t)
            (cons k info (insert sid new ss)
              (lookup-insert_ne sid k new ss (λ e. ne (sym e)) ∙ fresh)
              (handle_initialized-IsMap sid identity now ss m))
    ]
