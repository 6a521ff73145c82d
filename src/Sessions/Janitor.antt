-- ===== src/Sessions/Janitor.antt =====
-- handleInitialized and reapStaleSessions of server.go. The sessions are a Go map from their id;
-- a live session of the SDK is named by a number. A time is in nanoseconds.
pub mod Reaped
use mcp_searxng_relay.Base.{
  ℕ, zero, suc, ◌+◌, ◌-◌, ◌*◌, ◌≤◌, ◌<◌, min, max, ◌≡◌, refl, sym, ap, subst, ◌∙◌, ◌≢◌, ◌↔◌, ◌⊎◌,
  inl, inr, Bool, true, false, not, ◌&&◌, ◌||◌, Option, none, some, List, [], ◌∷◌, ◌++◌, map,
  append_assoc, append-nil, arith, Text, codes, text_eq, text_eq_iff, text_eq_refl, text_eq-cases,
  ltb, leb, ◌==◌, ==_iff, if◌then◌else◌, length, get_elem?, set, take, drop, length-append,
  length-set, length-take, length-drop, get_elem?-set_self, get_elem?-set_ne, get_elem?-lt, All,
  All-append, get_elem?-append_left, get_elem?-concat_last, get_elem?-set_cases,
  get_elem?-concat_cases, Bool-cases, Option-cases, is_some,
}
use mcp_searxng_relay.Base.Dict.{lookup, insert}

pub record SessionInfo : Type 0 where
  pub identity : Text
  pub created_at : ℕ

abbrev pub Sessions : Type 0
Sessions = List (Text × SessionInfo)

unfoldable pub handle_initialized : Text → Text → ℕ → Sessions → Sessions
handle_initialized sid identity now ss =
    insert sid (record { identity = identity; created_at = now }) ss

-- The sessions that the SDK lists, by id.
unfoldable pub live_map : List (Text × ℕ) → List (Text × ℕ) → List (Text × ℕ)
live_map [] live = live
live_map ((sid, sess) ∷ all_sessions) live = live_map all_sessions (insert sid sess live)

pub record Pass : Type 0 where
  pub sessions : Sessions
  pub to_close : List ℕ
  pub closed : ℕ
  pub stale : ℕ

-- One round of the loop over the tracked sessions, of which `p` is the result for the others.
unfoldable pub reap_one : List (Text × ℕ) → ℕ → ℕ → Text → SessionInfo → Pass → Pass
reap_one live now max_age sid info p = elim (lookup sid live) [
  | none ↦ record p { stale = suc p.stale }
  | some sess ↦
      if ltb max_age (now - info.created_at)
      then record p { to_close = sess ∷ p.to_close; closed = suc p.closed }
      else record p { sessions = (sid, info) ∷ p.sessions }
]

unfoldable pub reap : List (Text × ℕ) → ℕ → ℕ → Sessions → Pass
reap live now max_age [] = record { sessions = []; to_close = []; closed = 0; stale = 0 }
reap live now max_age ((sid, info) ∷ ss) =
    let p = reap live now max_age ss in reap_one live now max_age sid info p

-- The SDK's sessions, the clock and the greatest age; the sessions in `to_close` are closed.
unfoldable pub reap_stale_sessions : List (Text × ℕ) → ℕ → ℕ → Sessions → Pass
reap_stale_sessions all_sessions now max_age ss = reap (live_map all_sessions []) now max_age ss
