-- ===== src/History/Key.antt =====
-- historyKey of history.go: the key of a caller's history, from the identity and the session that
-- the request's context carries.
use mcp_searxng_relay.Base.{append-injective}
use mcp_searxng_relay.Base.{◌≡◌, arith, ◌∷◌, ◌++◌, Text, length}
use mcp_searxng_relay.GoLib.Strconv.{itoa, itoa_prefix, IsDigit}

unfoldable pub history_key : Text → Text → Text
history_key identity session = itoa (length identity) ++ b'|' ∷ (identity ++ b'|' ∷ session)

bar-IsDigit : ¬ IsDigit b'|'
bar-IsDigit (lo, hi) = absurd (omega (arith, hi))

-- No two callers share a history: equal keys come from equal identities and equal sessions,
-- whatever bytes either holds, the delimiter included.
pub history_key-injective :
    (identity identity' session session' : Text)
    → history_key identity session ≡ history_key identity' session'
    → (identity ≡ identity') × (session ≡ session')
unfolding history_key
history_key-injective i i' s s' e =
    let (n, rest) =
      itoa_prefix b'|' bar-IsDigit (i ++ b'|' ∷ s) (i' ++ b'|' ∷ s') (length i) (length i') e in
    let (p, q) = append-injective i i' (b'|' ∷ s) (b'|' ∷ s') n rest in (p, cc)
