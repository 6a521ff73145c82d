-- ===== src/Provenance/Confirm.antt =====
-- Confirmations that can be redeemed once: confirmations, issue and redeem of confirm.go. The MAC,
-- under the process's key, and the base64 codec are parameters, and the 16 random bytes of a nonce
-- are an argument of `issue`. Times are nanoseconds.
pub mod Single
pub mod Issued
use mcp_searxng_relay.GoLib.Binary.{put_uint64, uint64_from}
use mcp_searxng_relay.Base.{
  ℕ, suc, ◌+◌, ◌-◌, ◌*◌, ◌/◌, ◌%◌, ◌^◌, ◌≡◌, Bool, true, false, not, ◌&&◌, ◌||◌, Option, none, some,
  List, [], ◌∷◌, ◌++◌, Text, text_eq, ltb, ◌==◌, if◌then◌else◌, length, take, drop, is_some,
}
use mcp_searxng_relay.Base.Dict.{lookup, insert}
use mcp_searxng_relay.GoLib.Strings.{index_byte}

-- base64.RawURLEncoding: a text decodes to what was encoded, and holds no dot.
pub record Codec : Type 0 where
  pub encode : Text → Text
  pub decode : Text → Option Text
  pub decode-encode : (s : Text) → decode (encode s) ≡ some s
  pub no_dot : (s : Text) → index_byte (encode s) b'.' ≡ none

abbrev pub nanos : ℕ
nanos = 1_000_000_000

-- confirmTTL in seconds
abbrev pub confirm_ttl : ℕ
confirm_ttl = 600

-- From each nonce that was redeemed to its expiry in seconds.
abbrev pub Used : Type 0
Used = List (Text × ℕ)

-- `now.After(exp)`
abbrev pub after : ℕ → ℕ → Bool
after now exp = ltb (exp * nanos) now

-- strings.Cut at a dot
abbrev pub cut_dot : Text → Option (Text × Text)
cut_dot s = elim (index_byte s b'.') [ none ↦ none | some i ↦ some (take i s, drop (suc i) s) ]

-- The loop that forgets what has expired.
unfoldable pub purge : ℕ → Used → Used
purge now [] = []
purge now ((n, e) ∷ used) = let rest = purge now used in if after now e then rest else (n, e) ∷ rest

-- The nonce and the expiry, unless it has passed.
unfoldable pub unexpired : ℕ → Text → Option (Text × ℕ)
unexpired now nonce_exp =
    let exp = uint64_from 0 (drop 16 nonce_exp) in
    if after now exp then none else some (take 16 nonce_exp, exp)

-- What `redeem` does under the lock, with the reading of the clock that it took before, which may be an old one by
-- then. Calls that overlap are interleaved between the two.
unfoldable pub spend : ℕ → Text × ℕ → Used → Bool × Used
unfolding purge
spend now (nonce, exp) used =
    if is_some (lookup nonce (purge now used))
    then (false, purge now used)
    else (true, insert nonce exp (purge now used))

module _ (codec : Codec) (mac : Text → Text → Text) where
  unfoldable pub issue : ℕ → Text → Text → Text
  issue now nonce binding =
      let nonce_exp = nonce ++ put_uint64 ((now + confirm_ttl * nanos) / nanos) in
      codec.encode nonce_exp ++ b'.' ∷ codec.encode (mac nonce_exp binding)

  -- The nonce with its expiry that a state carries, if its form and its MAC are right.
  unfoldable pub authentic : Text → Text → Option Text
  authentic state binding = elim (cut_dot state) [
    | none ↦ none
    | some (a, b) ↦ elim (codec.decode a) [
      | none ↦ none
      | some nonce_exp ↦ elim (codec.decode b) [
        | none ↦ none
        | some sig ↦
            if not (length nonce_exp == 24) || not (text_eq sig (mac nonce_exp binding))
            then none
            else some nonce_exp
      ]
    ]
  ]

  -- What `redeem` does before it takes the lock: the nonce and the expiry of a state that is
  -- authentic and has not expired at `now`, its reading of the clock.
  unfoldable pub live_nonce : ℕ → Text → Text → Option (Text × ℕ)
  unfolding authentic unexpired
  live_nonce now state binding = elim (authentic state binding) [
    | none ↦ none
    | some nonce_exp ↦ unexpired now nonce_exp
  ]

  unfoldable pub redeem : ℕ → Text → Text → Used → Bool × Used
  unfolding live_nonce spend
  redeem now state binding used = elim (live_nonce now state binding) [
    | none ↦ (false, used)
    | some n ↦ spend now n used
  ]
