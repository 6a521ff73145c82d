-- ===== src/UserToken/Answer/Lifetime.antt =====
-- What an answer that is accepted looks like, and how long its token is kept.
use mcp_searxng_relay.Base.{
  subst, some, inr, Option, ◌^◌, ℕ, zero, suc, ◌+◌, ◌≤◌, ◌<◌, min, ◌≡◌, refl, ◌⊎◌, true, false,
  none, arith, Text, codes, length,
}
use mcp_searxng_relay.Base.Int.{ℤ, pos, negsuc}
use mcp_searxng_relay.GoLib.Strings.{equal_fold}
use mcp_searxng_relay.UserToken.Answer.{
  request, seconds, early_renewal, max_lifetime, max_user_token_bytes, CachedUserToken, Answer,
  all_visible, valid_header_token, lifetime, capped, expires_at, expiry, is_empty,
}

expiry_capped : (started : ℕ) (n : ℤ) → expiry started n ≤ started + seconds 570
unfolding expiry lifetime capped expires_at
expiry_capped started (negsuc n) = omega arith
expiry_capped started (pos zero) = omega arith
expiry_capped started (pos (suc n)) = ground arith

-- Not even when the provider's number of seconds overflows.
expiry_stated : (started m : ℕ) → expiry started (pos (suc m)) ≤ started + seconds (suc m)
unfolding expiry lifetime capped expires_at
expiry_stated started m = ground arith

-- The early renewal, for a number of seconds that a duration can hold.
expiry_early :
    (started m : ℕ)
    → 30 < m
    → seconds m < 2 ^ 63
    → expiry started (pos m) + early_renewal ≡ started + min (seconds m) max_lifetime
unfolding expiry lifetime capped expires_at
expiry_early started zero h b = absurd (omega (arith, h))
expiry_early started (suc m) h b = ground arith

-- An answer that gives a token, with what is kept of it.
pub record Accepted (a : Answer) (started : ℕ) (t : CachedUserToken) : Type 0 where
  pub status : a.status_code ≡ 200
  pub token : t.token ≡ a.access_token
  pub some_token : is_empty t.token ≡ false
  pub token_type :
      (is_empty a.token_type ≡ true) ⊎ (equal_fold a.token_type (codes "bearer") ≡ true)
  pub visible : all_visible t.token ≡ true
  pub bounded : length t.token ≤ max_user_token_bytes
  pub kept : t.expires ≤ started + seconds 570
  pub stated : (m : ℕ) → a.expires_in ≡ pos (suc m) → t.expires ≤ started + seconds (suc m)
  pub early :
      (m : ℕ)
      → a.expires_in ≡ pos m
      → 30 < m
      → seconds m < 2 ^ 63
      → t.expires + early_renewal ≡ started + min (seconds m) max_lifetime

header_token_good :
    (tok : Text)
    → valid_header_token tok ≡ none
    → (length tok ≤ max_user_token_bytes) × (all_visible tok ≡ true)
unfolding valid_header_token
header_token_good tok h = ground arith

accept :
    (a : Answer) (started : ℕ)
    → a.status_code ≡ 200
    → is_empty a.access_token ≡ false
    → (is_empty a.token_type ≡ true) ⊎ (equal_fold a.token_type (codes "bearer") ≡ true)
    → valid_header_token a.access_token ≡ none
    → Accepted a started (record { token = a.access_token; expires = expiry started a.expires_in })
accept a started s e t v =
    let good = header_token_good a.access_token v in
    record {
      status = s;
      token = refl;
      some_token = e;
      token_type = t;
      visible = good.1;
      bounded = good.0;
      kept = expiry_capped started a.expires_in;
      stated = λ m h. rw (h) (expiry_stated started m);
      early = λ m h lt b. rw (h) (expiry_early started m lt b);
    }

request-some :
    (a : Answer) (started : ℕ) (t : CachedUserToken)
    → request (some a) started ≡ inr t
    → (a.status_code ≡ 200)
      × (is_empty a.access_token ≡ false)
      × ((is_empty a.token_type ≡ true) ⊎ (equal_fold a.token_type (codes "bearer") ≡ true))
      × (valid_header_token a.access_token ≡ none)
      × (record { token = a.access_token; expires = expiry started a.expires_in } ≡ t)
unfolding request
request-some a started t h = ground arith

-- A request that gives a token got an answer with status 200, whose access_token it is: not empty,
-- of visible ASCII only and of 8192 bytes at most, with no token_type or the type Bearer. It is
-- kept for 570 seconds at most and never beyond the expires_in that the answer states, even where
-- the duration overflows; for more than 30 seconds that a duration can hold, it is kept until 30
-- seconds before they, or before 10 minutes, are over.
pub request-Accepted :
    (answer : Option Answer) (started : ℕ) (t : CachedUserToken)
    → request answer started ≡ inr t
    → (a : Answer) × (answer ≡ some a) × Accepted a started t
unfolding request
request-Accepted none started t h = cc
request-Accepted (some a) started t h =
    let (s, e, k, v, same) = request-some a started t h in
    (a, refl, subst (λ u. Accepted a started u) same (accept a started s e k v))
