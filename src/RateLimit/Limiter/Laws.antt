-- ===== src/RateLimit/Limiter/Laws.antt =====
-- The table of buckets refines a map from caller keys to buckets: each call works on the caller's
-- own bucket, and touches no other.
use mcp_searxng_relay.Base.{
  ℕ, ◌≡◌, ◌≢◌, refl, sym, ap, ◌∙◌, ◌⊎◌, inl, inr, Bool, none, some, Text, arith, get_elem?, set,
  length-set, get_elem?-set_self, get_elem?-set_ne, get_elem?-lt, Option-cases, ◌<◌, lt→ltb,
}
use mcp_searxng_relay.GoLib.Lru.{Lru}
use mcp_searxng_relay.RateLimit.Bucket
use mcp_searxng_relay.RateLimit.Bucket.{TokenBucket, new_bucket}
use mcp_searxng_relay.RateLimit.Limiter.{
  RateLimiter, enabled, Table, bucket_for, at_bucket, allow, peek,
}
use mcp_searxng_relay.RateLimit.Limiter.Found
use mcp_searxng_relay.RateLimit.Limiter.Found.{IsValid, Found, bucket_of, current, bucket_for-Found}

module _ (L : Lru ℕ) where
  abbrev Method : Type 0
  Method = TokenBucket → (Bool × ℕ) × TokenBucket

  -- The outcome of one call as a call on the map from keys to buckets: the decision and the new
  -- bucket are the method's on the key's own bucket, which is a fresh one on first contact, and
  -- every other key keeps its bucket or has been evicted.
  pub record Refines (method : TokenBucket → (Bool × ℕ) × TokenBucket) (key : Text) (t : Table L)
      (r : (Bool × ℕ) × Table L) : Type 0 where
    pub decision : r.0 ≡ (method (current L (bucket_of L t key))).0
    pub own : bucket_of L r.1 key ≡ some (method (current L (bucket_of L t key))).1
    pub others :
        (j : Text) → key ≢ j → (bucket_of L r.1 j ≡ none) ⊎ (bucket_of L r.1 j ≡ bucket_of L t j)
    pub valid : IsValid L r.1

  at_bucket_found :
      (method : Method) (p : ℕ) (t : Table L) (b : TokenBucket)
      → get_elem? t.heap p ≡ some b
      → at_bucket L method p t ≡ ((method b).0, record t { heap = set t.heap p (method b).1 })
  unfolding at_bucket
  at_bucket_found method p t b e = rw (e, at_bucket)

  set-others :
      (key : Text) (t t' : Table L) (p : ℕ) (b : TokenBucket) (j : Text)
      → Found L key t p t'
      → key ≢ j
      → let t'' = record t' { heap = set t'.heap p b } in
        (bucket_of L t'' j ≡ none) ⊎ (bucket_of L t'' j ≡ bucket_of L t j)
  set-others key t t' p b j f ne =
      let t'' = record t' { heap = set t'.heap p b } in
      elim (Option-cases (L.peek t'.cache j)) [
        | inl gone ↦ inl (Found.bucket_of_eq L t'' j none gone)
        | inr (q, there) ↦
            let apart : p ≢ q = λ e. ne (f.valid.distinct key j q (f.cached ∙ ap some e) there) in
            let same : bucket_of L t'' j ≡ bucket_of L t' j =
              Found.bucket_of_eq L t'' j (some q) there
              ∙ get_elem?-set_ne t'.heap p q b apart
              ∙ sym (Found.bucket_of_eq L t' j (some q) there) in
            elim (f.others j ne) [ inl gone ↦ inl (same ∙ gone) | inr kept ↦ inr (same ∙ kept) ]
      ]

  at_bucket-Refines :
      (method : Method) (key : Text) (t t' : Table L) (p : ℕ)
      → Found L key t p t'
      → Refines method key t (at_bucket L method p t')
  at_bucket-Refines method key t t' p f =
      let b = current L (bucket_of L t key) in
      let in_heap = get_elem?-lt t'.heap p b f.bucket in
      let t'' = record t' { heap = set t'.heap p (method b).1 } in
      rw (at_bucket_found method p t' b f.bucket) (record {
        decision = refl;
        own =
            Found.bucket_of_eq L t'' key (some p) f.cached
            ∙ get_elem?-set_self t'.heap p (method b).1 in_heap;
        others = λ j ne. set-others key t t' p (method b).1 j f ne;
        valid = record {
          in_heap =
              λ k q h. omega (arith, length-set t'.heap p (method b).1, f.valid.in_heap k q h);
          distinct = λ j k q h g. f.valid.distinct j k q h g;
        };
      })

  module _ (rl : RateLimiter) (now : ℕ) (key : Text) (t : Table L) (on : 0 < rl.rate)
      (v : IsValid L t) where
    -- With a positive rate, `allow` and `peek` are the bucket's own methods of these names, on the
    -- caller's bucket: the decision is that bucket's, no other caller's bucket changes but by
    -- eviction, and the table stays valid.
    pub allow_peek_refine :
        Refines (Bucket.allow rl.rate rl.burst now) key t (allow L rl now key t)
        × Refines (Bucket.peek rl.rate rl.burst now) key t (peek L rl now key t)
    unfolding allow peek enabled
    allow_peek_refine =
        let f = bucket_for-Found L key t v in
        let (p, t') = bucket_for L key t in
        rw (lt→ltb _ _ on) (
          at_bucket-Refines (Bucket.allow rl.rate rl.burst now) key t t' p f,
          at_bucket-Refines (Bucket.peek rl.rate rl.burst now) key t t' p f,
        )
