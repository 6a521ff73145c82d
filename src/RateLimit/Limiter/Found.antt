-- ===== src/RateLimit/Limiter/Found.antt =====
-- bucketFor: whose bucket it gives, and that the table stays valid.
use mcp_searxng_relay.Base.{
  ℕ, zero, suc, ◌<◌, ◌≡◌, ◌≢◌, refl, sym, ap, ◌∙◌, ◌⊎◌, inl, inr, Option, none, some, List, [], ◌∷◌,
  ◌++◌, Text, text_eq-cases, arith, length, get_elem?, length-append, get_elem?-append_left,
  get_elem?-concat_last, Option-cases,
}
use mcp_searxng_relay.GoLib.Lru.{Lru}
use mcp_searxng_relay.RateLimit.Bucket.{TokenBucket, new_bucket}
use mcp_searxng_relay.RateLimit.Limiter.{Table, empty_table, get_bucket, peek_or_add, bucket_for}

module _ (L : Lru ℕ) where
  -- Every cached pointer names a bucket, and no two keys share one.
  pub record IsValid (t : Table L) : Type 0 where
    pub in_heap : (k : Text) (p : ℕ) → L.peek t.cache k ≡ some p → p < length t.heap
    pub distinct :
        (j k : Text) (p : ℕ) → L.peek t.cache j ≡ some p → L.peek t.cache k ≡ some p → j ≡ k

  -- The bucket that a key has, if any.
  abbrev pub bucket_of : Table L → Text → Option TokenBucket
  bucket_of t k = elim (L.peek t.cache k) [ none ↦ none | some p ↦ get_elem? t.heap p ]

  -- The bucket that a call for the key works on.
  abbrev pub current : Option TokenBucket → TokenBucket
  current none = new_bucket
  current (some b) = b

  pub empty-IsValid : IsValid (empty_table L)
  unfolding empty_table
  empty-IsValid = record {
    in_heap = λ k p h. cc (L.peek-empty k);
    distinct = λ j k p h g. cc (L.peek-empty j);
  }

  peek_or_add_hit :
      (key : Text) (t : Table L) (p : ℕ)
      → L.peek t.cache key ≡ some p
      → peek_or_add L key t ≡ (p, record { heap = t.heap ++ new_bucket ∷ []; cache = t.cache })
  unfolding peek_or_add
  peek_or_add_hit key t p h = rw (h, peek_or_add)

  peek_or_add_miss :
      (key : Text) (t : Table L)
      → L.peek t.cache key ≡ none
      → peek_or_add L key t ≡ (
        length t.heap,
        record { heap = t.heap ++ new_bucket ∷ []; cache = L.add t.cache key (length t.heap) },
      )
  unfolding peek_or_add
  peek_or_add_miss key t h = rw (h, peek_or_add)

  -- Two requests of one caller that both miss in `Get` end up with one and the same bucket, the
  -- one that the first of them installed: the loser's candidate is not used.
  pub race_converges :
      (key : Text) (t : Table L)
      → L.peek t.cache key ≡ none
      → let first = peek_or_add L key t in
        let second = peek_or_add L key first.1 in
        (second.0 ≡ first.0)
        × (get_elem? second.1.heap second.0 ≡ some new_bucket)
        × (L.peek second.1.cache key ≡ some first.0)
  race_converges key t h =
      let cache' = L.add t.cache key (length t.heap) in
      let heap' = t.heap ++ new_bucket ∷ [] in
      let installed : L.peek cache' key ≡ some (length t.heap) = L.peek-add_self t.cache key _ in
      rw
        (
          peek_or_add_miss key t h,
          peek_or_add_hit key (record { heap = heap'; cache = cache' }) (length t.heap) installed,
        )
        (
          refl,
          get_elem?-append_left heap' (new_bucket ∷ []) (length t.heap)
                (omega (arith, length-append t.heap (new_bucket ∷ [])))
              ∙ get_elem?-concat_last t.heap new_bucket,
          installed,
        )

  -- What bucketFor gives: the key's own bucket, in a table that is still valid and in which every
  -- other key has the bucket that it had, or has been evicted.
  pub record Found (key : Text) (t : Table L) (p : ℕ) (t' : Table L) : Type 0 where
    pub bucket : get_elem? t'.heap p ≡ some (current (bucket_of t key))
    pub cached : L.peek t'.cache key ≡ some p
    pub valid : IsValid t'
    pub others : (j : Text) → key ≢ j → (bucket_of t' j ≡ none) ⊎ (bucket_of t' j ≡ bucket_of t j)

  get_elem?-current :
      (xs : List TokenBucket) (i : ℕ)
      → i < length xs
      → get_elem? xs i ≡ some (current (get_elem? xs i))
  get_elem?-current [] i h = absurd (omega arith)
  get_elem?-current (x ∷ xs) zero h = refl
  get_elem?-current (x ∷ xs) (suc i) h = get_elem?-current xs i (omega arith)

  pub bucket_of_eq :
      (t : Table L) (k : Text) (o : Option ℕ)
      → L.peek t.cache k ≡ o
      → bucket_of t k ≡ elim o [ none ↦ none | some p ↦ get_elem? t.heap p ]
  bucket_of_eq t k o e = ap (elim [ none ↦ none | some p ↦ get_elem? t.heap p ]) e

  Found-hit :
      (key : Text) (t : Table L) (p : ℕ)
      → IsValid t
      → L.peek t.cache key ≡ some p
      → Found key t p (record t { cache = L.get t.cache key })
  Found-hit key t p v e =
      let c = L.get t.cache key in
      let same = L.peek-get t.cache key in
      record {
        bucket =
            rw (bucket_of_eq t key (some p) e) (get_elem?-current t.heap p (v.in_heap key p e));
        cached = same key ∙ e;
        valid = record {
          in_heap = λ k q h. v.in_heap k q (sym (same k) ∙ h);
          distinct = λ j k q h g. v.distinct j k q (sym (same j) ∙ h) (sym (same k) ∙ g);
        };
        others = λ j ne. inr (bucket_of_eq (record t { cache = c }) j (L.peek t.cache j) (same j));
      }

  -- What the cache holds once the key's new bucket is in it.
  peek-install :
      (key : Text) (t : Table L) (k : Text) (p : ℕ)
      → L.peek (L.add (L.get t.cache key) key (length t.heap)) k ≡ some p
      → (key ≡ k) × (p ≡ length t.heap) ⊎ (key ≢ k) × (L.peek t.cache k ≡ some p)
  peek-install key t k p h = elim (text_eq-cases key k) [
    | inl (_, e) ↦
        inl (e, cc (rw (← e) at h, L.peek-add_self (L.get t.cache key) key (length t.heap)))
    | inr (_, ne) ↦ inr (
      ne,
      elim (L.peek-add_ne (L.get t.cache key) key k (length t.heap) ne) [
        | inl gone ↦ cc
        | inr kept ↦ cc (L.peek-get t.cache key k)
      ],
    )
  ]

  abbrev installed : Text → Table L → Table L
  installed key t = record {
    heap = t.heap ++ new_bucket ∷ [];
    cache = L.add (L.get t.cache key) key (length t.heap);
  }

  installed-IsValid :
      (key : Text) (t : Table L) → IsValid t → L.peek t.cache key ≡ none → IsValid (installed key t)
  installed-IsValid key t v e =
      let grown = length-append t.heap (new_bucket ∷ []) in
      record {
        in_heap = λ k p h. elim (peek-install key t k p h) [
          | inl (_, new) ↦ omega (arith, grown)
          | inr (_, old) ↦ omega (arith, grown, v.in_heap k p old)
        ];
        distinct = λ j k p h g. elim (peek-install key t j p h) [
          | inl (jk, jp) ↦ elim (peek-install key t k p g) [
            | inl (kk, kp) ↦ sym jk ∙ kk
            | inr (_, old) ↦ absurd (omega (arith, v.in_heap k p old, jp))
          ]
          | inr (_, j_old) ↦ elim (peek-install key t k p g) [
            | inl (_, kp) ↦ absurd (omega (arith, v.in_heap j p j_old, kp))
            | inr (_, k_old) ↦ v.distinct j k p j_old k_old
          ]
        ];
      }

  installed-others :
      (key : Text) (t : Table L) (j : Text)
      → IsValid t
      → key ≢ j
      → (bucket_of (installed key t) j ≡ none) ⊎ (bucket_of (installed key t) j ≡ bucket_of t j)
  installed-others key t j v ne =
      let t' = installed key t in
      elim (Option-cases (L.peek t'.cache j)) [
        | inl gone ↦ inl (bucket_of_eq t' j none gone)
        | inr (p, there) ↦ elim (peek-install key t j p there) [
          | inl (same, _) ↦ absurd (ne same)
          | inr (_, old) ↦ inr (
              bucket_of_eq t' j (some p) there
              ∙ get_elem?-append_left t.heap (new_bucket ∷ []) p (v.in_heap j p old)
              ∙ sym (bucket_of_eq t j (some p) old))
        ]
      ]

  Found-miss :
      (key : Text) (t : Table L)
      → IsValid t
      → L.peek t.cache key ≡ none
      → Found key t (length t.heap) (installed key t)
  Found-miss key t v e = record {
    bucket = rw (bucket_of_eq t key none e) (get_elem?-concat_last t.heap new_bucket);
    cached = L.peek-add_self (L.get t.cache key) key (length t.heap);
    valid = installed-IsValid key t v e;
    others = λ j ne. installed-others key t j v ne;
  }

  bucket_for_hit :
      (key : Text) (t : Table L) (p : ℕ)
      → L.peek t.cache key ≡ some p
      → bucket_for L key t ≡ (p, record t { cache = L.get t.cache key })
  unfolding bucket_for get_bucket
  bucket_for_hit key t p e = rw (e, bucket_for)

  bucket_for_miss :
      (key : Text) (t : Table L)
      → L.peek t.cache key ≡ none
      → bucket_for L key t ≡ (length t.heap, installed key t)
  unfolding bucket_for get_bucket
  bucket_for_miss key t e =
      let t' = record t { cache = L.get t.cache key } in
      rw (e, bucket_for) (peek_or_add_miss key t' (L.peek-get t.cache key key ∙ e))

  -- bucketFor gives the caller's own bucket, new or old, and disturbs no other caller's.
  pub bucket_for-Found :
      (key : Text) (t : Table L)
      → IsValid t
      → Found key t (bucket_for L key t).0 (bucket_for L key t).1
  bucket_for-Found key t v = elim (Option-cases (L.peek t.cache key)) [
    | inl e ↦ rw (bucket_for_miss key t e) (Found-miss key t v e)
    | inr (p, e) ↦ rw (bucket_for_hit key t p e) (Found-hit key t p v e)
  ]
