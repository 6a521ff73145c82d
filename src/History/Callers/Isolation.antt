-- ===== src/History/Callers/Isolation.antt =====
-- A fetch is filed in its own caller's history, and in no other.
use mcp_searxng_relay.Base.{
  ℕ, suc, ◌+◌, ◌≡◌, refl, sym, ap, subst, ◌∙◌, ◌≢◌, ◌⊎◌, inl, inr, Option, none, some, [], ◌∷◌,
  ◌++◌, arith, Text, if◌then◌else◌, length, get_elem?, set, length-append, length-set,
  get_elem?-set_self, get_elem?-set_ne, get_elem?-lt, get_elem?-append_left, get_elem?-concat_last,
  Option-cases,
}
use mcp_searxng_relay.Base.{
  get_elem?-in, get_elem?-lt, get_elem?-set_self, get_elem?-set_ne, length-set, length-append,
  subst, get_elem?-concat_last, get_elem?-append_left, sym, suc, set, if◌then◌else◌, ◌+◌,
}
use mcp_searxng_relay.GoLib.Lru.{Lru}
use mcp_searxng_relay.GoLib.Lru.Pointers.{IsApart, get-IsApart, peek-install, install-IsApart}
use mcp_searxng_relay.History.Record.{FetchRecord}
use mcp_searxng_relay.History.Table.{FetchHistory, new_fetch_history, append_record}
use mcp_searxng_relay.History.Key.{history_key, history_key-injective}
use mcp_searxng_relay.History.Callers.{Callers, history_for, stamped, append_at, record_fetch}

module _ (L : Lru ℕ) where
  abbrev pub IsValid : Callers L → Type 0
  IsValid t = IsApart L (length t.heap) t.cache

  -- The history that a key has, if any.
  abbrev pub history_of : Callers L → Text → Option FetchHistory
  history_of t k = elim (L.peek t.cache k) [ none ↦ none | some p ↦ get_elem? t.heap p ]

  abbrev pub or_new : ℕ → Option FetchHistory → FetchHistory
  or_new size none = new_fetch_history size
  or_new size (some h) = h

  -- What historyFor gives: a pointer to the key's own history, old or new.
  record Given (size : ℕ) (key : Text) (t : Callers L) (p : ℕ) (t' : Callers L) : Type 0 where
    valid : IsValid t'
    cached : L.peek t'.cache key ≡ some p
    holds : get_elem? t'.heap p ≡ some (or_new size (history_of t key))
    others :
        (j : Text)
        → key ≢ j
        → (L.peek t'.cache j ≡ none)
          ⊎ ((q : ℕ) × (L.peek t'.cache j ≡ some q) × (get_elem? t'.heap q ≡ history_of t j))

  history_of_eq :
      (t : Callers L) (k : Text) (o : Option ℕ)
      → L.peek t.cache k ≡ o
      → history_of t k ≡ elim o [ none ↦ none | some p ↦ get_elem? t.heap p ]
  history_of_eq t k o e = ap (elim [ none ↦ none | some p ↦ get_elem? t.heap p ]) e

  history_for_hit :
      (size : ℕ) (key : Text) (t : Callers L) (p : ℕ)
      → IsValid t
      → L.peek t.cache key ≡ some p
      → Given size key t p (record t { cache = L.get t.cache key })
  history_for_hit size key t p v e =
      let same = L.peek-get t.cache key in
      let (h, found) = get_elem?-in t.heap p (v.in_heap key p e) in
      record {
        valid = get-IsApart L (length t.heap) t.cache key v;
        cached = same key ∙ e;
        holds = rw (history_of_eq t key (some p) e, found) refl;
        others = λ j ne. elim (Option-cases (L.peek t.cache j)) [
          | inl none_there ↦ inl (same j ∙ none_there)
          | inr (q, there) ↦ inr (q, same j ∙ there, sym (history_of_eq t j (some q) there))
        ];
      }

  history_for_miss :
      (size : ℕ) (key : Text) (t : Callers L)
      → IsValid t
      → L.peek t.cache key ≡ none
      → Given size key t (length t.heap) (record t {
        heap = t.heap ++ new_fetch_history size ∷ [];
        cache = L.add (L.get t.cache key) key (length t.heap);
      })
  history_for_miss size key t v e =
      let grown = t.heap ++ new_fetch_history size ∷ [] in
      let cache = L.add (L.get t.cache key) key (length t.heap) in
      let longer : suc (length t.heap) ≡ length grown =
        omega (arith, length-append t.heap (new_fetch_history size ∷ [])) in
      record {
        valid =
            subst (λ n. IsApart L n cache) longer (install-IsApart L (length t.heap) t.cache key v);
        cached = L.peek-add_self (L.get t.cache key) key (length t.heap);
        holds =
            rw (history_of_eq t key none e) (get_elem?-concat_last t.heap (new_fetch_history size));
        others = λ j ne. elim (Option-cases (L.peek cache j)) [
          | inl gone ↦ inl gone
          | inr (q, there) ↦ elim (peek-install L (length t.heap) t.cache key j q there) [
            | inl (same, _) ↦ absurd (ne same)
            | inr (_, old) ↦ inr (
              q,
              there,
              get_elem?-append_left t.heap (new_fetch_history size ∷ []) q (v.in_heap j q old)
                  ∙ sym (history_of_eq t j (some q) old),
            )
          ]
        ];
      }

  history_for-Given :
      (size : ℕ) (key : Text) (t : Callers L)
      → IsValid t
      → Given size key t (history_for L size key t).0 (history_for L size key t).1
  unfolding history_for
  history_for-Given size key t v = elim (Option-cases (L.peek t.cache key)) [
    | inl e ↦ rw (history_for, e) (history_for_miss size key t v e)
    | inr (p, e) ↦ rw (history_for, e) (history_for_hit size key t p v e)
  ]

  -- The history of each caller after a fetch of one of them.
  pub record Filed (size now : ℕ) (identity session : Text) (r : FetchRecord) (t t' : Callers L)
      : Type 0 where
    pub valid : IsValid t'
    pub own :
        history_of t' (history_key identity session)
        ≡ some
            (append_record
              (stamped L now r)
              (or_new size (history_of t (history_key identity session)))).1
    pub others :
        (identity' session' : Text)
        → ¬ ((identity ≡ identity') × (session ≡ session'))
        → (history_of t' (history_key identity' session') ≡ none)
          ⊎ (history_of t' (history_key identity' session')
              ≡ history_of t (history_key identity' session'))

  append_at_eq :
      (r : FetchRecord) (p : ℕ) (t : Callers L) (h : FetchHistory)
      → get_elem? t.heap p ≡ some h
      → append_at L r p t ≡ record t {
        heap = set t.heap p (append_record r h).1;
        evictions = if (append_record r h).0.1 then t.evictions + 1 else t.evictions;
      }
  unfolding append_at
  append_at_eq r p t h e = rw (append_at, e) refl

  -- recordFetch appends the fetch, with the time when it has none, to the history of the caller, a
  -- new one when the cache holds none; the history of every other caller, one with another identity
  -- or another session, stays as it was or is dropped from the cache as a whole.
  pub record_fetch-Filed :
      (size now : ℕ) (identity session : Text) (r : FetchRecord) (t : Callers L)
      → IsValid t
      → Filed size now identity session r t
          (record_fetch L size now (history_key identity session) r t)
  unfolding record_fetch
  record_fetch-Filed size now identity session r t v =
      let key = history_key identity session in
      let g = history_for-Given size key t v in
      let p = (history_for L size key t).0 in
      let t' = (history_for L size key t).1 in
      let h = or_new size (history_of t key) in
      let h' = (append_record (stamped L now r) h).1 in
      let inside = get_elem?-lt t'.heap p h g.holds in
      rw (append_at_eq (stamped L now r) p t' h g.holds) (record {
        valid = rw (length-set t'.heap p h') g.valid;
        own =
            ap (elim [ none ↦ none | some q ↦ get_elem? (set t'.heap p h') q ]) g.cached
            ∙ get_elem?-set_self t'.heap p h' inside;
        others = λ identity' session' differ.
            let key' = history_key identity' session' in
            let ne : key ≢ key' =
              λ e. differ (history_key-injective identity identity' session session' e) in
            elim (g.others key' ne) [
              | inl gone ↦
                  inl (ap (elim [ none ↦ none | some q ↦ get_elem? (set t'.heap p h') q ]) gone)
              | inr (q, there, same) ↦
                  let apart : p ≢ q =
                    λ e. ne (g.valid.distinct key key' q (g.cached ∙ ap some e) there) in
                  inr (
                    ap (elim [ none ↦ none | some i ↦ get_elem? (set t'.heap p h') i ]) there
                    ∙ get_elem?-set_ne t'.heap p q h' apart
                    ∙ same)
            ];
      })
