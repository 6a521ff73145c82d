-- ===== src/Provenance/Seen/Valid.antt =====
-- The set and the order name the same keys, each once, and there are never too many.
use mcp_searxng_relay.Base.{
  subst, suc, ltb, Bool-cases, Option-cases, length-append, text_eq-cases, text_eq_refl, inl, inr,
  sym, ap, ◌∙◌, ◌+◌,
}
use mcp_searxng_relay.Base.Dict.{insert, delete, lookup-insert, lookup-delete}
use mcp_searxng_relay.Provenance.Seen.{drop_oldest}
use mcp_searxng_relay.Base.{
  suc, ◌+◌, ◌≤◌, ◌≡◌, refl, sym, ap, ◌∙◌, inl, inr, arith, Bool, true, false, ◌||◌, Option, List,
  [], ◌∷◌, ◌++◌, Text, text_eq, text_eq-cases, text_eq_iff, text_eq_refl, ltb, length,
  length-append, is_some, Bool-cases, Option-cases,
}
use mcp_searxng_relay.Base.Dict.{lookup, insert, delete, lookup-insert, lookup-delete}
use mcp_searxng_relay.RateLimit.Limiter.{member}
use mcp_searxng_relay.Provenance.Seen.{max_seen_urls, SeenUrls, drop_oldest, add, has}

abbrev pub NoDup : List Text → Type 0
NoDup [] = Unit
NoDup (k ∷ ks) = (member k ks ≡ false) × NoDup ks

pub record IsValid (s : SeenUrls) : Type 0 where
  pub same : (k : Text) → is_some (lookup k s.set) ≡ member k s.order
  pub nodup : NoDup s.order
  pub bounded : length s.order ≤ max_seen_urls

member-append :
    (j k : Text) (ks : List Text) → member j (ks ++ k ∷ []) ≡ (member j ks || text_eq k j)
member-append j k [] = ground arith
member-append j k (i ∷ ks) = ground (arith, member-append j k ks)

NoDup-append : (k : Text) (ks : List Text) → NoDup ks → member k ks ≡ false → NoDup (ks ++ k ∷ [])
NoDup-append k [] h g = (refl, _)
NoDup-append k (i ∷ ks) (fresh, h) g = (
  ground (arith, member-append i k ks, text_eq_iff i k, text_eq_iff k i),
  NoDup-append k ks h (ground arith),
)

member-last : (k : Text) (ks : List Text) → member k (ks ++ k ∷ []) ≡ true
member-last k ks = ground (arith, member-append k k ks, text_eq_refl k)

drop_oldest-fits :
    (set : List (Text × Bool)) (order : List Text)
    → length order ≤ max_seen_urls
    → drop_oldest set order ≡ record { set = set; order = order }
unfolding drop_oldest
drop_oldest-fits set [] h = refl
drop_oldest-fits set (k ∷ order) h =
    let fits : ltb max_seen_urls (suc (length order)) ≡ false = ground arith in rw fits refl

drop_oldest-first :
    (set : List (Text × Bool)) (first : Text) (order : List Text)
    → length order ≡ max_seen_urls
    → drop_oldest set (first ∷ order) ≡ record { set = delete first set; order = order }
unfolding drop_oldest
drop_oldest-first set first order h =
    let over : ltb max_seen_urls (suc (length order)) ≡ true = ground (arith, h) in
    rw over (drop_oldest-fits (delete first set) order (omega (arith, h)))

inserted-same :
    (key j : Text) (s : SeenUrls)
    → is_some (lookup j s.set) ≡ member j s.order
    → is_some (lookup j (insert key true s.set)) ≡ member j (s.order ++ key ∷ [])
inserted-same key j s h =
    rw (lookup-insert key j true s.set, member-append j key s.order)
      (elim (Bool-cases (text_eq key j)) [
        | inl e ↦ rw e (ground arith)
        | inr e ↦ rw e (ground (arith, h))
      ])

deleted-same :
    (k j : Text) (set : List (Text × Bool)) (ks : List Text)
    → member k ks ≡ false
    → is_some (lookup j set) ≡ (text_eq k j || member j ks)
    → is_some (lookup j (delete k set)) ≡ member j ks
deleted-same k j set ks once h = rw (lookup-delete k j set) (elim (text_eq-cases k j) [
  | inl (e, same) ↦ rw e (sym (subst (λ i. member i ks ≡ false) same once))
  | inr (e, ne) ↦ rw e (h ∙ ap (λ b. b || member j ks) e)
])

module _ (key : Text) (s : SeenUrls) (v : IsValid s)
    (new : is_some (lookup key s.set) ≡ false) where
  -- What `add` does to a new key.
  abbrev Added : SeenUrls → Type 0
  Added t = IsValid t × (is_some (lookup key t.set) ≡ true)

  whole-nodup : NoDup (s.order ++ key ∷ [])
  whole-nodup = NoDup-append key s.order v.nodup (sym (v.same key) ∙ new)

  longer : length (s.order ++ key ∷ []) ≡ length s.order + 1
  longer = length-append s.order (key ∷ [])

  Added-whole :
      length (s.order ++ key ∷ []) ≤ max_seen_urls
      → Added (drop_oldest (insert key true s.set) (s.order ++ key ∷ []))
  Added-whole fits = rw (drop_oldest-fits (insert key true s.set) (s.order ++ key ∷ []) fits) (
    record { same = λ j. inserted-same key j s (v.same j); nodup = whole-nodup; bounded = fits },
    inserted-same key key s (v.same key) ∙ member-last key s.order,
  )

  Added-dropped :
      (first : Text) (rest : List Text)
      → s.order ≡ first ∷ rest
      → length s.order ≡ max_seen_urls
      → Added (drop_oldest (insert key true s.set) (s.order ++ key ∷ []))
  Added-dropped first rest e full =
      let whole : s.order ++ key ∷ [] ≡ first ∷ (rest ++ key ∷ []) = ap (λ o. o ++ key ∷ []) e in
      let (once, nodup) = subst NoDup whole whole-nodup in
      let long : length (rest ++ key ∷ []) ≡ max_seen_urls =
        omega (arith, longer, full, ap length whole) in
      let same : (j : Text)
          → is_some (lookup j (insert key true s.set)) ≡ member j (first ∷ (rest ++ key ∷ [])) =
        λ j. inserted-same key j s (v.same j) ∙ ap (member j) whole in
      let same' : (j : Text)
          → is_some (lookup j (delete first (insert key true s.set)))
            ≡ member j (rest ++ key ∷ []) =
        λ j. deleted-same first j (insert key true s.set) (rest ++ key ∷ []) once (same j) in
      rw (whole, drop_oldest-first (insert key true s.set) first (rest ++ key ∷ []) long)
        (
          record { same = same'; nodup = nodup; bounded = omega (arith, long) },
          same' key ∙ member-last key rest,
        )

  Added-new : Added (drop_oldest (insert key true s.set) (s.order ++ key ∷ []))
  Added-new = elim (Bool-cases (ltb max_seen_urls (length (s.order ++ key ∷ [])))) [
    | inr fits ↦ Added-whole (ground arith)
    | inl over ↦ at_first s.order refl (ground (arith, longer, v.bounded))
  ]
    where
      at_first :
          (order : List Text)
          → s.order ≡ order
          → length s.order ≡ max_seen_urls
          → Added (drop_oldest (insert key true s.set) (s.order ++ key ∷ []))
      at_first [] e full = absurd (omega (arith, full, ap length e))
      at_first (first ∷ rest) e full = Added-dropped first rest e full

module _ (url_key : Text → Option Text) where
  -- A valid set stays valid, and an address that has a key is in the set once it was added.
  pub add-IsValid :
      (raw : Text) (s : SeenUrls)
      → IsValid s
      → IsValid (add url_key raw s) × (has url_key raw (add url_key raw s) ≡ is_some (url_key raw))
  unfolding add has
  add-IsValid raw s v = elim (Option-cases (url_key raw)) [
    | inl e ↦ rw (e, add, has) (v, refl)
    | inr (key, e) ↦ elim (Bool-cases (is_some (lookup key s.set))) [
      | inl there ↦ rw (e, add, has, there) (v, rw (e, add, there) there)
      | inr new ↦
          rw (e, add, has, new)
            ((Added-new key s v new).0, rw (e, add, new) (Added-new key s v new).1)
    ]
  ]
