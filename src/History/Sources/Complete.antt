-- ===== src/History/Sources/Complete.antt =====
-- The sorted list of a history has the records that the history has.
use mcp_searxng_relay.Base.{
  ℕ, zero, suc, ◌≡◌, refl, subst, inl, inr, List, [], ◌∷◌, Bool-cases, some, get_elem?, ltb,
}
use mcp_searxng_relay.History.Record.{FetchRecord}
use mcp_searxng_relay.History.Table.{insert_newest, newest_first}

-- Somewhere in the list.
abbrev pub Has : {A : Type 0} → List A → A → Type 0
Has xs a = (j : ℕ) × (get_elem? xs j ≡ some a)

pub later : {A : Type 0} (x : A) (xs : List A) (a : A) → Has xs a → Has (x ∷ xs) a
later x xs a (j, e) = (suc j, e)

Has-insert_self : (r : FetchRecord) (qs : List FetchRecord) → Has (insert_newest r qs) r
unfolding insert_newest
Has-insert_self r [] = (0, refl)
Has-insert_self r (q ∷ qs) = elim (Bool-cases (ltb r.seq q.seq)) [
  | inl e ↦ rw e (later q _ r (Has-insert_self r qs))
  | inr e ↦ rw e (0, refl)
]

some-injective : {A : Type 0} {x y : A} → some x ≡ some y → x ≡ y
some-injective h = cc

at_or_below :
    {A : Type 0} (xs ys : List A) (q a : A) (j : ℕ)
    → get_elem? (q ∷ xs) j ≡ some a
    → ((i : ℕ) → get_elem? xs i ≡ some a → Has ys a)
    → Has (q ∷ ys) a
at_or_below xs ys q a zero g below = (zero, g)
at_or_below xs ys q a (suc j) g below = later q _ a (below j g)

Has-insert :
    (r : FetchRecord) (qs : List FetchRecord) (j : ℕ) (a : FetchRecord)
    → get_elem? qs j ≡ some a
    → Has (insert_newest r qs) a
unfolding insert_newest
Has-insert r [] j a h = cc
Has-insert r (q ∷ qs) j a h = elim (Bool-cases (ltb r.seq q.seq)) [
  | inr e ↦ rw e (suc j, h)
  | inl e ↦ rw e (at_or_below qs (insert_newest r qs) q a j h (λ i g. Has-insert r qs i a g))
]

pub Has-newest_first :
    (rs : List FetchRecord) (i : ℕ) (a : FetchRecord)
    → get_elem? rs i ≡ some a
    → Has (newest_first rs) a
unfolding newest_first
Has-newest_first [] i a h = cc
Has-newest_first (r ∷ rs) zero a h =
    subst (λ x. Has (insert_newest r (newest_first rs)) x) (some-injective h)
      (Has-insert_self r (newest_first rs))
Has-newest_first (r ∷ rs) (suc i) a h =
    let (j, e) = Has-newest_first rs i a h in Has-insert r (newest_first rs) j a e

swapped : {A : Type 0} (r q a : A) (qs : List A) → Has (r ∷ qs) a → Has (r ∷ q ∷ qs) a
swapped r q a qs (zero, g) = (zero, g)
swapped r q a qs (suc i, g) = (suc (suc i), g)

from_insert :
    (r : FetchRecord) (qs : List FetchRecord) (j : ℕ) (a : FetchRecord)
    → get_elem? (insert_newest r qs) j ≡ some a
    → Has (r ∷ qs) a
unfolding insert_newest
from_insert r [] j a h = (j, h)
from_insert r (q ∷ qs) j a h = elim (Bool-cases (ltb r.seq q.seq)) [
  | inr e ↦ (j, rw e at h)
  | inl e ↦ swapped_in (λ i g. from_insert r qs i a g) j (rw e at h)
]
  where
    swapped_in :
        ((i : ℕ) → get_elem? (insert_newest r qs) i ≡ some a → Has (r ∷ qs) a)
        → (j : ℕ) → get_elem? (q ∷ insert_newest r qs) j ≡ some a
        → Has (r ∷ q ∷ qs) a
    swapped_in below zero g = (1, g)
    swapped_in below (suc j) g = swapped r q a qs (below j g)

pub from_newest_first :
    (rs : List FetchRecord) (j : ℕ) (a : FetchRecord)
    → get_elem? (newest_first rs) j ≡ some a
    → Has rs a
unfolding newest_first
from_newest_first [] j a h = cc
from_newest_first (r ∷ rs) j a h =
    let (i, g) = from_insert r (newest_first rs) j a h in
    at_or_below (newest_first rs) rs r a i g (λ k e. from_newest_first rs k a e)
