-- ===== src/History/Table/Listing.antt =====
-- The listing of a table, newest first.
use mathlib.Core.List.{Perm}
use mathlib.Core.List.Perm
use mcp_searxng_relay.Base.{◌≤◌, ◌≡◌, refl, arith, List, [], ◌∷◌, ltb, All, Bool-cases, inl, inr}
use mcp_searxng_relay.History.Record.{FetchRecord}
use mcp_searxng_relay.History.Table.{FetchHistory, insert_newest, newest_first, list}

-- Each record's number is at least that of every record after it.
abbrev pub NewestFirst : List FetchRecord → Type 0
NewestFirst [] = Unit
NewestFirst (r ∷ rs) = All (λ q. q.seq ≤ r.seq) rs × NewestFirst rs

bound_le :
    (a b : FetchRecord) (qs : List FetchRecord)
    → a.seq ≤ b.seq
    → All (λ q. q.seq ≤ a.seq) qs
    → All (λ q. q.seq ≤ b.seq) qs
bound_le a b [] h _ = _
bound_le a b (q ∷ qs) h (hq, hs) = (omega (arith, h, hq), bound_le a b qs h hs)

insert-bound :
    (r b : FetchRecord) (qs : List FetchRecord)
    → r.seq ≤ b.seq
    → All (λ q. q.seq ≤ b.seq) qs
    → All (λ q. q.seq ≤ b.seq) (insert_newest r qs)
unfolding insert_newest
insert-bound r b [] h _ = (h, _)
insert-bound r b (q ∷ qs) h (hq, hs) = elim (Bool-cases (ltb r.seq q.seq)) [
  | inl e ↦ rw e (hq, insert-bound r b qs h hs)
  | inr e ↦ rw e (h, (hq, hs))
]

insert-NewestFirst :
    (r : FetchRecord) (qs : List FetchRecord) → NewestFirst qs → NewestFirst (insert_newest r qs)
unfolding insert_newest
insert-NewestFirst r [] _ = (_, _)
insert-NewestFirst r (q ∷ qs) (hq, hs) = elim (Bool-cases (ltb r.seq q.seq)) [
  | inl e ↦ rw e (insert-bound r q qs (ground arith) hq, insert-NewestFirst r qs hs)
  | inr e ↦ rw e ((ground arith, bound_le q r qs (ground arith) hq), (hq, hs))
]

insert-Perm : (r : FetchRecord) (qs : List FetchRecord) → Perm (insert_newest r qs) (r ∷ qs)
unfolding insert_newest
insert-Perm r [] = Perm.refl _
insert-Perm r (q ∷ qs) = elim (Bool-cases (ltb r.seq q.seq)) [
  | inl e ↦ rw e (Perm.trans (Perm.cons q (insert-Perm r qs)) (Perm.swap r q qs))
  | inr e ↦ rw e (Perm.refl _)
]

sorted : (rs : List FetchRecord) → NewestFirst (newest_first rs) × Perm (newest_first rs) rs
unfolding newest_first
sorted [] = (_, Perm.refl [])
sorted (r ∷ rs) =
    let (s, p) = sorted rs in
    (
      insert-NewestFirst r (newest_first rs) s,
      Perm.trans (insert-Perm r (newest_first rs)) (Perm.cons r p),
    )

-- The listing holds exactly the table's records, each as often as the table does, newest first, and the
-- table's two counts.
pub list-NewestFirst :
    (h : FetchHistory)
    → NewestFirst (list h).0
      × Perm (list h).0 h.entries
      × ((list h).1 ≡ h.total)
      × ((list h).2 ≡ h.evicted)
unfolding list
list-NewestFirst h = let (s, p) = sorted h.entries in (s, p, refl, refl)
