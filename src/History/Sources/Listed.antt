-- ===== src/History/Sources/Listed.antt =====
-- What the listing of a caller's sources shows.
use mcp_searxng_relay.Base.{
  text_eq_ne, List-cases, ℕ, zero, suc, ◌≤◌, ◌≡◌, refl, sym, ap, ◌∙◌, ◌≢◌, ◌↔◌, ◌⊎◌, inl, inr,
  false, not, ◌&&◌, some, List, [], ◌∷◌, arith, text_eq, text_eq_iff, if◌then◌else◌, length, All,
  Bool-cases,
}
use mathlib.Core.Option.{some-injective}
use mcp_searxng_relay.Base.Int.{ℤ, le_ℤ}
use mcp_searxng_relay.History.Record.{FetchRecord, citable_url}
use mcp_searxng_relay.History.Table.{FetchHistory, list}
use mcp_searxng_relay.History.Table.Listing.{NewestFirst, list-NewestFirst}
use mcp_searxng_relay.History.Sources.{
  SourceEntry, SourcesPayload, source_entry, rows, session_sources,
}
use mcp_searxng_relay.History.Sources.Complete.{Has, later, Has-newest_first, from_newest_first}

-- A row that reports a record: where the fetch ended up, or was aimed at when it ended nowhere, and
-- where it was aimed at just when it was moved; all else is the record's.
pub record Reports (r : FetchRecord) (row : SourceEntry) : Type 0 where
  pub ended : r.final_url ≢ [] → row.url ≡ r.final_url
  pub nowhere : r.final_url ≡ [] → row.url ≡ r.url
  pub moved : r.final_url ≢ [] → r.final_url ≢ r.url → row.requested_url ≡ r.url
  pub unmoved : (r.final_url ≡ []) ⊎ (r.final_url ≡ r.url) → row.requested_url ≡ []
  pub outcome : (row.outcome ≡ r.outcome) × (row.err ≡ r.err)
  pub depth :
      (row.read ≡ r.read) × (row.chars_read ≡ r.chars_read) × (row.total_chars ≡ r.total_chars)
  pub times : (row.fetched_at ≡ r.fetched_at) × (row.seq ≡ r.seq) × (row.fetches ≡ r.fetches)
  pub origin : (row.title ≡ r.title) × (row.tool ≡ r.tool) × (row.from_cache ≡ r.from_cache)

-- Row by row.
pub data ReportsAll : List FetchRecord → List SourceEntry → Type 0 where
  nil : ReportsAll [] []
  cons :
      (r : FetchRecord) (row : SourceEntry) (rs : List FetchRecord) (entries : List SourceEntry)
      → Reports r row
      → ReportsAll rs entries
      → ReportsAll (r ∷ rs) (row ∷ entries)

citable_url-ended : (r : FetchRecord) → r.final_url ≢ [] → citable_url r ≡ r.final_url
unfolding citable_url
citable_url-ended r ne = elim (List-cases r.final_url) [
  | inl e ↦ absurd (ne e)
  | inr (c, s, e) ↦ rw (citable_url, e) refl
]

citable_url-nowhere : (r : FetchRecord) → r.final_url ≡ [] → citable_url r ≡ r.url
unfolding citable_url
citable_url-nowhere r e = rw (citable_url, e) refl

requested-unmoved :
    (r : FetchRecord)
    → (r.final_url ≡ []) ⊎ (r.final_url ≡ r.url)
    → (if not (text_eq r.final_url []) && not (text_eq r.final_url r.url) then r.url else []) ≡ []
requested-unmoved r h = ground (arith, text_eq_iff r.final_url [], text_eq_iff r.final_url r.url)

source_entry-Reports : (r : FetchRecord) → Reports r (source_entry r)
unfolding source_entry
source_entry-Reports r = record {
  ended = citable_url-ended r;
  nowhere = citable_url-nowhere r;
  moved = λ some_end other.
      rw (text_eq_ne r.final_url [] some_end, text_eq_ne r.final_url r.url other) refl;
  unmoved = requested-unmoved r;
  outcome = (refl, refl);
  depth = (refl, refl, refl);
  times = (refl, refl, refl);
  origin = (refl, refl, refl);
}

-- The records that are newer than asked.
newer : ℤ → List FetchRecord → List FetchRecord
newer since [] = []
newer since (r ∷ rs) = if le_ℤ r.seq since then newer since rs else r ∷ newer since rs

rows-ReportsAll : (since : ℤ) (rs : List FetchRecord) → ReportsAll (newer since rs) (rows since rs)
unfolding newer rows
rows-ReportsAll since [] = nil
rows-ReportsAll since (r ∷ rs) = elim (Bool-cases (le_ℤ r.seq since)) [
  | inl e ↦ rw e (rows-ReportsAll since rs)
  | inr e ↦ rw e (cons r _ _ _ (source_entry-Reports r) (rows-ReportsAll since rs))
]

newer-All :
    (since : ℤ) (n : ℕ) (rs : List FetchRecord)
    → All (λ q. q.seq ≤ n) rs
    → All (λ q. q.seq ≤ n) (newer since rs)
unfolding newer
newer-All since n [] h = _
newer-All since n (r ∷ rs) (b, h) = elim (Bool-cases (le_ℤ r.seq since)) [
  | inl e ↦ rw e (newer-All since n rs h)
  | inr e ↦ rw e (b, newer-All since n rs h)
]

newer-NewestFirst :
    (since : ℤ) (rs : List FetchRecord) → NewestFirst rs → NewestFirst (newer since rs)
unfolding newer
newer-NewestFirst since [] h = h
newer-NewestFirst since (r ∷ rs) (bound, h) = elim (Bool-cases (le_ℤ r.seq since)) [
  | inl e ↦ rw e (newer-NewestFirst since rs h)
  | inr e ↦ rw e (newer-All since r.seq rs bound, newer-NewestFirst since rs h)
]

newer-Has :
    (since : ℤ) (rs : List FetchRecord) (r : FetchRecord)
    → Has rs r
    → le_ℤ r.seq since ≡ false
    → Has (newer since rs) r
unfolding newer
newer-Has since [] r (j, h) g = absurd (cc)
newer-Has since (q ∷ rs) r (zero, h) g =
    let e : q ≡ r = cc in rw (ap (λ (x : FetchRecord). le_ℤ x.seq since) e ∙ g) (0, h)
newer-Has since (q ∷ rs) r (suc j, h) g = elim (Bool-cases (le_ℤ q.seq since)) [
  | inl e ↦ rw e (newer-Has since rs r (j, h) g)
  | inr e ↦ rw e (later q _ r (newer-Has since rs r (j, h) g))
]

later-newer :
    (since : ℤ) (q r : FetchRecord) (rs : List FetchRecord)
    → Has rs r × (le_ℤ r.seq since ≡ false)
    → Has (q ∷ rs) r × (le_ℤ r.seq since ≡ false)
later-newer since q r rs (h, g) = (later q rs r h, g)

at_newer :
    (since : ℤ) (q r : FetchRecord) (rs : List FetchRecord)
    → le_ℤ q.seq since ≡ false
    → (Has (newer since rs) r → Has rs r × (le_ℤ r.seq since ≡ false))
    → Has (q ∷ newer since rs) r
    → Has (q ∷ rs) r × (le_ℤ r.seq since ≡ false)
at_newer since q r rs g below (zero, h) =
    ((0, h), sym (ap (λ (x : FetchRecord). le_ℤ x.seq since) (some-injective q r h)) ∙ g)
at_newer since q r rs g below (suc j, h) = later-newer since q r rs (below (j, h))

from_newer :
    (since : ℤ) (rs : List FetchRecord) (r : FetchRecord)
    → Has (newer since rs) r
    → Has rs r × (le_ℤ r.seq since ≡ false)
unfolding newer
from_newer since [] r (j, h) = absurd (cc)
from_newer since (q ∷ rs) r h = elim (Bool-cases (le_ℤ q.seq since)) [
  | inl e ↦ later-newer since q r rs (from_newer since rs r (rw e at h))
  | inr e ↦ at_newer since q r rs e (from_newer since rs r) (rw e at h)
]

list-Has : (h : FetchHistory) (r : FetchRecord) → Has (list h).0 r → Has h.entries r
unfolding list
list-Has h r (j, e) = from_newest_first h.entries j r e

Has-list : (h : FetchHistory) (r : FetchRecord) → Has h.entries r → Has (list h).0 r
unfolding list
Has-list h r (j, e) = Has-newest_first h.entries j r e

-- The records that a listing reports.
pub record Listed (since : ℤ) (h : FetchHistory) (p : SourcesPayload) (picked : List FetchRecord)
    : Type 0 where
  pub rows : ReportsAll picked p.sources
  pub newest_first : NewestFirst picked
  -- They are the retained ones that are newer than asked.
  pub exactly : (r : FetchRecord) → Has picked r ↔ (Has h.entries r × (le_ℤ r.seq since ≡ false))
  pub returned : p.returned ≡ length p.sources
  pub total : p.total ≡ h.total
  pub elided : p.elided ≡ h.evicted

-- The listing of a history reports, newest first and row by row, just the retained sources whose
-- number is greater than the one asked for: under the address where the fetch ended up, or was
-- aimed at if it ended nowhere, with the address that was asked for just where a redirect moved
-- it. The counts are those of the rows, of all fetches and of the evicted sources.
pub session_sources-Listed :
    (since : ℤ) (h : FetchHistory)
    → (picked : List FetchRecord) × Listed since h (session_sources since (some h)) picked
unfolding session_sources
session_sources-Listed since h =
    let (sorted, _, total, elided) = list-NewestFirst h in
    (
      newer since (list h).0,
      record {
        rows = rows-ReportsAll since (list h).0;
        newest_first = newer-NewestFirst since (list h).0 sorted;
        exactly = λ r. (
          λ there. let (has, g) = from_newer since (list h).0 r there in (list-Has h r has, g),
          λ (has, g). newer-Has since (list h).0 r (Has-list h r has) g,
        );
        returned = refl;
        total = total;
        elided = elided;
      },
    )
