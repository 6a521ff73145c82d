-- ===== src/History/Table.antt =====
-- One caller's table of sources: fetchHistory, newFetchHistory, appendRecord, evictLeastRecent and
-- list of history.go. A capacity of 0 stands for every capacity that is not positive. The mutex
-- makes each method one step. The set of shown addresses, the field `seen`, is in Provenance.Seen.
pub mod Valid
pub mod Oldest
pub mod Append
pub mod Effects
pub mod Listing
pub mod Refinement
use mcp_searxng_relay.Base.{
  ℕ, zero, suc, ◌+◌, Bool, true, false, Option, none, some, List, [], ◌∷◌, ◌++◌, Text, ltb, ◌==◌,
  if◌then◌else◌, length, get_elem?, set,
}
use mcp_searxng_relay.Base.Dict.{lookup, insert, delete}
use mcp_searxng_relay.History.Record.{FetchRecord, citable_url, merge_record}

-- fetchHistoryEntries
abbrev pub default_entries : ℕ
default_entries = 50

pub record FetchHistory : Type 0 where
  pub entries : List FetchRecord
  pub cap : ℕ
  pub index : List (Text × ℕ)
  pub total : ℕ
  pub evicted : ℕ

abbrev pub capacity : ℕ → ℕ
capacity cap = if cap == 0 then default_entries else cap

unfoldable pub new_fetch_history : ℕ → FetchHistory
new_fetch_history n = record { entries = []; cap = capacity n; index = []; total = 0; evicted = 0 }

-- The scan of evictLeastRecent: `oldest` is the slot with the least sequence number so far, and
-- `i` the slot of the next entry.
oldest_from : List FetchRecord → ℕ → ℕ → ℕ → ℕ
oldest_from [] i oldest seq = oldest
oldest_from (r ∷ rs) i oldest seq = elim (ltb r.seq seq) [
  | true ↦ oldest_from rs (suc i) i r.seq
  | false ↦ oldest_from rs (suc i) oldest seq
]

unfoldable pub oldest_slot : List FetchRecord → ℕ
unfolding oldest_from
oldest_slot [] = 0
oldest_slot (r ∷ rs) = oldest_from rs 1 0 r.seq

unfoldable pub evict_least_recent : FetchHistory → ℕ × FetchHistory
unfolding oldest_slot
evict_least_recent h =
    let oldest = oldest_slot h.entries in
    (
      oldest,
      record h {
        index = elim (get_elem? h.entries oldest) [
          | none ↦ h.index
          | some r ↦ delete (citable_url r) h.index
        ];
        evicted = suc h.evicted;
      },
    )

-- The sequence number that the fetch took, and whether a source was dropped for it.
unfoldable pub append_record : FetchRecord → FetchHistory → (ℕ × Bool) × FetchHistory
unfolding evict_least_recent
append_record fetched old =
    let total = suc old.total in
    let r = record fetched { seq = total; fetches = 1 } in
    let h = record old { total = total; cap = capacity old.cap } in
    let key = citable_url r in
    elim (lookup key h.index) [
      | some idx ↦ (
        (total, false),
        record h {
          entries = elim (get_elem? h.entries idx) [
            | none ↦ h.entries
            | some held ↦ set h.entries idx (merge_record held r)
          ];
        },
      )
      | none ↦
          if ltb (length h.entries) h.cap
          then (
            (total, false),
            record h {
              entries = h.entries ++ r ∷ [];
              index = insert key (length h.entries) h.index;
            },
          )
          else let (idx, h') = evict_least_recent h in
            (
              (total, true),
              record h' { entries = set h'.entries idx r; index = insert key idx h'.index },
            )
    ]

-- sort.Slice by descending sequence number.
unfoldable pub insert_newest : FetchRecord → List FetchRecord → List FetchRecord
insert_newest r [] = r ∷ []
insert_newest r (q ∷ qs) = if ltb r.seq q.seq then q ∷ insert_newest r qs else r ∷ q ∷ qs

unfoldable pub newest_first : List FetchRecord → List FetchRecord
unfolding insert_newest
newest_first [] = []
newest_first (r ∷ rs) = insert_newest r (newest_first rs)

unfoldable pub list : FetchHistory → List FetchRecord × ℕ × ℕ
unfolding newest_first
list h = (newest_first h.entries, h.total, h.evicted)
