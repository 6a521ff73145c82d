-- ===== src/History/Table/Append.antt =====
-- appendRecord as an operation on the map from addresses to sources.
use mcp_searxng_relay.Base.{
  ℕ, suc, ◌≤◌, ◌≡◌, ◌≢◌, refl, Bool, true, false, Option, none, some, List, [], ◌∷◌, ◌++◌, Text,
  length, get_elem?, set, ltb,
}
use mcp_searxng_relay.Base.Dict.{lookup, insert, delete}
use mcp_searxng_relay.History.Record.{FetchRecord, citable_url, merge_record}
use mcp_searxng_relay.History.Table.{
  FetchHistory, capacity, oldest_slot, evict_least_recent, append_record,
}
use mcp_searxng_relay.History.Table.Valid.{IsValid}

-- The source that is filed under an address.
abbrev pub at_slot : List FetchRecord → Option ℕ → Option FetchRecord
at_slot entries none = none
at_slot entries (some i) = get_elem? entries i

abbrev pub source : FetchHistory → Text → Option FetchRecord
source h k = at_slot h.entries (lookup k h.index)

-- What is filed when `r` comes in over what was there.
abbrev pub filed_over : Option FetchRecord → FetchRecord → FetchRecord
filed_over none r = r
filed_over (some held) r = merge_record held r

-- The record as appendRecord files it.
abbrev pub stamped : FetchHistory → FetchRecord → FetchRecord
stamped h fetched = record fetched { seq = suc h.total; fetches = 1 }

pub data Effect (h : FetchHistory) (key : Text) (h' : FetchHistory) : Bool → Type 0 where
  -- No source is dropped, and every other one is as it was.
  kept :
      ((j : Text) → key ≢ j → source h' j ≡ source h j)
      → h'.evicted ≡ h.evicted
      → Effect h key h' false
  -- The table was full, and the source that was touched longest ago makes room.
  dropped :
      (victim : FetchRecord)
      → source h (citable_url victim) ≡ some victim
      → ((j : Text) (q : FetchRecord) → source h j ≡ some q → victim.seq ≤ q.seq)
      → source h' (citable_url victim) ≡ none
      → ((j : Text) → key ≢ j → citable_url victim ≢ j → source h' j ≡ source h j)
      → length h.entries ≡ capacity h.cap
      → source h key ≡ none
      → h'.evicted ≡ suc h.evicted
      → Effect h key h' true

pub record Appended (h : FetchHistory) (fetched : FetchRecord) (r : (ℕ × Bool) × FetchHistory)
    : Type 0 where
  pub numbered : r.0.0 ≡ suc h.total
  pub total : r.1.total ≡ suc h.total
  pub filed :
      source r.1 (citable_url fetched)
      ≡ some (filed_over (source h (citable_url fetched)) (stamped h fetched))
  pub effect : Effect h (citable_url fetched) r.1 r.0.1
  pub valid : IsValid r.1

pub stamped-citable :
    (h : FetchHistory) (fetched : FetchRecord)
    → citable_url (stamped h fetched) ≡ citable_url fetched
unfolding citable_url
stamped-citable h fetched = refl

-- The table after each of the three ways to file a record.
abbrev pub merged : FetchHistory → ℕ → FetchRecord → FetchRecord → FetchHistory
merged h idx held r = record {
  entries = set h.entries idx (merge_record held r);
  cap = capacity h.cap;
  index = h.index;
  total = suc h.total;
  evicted = h.evicted;
}

abbrev pub pushed : FetchHistory → FetchRecord → FetchHistory
pushed h r = record {
  entries = h.entries ++ r ∷ [];
  cap = capacity h.cap;
  index = insert (citable_url r) (length h.entries) h.index;
  total = suc h.total;
  evicted = h.evicted;
}

abbrev pub replaced : FetchHistory → ℕ → FetchRecord → FetchRecord → FetchHistory
replaced h o old r = record {
  entries = set h.entries o r;
  cap = capacity h.cap;
  index = insert (citable_url r) o (delete (citable_url old) h.index);
  total = suc h.total;
  evicted = suc h.evicted;
}

module _ (fetched : FetchRecord) (h : FetchHistory) where
  pub append_record-merged :
      (idx : ℕ) (held : FetchRecord)
      → lookup (citable_url (stamped h fetched)) h.index ≡ some idx
      → get_elem? h.entries idx ≡ some held
      → append_record fetched h ≡ ((suc h.total, false), merged h idx held (stamped h fetched))
  unfolding append_record
  append_record-merged idx held e e' = rw (e, append_record) (rw e')

  pub append_record-pushed :
      lookup (citable_url (stamped h fetched)) h.index ≡ none
      → ltb (length h.entries) (capacity h.cap) ≡ true
      → append_record fetched h ≡ ((suc h.total, false), pushed h (stamped h fetched))
  unfolding append_record
  append_record-pushed e room = rw (e, append_record) (rw room)

  pub append_record-replaced :
      (old : FetchRecord)
      → lookup (citable_url (stamped h fetched)) h.index ≡ none
      → ltb (length h.entries) (capacity h.cap) ≡ false
      → get_elem? h.entries (oldest_slot h.entries) ≡ some old
      → append_record fetched h
        ≡ ((suc h.total, true), replaced h (oldest_slot h.entries) old (stamped h fetched))
  unfolding append_record evict_least_recent
  append_record-replaced old e full at_oldest =
      rw (e, append_record) (rw full (rw (at_oldest, evict_least_recent)))
