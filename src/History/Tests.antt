-- ===== src/History/Tests.antt =====
-- Runs of the history, and its theorems at concrete inputs.
use mathlib.Core.List.{Perm}
use mcp_searxng_relay.Base.{
  List, ℕ, map, ◌≡◌, refl, false, some, [], ◌∷◌, codes, get_elem?, length, text_eq,
}
use mcp_searxng_relay.Base.Dict.{lookup, insert}
use mcp_searxng_relay.Base.Int.{pos}
use mcp_searxng_relay.History.Record.{
  FetchRecord, ok, error, full, nothing, citable_url, merge_record,
}
use mcp_searxng_relay.History.Table.{FetchHistory, new_fetch_history, append_record, list}
use mcp_searxng_relay.History.Table.Append.{Appended}
use mcp_searxng_relay.History.Table.Refinement.{new_fetch_history-IsValid, append_record-Appended}
use mcp_searxng_relay.History.Table.Listing.{NewestFirst, list-NewestFirst}
use mcp_searxng_relay.GoLib.Lru.Unbounded.{unbounded}
use mcp_searxng_relay.GoLib.Lru.Pointers.{empty-IsApart}
use mcp_searxng_relay.History.Callers.{Callers, new_fetch_history_cache, record_fetch}
use mcp_searxng_relay.History.Callers.Isolation.{Filed, record_fetch-Filed}
use mcp_searxng_relay.History.Key.{history_key, history_key-injective}
use mcp_searxng_relay.History.Sources.{source_entry, session_sources}
use mcp_searxng_relay.History.Sources.Listed.{Listed, session_sources-Listed}

abbrev page : FetchRecord
page = record {
  seq = 0;
  tool = codes "searxng_read_url";
  url = codes "http://a/";
  final_url = [];
  title = codes "A";
  fetched_at = 5;
  outcome = ok;
  err = [];
  read = full;
  chars_read = 70;
  total_chars = 90;
  from_cache = false;
  fetches = 0;
}

-- A later fetch of the same page, which fails.
abbrev broken : FetchRecord
broken = record page {
  fetched_at = 9;
  outcome = error;
  err = codes "timeout";
  read = nothing;
  chars_read = 0;
}

abbrev other : FetchRecord
other = record page { url = codes "http://b/" }

abbrev two : FetchHistory
two = (append_record other (append_record page (new_fetch_history 2)).1).1

still_read : (merge_record page broken).outcome ≡ ok
unfolding merge_record
still_read = refl

shown_first :
    (list two).0 ≡ record other { seq = 2; fetches = 1 } ∷ record page { seq = 1; fetches = 1 } ∷ []
unfolding list append_record new_fetch_history citable_url lookup insert text_eq
shown_first = refl

append_record-Appended_example :
    Appended (new_fetch_history 2) page (append_record page (new_fetch_history 2))
append_record-Appended_example =
    append_record-Appended page (new_fetch_history 2) (new_fetch_history-IsValid 2)

list-NewestFirst_example :
    NewestFirst (list two).0
    × Perm (list two).0 two.entries
    × ((list two).1 ≡ two.total)
    × ((list two).2 ≡ two.evicted)
list-NewestFirst_example = list-NewestFirst two

history_key-injective_example : (codes "alice" ≡ codes "alice") × (codes "b|c" ≡ codes "b|c")
history_key-injective_example =
    history_key-injective (codes "alice") (codes "alice") (codes "b|c") (codes "b|c") refl

abbrev last_fetch : FetchRecord
last_fetch = record other { seq = 2; fetches = 1 }

held_second : get_elem? two.entries 1 ≡ some last_fetch
unfolding append_record lookup new_fetch_history insert text_eq citable_url
held_second = refl

session_sources-Listed_example :
    (picked : List FetchRecord) × Listed (pos 1) two (session_sources (pos 1) (some two)) picked
session_sources-Listed_example = session_sources-Listed (pos 1) two

listed_first :
    get_elem? (session_sources (pos 1) (some two)).sources 0 ≡ some (source_entry last_fetch)
unfolding session_sources list append_record lookup new_fetch_history insert text_eq citable_url
listed_first = refl

abbrev callers : Callers (unbounded ℕ)
callers =
    record_fetch (unbounded ℕ) 50 7 (history_key (codes "alice") (codes "s1")) page
      (new_fetch_history_cache (unbounded ℕ))

callers_filed : map (λ h. length h.entries) callers.heap ≡ 1 ∷ []
unfolding record_fetch new_fetch_history_cache lookup append_record new_fetch_history
callers_filed = refl

record_fetch-Filed_example :
    Filed
      (unbounded ℕ)
      50
      7
      (codes "bob")
      (codes "s1")
      broken
      (new_fetch_history_cache (unbounded ℕ))
      (record_fetch
        (unbounded ℕ)
        50
        7
        (history_key (codes "bob") (codes "s1"))
        broken
        (new_fetch_history_cache (unbounded ℕ)))
unfolding new_fetch_history_cache
record_fetch-Filed_example =
    record_fetch-Filed (unbounded ℕ) 50 7 (codes "bob") (codes "s1") broken
      (new_fetch_history_cache (unbounded ℕ)) (empty-IsApart (unbounded ℕ))
