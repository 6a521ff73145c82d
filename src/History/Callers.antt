-- ===== src/History/Callers.antt =====
-- The histories of all callers: historyFor, recordFetch and newFetchHistoryCache of history.go. The
-- cache holds pointers, so histories stand on a heap and are named by their index: a request that
-- got a history keeps it when the cache drops it. historyMu makes historyFor one step. The count of
-- evicted callers is left out.
pub mod Isolation
use mcp_searxng_relay.Base.{
  ℕ, zero, suc, ◌+◌, ◌-◌, ◌*◌, ◌≤◌, ◌<◌, min, max, ◌≡◌, refl, sym, ap, subst, ◌∙◌, ◌≢◌, ◌↔◌, ◌⊎◌,
  inl, inr, Bool, true, false, not, ◌&&◌, ◌||◌, Option, none, some, List, [], ◌∷◌, ◌++◌, map,
  append_assoc, append-nil, arith, Text, codes, text_eq, text_eq_iff, text_eq_refl, text_eq-cases,
  ltb, leb, ◌==◌, ==_iff, if◌then◌else◌, length, get_elem?, set, take, drop, length-append,
  length-set, length-take, length-drop, get_elem?-set_self, get_elem?-set_ne, get_elem?-lt, All,
  All-append, get_elem?-append_left, get_elem?-concat_last, get_elem?-set_cases,
  get_elem?-concat_cases, Bool-cases, Option-cases, is_some,
}
use mcp_searxng_relay.GoLib.Lru.{Lru}
use mcp_searxng_relay.History.Record.{FetchRecord}
use mcp_searxng_relay.History.Table.{FetchHistory, new_fetch_history, append_record}

module _ (L : Lru ℕ) where
  pub record Callers : Type 0 where
    pub heap : List FetchHistory
    pub cache : L.Cache
    -- metrics.HistoryEvictions
    pub evictions : ℕ

  unfoldable pub new_fetch_history_cache : Callers
  new_fetch_history_cache = record { heap = []; cache = L.empty; evictions = 0 }

  -- `size` is config.HistoryEntries.
  unfoldable pub history_for : ℕ → Text → Callers → ℕ × Callers
  history_for size key t = elim (L.peek t.cache key) [
    | some h ↦ (h, record t { cache = L.get t.cache key })
    | none ↦ (
      length t.heap,
      record t {
        heap = t.heap ++ new_fetch_history size ∷ [];
        cache = L.add (L.get t.cache key) key (length t.heap);
      },
    )
  ]

  abbrev pub stamped : ℕ → FetchRecord → FetchRecord
  stamped now r = if r.fetched_at == 0 then record r { fetched_at = now } else r

  -- h.appendRecord(r) for the history that the pointer names.
  unfoldable pub append_at : FetchRecord → ℕ → Callers → Callers
  append_at r p t = elim (get_elem? t.heap p) [
    | none ↦ t
    | some h ↦ record t {
      heap = set t.heap p (append_record r h).1;
      evictions = if (append_record r h).0.1 then t.evictions + 1 else t.evictions;
    }
  ]

  unfoldable pub record_fetch : ℕ → ℕ → Text → FetchRecord → Callers → Callers
  unfolding history_for append_at
  record_fetch size now key r t =
      append_at (stamped now r) (history_for size key t).0 (history_for size key t).1
