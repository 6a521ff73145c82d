-- ===== src/History/Record/Merge.antt =====
-- What a merged record says of the two that it stands for.
use mcp_searxng_relay.Base.{◌+◌, ◌≤◌, ◌≡◌, ◌⊎◌, arith, max}
use mcp_searxng_relay.History.Record.{FetchRecord, citable_url, depth_rank, merge_record}

-- What a merged record `m` takes from the record held and from the current one.
pub record Merged (held cur m : FetchRecord) : Type 0 where
  pub read : depth_rank m.read ≡ max (depth_rank held.read) (depth_rank cur.read)
  pub outcome :
      (depth_rank held.read ≤ depth_rank cur.read) × (m.outcome ≡ cur.outcome) × (m.err ≡ cur.err)
      ⊎ (depth_rank cur.read + 1 ≤ depth_rank held.read)
        × (m.outcome ≡ held.outcome)
        × (m.err ≡ held.err)
  pub chars_read : m.chars_read ≡ max held.chars_read cur.chars_read
  pub total_chars : m.total_chars ≡ max held.total_chars cur.total_chars
  pub fetches : m.fetches ≡ held.fetches + 1
  pub current :
      (m.seq ≡ cur.seq)
      × (m.fetched_at ≡ cur.fetched_at)
      × (m.tool ≡ cur.tool)
      × (m.from_cache ≡ cur.from_cache)
      × (m.url ≡ cur.url)
      × (m.final_url ≡ cur.final_url)

-- Merging a repeat fetch into the record held: the depth of reading is the greater of the two, and
-- the outcome and the error come from the record that read deeper, the newer one where they tie;
-- the character counts are high-water marks; the sequence number, the time, the tool, the cache
-- flag and both addresses are the current fetch's; and one more fetch is counted.
merge_record_lem : (held cur : FetchRecord) → Merged held cur (merge_record held cur)
unfolding merge_record
merge_record_lem held cur = record {
  read = ground arith;
  outcome = ground arith;
  chars_read = ground arith;
  total_chars = ground arith;
  fetches = ground arith;
  current = ground arith;
}

pub merge_record-citable :
    (held cur : FetchRecord) → citable_url (merge_record held cur) ≡ citable_url cur
unfolding merge_record citable_url
merge_record-citable held cur = ground arith

pub merge_record-seq : (held cur : FetchRecord) → (merge_record held cur).seq ≡ cur.seq
unfolding merge_record
merge_record-seq held cur = ground arith

pub merge_record-fetches :
    (held cur : FetchRecord) → (merge_record held cur).fetches ≡ held.fetches + 1
unfolding merge_record
merge_record-fetches held cur = ground arith
