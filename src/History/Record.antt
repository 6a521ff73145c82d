-- ===== src/History/Record.antt =====
-- readDepth, fetchRecord, citableURL, depthRank and mergeRecord of history.go.
-- A time is a number of nanoseconds, 0 for the zero time.
pub mod Merge
use mcp_searxng_relay.Base.{ℕ, suc, ◌+◌, Bool, true, false, List, [], ◌∷◌, Text, ltb, if◌then◌else◌}

-- `nothing` is "none"; `unset` a record that never set the field.
pub data ReadDepth : Type 0 where
  unset nothing metadata partial full image : ReadDepth

pub data Outcome : Type 0 where
  ok error : Outcome

pub record FetchRecord : Type 0 where
  pub seq : ℕ
  pub tool : Text
  pub url : Text
  pub final_url : Text
  pub title : Text
  pub fetched_at : ℕ
  pub outcome : Outcome
  pub err : Text
  pub read : ReadDepth
  pub chars_read : ℕ
  pub total_chars : ℕ
  pub from_cache : Bool
  pub fetches : ℕ

abbrev pub or_else : Text → Text → Text
or_else [] d = d
or_else (c ∷ s) d = c ∷ s

unfoldable pub citable_url : FetchRecord → Text
citable_url r = or_else r.final_url r.url

unfoldable pub depth_rank : ReadDepth → ℕ
depth_rank full = 4
depth_rank partial = 3
depth_rank metadata = 2
depth_rank image = 2
depth_rank nothing = 1
depth_rank unset = 1

abbrev pub larger : ℕ → ℕ → ℕ
larger a b = if ltb a b then b else a

-- The merged record once the deeper of the two is known.
merge_into : FetchRecord → FetchRecord → FetchRecord → FetchRecord → FetchRecord
merge_into best other held cur = record best {
  url = cur.url;
  final_url = cur.final_url;
  seq = cur.seq;
  fetched_at = cur.fetched_at;
  tool = cur.tool;
  from_cache = cur.from_cache;
  fetches = held.fetches + 1;
  chars_read = larger best.chars_read other.chars_read;
  total_chars = larger best.total_chars other.total_chars;
  title = or_else best.title other.title;
}

unfoldable pub merge_record : FetchRecord → FetchRecord → FetchRecord
unfolding merge_into depth_rank
merge_record held cur =
    if ltb (depth_rank cur.read) (depth_rank held.read)
    then merge_into held cur held cur
    else merge_into cur held held cur
