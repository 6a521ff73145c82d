-- ===== src/History/Sources.antt =====
-- The rows of toolSessionSources of history.go, with sourceEntry and the counts of sourcesPayload,
-- from one caller's history. A time stays a number of nanoseconds. The JSON text and the fence
-- around it are left out.
pub mod Complete
pub mod Listed
use mcp_searxng_relay.Base.{
  ℕ, suc, ◌+◌, ◌≡◌, ◌↔◌, refl, ap, ◌∙◌, arith, Bool, true, false, not, ◌&&◌, inl, inr, List, [],
  ◌∷◌, Text, text_eq, Bool-cases, if◌then◌else◌, length, Option, none, some, get_elem?, All,
}
use mcp_searxng_relay.Base.Int.{ℤ, pos, negsuc, le_ℤ}
use mcp_searxng_relay.History.Record.{FetchRecord, ReadDepth, Outcome, citable_url}
use mcp_searxng_relay.History.Table.{FetchHistory, list}

pub record SourceEntry : Type 0 where
  pub url : Text
  pub requested_url : Text
  pub title : Text
  pub read : ReadDepth
  pub outcome : Outcome
  pub err : Text
  pub chars_read : ℕ
  pub total_chars : ℕ
  pub fetched_at : ℕ
  pub from_cache : Bool
  pub tool : Text
  pub seq : ℕ
  pub fetches : ℕ

pub record SourcesPayload : Type 0 where
  pub total : ℕ
  pub returned : ℕ
  pub elided : ℕ
  pub sources : List SourceEntry

-- The requested address is named only where a redirect moved it.
unfoldable pub source_entry : FetchRecord → SourceEntry
source_entry r = record {
  url = citable_url r;
  requested_url =
      if not (text_eq r.final_url []) && not (text_eq r.final_url r.url) then r.url else [];
  title = r.title;
  read = r.read;
  outcome = r.outcome;
  err = r.err;
  chars_read = r.chars_read;
  total_chars = r.total_chars;
  fetched_at = r.fetched_at;
  from_cache = r.from_cache;
  tool = r.tool;
  seq = r.seq;
  fetches = r.fetches;
}

unfoldable pub rows : ℤ → List FetchRecord → List SourceEntry
rows since [] = []
rows since (r ∷ rs) = if le_ℤ r.seq since then rows since rs else source_entry r ∷ rows since rs

-- `none` is a server without a history.
unfoldable pub session_sources : ℤ → Option FetchHistory → SourcesPayload
unfolding rows
session_sources since none = record { total = 0; returned = 0; elided = 0; sources = [] }
session_sources since (some h) = record {
  total = (list h).1;
  returned = length (rows since (list h).0);
  elided = (list h).2;
  sources = rows since (list h).0;
}
