-- ===== src/Provenance/Seen.antt =====
-- The addresses that a caller was shown: seenURLs, add and has of provenance.go. An address counts
-- by its key, for which urlKey is passed in; `none` is an address without one.
pub mod Valid
use mcp_searxng_relay.Base.{
  ℕ, suc, Bool, true, false, Option, none, some, List, [], ◌∷◌, ◌++◌, Text, ltb, if◌then◌else◌,
  length, is_some,
}
use mcp_searxng_relay.Base.Dict.{lookup, insert, delete}

-- maxSeenURLs
abbrev pub max_seen_urls : ℕ
max_seen_urls = 2000

-- `set` holds a key by any entry; `order` is oldest first.
pub record SeenUrls : Type 0 where
  pub set : List (Text × Bool)
  pub order : List Text

abbrev pub no_urls : SeenUrls
no_urls = record { set = []; order = [] }

-- The loop that drops the oldest while there are too many.
unfoldable pub drop_oldest : List (Text × Bool) → List Text → SeenUrls
drop_oldest set [] = record { set = set; order = [] }
drop_oldest set (k ∷ order) =
    let rest = drop_oldest (delete k set) order in
    if ltb max_seen_urls (suc (length order)) then rest else record { set = set; order = k ∷ order }

module _ (url_key : Text → Option Text) where
  unfoldable pub add : Text → SeenUrls → SeenUrls
  unfolding drop_oldest
  add raw s = elim (url_key raw) [
    | none ↦ s
    | some key ↦
        if is_some (lookup key s.set)
        then s
        else drop_oldest (insert key true s.set) (s.order ++ key ∷ [])
  ]

  unfoldable pub has : Text → SeenUrls → Bool
  has raw s = elim (url_key raw) [ none ↦ false | some key ↦ is_some (lookup key s.set) ]
