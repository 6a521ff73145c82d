-- ===== src/Config/Tokens.antt =====
-- parseAuthTokens, addAuthToken and parseSharedSecretToken of config.go. A map from digests to
-- identities is an association list; SHA-256 is the parameter `sha256`, its digests texts.
pub mod Issued
use mcp_searxng_relay.Base.{
  ℕ, zero, suc, ◌+◌, ◌-◌, ◌*◌, ◌≤◌, ◌<◌, min, max, ◌≡◌, refl, sym, ap, subst, ◌∙◌, ◌≢◌, ◌↔◌, ◌⊎◌,
  inl, inr, Bool, true, false, not, ◌&&◌, ◌||◌, Option, none, some, List, [], ◌∷◌, ◌++◌, map,
  append_assoc, append-nil, arith, Text, codes, text_eq, text_eq_iff, text_eq_refl, text_eq-cases,
  ltb, leb, ◌==◌, ==_iff, if◌then◌else◌, length, get_elem?, set, take, drop, length-append,
  length-set, length-take, length-drop, get_elem?-set_self, get_elem?-set_ne, get_elem?-lt, All,
  All-append, get_elem?-append_left, get_elem?-concat_last, get_elem?-set_cases,
  get_elem?-concat_cases, Bool-cases, Option-cases, is_some,
}
use mcp_searxng_relay.Base.Dict.{insert}
use mcp_searxng_relay.GoLib.Strings.{trim_space, split}
use mcp_searxng_relay.GoLib.Search.{cut}

-- minAuthTokenLen
abbrev pub min_auth_token_len : ℕ
min_auth_token_len = 32

pub data TokenError : Type 0 where
  too_short : TokenError
  -- The entry or line, from 1.
  no_colon : ℕ → TokenError
  empty_identity : ℕ → TokenError
  unreadable_file : TokenError

abbrev pub bearer : Text → Text
bearer token = codes "Bearer " ++ token

-- An entry without a colon, without an identity, or an identity and a token.
pub data Entry : Type 0 where
  colonless : Entry
  nameless : Entry
  entry : Text → Text → Entry

unfoldable pub parse_entry : Text → Entry
parse_entry pair =
    let c = cut pair b':' in
    if c.2
    then elim (trim_space c.0) [ [] ↦ nameless | d ∷ id ↦ entry (d ∷ id) (trim_space c.1) ]
    else colonless

abbrev pub Tokens : Type 0
Tokens = List (Text × Text)

abbrev pub blank : Text → Bool
blank [] = true
blank (c ∷ s) = false

abbrev pub blank_or_comment : Text → Bool
blank_or_comment [] = true
blank_or_comment (c ∷ s) = c == b'#'

module _ (sha256 : Text → Text) where
  unfoldable pub add_auth_token : Text → Text → Tokens → TokenError ⊎ Tokens
  add_auth_token identity token m =
      if ltb (length token) min_auth_token_len
      then inl too_short
      else inr (insert (sha256 (bearer token)) identity m)

  -- One entry or line, the `i`-th.
  unfoldable pub add_line : ℕ → Text → Tokens → TokenError ⊎ Tokens
  unfolding parse_entry add_auth_token
  add_line i line m = elim (parse_entry line) [
    | colonless ↦ inl (no_colon i)
    | nameless ↦ inl (empty_identity i)
    | entry id tok ↦ add_auth_token id tok m
  ]

  -- The loop over the entries of a source, each trimmed, counted from `i`; `skips` are those that
  -- the source leaves out.
  unfoldable pub add_entries : (Text → Bool) → ℕ → List Text → Tokens → TokenError ⊎ Tokens
  unfolding add_line
  add_entries skips i [] m = inr m
  add_entries skips i (raw ∷ raws) m =
      let skipped = add_entries skips (i + 1) raws m in
      let added : TokenError ⊎ Tokens = elim (add_line i (trim_space raw) m) [
        | inl e ↦ inl e
        | inr m' ↦ add_entries skips (i + 1) raws m'
      ] in
      if skips (trim_space raw) then skipped else added

  -- MCP_AUTH_TOKEN
  unfoldable pub add_single : Text → Tokens → TokenError ⊎ Tokens
  unfolding add_auth_token
  add_single var m = elim (trim_space var) [
    | [] ↦ inr m
    | c ∷ t ↦ add_auth_token (codes "default") (c ∷ t) m
  ]

  -- MCP_AUTH_TOKENS
  unfoldable pub add_pairs : Text → Tokens → TokenError ⊎ Tokens
  unfolding add_entries
  add_pairs [] m = inr m
  add_pairs (c ∷ v) m = add_entries blank 1 (split (c ∷ v) b',') m

  -- MCP_AUTH_TOKEN_FILE: `none` when it names no file, `some none` for a file that cannot be read.
  unfoldable pub add_file : Option (Option Text) → Tokens → TokenError ⊎ Tokens
  unfolding add_entries
  add_file none m = inr m
  add_file (some none) m = inl unreadable_file
  add_file (some (some content)) m = add_entries blank_or_comment 1 (split content b'\n') m

  unfoldable pub parse_auth_tokens : Text → Text → Option (Option Text) → TokenError ⊎ Tokens
  unfolding add_single add_pairs add_file
  parse_auth_tokens single pairs file = elim (add_single single []) [
    | inl e ↦ inl e
    | inr m ↦ elim (add_pairs pairs m) [ inl e ↦ inl e | inr m' ↦ add_file file m' ]
  ]

  -- The set of digests; the empty list stands for the nil map of a variable that is not set.
  unfoldable pub parse_shared_secret_token : Text → TokenError ⊎ List Text
  parse_shared_secret_token var = elim (trim_space var) [
    | [] ↦ inr []
    | c ∷ t ↦
        if ltb (length (c ∷ t)) min_auth_token_len
        then inl too_short
        else inr (sha256 (bearer (c ∷ t)) ∷ [])
  ]
