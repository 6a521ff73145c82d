-- ===== src/Config/Tokens/Issued.antt =====
-- Which tokens parseAuthTokens admits, and for whom.
use mcp_searxng_relay.Base.{
  List-cases, ℕ, ◌+◌, ◌≡◌, refl, sym, ap, ◌∙◌, ◌⊎◌, inl, inr, Bool, Option, none, some, List, [],
  ◌∷◌, ◌++◌, Text, codes, text_eq, ltb, if◌then◌else◌, length, Bool-cases,
}
use mcp_searxng_relay.Base.Dict.{lookup, insert, lookup-insert}
use mcp_searxng_relay.GoLib.Strings.{trim_space, split}
use mcp_searxng_relay.Config.Tokens.{
  add_line, too_short, no_colon, empty_identity, Tokens, blank, blank_or_comment,
  min_auth_token_len, TokenError, bearer, Entry, colonless, nameless, entry, parse_entry,
  add_auth_token, add_entries, add_single, add_pairs, add_file, parse_auth_tokens, unreadable_file,
}

-- The lines of a source that count, trimmed.
abbrev pub kept : (Text → Bool) → List Text → List Text
kept skips [] = []
kept skips (raw ∷ raws) =
    let rest = kept skips raws in if skips (trim_space raw) then rest else trim_space raw ∷ rest

-- The identity and the token of a line: `none` without a colon or an identity, or with a token
-- that is too short.
abbrev pub read_line : Text → Option (Text × Text)
read_line line = elim (parse_entry line) [
  | colonless ↦ none
  | nameless ↦ none
  | entry id tok ↦ if ltb (length tok) min_auth_token_len then none else some (id, tok)
]

abbrev pub both :
    Option (List (Text × Text)) → Option (List (Text × Text)) → Option (List (Text × Text))
both none b = none
both (some xs) none = none
both (some xs) (some ys) = some (xs ++ ys)

abbrev pub read_lines : List Text → Option (List (Text × Text))
read_lines [] = some []
read_lines (line ∷ lines) =
    both (elim (read_line line) [ none ↦ none | some e ↦ some (e ∷ []) ]) (read_lines lines)

abbrev pub read_single : Text → Option (List (Text × Text))
read_single var = elim (trim_space var) [
  | [] ↦ some []
  | c ∷ t ↦
      if ltb (length (c ∷ t)) min_auth_token_len then none else some ((codes "default", c ∷ t) ∷ [])
]

abbrev pub read_file : Option (Option Text) → Option (List (Text × Text))
read_file none = some []
read_file (some none) = none
read_file (some (some content)) = read_lines (kept blank_or_comment (split content b'\n'))

-- All identities with their tokens, in the order of the sources; `none` where one is not right.
abbrev pub configured : Text → Text → Option (Option Text) → Option (List (Text × Text))
configured single pairs file =
    both (read_single single) (both (read_lines (kept blank (split pairs b','))) (read_file file))

module _ (sha256 : Text → Text) where
  -- The last identity whose token has the digest.
  abbrev pub last_identity : Text → Option Text → List (Text × Text) → Option Text
  last_identity digest held [] = held
  last_identity digest held ((id, tok) ∷ es) =
      last_identity digest (if text_eq (sha256 (bearer tok)) digest then some id else held) es

  abbrev insert_all : List (Text × Text) → Tokens → Tokens
  insert_all [] m = m
  insert_all ((id, tok) ∷ es) m = insert_all es (insert (sha256 (bearer tok)) id m)

  lookup-insert_all :
      (es : List (Text × Text)) (digest : Text) (m : Tokens)
      → lookup digest (insert_all es m) ≡ last_identity digest (lookup digest m) es
  lookup-insert_all [] digest m = refl
  lookup-insert_all ((id, tok) ∷ es) digest m =
      lookup-insert_all es digest (insert (sha256 (bearer tok)) id m)
      ∙ ap (λ o. last_identity digest o es) (lookup-insert (sha256 (bearer tok)) digest id m)

  insert_all-append :
      (xs ys : List (Text × Text)) (m : Tokens)
      → insert_all (xs ++ ys) m ≡ insert_all ys (insert_all xs m)
  insert_all-append [] ys m = refl
  insert_all-append ((id, tok) ∷ xs) ys m = insert_all-append xs ys _

  -- A source is either all right, and its entries are put in, or it is an error.
  Follows : Option (List (Text × Text)) → Tokens → TokenError ⊎ Tokens → Type 0
  Follows entries m r =
      ((entries ≡ none) × (e : TokenError) × (r ≡ inl e))
      ⊎ ((es : List (Text × Text)) × (entries ≡ some es) × (r ≡ inr (insert_all es m)))

  add_line_by_entry :
      (i : ℕ) (line : Text) (m : Tokens) (e : Entry)
      → parse_entry line ≡ e
      → ((read_line line ≡ none) × (e : TokenError) × (add_line sha256 i line m ≡ inl e))
        ⊎ ((id : Text) × (tok : Text) × (read_line line ≡ some (id, tok))
            × (add_line sha256 i line m ≡ inr (insert (sha256 (bearer tok)) id m)))
  unfolding add_line add_auth_token
  add_line_by_entry i line m colonless h =
      inl (rw (read_line, h) refl, no_colon i, rw (add_line, h) refl)
  add_line_by_entry i line m nameless h =
      inl (rw (read_line, h) refl, empty_identity i, rw (add_line, h) refl)
  add_line_by_entry i line m (entry id tok) h =
      elim (Bool-cases (ltb (length tok) min_auth_token_len)) [
        | inl short ↦ inl (rw (read_line, h, short) refl, too_short, rw (add_line, h, short) refl)
        | inr long ↦ inr (id, tok, rw (read_line, h, long) refl, rw (add_line, h, long) refl)
      ]

  add_entries-Follows :
      (skips : Text → Bool) (i : ℕ) (raws : List Text) (m : Tokens)
      → Follows (read_lines (kept skips raws)) m (add_entries sha256 skips i raws m)
  unfolding add_entries Follows
  add_entries-Follows skips i [] m = inr ([], refl, refl)
  add_entries-Follows skips i (raw ∷ raws) m = elim (Bool-cases (skips (trim_space raw))) [
    | inl b ↦ rw (b, add_entries) (add_entries-Follows skips (i + 1) raws m)
    | inr b ↦ elim (add_line_by_entry i (trim_space raw) m (parse_entry (trim_space raw)) refl) [
      | inl (missing, e, failed) ↦ inl (rw (b, missing) refl, e, rw (add_entries, b, failed) refl)
      | inr (id, tok, read, added) ↦
          elim (add_entries-Follows skips (i + 1) raws (insert (sha256 (bearer tok)) id m)) [
            | inl (missing, e, failed) ↦
                inl (rw (b, read, missing) refl, e, rw (add_entries, b, added) failed)
            | inr (es, rest, ok) ↦
                inr ((id, tok) ∷ es, rw (b, read, rest) refl, rw (add_entries, b, added) ok)
          ]
    ]
  ]

  add_single-Follows :
      (var : Text) (m : Tokens) → Follows (read_single var) m (add_single sha256 var m)
  unfolding add_single add_auth_token Follows
  add_single-Follows var m = elim (List-cases (trim_space var)) [
    | inl e ↦ inr ([], rw (read_single, e) refl, rw (add_single, e) refl)
    | inr (c, t, e) ↦ elim (Bool-cases (ltb (length (c ∷ t)) min_auth_token_len)) [
      | inl short ↦ inl (rw (read_single, e, short) refl, too_short, rw (add_single, e, short) refl)
      | inr long ↦ inr (
        (codes "default", c ∷ t) ∷ [],
        rw (read_single, e, long) refl,
        rw (add_single, e, long) refl,
      )
    ]
  ]

  add_pairs-Follows :
      (pairs : Text) (m : Tokens)
      → Follows (read_lines (kept blank (split pairs b','))) m (add_pairs sha256 pairs m)
  unfolding add_pairs Follows split trim_space
  add_pairs-Follows [] m = inr ([], refl, refl)
  add_pairs-Follows (c ∷ v) m = add_entries-Follows blank 1 (split (c ∷ v) b',') m

  add_file-Follows :
      (file : Option (Option Text)) (m : Tokens)
      → Follows (read_file file) m (add_file sha256 file m)
  unfolding add_file Follows
  add_file-Follows none m = inr ([], refl, refl)
  add_file-Follows (some none) m = inl (refl, unreadable_file, refl)
  add_file-Follows (some (some content)) m =
      add_entries-Follows blank_or_comment 1 (split content b'\n') m

  -- parseAuthTokens fails where an entry of a source has no colon, no identity or a token of less
  -- than 32 bytes, or the file cannot be read; else it succeeds, and its table knows just the
  -- digests of the configured tokens, each for the last identity that was given for it.
  pub parse_auth_tokens-configured :
      (single pairs : Text) (file : Option (Option Text))
      → ((configured single pairs file ≡ none)
          × (e : TokenError) × (parse_auth_tokens sha256 single pairs file ≡ inl e))
        ⊎ ((es : List (Text × Text)) × (m : Tokens) × (configured single pairs file ≡ some es)
            × (parse_auth_tokens sha256 single pairs file ≡ inr m)
            × ((digest : Text) → lookup digest m ≡ last_identity digest none es))
  unfolding parse_auth_tokens Follows lookup
  parse_auth_tokens-configured single pairs file = elim (add_single-Follows single []) [
    | inl (missing, e, failed) ↦ inl (rw missing refl, e, rw (parse_auth_tokens, failed) refl)
    | inr (es, read, added) ↦ elim (add_pairs-Follows pairs (insert_all es [])) [
      | inl (missing, e, failed) ↦
          inl (rw (read, missing) refl, e, rw (parse_auth_tokens, added, failed) refl)
      | inr (fs, read_pairs, added_pairs) ↦
          elim (add_file-Follows file (insert_all fs (insert_all es []))) [
            | inl (missing, e, failed) ↦ inl (
              rw (read, read_pairs, missing) refl,
              e,
              rw (parse_auth_tokens, added, added_pairs) failed,
            )
            | inr (gs, read_gs, added_gs) ↦ inr (
              es ++ (fs ++ gs),
              insert_all gs (insert_all fs (insert_all es [])),
              rw (read, read_pairs, read_gs) refl,
              rw (parse_auth_tokens, added, added_pairs) added_gs,
              λ digest.
                  ap (lookup digest) (
                    sym (
                      insert_all-append es (fs ++ gs) []
                      ∙ insert_all-append fs gs (insert_all es [])))
                  ∙ lookup-insert_all (es ++ (fs ++ gs)) digest [],
            )
          ]
    ]
  ]
