-- ===== src/Content/Paginate/Pages.antt =====
-- A reader who follows the hints gets the whole text.
use mcp_searxng_relay.Base.{
  drop-nil, sym, ◌∙◌, ◌&&◌, ◌==◌, ltb, leb, if◌then◌else◌, ap, ◌<◌, ◌-◌, ◌≤◌, take, drop,
  take-append-drop, ==_iff, ℕ, zero, suc, ◌+◌, ◌≡◌, refl, sym, ◌∙◌, ◌⊎◌, inl, inr, Bool, true,
  false, Option, none, some, List, [], ◌∷◌, ◌++◌, arith, Text, length, get_elem?, Bool-cases,
}
use mcp_searxng_relay.Base.Int.{ℤ, pos}
use mcp_searxng_relay.Content.Paginate.{
  extraction_capped, Page, Note, truncated, rune_size, starts_rune, snap_back, window_size,
  window_end, page_at, paginate_content, notes_of,
}
use mcp_searxng_relay.Content.Paginate.Window.{window_end-bounds, window_size-positive}

-- What valid UTF-8 gives: one rune after an offset that is not moved back there is another one.
abbrev pub IsWellEncoded : Text → Type 0
IsWellEncoded text =
    (i : ℕ)
    → i < length text
    → snap_back text 0 i ≡ i
    → snap_back text 0 (i + rune_size (drop i text)) ≡ i + rune_size (drop i text)

-- The offset that a page says to continue at.
abbrev pub next_of : List Note → Option ℕ
next_of [] = none
next_of (truncated start end total ∷ notes) = some end
next_of (n ∷ notes) = next_of notes

-- The bodies that a reader gets who follows the hints from an offset; `none` for an error and when
-- the fuel runs out.
abbrev pub follow : ℕ → Text → ℤ → Bool → ℕ → ℕ → Option (List Text)
follow zero text max_chars capped cap asked = none
follow (suc fuel) text max_chars capped cap asked =
    elim (paginate_content text (pos asked) max_chars capped cap) [
      | none ↦ none
      | some p ↦ elim (next_of p.notes) [
        | none ↦ some (p.body ∷ [])
        | some next ↦ elim (follow fuel text max_chars capped cap next) [
          | none ↦ none
          | some bodies ↦ some (p.body ∷ bodies)
        ]
      ]
    ]

abbrev pub joined : List Text → Text
joined [] = []
joined (t ∷ ts) = t ++ joined ts

get_elem?-end : (text : Text) → get_elem? text (length text) ≡ none
get_elem?-end [] = refl
get_elem?-end (c ∷ text) = get_elem?-end text

boundary_start :
    (text : Text) (i : ℕ) → starts_rune (get_elem? text i) ≡ true → snap_back text 0 i ≡ i
unfolding snap_back
boundary_start text zero h = refl
boundary_start text (suc i) h =
    rw (snap_back, h) (elim (Bool-cases (leb (suc i) 0)) [ inl e ↦ rw e refl | inr e ↦ rw e refl ])

snap_back-boundary :
    (text : Text) (lo i : ℕ)
    → lo ≤ i
    → (snap_back text lo i ≡ lo) ⊎ (starts_rune (get_elem? text (snap_back text lo i)) ≡ true)
unfolding snap_back
snap_back-boundary text lo zero h = inl (omega (arith, h))
snap_back-boundary text lo (suc i) h = elim (Bool-cases (leb (suc i) lo)) [
  | inl e ↦ inl (rw e (ground (arith, e, h)))
  | inr e ↦ elim (Bool-cases (starts_rune (get_elem? text (suc i)))) [
    | inl f ↦ inr (rw (snap_back, e, f) f)
    | inr f ↦ rw (snap_back, e, f) (snap_back-boundary text lo i (ground (arith, e, h)))
  ]
]

-- A window that begins at a boundary ends at one.
window_end-boundary :
    (text : Text) (start window : ℕ)
    → IsWellEncoded text
    → start < length text
    → 1 ≤ window
    → snap_back text 0 start ≡ start
    → snap_back text 0 (window_end text start window) ≡ window_end text start window
unfolding window_end
window_end-boundary text start window enc inside w b =
    elim (Bool-cases (leb (length text) (start + window))) [
      | inl e ↦
          rw (window_end, e) (boundary_start text (length text) (rw (get_elem?-end text) refl))
      | inr e ↦ elim (Bool-cases (snap_back text start (start + window) == start)) [
        | inl f ↦ rw (window_end, e, f) (enc start inside b)
        | inr f ↦ elim (snap_back-boundary text start (start + window) (omega arith)) [
          | inl same ↦
              absurd (cc (f, (==_iff (snap_back text start (start + window)) start).1 same))
          | inr starts ↦ rw (window_end, e, f) (boundary_start text _ starts)
        ]
      ]
    ]

-- A page that is asked for at a boundary before the end: it begins there, and its hint gives its
-- end, a boundary further on, just when there is more.
record Onward (text : Text) (asked : ℕ) (p : Page) : Type 0 where
  start : p.start ≡ asked
  body : p.body ≡ take (p.end - asked) (drop asked text)
  advances : asked < p.end
  within : p.end ≤ length text
  boundary : snap_back text 0 p.end ≡ p.end
  hint :
      (p.end < length text) × (next_of p.notes ≡ some p.end)
      ⊎ (p.end ≡ length text) × (next_of p.notes ≡ none)

capped_notes : (b : Bool) (cap : ℕ) → next_of (if b then extraction_capped cap ∷ [] else []) ≡ none
capped_notes true cap = refl
capped_notes false cap = refl

next_of-notes_of :
    (start end total : ℕ) (capped : Bool) (cap : ℕ)
    → end ≤ total
    → (end < total) × (next_of (notes_of start end total capped cap) ≡ some end)
      ⊎ (end ≡ total) × (next_of (notes_of start end total capped cap) ≡ none)
next_of-notes_of start end total capped cap h = elim (Bool-cases (ltb end total)) [
  | inl e ↦ inl (ground (arith, e), rw e refl)
  | inr e ↦ inr (
    ground (arith, e, h),
    rw e (elim (Bool-cases (ltb 0 start)) [
      | inl f ↦ rw f (capped_notes (end == total && capped) cap)
      | inr f ↦ rw f (capped_notes (end == total && capped) cap)
    ]),
  )
]

paginate_content-Onward :
    (text : Text) (max_chars : ℤ) (capped : Bool) (cap asked : ℕ)
    → IsWellEncoded text
    → asked < length text
    → snap_back text 0 asked ≡ asked
    → (p : Page) × (paginate_content text (pos asked) max_chars capped cap ≡ some p)
      × Onward text asked p
unfolding paginate_content page_at
paginate_content-Onward text max_chars capped cap asked enc inside b =
    let window = window_size max_chars in
    let before_end : (ltb 0 asked && leb (length text) asked) ≡ false = ground (arith, inside) in
    let bounds = window_end-bounds text asked window inside (window_size-positive max_chars) in
    let (advances, within_text, _) = bounds in
    (
      page_at text asked window capped cap,
      rw (paginate_content, before_end, b) refl,
      record {
        start = refl;
        body = refl;
        advances = advances;
        within = within_text;
        boundary =
            window_end-boundary text asked window enc inside (window_size-positive max_chars) b;
        hint =
            next_of-notes_of asked (window_end text asked window) (length text) capped cap
              within_text;
      },
    )

drop-further : (n m : ℕ) (text : Text) → n ≤ m → drop (m - n) (drop n text) ≡ drop m text
drop-further zero m text h = ap (λ k. drop k text) (omega arith)
drop-further (suc n) zero text h = absurd (omega (arith, h))
drop-further (suc n) (suc m) [] h = drop-nil (suc m - suc n)
drop-further (suc n) (suc m) (c ∷ text) h =
    let fewer : suc m - suc n ≡ m - n = omega arith in
    rw fewer (drop-further n m text (omega (arith, h)))

drop-whole : (text : Text) → drop (length text) text ≡ []
drop-whole [] = refl
drop-whole (c ∷ text) = drop-whole text

follow-joined :
    (fuel : ℕ) (text : Text) (max_chars : ℤ) (capped : Bool) (cap asked : ℕ)
    → IsWellEncoded text
    → asked < length text
    → snap_back text 0 asked ≡ asked
    → length text - asked ≤ fuel
    → (bodies : List Text) × (follow fuel text max_chars capped cap asked ≡ some bodies)
      × (joined bodies ≡ drop asked text)
follow-joined zero text max_chars capped cap asked enc inside b h =
    absurd (omega (arith, inside, h))
follow-joined (suc fuel) text max_chars capped cap asked enc inside b h =
    let (p, given, on) = paginate_content-Onward text max_chars capped cap asked enc inside b in
    let rest_of : drop (p.end - asked) (drop asked text) ≡ drop p.end text =
      drop-further asked p.end text (omega (arith, on.advances)) in
    let split : p.body ++ drop p.end text ≡ drop asked text =
      rw (on.body, ← rest_of) (take-append-drop (p.end - asked) (drop asked text)) in
    elim on.hint [
      | inl (more, next) ↦
          let (bodies, followed, rest) =
            follow-joined fuel text max_chars capped cap p.end enc more on.boundary
              (omega (arith, h, on.advances, on.within)) in
          (p.body ∷ bodies, rw (follow, given, next, followed) refl, rw rest split)
      | inr (last, next) ↦ (
        p.body ∷ [],
        rw (follow, given, next) refl,
        ap (λ r. p.body ++ r) (sym (ap (λ k. drop k text) last ∙ drop-whole text)) ∙ split,
      )
    ]

-- For valid UTF-8 that is not empty, a reader who starts at offset 0 and asks again with the offset
-- of each hint comes to an end, after at most as many pages as the text has bytes, whatever window
-- is asked for, and the bodies of the pages put together are the text.
pub paginate_content_follow :
    (text : Text) (max_chars : ℤ) (capped : Bool) (extraction_cap : ℕ)
    → IsWellEncoded text
    → 0 < length text
    → (bodies : List Text) × (follow (length text) text max_chars capped extraction_cap 0
        ≡ some bodies)
      × (joined bodies ≡ text)
unfolding snap_back
paginate_content_follow text max_chars capped extraction_cap enc h =
    follow-joined (length text) text max_chars capped extraction_cap 0 enc h refl (omega arith)
