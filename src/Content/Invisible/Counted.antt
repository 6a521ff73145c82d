-- ===== src/Content/Invisible/Counted.antt =====
-- The count of removed characters is how much shorter the text became.
use mcp_searxng_relay.Base.{
  ℕ, zero, suc, ◌+◌, ◌≤◌, ◌≡◌, arith, Bool, true, false, inl, inr, Option, none, some, [], ◌∷◌,
  Text, ◌==◌, if◌then◌else◌, length, Bool-cases,
}
use mcp_searxng_relay.Content.Invisible.{
  is_tag, black_flag, cancel_tag, is_subdivision_tag, zero_width_joiner, is_invisible_rune,
  contains_invisible, scan_tags, scan_tag_run, joins, kept, strip_from, strip_invisible,
  is_emoji_presentation_selector,
}

scan_tags-count :
    (s : Text) (count spec : ℕ) (cancelled ok : Bool)
    → (scan_tags s count spec cancelled ok).0 ≤ count + length s
unfolding scan_tags
scan_tags-count [] count spec cancelled ok = omega arith
scan_tags-count (r ∷ s) count spec cancelled ok =
    let after = scan_tags-count s (suc count) in
    let room : suc count + length s ≡ count + suc (length s) = omega arith in
    elim (Bool-cases (is_tag r)) [
      | inr e ↦ rw (scan_tags, e) (omega arith)
      | inl e ↦ elim (Bool-cases cancelled) [
        | inl f ↦ rw (scan_tags, e, f) (omega (arith, room, after spec true false))
        | inr f ↦ elim (Bool-cases (r == cancel_tag)) [
          | inl g ↦ rw (scan_tags, e, f, g) (omega (arith, room, after spec true ok))
          | inr g ↦ elim (Bool-cases (is_subdivision_tag r)) [
            | inl k ↦ rw (scan_tags, e, f, g, k) (omega (arith, room, after (suc spec) false ok))
            | inr k ↦ rw (scan_tags, e, f, g, k) (omega (arith, room, after spec false false))
          ]
        ]
      ]
    ]

scan_tag_run-count : (s : Text) → (scan_tag_run s).0 ≤ length s
unfolding scan_tag_run
scan_tag_run-count s = omega (arith, scan_tags-count s 0 0 false true)

-- What is written and what is removed are all of the text.
Whole : Text → Text × ℕ → Type 0
Whole s (out, removed) = length out + removed ≡ length s

Whole-kept : (r : ℕ) (s : Text) (res : Text × ℕ) → Whole s res → Whole (r ∷ s) (kept r res)
unfolding Whole
Whole-kept r s (out, removed) h = omega (arith, h)

module _ (r : ℕ) (s : Text)
    (skipped : (skip : ℕ) (p : Option ℕ)
      → skip ≤ length s
      → length (strip_from s 0 skip p).0 + (strip_from s 0 skip p).1 + skip ≡ length s)
    (copied : (copy : ℕ) (p : Option ℕ) → Whole s (strip_from s copy 0 p)) where
  -- One turn of the loop that is neither in a flag nor in a run.
  turn-Whole : (prev : Option ℕ) → Whole (r ∷ s) (strip_from (r ∷ s) 0 0 prev)
  unfolding strip_from Whole
  turn-Whole prev = elim (Bool-cases (r == black_flag)) [
    | inl e ↦ elim (Bool-cases (scan_tag_run s).1) [
      | inl ok ↦ rw (strip_from, e, ok) (Whole-kept r s _ (copied (scan_tag_run s).0 (some r)))
      | inr bad ↦
          rw (strip_from, e, bad)
            (omega (arith, skipped (scan_tag_run s).0 (some r) (scan_tag_run-count s)))
    ]
    | inr e ↦ elim (Bool-cases (r == zero_width_joiner)) [
      | inl f ↦ elim (Bool-cases (joins prev s)) [
        | inl g ↦ rw (strip_from, e, f, g) (Whole-kept r s _ (copied 0 (some r)))
        | inr g ↦ rw (strip_from, e, f, g) (omega (arith, skipped 0 prev (omega arith)))
      ]
      | inr f ↦ elim (Bool-cases (is_invisible_rune r)) [
        | inl g ↦ rw (strip_from, e, f, g) (omega (arith, skipped 0 prev (omega arith)))
        | inr g ↦
            rw (strip_from, e, f, g)
              (Whole-kept r s _
                (copied 0 (if is_emoji_presentation_selector r then prev else some r)))
      ]
    ]
  ]

  skip_more :
      (skip : ℕ) (p : Option ℕ)
      → skip ≤ length (r ∷ s)
      → length (strip_from (r ∷ s) 0 skip p).0 + (strip_from (r ∷ s) 0 skip p).1 + skip
        ≡ length (r ∷ s)
  unfolding strip_from Whole
  skip_more zero p h = omega (arith, turn-Whole p)
  skip_more (suc skip) p h = omega (arith, skipped skip p (omega (arith, h)))

  copy_more : (copy : ℕ) (p : Option ℕ) → Whole (r ∷ s) (strip_from (r ∷ s) copy 0 p)
  unfolding strip_from
  copy_more zero p = turn-Whole p
  copy_more (suc copy) p = Whole-kept r s _ (copied copy p)

loop-length :
    (s : Text)
    → ((skip : ℕ) (p : Option ℕ)
        → skip ≤ length s
        → length (strip_from s 0 skip p).0 + (strip_from s 0 skip p).1 + skip ≡ length s)
      × ((copy : ℕ) (p : Option ℕ) → Whole s (strip_from s copy 0 p))
unfolding strip_from Whole
loop-length [] = ((λ skip p h. omega (arith, h)), (λ copy p. omega arith))
loop-length (r ∷ s) =
    let (skipped, copied) = loop-length s in
    (skip_more r s skipped copied, copy_more r s skipped copied)

-- The count is exactly how many characters the text lost, whatever way the loop takes.
pub strip_invisible-length :
    (s : Text) → length (strip_invisible s).0 + (strip_invisible s).1 ≡ length s
unfolding strip_invisible Whole
strip_invisible-length s = elim (Bool-cases (contains_invisible s)) [
  | inl e ↦ rw (strip_invisible, e) ((loop-length s).1 0 none)
  | inr e ↦ rw (strip_invisible, e) (omega arith)
]
