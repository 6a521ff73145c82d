-- ===== src/Content/Invisible/Clean.antt =====
-- The fast path changes nothing but the cost.
use mcp_searxng_relay.Base.{
  ℕ, ◌≡◌, refl, ap, sym, arith, true, false, inl, inr, Option, none, some, [], ◌∷◌, Text, ◌==◌,
  if◌then◌else◌, Bool-cases,
}
use mcp_searxng_relay.Content.Invisible.{
  is_tag, black_flag, zero_width_joiner, is_invisible_rune, contains_invisible, scan_tags,
  scan_tag_run, kept, strip_from, strip_invisible, is_emoji_presentation_selector,
}

clean_scan : (s : Text) → contains_invisible s ≡ false → scan_tag_run s ≡ (0, true)
unfolding scan_tag_run contains_invisible is_invisible_rune scan_tags
clean_scan [] h = refl
clean_scan (r ∷ s) h =
    let visible : is_tag r ≡ false = ground arith in rw (scan_tag_run, scan_tags, visible) refl

joiner_invisible : (r : ℕ) → (r == zero_width_joiner) ≡ true → is_invisible_rune r ≡ true
unfolding is_invisible_rune
joiner_invisible r h = ground arith

clean_strip :
    (s : Text) (prev : Option ℕ) → contains_invisible s ≡ false → strip_from s 0 0 prev ≡ (s, 0)
unfolding strip_from contains_invisible
clean_strip [] prev h = refl
clean_strip (r ∷ s) prev h =
    let visible : is_invisible_rune r ≡ false = ground arith in
    let rest : contains_invisible s ≡ false = ground arith in
    elim (Bool-cases (r == black_flag)) [
      | inl flag ↦
          rw (strip_from, flag, clean_scan s rest)
            (rw (clean_scan s rest) (ap (kept r) (clean_strip s (some r) rest)))
      | inr other ↦ elim (Bool-cases (r == zero_width_joiner)) [
        | inl joiner ↦ cc (joiner_invisible r joiner)
        | inr plain ↦
            rw (strip_from, other, plain, visible)
              (ap (kept r)
                (clean_strip s (if is_emoji_presentation_selector r then prev else some r) rest))
      ]
    ]

-- The test for invisible characters is only a short cut: with it or without it, the loop's result
-- is the result.
pub strip_invisible_loop : (s : Text) → strip_invisible s ≡ strip_from s 0 0 none
unfolding strip_invisible
strip_invisible_loop s = elim (Bool-cases (contains_invisible s)) [
  | inl e ↦ rw (strip_invisible, e) refl
  | inr e ↦ rw (strip_invisible, e) (sym (clean_strip s none e))
]
