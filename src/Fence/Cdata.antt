-- ===== src/Fence/Cdata.antt =====
-- cdataEscape of fence.go, and what a reader of XML makes of a run of CDATA sections.
use mcp_searxng_relay.Base.{
  drop-nil, ℕ, zero, suc, ◌≡◌, refl, sym, ap, ◌∙◌, inl, inr, true, false, [], ◌∷◌, ◌++◌, arith,
  Text, codes, if◌then◌else◌, length, drop, Bool-cases,
}
use mcp_searxng_relay.GoLib.Strings.{has_prefix, replace_all, replace_from}

abbrev pub section_end : Text
section_end = b']' ∷ b']' ∷ b'>' ∷ []

abbrev pub section_start : Text
section_start = codes "<![CDATA["

unfoldable pub cdata_escape : Text → Text
unfolding replace_all
cdata_escape s = replace_all s section_end (codes "]]]]><![CDATA[>")

-- What a reader of XML makes of the inside of a section and of the sections that follow it without
-- a gap; `skip` bytes belong to the delimiters that were read last.
unfoldable pub sections_from : ℕ → Text → Text
sections_from skip [] = []
sections_from (suc skip) (c ∷ s) = sections_from skip s
sections_from zero (c ∷ s) =
    let next = sections_from 11 s in
    let rest = c ∷ sections_from 0 s in
    if has_prefix (c ∷ s) section_end
    then if has_prefix (drop 2 s) section_start then next else []
    else rest

abbrev escaped : ℕ → Text → Text
escaped skip s = replace_from skip s section_end (codes "]]]]><![CDATA[>")

has_prefix-split : (s p : Text) → has_prefix s p ≡ true → s ≡ p ++ drop (length p) s
unfolding has_prefix
has_prefix-split s [] h = refl
has_prefix-split [] (q ∷ p) h = cc
has_prefix-split (c ∷ s) (q ∷ p) h = ground (arith, has_prefix-split s p)

escaped_hit :
    (c : ℕ) (s : Text)
    → has_prefix (c ∷ s) section_end ≡ true
    → escaped 0 (c ∷ s) ≡ codes "]]]]><![CDATA[>" ++ escaped 2 s
unfolding replace_from
escaped_hit c s e = rw (replace_from, e) refl

escaped_pass :
    (c : ℕ) (s : Text)
    → has_prefix (c ∷ s) section_end ≡ false
    → escaped 0 (c ∷ s) ≡ c ∷ escaped 0 s
unfolding replace_from
escaped_pass c s e = rw (replace_from, e) refl

-- No end of a section comes about where the unescaped text has none.
module _ (t : Text) where
  starts_gt :
      (s : Text)
      → has_prefix (escaped 0 s ++ (section_end ++ t)) (b'>' ∷ []) ≡ true
      → has_prefix s (b'>' ∷ []) ≡ true
  unfolding has_prefix replace_from
  starts_gt [] h = cc
  starts_gt (c ∷ s) h = elim (Bool-cases (has_prefix (c ∷ s) section_end)) [
    | inl e ↦ cc (rw (escaped_hit c s e) at h)
    | inr e ↦ rw (escaped_pass c s e) at h
  ]

  starts_bracket :
      (s : Text)
      → has_prefix (escaped 0 s ++ (section_end ++ t)) (b']' ∷ b'>' ∷ []) ≡ true
      → has_prefix s (b']' ∷ b'>' ∷ []) ≡ true
  unfolding has_prefix replace_from
  starts_bracket [] h = cc
  starts_bracket (c ∷ s) h = elim (Bool-cases (has_prefix (c ∷ s) section_end)) [
    | inl e ↦ cc (rw (escaped_hit c s e) at h)
    | inr e ↦
        let g : has_prefix (c ∷ (escaped 0 s ++ (section_end ++ t))) (b']' ∷ b'>' ∷ []) ≡ true =
          rw (escaped_pass c s e) at h in
        ground (arith, g, starts_gt s)
  ]

  no_section_end :
      (c : ℕ) (s : Text)
      → has_prefix (c ∷ s) section_end ≡ false
      → has_prefix (c ∷ (escaped 0 s ++ (section_end ++ t))) section_end ≡ false
  unfolding has_prefix
  no_section_end c s h = ground (arith, h, starts_bracket s)

  sections-escaped :
      (skip : ℕ) (s : Text)
      → has_prefix t section_start ≡ false
      → sections_from 0 (escaped skip s ++ (section_end ++ t)) ≡ drop skip s
  unfolding sections_from replace_from has_prefix
  sections-escaped skip [] h = rw (h, drop-nil {A = ℕ} skip) refl
  sections-escaped (suc skip) (c ∷ s) h = sections-escaped skip s h
  sections-escaped zero (c ∷ s) h = elim (Bool-cases (has_prefix (c ∷ s) section_end)) [
    | inl e ↦ rw (escaped_hit c s e) (
        ap (λ r. b']' ∷ b']' ∷ b'>' ∷ r) (sections-escaped 2 s h)
        ∙ sym (has_prefix-split (c ∷ s) section_end e))
    | inr e ↦
        rw (escaped_pass c s e, sections_from, no_section_end c s e)
          (ap (λ r. c ∷ r) (sections-escaped 0 s h))
  ]

-- A CDATA section of any content is read back byte by byte, whatever comes after it, as long as
-- that opens no other section.
pub cdata_escape_read :
    (s t : Text)
    → has_prefix t section_start ≡ false
    → sections_from 9 (section_start ++ (cdata_escape s ++ (section_end ++ t))) ≡ s
unfolding sections_from cdata_escape replace_all
cdata_escape_read s t h = sections-escaped t 0 s h
