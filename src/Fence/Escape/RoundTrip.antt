-- ===== src/Fence/Escape/RoundTrip.antt =====
-- Escaped content can be read back, and an escaped attribute cannot end its quotes.
use mcp_searxng_relay.Base.{
  ℕ, zero, suc, ◌≡◌, ◌≢◌, refl, ap, sym, ◌∙◌, arith, true, false, inl, inr, [], ◌∷◌, ◌++◌, Text,
  ◌==◌, ==_iff, Bool-cases, All, All-append,
}
use mcp_searxng_relay.GoLib.Strings.{has_prefix}
use mcp_searxng_relay.Fence.Escape.{
  amp, lt, gt, content_byte, xml_content_escape, attr_byte, xml_attr_escape,
}

-- What a reader of XML makes of element content: the three entities stand for their characters.
-- `skip` bytes belong to the entity that was read last.
unescape_from : ℕ → Text → Text
unescape_from skip [] = []
unescape_from (suc skip) (c ∷ s) = unescape_from skip s
unescape_from zero (c ∷ s) = elim (has_prefix (c ∷ s) amp) [
  | true ↦ b'&' ∷ unescape_from 4 s
  | false ↦ elim (has_prefix (c ∷ s) lt) [
    | true ↦ b'<' ∷ unescape_from 3 s
    | false ↦ elim (has_prefix (c ∷ s) gt) [
      | true ↦ b'>' ∷ unescape_from 3 s
      | false ↦ c ∷ unescape_from 0 s
    ]
  ]
]

abbrev pub unescape : Text → Text
unfolding unescape_from
unescape s = unescape_from 0 s

content_byte_back :
    (c : ℕ) (t : Text) → unescape_from 0 (content_byte c ++ t) ≡ c ∷ unescape_from 0 t
unfolding unescape_from has_prefix
content_byte_back c t = elim (Bool-cases (c == b'&')) [
  | inl e ↦ rw e (ap (λ x. x ∷ unescape_from 0 t) (sym ((==_iff c b'&').0 e)))
  | inr e ↦ elim (Bool-cases (c == b'<')) [
    | inl f ↦ rw (e, f) (ap (λ x. x ∷ unescape_from 0 t) (sym ((==_iff c b'<').0 f)))
    | inr f ↦ elim (Bool-cases (c == b'>')) [
      | inl g ↦ rw (e, f, g) (ap (λ x. x ∷ unescape_from 0 t) (sym ((==_iff c b'>').0 g)))
      | inr g ↦ rw (e, f, g) (rw (unescape_from, e) (rw e (rw e refl)))
    ]
  ]
]

-- Escaping loses nothing: an XML reader gets the content back, byte by byte.
pub xml_content_escape_read : (s : Text) → unescape (xml_content_escape s) ≡ s
unfolding unescape xml_content_escape
xml_content_escape_read [] = refl
xml_content_escape_read (c ∷ s) =
    content_byte_back c (xml_content_escape s) ∙ ap (λ r. c ∷ r) (xml_content_escape_read s)

-- A byte that can stand in a quoted attribute on one line: no quote, no angle bracket, no line
-- break and no tab.
abbrev pub IsPlain : ℕ → Type 0
IsPlain c = (c ≢ b'"') × (c ≢ b'<') × (c ≢ b'>') × (c ≢ 10) × (c ≢ 13) × (c ≢ 9)

attr_byte-IsPlain : (c : ℕ) → All IsPlain (attr_byte c)
attr_byte-IsPlain c = ground arith

-- An escaped attribute holds none of the bytes that could end it or the tag around it, or that
-- break the line.
pub xml_attr_escape-IsPlain : (s : Text) → All IsPlain (xml_attr_escape s)
unfolding xml_attr_escape
xml_attr_escape-IsPlain [] = _
xml_attr_escape-IsPlain (c ∷ s) =
    All-append IsPlain (attr_byte c) (xml_attr_escape s) (attr_byte-IsPlain c)
      (xml_attr_escape-IsPlain s)
