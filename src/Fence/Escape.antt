-- ===== src/Fence/Escape.antt =====
-- xmlAttrEscape, xmlContentEscape and attrPair of fence.go, over bytes. A strings.Replacer of
-- single bytes replaces each byte by itself or by its text.
pub mod RoundTrip
use mcp_searxng_relay.Base.{
  ℕ, Bool, true, false, List, [], ◌∷◌, ◌++◌, Text, codes, ◌==◌, ◌||◌, if◌then◌else◌,
}

abbrev pub amp : Text
amp = codes "&amp;"

abbrev pub lt : Text
lt = codes "&lt;"

abbrev pub gt : Text
gt = codes "&gt;"

abbrev pub quot : Text
quot = codes "&quot;"

abbrev pub content_byte : ℕ → Text
content_byte c =
    if c == b'&' then amp else if c == b'<' then lt else if c == b'>' then gt else c ∷ []

abbrev pub attr_byte : ℕ → Text
attr_byte c =
    if c == b'&'
    then amp
    else if c == b'<'
    then lt
    else if c == b'>'
    then gt
    else if c == b'"'
    then quot
    else if c == 10 || c == 9 || c == 13
    then b' ' ∷ []
    else c ∷ []

unfoldable pub xml_content_escape : Text → Text
xml_content_escape [] = []
xml_content_escape (c ∷ s) = content_byte c ++ xml_content_escape s

unfoldable pub xml_attr_escape : Text → Text
xml_attr_escape [] = []
xml_attr_escape (c ∷ s) = attr_byte c ++ xml_attr_escape s

unfoldable pub attr_pair : Text → Text → Text
unfolding xml_attr_escape
attr_pair key value = key ++ b'=' ∷ b'"' ∷ (xml_attr_escape value ++ b'"' ∷ [])
