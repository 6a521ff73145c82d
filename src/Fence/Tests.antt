-- ===== src/Fence/Tests.antt =====
-- Runs of the fence, and its theorems at concrete inputs.
use mcp_searxng_relay.Base.{some, [], ◌++◌, Text, take, ◌≡◌, refl, arith, All, codes}
use mcp_searxng_relay.Fence.Escape.{xml_content_escape, xml_attr_escape}
use mcp_searxng_relay.Fence.Signing.{build_fence_signing_input-injective}
use mcp_searxng_relay.GoLib.Strings.{has_prefix}
use mcp_searxng_relay.Fence.Cdata.{
  cdata_escape, cdata_escape_read, sections_from, section_start, section_end,
}
use mcp_searxng_relay.Fence.Assemble.{
  parse_fence_preamble_mode, fenced, content, untrusted, content_metadata, preamble_metadata,
  preamble_of, build_fence, wrap_fence_encoded,
}
use mcp_searxng_relay.Fence.Assemble.Sealed.{Sealed, wrap_fence_encoded-Sealed}
use mcp_searxng_relay.Fence.Note.{RemovalCounts}

escaped : xml_content_escape (codes "a<b&c") ≡ codes "a&lt;b&amp;c"
unfolding xml_content_escape
escaped = refl

build_fence_signing_input-injective_example :
    (codes "text" ≡ codes "text") × (codes "nonce" ≡ codes "nonce")
build_fence_signing_input-injective_example =
    build_fence_signing_input-injective (codes "text") (codes "text") (codes "nonce")
      (codes "nonce") (omega arith) (omega arith) refl

abbrev one_removed : RemovalCounts
one_removed = record { invisible_chars = 1; hidden_elements = 0 }

cdata_split : cdata_escape (codes "a]]>b") ≡ codes "a]]]]><![CDATA[>b"
unfolding cdata_escape
cdata_split = refl

cdata_escape_read_example :
    sections_from 9 (section_start ++ (cdata_escape (codes "a]]>b") ++ (section_end ++ codes "\n")))
    ≡ codes "a]]>b"
unfolding has_prefix
cdata_escape_read_example = cdata_escape_read (codes "a]]>b") (codes "\n") refl

mode_unset : parse_fence_preamble_mode (codes " ") ≡ some fenced
unfolding parse_fence_preamble_mode mcp_searxng_relay.Base.text_eq
    mcp_searxng_relay.GoLib.Strings.to_lower mcp_searxng_relay.GoLib.Strings.trim_space
mode_unset = refl

-- A signature that shows the first bytes of what it signs.
abbrev sign : Text → Text
sign t = take 3 t

abbrev awareness : Text × Text
awareness = (codes "nonce=\"", codes "\"")

fence_built :
    build_fence
      (some sign)
      (codes "a<b")
      (content_metadata (codes "1.1") (codes "k") (codes "t") (codes "n") content untrusted [] [])
    ≡ some (
        codes
          "<sec:fence xmlns:sec=\"http://promptfence.org/security/1.0\" signature=\"Pro\" kid=\"k\" nonce=\"n\" rating=\"untrusted\" timestamp=\"t\" type=\"content\" version=\"1.1\">\na&lt;b\n</sec:fence>\n")
unfolding build_fence xml_attr_escape mcp_searxng_relay.Fence.Signing.build_fence_signing_input
    mcp_searxng_relay.Fence.Escape.attr_pair mcp_searxng_relay.Base.text_eq xml_content_escape
fence_built = refl

wrap_fence_encoded-Sealed_example :
    (preamble_fence : Text) × (content_fence : Text) × (wrap_fence_encoded
        (some sign)
        awareness
        awareness
        fenced
        (codes "k")
        (codes "t")
        (some (codes "n"))
        (some (codes "m"))
        (codes "a<b")
        content
        untrusted
        []
        []
        one_removed
      ≡ some (preamble_fence ++ (codes "\n" ++ content_fence)))
    × Sealed sign
        (preamble_of (some sign) awareness awareness (codes "n") [] one_removed)
        (preamble_metadata (codes "1.1") (codes "k") (codes "t") (codes "m"))
        preamble_fence
    × Sealed sign
        (codes "a<b")
        (content_metadata (codes "1.1") (codes "k") (codes "t") (codes "n") content untrusted [] [])
        content_fence
wrap_fence_encoded-Sealed_example =
    wrap_fence_encoded-Sealed sign awareness awareness (codes "k") (codes "t") (codes "n")
      (codes "m") (codes "a<b") content untrusted [] one_removed
