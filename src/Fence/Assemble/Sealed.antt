-- ===== src/Fence/Assemble/Sealed.antt =====
-- What a reader of a fence finds in it.
use mcp_searxng_relay.Base.{
  text_eq, ℕ, ◌≡◌, refl, sym, ap, ◌∙◌, Bool, true, false, not, some, [], ◌∷◌, ◌++◌, append_assoc,
  arith, Text, codes, text_eq, ◌==◌,
}
use mcp_searxng_relay.GoLib.Search.{cut}
use mcp_searxng_relay.Fence.Escape.{content_byte, xml_attr_escape, xml_content_escape}
use mcp_searxng_relay.Fence.Escape.RoundTrip.{unescape, xml_content_escape_read}
use mcp_searxng_relay.Fence.Signing.{build_fence_signing_input}
use mcp_searxng_relay.Fence.Note.{RemovalCounts}
use mcp_searxng_relay.Fence.Assemble.{
  FenceContentType, FenceTrust, fenced, fence_version, content_metadata, preamble_metadata,
  preamble_of, wrap_fence_encoded, FenceMetadata, fence_encoding_cdata, canonical_attributes,
  encoded_content, compute_fence_signature, open_tag, build_fence, fence_xml_namespace,
}
use mcp_searxng_relay.Fence.Assemble.Angles.{
  all_bytes, no_angle, cut-append, all_bytes-append, all_bytes-xml_attr_escape,
  all_bytes-xml_content_escape, all_bytes-canonical_attributes,
}

abbrev not_byte : ℕ → ℕ → Bool
not_byte c d = not (d == c)

no_gt : (s : Text) → all_bytes no_angle s ≡ true → all_bytes (not_byte b'>') s ≡ true
no_gt [] h = refl
no_gt (c ∷ s) h = ground (arith, h, no_gt s)

no_lt : (s : Text) → all_bytes no_angle s ≡ true → all_bytes (not_byte b'<') s ≡ true
no_lt [] h = refl
no_lt (c ∷ s) h = ground (arith, h, no_lt s)

xml_content_escape-append :
    (s t : Text) → xml_content_escape (s ++ t) ≡ xml_content_escape s ++ xml_content_escape t
unfolding xml_content_escape
xml_content_escape-append [] t = refl
xml_content_escape-append (c ∷ s) t =
    ap (λ r. content_byte c ++ r) (xml_content_escape-append s t)
    ∙ sym (append_assoc (content_byte c) (xml_content_escape s) (xml_content_escape t))

-- The first ">" of a fence ends its opening tag, whose signature is that of the content with all
-- other attributes, the next "<" begins its closing tag, and what stands between them reads as the
-- content between two line breaks.
pub record Sealed (sign : Text → Text) (body : Text) (meta : FenceMetadata) (fence : Text)
    : Type 0 where
  pub inside : Text
  pub tag : cut fence b'>' ≡ (
    open_tag
        (some sign)
        (sign (build_fence_signing_input body (canonical_attributes meta)))
        (canonical_attributes meta),
    inside ++ codes "</sec:fence>\n",
    true,
  )
  pub content : cut (inside ++ codes "</sec:fence>\n") b'<' ≡ (inside, codes "/sec:fence>\n", true)
  pub read : unescape inside ≡ codes "\n" ++ (body ++ codes "\n")

no_gt-open_tag :
    (sign : Text → Text) (signature : Text) (meta : FenceMetadata)
    → all_bytes (not_byte b'>') (open_tag (some sign) signature (canonical_attributes meta)) ≡ true
unfolding open_tag
no_gt-open_tag sign signature meta =
    let join = all_bytes-append (not_byte b'>') in
    let canonical = canonical_attributes meta in
    let signed = codes "\" " ++ canonical in
    let valued = xml_attr_escape signature ++ signed in
    let named = codes "\" signature=\"" ++ valued in
    let space = xml_attr_escape fence_xml_namespace in
    let signed_ok =
      join (codes "\" ") canonical refl (no_gt canonical (all_bytes-canonical_attributes meta)) in
    let valued_ok =
      join (xml_attr_escape signature) signed
        (no_gt (xml_attr_escape signature) (all_bytes-xml_attr_escape signature)) signed_ok in
    let named_ok = join (codes "\" signature=\"") valued refl valued_ok in
    join (codes "<sec:fence xmlns:sec=\"") (space ++ named) refl
      (join space named (no_gt space (all_bytes-xml_attr_escape fence_xml_namespace)) named_ok)

-- A fence of escaped content is built whenever there is a key, and is sealed: no content can end
-- it, add a tag to it or change what its signature covers.
build_fence-Sealed :
    (sign : Text → Text) (body : Text) (meta : FenceMetadata)
    → text_eq meta.encoding fence_encoding_cdata ≡ false
    → (fence : Text) × (build_fence (some sign) body meta ≡ some fence)
      × Sealed sign body meta fence
unfolding build_fence compute_fence_signature encoded_content xml_content_escape
build_fence-Sealed sign body meta escaped =
    let canonical = canonical_attributes meta in
    let signature = sign (build_fence_signing_input body canonical) in
    let inside = b'\n' ∷ (xml_content_escape body ++ b'\n' ∷ []) in
    let wrapped : xml_content_escape (b'\n' ∷ (body ++ b'\n' ∷ [])) ≡ inside =
      ap (λ r. b'\n' ∷ r) (xml_content_escape-append body (b'\n' ∷ [])) in
    (
      open_tag (some sign) signature canonical ++ b'>' ∷ (inside ++ codes "</sec:fence>\n"),
      rw (build_fence, encoded_content, escaped)
          (rw (append_assoc (xml_content_escape body) (b'\n' ∷ []) (codes "</sec:fence>\n")) refl),
      record {
        inside = inside;
        tag =
            cut-append (open_tag (some sign) signature canonical) (inside ++ codes "</sec:fence>\n")
              b'>' (no_gt-open_tag sign signature meta);
        content = cut-append inside (codes "/sec:fence>\n") b'<' (
            no_lt inside (
              all_bytes-append no_angle (b'\n' ∷ xml_content_escape body) (b'\n' ∷ [])
                (all_bytes-xml_content_escape body) refl));
        read = ap unescape (sym wrapped) ∙ xml_content_escape_read (b'\n' ∷ (body ++ b'\n' ∷ []));
      },
    )

-- Under the default layout, with a key and two nonces, a response of escaped content is two sealed
-- fences and a line break between them, with no byte outside: the first holds the awareness
-- preamble, which names the nonce of the second, and the second the content. In both, the first
-- ">" ends the opening tag, with the signature of the content and the other attributes, the next
-- "<" begins the closing tag, and what stands between reads as the content.
pub wrap_fence_encoded-Sealed :
    (sign : Text → Text) (awareness awareness_cdata : Text × Text) (kid now nonce other body : Text)
    (type_ : FenceContentType) (rating : FenceTrust) (source : Text) (removed : RemovalCounts)
    → (preamble_fence : Text) × (content_fence : Text) × (wrap_fence_encoded
          (some sign)
          awareness
          awareness_cdata
          fenced
          kid
          now
          (some nonce)
          (some other)
          body
          type_
          rating
          source
          []
          removed
        ≡ some (preamble_fence ++ (codes "\n" ++ content_fence)))
      × Sealed sign
          (preamble_of (some sign) awareness awareness_cdata nonce [] removed)
          (preamble_metadata (codes "1.1") kid now other)
          preamble_fence
      × Sealed sign body
          (content_metadata (codes "1.1") kid now nonce type_ rating source [])
          content_fence
unfolding wrap_fence_encoded fence_version text_eq
wrap_fence_encoded-Sealed sign awareness awareness_cdata kid now nonce other body type_ rating
      source removed =
    let preamble = preamble_of (some sign) awareness awareness_cdata nonce [] removed in
    let (content_fence, built, sealed) =
      build_fence-Sealed sign body
        (content_metadata (codes "1.1") kid now nonce type_ rating source []) refl in
    let (preamble_fence, built_preamble, sealed_preamble) =
      build_fence-Sealed sign preamble (preamble_metadata (codes "1.1") kid now other) refl in
    (
      preamble_fence,
      content_fence,
      rw (wrap_fence_encoded, built, built_preamble) refl,
      sealed_preamble,
      sealed,
    )
