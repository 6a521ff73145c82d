-- ===== src/Fence/Assemble.antt =====
-- The assembly of a fence in fence.go: parseFencePreambleMode, canonicalAttributes, buildFence and
-- wrapFenceEncoded. The base64 of the Ed25519 signature of a message is the parameter `sign`, the
-- texts around the nonce in the two awareness preambles are parameters, and so are the outcomes of
-- the random nonces and the clock's text.
pub mod Angles
pub mod Sealed
use mcp_searxng_relay.Base.{
  ℕ, zero, suc, ◌+◌, ◌-◌, ◌*◌, ◌≤◌, ◌<◌, min, max, ◌≡◌, refl, sym, ap, subst, ◌∙◌, ◌≢◌, ◌↔◌, ◌⊎◌,
  inl, inr, Bool, true, false, not, ◌&&◌, ◌||◌, Option, none, some, List, [], ◌∷◌, ◌++◌, map,
  append_assoc, append-nil, arith, Text, codes, text_eq, text_eq_iff, text_eq_refl, text_eq-cases,
  ltb, leb, ◌==◌, ==_iff, if◌then◌else◌, length, get_elem?, set, take, drop, length-append,
  length-set, length-take, length-drop, get_elem?-set_self, get_elem?-set_ne, get_elem?-lt, All,
  All-append, get_elem?-append_left, get_elem?-concat_last, get_elem?-set_cases,
  get_elem?-concat_cases, Bool-cases, Option-cases, is_some,
}
use mcp_searxng_relay.GoLib.Strings.{trim_space, to_lower}
use mcp_searxng_relay.Fence.Escape.{attr_pair, xml_attr_escape, xml_content_escape}
use mcp_searxng_relay.Fence.Cdata.{cdata_escape, section_start, section_end}
use mcp_searxng_relay.Fence.Signing.{build_fence_signing_input}
use mcp_searxng_relay.Fence.Note.{RemovalCounts, sanitisation_note}

pub data PreambleMode : Type 0 where
  prose fenced : PreambleMode

-- `none` is the error of an unknown mode.
unfoldable pub parse_fence_preamble_mode : Text → Option PreambleMode
parse_fence_preamble_mode raw =
    let mode = to_lower (trim_space raw) in
    if text_eq mode []
    then some fenced
    else if text_eq mode (codes "prose")
    then some prose
    else if text_eq mode (codes "fenced")
    then some fenced
    else none

unfoldable pub fence_version : PreambleMode → Text
fence_version fenced = codes "1.1"
fence_version prose = codes "1.0"

pub data FenceTrust : Type 0 where
  trusted partially_trusted untrusted : FenceTrust

pub data FenceContentType : Type 0 where
  instructions content data_ : FenceContentType

abbrev pub trust_text : FenceTrust → Text
trust_text trusted = codes "trusted"
trust_text partially_trusted = codes "partially-trusted"
trust_text untrusted = codes "untrusted"

abbrev pub type_text : FenceContentType → Text
type_text instructions = codes "instructions"
type_text content = codes "content"
type_text data_ = codes "data"

-- `timestamp` is the time in RFC 3339, `encoding` empty or "cdata".
pub record FenceMetadata : Type 0 where
  pub type_ : FenceContentType
  pub rating : FenceTrust
  pub source : Text
  pub timestamp : Text
  pub nonce : Text
  pub key_id : Text
  pub version : Text
  pub encoding : Text

-- The metadata of the content fence, and of the fence around the awareness preamble.
abbrev pub content_metadata :
    Text → Text → Text → Text → FenceContentType → FenceTrust → Text → Text → FenceMetadata
content_metadata version kid now nonce type_ rating source encoding = record {
  type_ = type_;
  rating = rating;
  source = source;
  timestamp = now;
  nonce = nonce;
  key_id = kid;
  version = version;
  encoding = encoding;
}

abbrev pub preamble_metadata : Text → Text → Text → Text → FenceMetadata
preamble_metadata version kid now nonce = record {
  type_ = instructions;
  rating = trusted;
  source = codes "mcp-searxng-relay:awareness";
  timestamp = now;
  nonce = nonce;
  key_id = kid;
  version = version;
  encoding = [];
}

abbrev pub fence_encoding_cdata : Text
fence_encoding_cdata = codes "cdata"

-- `a <= b` of Go's strings
unfoldable pub text_le : Text → Text → Bool
text_le [] t = true
text_le (c ∷ s) [] = false
text_le (c ∷ s) (d ∷ t) = ltb c d || c == d && text_le s t

unfoldable pub insert_text : Text → List Text → List Text
unfolding text_le
insert_text s [] = s ∷ []
insert_text s (t ∷ ts) = if text_le s t then s ∷ t ∷ ts else t ∷ insert_text s ts

-- sort.Strings
unfoldable pub sort_texts : List Text → List Text
unfolding insert_text
sort_texts [] = []
sort_texts (t ∷ ts) = insert_text t (sort_texts ts)

-- strings.Join with a space
abbrev pub join_space : List Text → Text
join_space [] = []
join_space (t ∷ []) = t
join_space (t ∷ u ∷ ts) = t ++ b' ' ∷ join_space (u ∷ ts)

-- An attribute that is left out when it is empty.
abbrev pub optional : Text → Text → List Text
optional key [] = []
optional key (c ∷ s) = attr_pair key (c ∷ s) ∷ []

-- The attributes that are signed, in no order yet.
abbrev pub pairs_of : FenceMetadata → List Text
pairs_of m =
    attr_pair (codes "nonce") m.nonce
    ∷ attr_pair (codes "rating") (trust_text m.rating)
    ∷ attr_pair (codes "timestamp") m.timestamp
    ∷ attr_pair (codes "type") (type_text m.type_)
    ∷ (optional (codes "source") m.source
        ++ (optional (codes "kid") m.key_id
            ++ (optional (codes "version") m.version ++ optional (codes "encoding") m.encoding)))

unfoldable pub canonical_attributes : FenceMetadata → Text
unfolding sort_texts
canonical_attributes m = join_space (sort_texts (pairs_of m))

-- The element body for an encoding.
unfoldable pub encoded_content : Text → Text → Text
encoded_content encoding body =
    if text_eq encoding fence_encoding_cdata
    then section_start ++ (cdata_escape body ++ section_end)
    else xml_content_escape body

abbrev pub fence_xml_namespace : Text
fence_xml_namespace = codes "http://promptfence.org/security/1.0"

-- `sign` is `none` for a key of the wrong size.
module _ (sign : Option (Text → Text)) where
  unfoldable pub compute_fence_signature : Text → Text → Option Text
  compute_fence_signature body canonical = elim sign [
    | none ↦ none
    | some s ↦ some (s (build_fence_signing_input body canonical))
  ]

  -- The opening tag without its last byte.
  unfoldable pub open_tag : Text → Text → Text
  open_tag signature canonical =
      codes "<sec:fence xmlns:sec=\""
      ++ (xml_attr_escape fence_xml_namespace
          ++ (codes "\" signature=\"" ++ (xml_attr_escape signature ++ (codes "\" " ++ canonical))))

  unfoldable pub build_fence : Text → FenceMetadata → Option Text
  unfolding canonical_attributes compute_fence_signature open_tag encoded_content
  build_fence body meta =
      let canonical = canonical_attributes meta in
      elim (compute_fence_signature body canonical) [
        | none ↦ none
        | some signature ↦ some (
            open_tag signature canonical
            ++ (codes ">\n" ++ (encoded_content meta.encoding body ++ codes "\n</sec:fence>\n")))
      ]

  -- `awareness` and `awareness_cdata` are the texts before and after the nonce of a preamble.
  module _ (awareness awareness_cdata : Text × Text) where
    unfoldable pub preamble_of : Text → Text → RemovalCounts → Text
    preamble_of nonce encoding removed =
        let template =
          if text_eq encoding fence_encoding_cdata then awareness_cdata else awareness in
        let note = sanitisation_note removed in
        template.0
        ++ (nonce ++ (template.1 ++ (if text_eq note [] then [] else codes "\n" ++ note)))

    -- `nonce` and `preamble_nonce` are the outcomes of generateFenceNonce.
    unfoldable pub wrap_fence_encoded :
        PreambleMode
        → Text
        → Text
        → Option Text
        → Option Text
        → Text
        → FenceContentType
        → FenceTrust
        → Text
        → Text
        → RemovalCounts
        → Option Text
    wrap_fence_encoded mode kid now none preamble_nonce body type_ rating source encoding removed =
        none
    wrap_fence_encoded mode kid now (some nonce) preamble_nonce body type_ rating source encoding
          removed =
        let preamble = preamble_of nonce encoding removed in
        let version = fence_version mode in
        elim (build_fence body
          (content_metadata version kid now nonce type_ rating source encoding)) [
            | none ↦ none
            | some content_fence ↦ elim mode [
              | prose ↦ some (preamble ++ (codes "\n\n" ++ content_fence))
              | fenced ↦ elim preamble_nonce [
                | none ↦ none
                | some other ↦
                    elim (build_fence preamble (preamble_metadata version kid now other)) [
                      | none ↦ none
                      | some preamble_fence ↦ some (preamble_fence ++ (codes "\n" ++ content_fence))
                    ]
              ]
            ]
          ]
