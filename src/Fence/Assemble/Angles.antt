-- ===== src/Fence/Assemble/Angles.antt =====
-- No angle bracket stands in what the attributes and the escaped content of a fence hold.
use mcp_searxng_relay.Base.{
  ℕ, ◌≡◌, refl, inl, inr, Bool, true, not, ◌&&◌, List, [], ◌∷◌, ◌++◌, arith, Text, codes, ◌==◌, All,
  All-append, Bool-cases,
}
use mcp_searxng_relay.GoLib.Search.{cut}
use mcp_searxng_relay.Fence.Escape.{
  content_byte, attr_byte, attr_pair, xml_attr_escape, xml_content_escape,
}
use mcp_searxng_relay.Fence.Assemble.{
  FenceMetadata, trust_text, type_text, insert_text, sort_texts, join_space, optional, pairs_of,
  canonical_attributes, text_le,
}

abbrev pub all_bytes : (ℕ → Bool) → Text → Bool
all_bytes test [] = true
all_bytes test (c ∷ s) = test c && all_bytes test s

abbrev pub no_angle : ℕ → Bool
no_angle c = not (c == b'<') && not (c == b'>')

pub all_bytes-append :
    (test : ℕ → Bool) (s t : Text)
    → all_bytes test s ≡ true
    → all_bytes test t ≡ true
    → all_bytes test (s ++ t) ≡ true
all_bytes-append test [] t hs ht = ht
all_bytes-append test (c ∷ s) t hs ht = ground (arith, hs, all_bytes-append test s t)

pub all_bytes-xml_attr_escape : (s : Text) → all_bytes no_angle (xml_attr_escape s) ≡ true
unfolding xml_attr_escape
all_bytes-xml_attr_escape [] = refl
all_bytes-xml_attr_escape (c ∷ s) =
    all_bytes-append no_angle (attr_byte c) (xml_attr_escape s) (ground arith)
      (all_bytes-xml_attr_escape s)

pub all_bytes-xml_content_escape : (s : Text) → all_bytes no_angle (xml_content_escape s) ≡ true
unfolding xml_content_escape
all_bytes-xml_content_escape [] = refl
all_bytes-xml_content_escape (c ∷ s) =
    all_bytes-append no_angle (content_byte c) (xml_content_escape s) (ground arith)
      (all_bytes-xml_content_escape s)

all_bytes-attr_pair :
    (key value : Text)
    → all_bytes no_angle key ≡ true
    → all_bytes no_angle (attr_pair key value) ≡ true
unfolding attr_pair
all_bytes-attr_pair key value h = all_bytes-append no_angle key _ h (
    all_bytes-append no_angle (b'=' ∷ b'"' ∷ []) (xml_attr_escape value ++ b'"' ∷ []) refl (
      all_bytes-append no_angle (xml_attr_escape value) (b'"' ∷ [])
        (all_bytes-xml_attr_escape value) refl))

abbrev Plain : List Text → Type 0
Plain = All (λ t. all_bytes no_angle t ≡ true)

Plain-insert_text :
    (s : Text) (ts : List Text) → all_bytes no_angle s ≡ true → Plain ts → Plain (insert_text s ts)
unfolding insert_text
Plain-insert_text s [] h p = (h, p)
Plain-insert_text s (t ∷ ts) h (ht, p) = elim (Bool-cases (text_le s t)) [
  | inl e ↦ rw (insert_text, e) (h, (ht, p))
  | inr e ↦ rw (insert_text, e) (ht, Plain-insert_text s ts h p)
]

Plain-sort_texts : (ts : List Text) → Plain ts → Plain (sort_texts ts)
unfolding sort_texts
Plain-sort_texts [] p = p
Plain-sort_texts (t ∷ ts) (h, p) = Plain-insert_text t (sort_texts ts) h (Plain-sort_texts ts p)

all_bytes-join_space : (ts : List Text) → Plain ts → all_bytes no_angle (join_space ts) ≡ true
all_bytes-join_space [] p = refl
all_bytes-join_space (t ∷ []) (h, p) = h
all_bytes-join_space (t ∷ u ∷ ts) (h, p) =
    all_bytes-append no_angle t (b' ' ∷ join_space (u ∷ ts)) h (all_bytes-join_space (u ∷ ts) p)

Plain-optional : (key value : Text) → all_bytes no_angle key ≡ true → Plain (optional key value)
Plain-optional key [] h = _
Plain-optional key (c ∷ s) h = (all_bytes-attr_pair key (c ∷ s) h, _)

Plain-pairs_of : (m : FenceMetadata) → Plain (pairs_of m)
Plain-pairs_of m =
    let optionals = All-append (λ t. all_bytes no_angle t ≡ true) in
    let version = Plain-optional (codes "version") m.version refl in
    let encoding = Plain-optional (codes "encoding") m.encoding refl in
    let key_id = Plain-optional (codes "kid") m.key_id refl in
    let source = Plain-optional (codes "source") m.source refl in
    (
      all_bytes-attr_pair (codes "nonce") m.nonce refl,
      (
        all_bytes-attr_pair (codes "rating") (trust_text m.rating) refl,
        (
          all_bytes-attr_pair (codes "timestamp") m.timestamp refl,
          (
            all_bytes-attr_pair (codes "type") (type_text m.type_) refl,
            optionals _ _ source (optionals _ _ key_id (optionals _ _ version encoding)),
          ),
        ),
      ),
    )

pub all_bytes-canonical_attributes :
    (m : FenceMetadata) → all_bytes no_angle (canonical_attributes m) ≡ true
unfolding canonical_attributes
all_bytes-canonical_attributes m =
    all_bytes-join_space _ (Plain-sort_texts (pairs_of m) (Plain-pairs_of m))

-- The first such byte is where the text is cut.
pub cut-append :
    (a b : Text) (c : ℕ)
    → all_bytes (λ d. not (d == c)) a ≡ true
    → cut (a ++ c ∷ b) c ≡ (a, b, true)
unfolding cut
cut-append [] b c h = ground arith
cut-append (d ∷ a) b c h = elim (Bool-cases (d == c)) [
  | inl e ↦ cc (rw e at h)
  | inr e ↦ rw (e, cut-append a b c (rw e at h)) refl
]
