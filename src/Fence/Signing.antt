-- ===== src/Fence/Signing.antt =====
-- buildFenceSigningInput of fence.go: the bytes that a fence's signature covers. The guards against
-- a length beyond math.MaxInt are the bound of its theorem.
use mcp_searxng_relay.Base.{append-injective}
use mcp_searxng_relay.Base.{◌<◌, ◌^◌, ◌≡◌, refl, sym, ap, ◌∙◌, [], ◌∷◌, ◌++◌, Text, codes, length}
use mcp_searxng_relay.GoLib.Binary.{put_uint64, uint64_from, uint64_round}

-- fenceSigDomain
abbrev pub fence_sig_domain : Text
fence_sig_domain = codes "PromptFence/v1.0"

unfoldable pub build_fence_signing_input : Text → Text → Text
build_fence_signing_input content metadata =
    fence_sig_domain ++ 0 ∷ (put_uint64 (length content) ++ (content ++ metadata))

-- No two pairs of content and metadata have the same signing input, as long as both contents are
-- shorter than 2^64 bytes: a signature is for one fence only.
pub build_fence_signing_input-injective :
    (content content' metadata metadata' : Text)
    → length content < 2 ^ 64
    → length content' < 2 ^ 64
    → build_fence_signing_input content metadata ≡ build_fence_signing_input content' metadata'
    → (content ≡ content') × (metadata ≡ metadata')
unfolding build_fence_signing_input
build_fence_signing_input-injective content content' metadata metadata' h h' e =
    let (_, framed) =
      append-injective (fence_sig_domain ++ 0 ∷ []) (fence_sig_domain ++ 0 ∷ [])
        (put_uint64 (length content) ++ (content ++ metadata))
        (put_uint64 (length content') ++ (content' ++ metadata')) refl e in
    let (sizes, rest) =
      append-injective (put_uint64 (length content)) (put_uint64 (length content'))
        (content ++ metadata) (content' ++ metadata') refl framed in
    let same_size : length content ≡ length content' =
      sym (uint64_round (length content) h)
      ∙ ap (uint64_from 0) sizes
      ∙ uint64_round (length content') h' in
    append-injective content content' metadata metadata' same_size rest
