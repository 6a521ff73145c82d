-- ===== src/Ssrf/Address/Ranges.antt =====
-- The public IPv4 addresses, as what is left of the 32-bit numbers once every special range is out.
use mcp_searxng_relay.Base.{ℕ, ◌+◌, ◌*◌, ◌^◌, ◌<◌, ◌≡◌, ◌↔◌, ◌⊎◌, arith, none, List, [], ◌∷◌, All}
use mcp_searxng_relay.GoLib.Ip.{v4}
use mcp_searxng_relay.Ssrf.Address.{assert_public_ip, match_reserved_cidr}

-- The address a.b.c.d.
abbrev pub quad : ℕ → ℕ → ℕ → ℕ → ℕ
quad a b c d = ((a * 256 + b) * 256 + c) * 256 + d

-- The first and the last address of every range that is not publicly routable.
abbrev pub special_ranges : List (ℕ × ℕ)
special_ranges =
    (quad 0 0 0 0, quad 0 255 255 255)
    ∷ (quad 10 0 0 0, quad 10 255 255 255)
    ∷ (quad 100 64 0 0, quad 100 127 255 255)
    ∷ (quad 127 0 0 0, quad 127 255 255 255)
    ∷ (quad 169 254 0 0, quad 169 254 255 255)
    ∷ (quad 172 16 0 0, quad 172 31 255 255)
    ∷ (quad 192 0 0 0, quad 192 0 0 255)
    ∷ (quad 192 0 2 0, quad 192 0 2 255)
    ∷ (quad 192 88 99 0, quad 192 88 99 255)
    ∷ (quad 192 168 0 0, quad 192 168 255 255)
    ∷ (quad 198 18 0 0, quad 198 19 255 255)
    ∷ (quad 198 51 100 0, quad 198 51 100 255)
    ∷ (quad 203 0 113 0, quad 203 0 113 255)
    ∷ (quad 224 0 0 0, quad 255 255 255 255)
    ∷ []

abbrev pub Outside : ℕ → ℕ × ℕ → Type 0
Outside a (first, last) = (a < first) ⊎ (last < a)

-- An IPv4 address passes the check just where it lies in none of the special ranges.
pub assert_public_ip-Outside :
    (a : ℕ) → a < 2 ^ 32 → (assert_public_ip (v4 a) ≡ none) ↔ All (Outside a) special_ranges
unfolding assert_public_ip match_reserved_cidr
assert_public_ip-Outside a h = ((λ e. ground arith), (λ o. ground arith))
