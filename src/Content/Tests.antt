-- ===== src/Content/Tests.antt =====
-- Runs of the two treatments of fetched text, and their theorems at concrete inputs.
use mcp_searxng_relay.Base.{
  zero, suc, some, List, ◌∷◌, arith, ◌+◌, ◌≡◌, refl, false, [], Text, codes, length,
}
use mcp_searxng_relay.Base.Int.{pos, negsuc}
use mcp_searxng_relay.Content.Invisible.{black_flag, strip_invisible}
use mcp_searxng_relay.Content.Invisible.Counted.{strip_invisible-length}
use mcp_searxng_relay.Content.Paginate.Pages.{
  IsWellEncoded, follow, joined, paginate_content_follow,
}
use mcp_searxng_relay.Content.Paginate.{snap_back, rune_size, Page, truncated, paginate_content}
use mcp_searxng_relay.Content.Paginate.Window.{Window, paginate_content-Window}

-- "a", a zero width space, "b"
abbrev smuggled : Text
smuggled = b'a' ∷ 0x200B ∷ b'b' ∷ []

-- the flag of Wales
abbrev wales : Text
wales = black_flag ∷ 0xE0067 ∷ 0xE0062 ∷ 0xE0077 ∷ 0xE006C ∷ 0xE0073 ∷ 0xE007F ∷ []

stripped : strip_invisible smuggled ≡ (codes "ab", 1)
unfolding strip_invisible
stripped = refl

flag_kept : strip_invisible wales ≡ (wales, 0)
unfolding strip_invisible
flag_kept = refl

flag_cut : strip_invisible (black_flag ∷ 0xE0067 ∷ b'x' ∷ []) ≡ (black_flag ∷ b'x' ∷ [], 1)
unfolding strip_invisible
flag_cut = refl

strip_invisible-length_example :
    length (strip_invisible smuggled).0 + (strip_invisible smuggled).1 ≡ length smuggled
strip_invisible-length_example = strip_invisible-length smuggled

abbrev first_page : Page
first_page = record { body = codes "hel"; notes = truncated 0 3 5 ∷ []; start = 0; end = 3 }

paged : paginate_content (codes "hello") (negsuc 4) (pos 3) false 9 ≡ some first_page
unfolding paginate_content
paged = refl

paginate_content-Window_example : Window (codes "hello") (negsuc 4) (pos 3) first_page
paginate_content-Window_example =
    paginate_content-Window (codes "hello") (negsuc 4) (pos 3) false 9 first_page paged

-- "hé": a rune of one byte and one of two
abbrev accented : Text
accented = b'h' ∷ 0xC3 ∷ 0xA9 ∷ []

accented-IsWellEncoded : IsWellEncoded accented
unfolding snap_back rune_size
accented-IsWellEncoded zero h b = refl
accented-IsWellEncoded (suc zero) h b = refl
accented-IsWellEncoded (suc (suc zero)) h b = absurd (omega (arith, b))
accented-IsWellEncoded (suc (suc (suc i))) h b = absurd (omega (arith, h))

paginate_content_follow_example :
    (bodies : List Text) × (follow 3 accented (pos 1) false 9 0 ≡ some bodies)
    × (joined bodies ≡ accented)
paginate_content_follow_example =
    paginate_content_follow accented (pos 1) false 9 accented-IsWellEncoded (omega arith)
