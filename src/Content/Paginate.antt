-- ===== src/Content/Paginate.antt =====
-- The response windows of fetch.go: paginateContent, over the bytes of a text, with
-- utf8.RuneStart and the size that utf8.DecodeRune gives. The notices are values instead of their
-- wording.
pub mod Window
pub mod Pages
use mcp_searxng_relay.Base.{
  ℕ, zero, suc, ◌+◌, ◌-◌, ◌/◌, Bool, true, false, not, ◌&&◌, ◌||◌, Option, none, some, List, [],
  ◌∷◌, ◌++◌, Text, ltb, leb, ◌==◌, if◌then◌else◌, length, get_elem?, take, drop,
}
use mcp_searxng_relay.Base.Int.{ℤ, pos, negsuc, pos_part}

-- maxRenderedChars
abbrev pub max_rendered_chars : ℕ
max_rendered_chars = 100_000

-- utf8.RuneStart: not a continuation byte.
abbrev pub rune_start : ℕ → Bool
rune_start b = not (b / 64 == 2)

abbrev pub within : ℕ → ℕ → ℕ → Bool
within lo hi b = leb lo b && leb b hi

-- Whether the bytes from the second on stand in the ranges that the first byte asks for.
abbrev pub second_ok : ℕ → ℕ → Bool
second_ok b c =
    if b == 0xE0
    then within 0xA0 0xBF c
    else if b == 0xED
    then within 0x80 0x9F c
    else if b == 0xF0
    then within 0x90 0xBF c
    else if b == 0xF4
    then within 0x80 0x8F c
    else within 0x80 0xBF c

-- The size that utf8.DecodeRuneInString gives: 1 for an invalid encoding, 0 for no text.
unfoldable pub rune_size : Text → ℕ
rune_size [] = 0
rune_size (b ∷ []) = 1
rune_size (b ∷ c ∷ []) = if within 0xC2 0xDF b && second_ok b c then 2 else 1
rune_size (b ∷ c ∷ d ∷ []) =
    if within 0xC2 0xDF b && second_ok b c
    then 2
    else if within 0xE0 0xEF b && second_ok b c && within 0x80 0xBF d
    then 3
    else 1
rune_size (b ∷ c ∷ d ∷ e ∷ s) =
    if within 0xC2 0xDF b && second_ok b c
    then 2
    else if within 0xE0 0xEF b && second_ok b c && within 0x80 0xBF d
    then 3
    else if within 0xF0 0xF4 b && second_ok b c && within 0x80 0xBF d && within 0x80 0xBF e
    then 4
    else 1

pub data Note : Type 0 where
  -- More is to come: the window, the total, and the offset to continue at.
  truncated : ℕ → ℕ → ℕ → Note
  end_of_content : ℕ → ℕ → ℕ → Note
  extraction_capped : ℕ → Note

pub record Page : Type 0 where
  pub body : Text
  pub notes : List Note
  pub start : ℕ
  pub end : ℕ

abbrev pub starts_rune : Option ℕ → Bool
starts_rune none = true
starts_rune (some b) = rune_start b

-- `for i > lo && !RuneStart(text[i]) { i-- }`
unfoldable pub snap_back : Text → ℕ → ℕ → ℕ
snap_back text lo zero = 0
snap_back text lo (suc i) =
    let back = snap_back text lo i in
    if leb (suc i) lo || starts_rune (get_elem? text (suc i)) then suc i else back

abbrev pub window_size : ℤ → ℕ
window_size (negsuc n) = max_rendered_chars
window_size (pos n) = if n == 0 || ltb max_rendered_chars n then max_rendered_chars else n

-- Where the window that begins at `start` ends.
unfoldable pub window_end : Text → ℕ → ℕ → ℕ
unfolding snap_back rune_size
window_end text start window =
    if leb (length text) (start + window)
    then length text
    else if snap_back text start (start + window) == start
    then start + rune_size (drop start text)
    else snap_back text start (start + window)

abbrev pub notes_of : ℕ → ℕ → ℕ → Bool → ℕ → List Note
notes_of start end total capped cap =
    (if ltb end total
      then truncated start end total ∷ []
      else if ltb 0 start
      then end_of_content start end total ∷ []
      else [])
    ++ (if end == total && capped then extraction_capped cap ∷ [] else [])

unfoldable pub page_at : Text → ℕ → ℕ → Bool → ℕ → Page
unfolding window_end
page_at text start window capped cap =
    let end = window_end text start window in
    record {
      body = take (end - start) (drop start text);
      notes = notes_of start end (length text) capped cap;
      start = start;
      end = end;
    }

-- `none` is the error of a start beyond the end.
unfoldable pub paginate_content : Text → ℤ → ℤ → Bool → ℕ → Option Page
unfolding page_at snap_back
paginate_content text start_index max_chars capped cap =
    let asked = pos_part start_index in
    if ltb 0 asked && leb (length text) asked
    then none
    else some (page_at text (snap_back text 0 asked) (window_size max_chars) capped cap)
