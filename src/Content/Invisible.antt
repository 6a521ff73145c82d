-- ===== src/Content/Invisible.antt =====
-- The removal of invisible characters of invisible.go, over the code points of valid UTF-8:
-- isInvisibleRune, isSubdivisionTag, isEmojiRune, isEmojiPresentationSelector, stripInvisible,
-- scanTagRun, containsInvisible and stripInvisibleMetadata.
pub mod Clean
pub mod Counted
use mcp_searxng_relay.Base.{
  ℕ, zero, suc, ◌+◌, Bool, true, false, not, ◌&&◌, ◌||◌, Option, none, some, List, [], ◌∷◌, Text,
  ltb, leb, ◌==◌, if◌then◌else◌,
}

abbrev pub within : ℕ → ℕ → ℕ → Bool
within lo hi r = leb lo r && leb r hi

abbrev pub black_flag : ℕ
black_flag = 0x1F3F4

abbrev pub cancel_tag : ℕ
cancel_tag = 0xE007F

abbrev pub zero_width_joiner : ℕ
zero_width_joiner = 0x200D

abbrev pub max_subdivision_tags : ℕ
max_subdivision_tags = 6

-- The block of tag characters.
abbrev pub is_tag : ℕ → Bool
is_tag r = within 0xE0000 0xE007F r

unfoldable pub is_invisible_rune : ℕ → Bool
is_invisible_rune r =
    is_tag r
    || within 0x200B 0x200D r
    || within 0x2060 0x2064 r
    || r == 0xFEFF
    || within 0x202A 0x202E r
    || within 0x2066 0x2069 r

abbrev pub is_subdivision_tag : ℕ → Bool
is_subdivision_tag r = within 0xE0030 0xE0039 r || within 0xE0061 0xE007A r

unfoldable pub is_emoji_rune : ℕ → Bool
is_emoji_rune r =
    r == 0x00A9
    || r == 0x00AE
    || r == 0x203C
    || r == 0x2049
    || r == 0x2122
    || r == 0x2139
    || within 0x2194 0x21AA r
    || within 0x231A 0x23FF r
    || within 0x24C2 0x25FE r
    || within 0x2600 0x27BF r
    || within 0x2934 0x2935 r
    || within 0x2B05 0x2B55 r
    || r == 0x3030
    || r == 0x303D
    || r == 0x3297
    || r == 0x3299
    || within 0x1F000 0x1FAFF r
    || within 0x1FC00 0x1FFFD r

abbrev pub is_emoji_presentation_selector : ℕ → Bool
is_emoji_presentation_selector r = r == 0xFE0E || r == 0xFE0F

unfoldable pub contains_invisible : Text → Bool
unfolding is_invisible_rune
contains_invisible [] = false
contains_invisible (r ∷ s) = is_invisible_rune r || contains_invisible s

-- The loop of scanTagRun: how many tags stand at the front, and whether they are a flag's.
scan_tags : Text → ℕ → ℕ → Bool → Bool → ℕ × Bool
scan_tags [] count spec cancelled ok =
    (count, count == 0 || ok && cancelled && leb 1 spec && leb spec max_subdivision_tags)
scan_tags (r ∷ s) count spec cancelled ok = elim (is_tag r) [
  | false ↦ (count, count == 0 || ok && cancelled && leb 1 spec && leb spec max_subdivision_tags)
  | true ↦ elim cancelled [
    | true ↦ scan_tags s (suc count) spec true false
    | false ↦ elim (r == cancel_tag) [
      | true ↦ scan_tags s (suc count) spec true ok
      | false ↦ elim (is_subdivision_tag r) [
        | true ↦ scan_tags s (suc count) (suc spec) false ok
        | false ↦ scan_tags s (suc count) spec false false
      ]
    ]
  ]
]

unfoldable pub scan_tag_run : Text → ℕ × Bool
unfolding scan_tags
scan_tag_run s = scan_tags s 0 0 false true

-- `prev` of the loop, `none` for -1: whether the last rune written is an emoji.
abbrev pub joins : Option ℕ → Text → Bool
joins none s = false
joins (some left) [] = false
joins (some left) (next ∷ s) = is_emoji_rune left && is_emoji_rune next

abbrev pub kept : ℕ → Text × ℕ → Text × ℕ
kept r (out, removed) = (r ∷ out, removed)

-- The loop. The next `copy` runes are the tags of a flag that is kept, or else the next `skip` runes
-- those of a run that is removed, which are counted already.
unfoldable pub strip_from : Text → ℕ → ℕ → Option ℕ → Text × ℕ
unfolding scan_tag_run is_invisible_rune is_emoji_rune
strip_from [] copy skip prev = ([], 0)
strip_from (r ∷ s) (suc copy) skip prev = kept r (strip_from s copy skip prev)
strip_from (r ∷ s) zero (suc skip) prev = strip_from s zero skip prev
strip_from (r ∷ s) zero zero prev = elim (r == black_flag) [
  | true ↦ elim (scan_tag_run s).1 [
    | true ↦ kept r (strip_from s (scan_tag_run s).0 0 (some r))
    | false ↦
        let (out, removed) = strip_from s 0 (scan_tag_run s).0 (some r) in
        (r ∷ out, removed + (scan_tag_run s).0)
  ]
  | false ↦ elim (r == zero_width_joiner) [
    | true ↦ elim (joins prev s) [
      | true ↦ kept r (strip_from s 0 0 (some r))
      | false ↦ let (out, removed) = strip_from s 0 0 prev in (out, suc removed)
    ]
    | false ↦ elim (is_invisible_rune r) [
      | true ↦ let (out, removed) = strip_from s 0 0 prev in (out, suc removed)
      | false ↦
          kept r (strip_from s 0 0 (if is_emoji_presentation_selector r then prev else some r))
    ]
  ]
]

unfoldable pub strip_invisible : Text → Text × ℕ
unfolding contains_invisible strip_from
strip_invisible s = if not (contains_invisible s) then (s, 0) else strip_from s 0 0 none

-- The fields of URLMetadata that are page text.
pub record Metadata : Type 0 where
  pub title : Text
  pub author : Text
  pub description : Text
  pub site_name : Text
  pub language : Text
  pub categories : List Text
  pub tags : List Text

strip_each : List Text → List Text × ℕ
unfolding strip_invisible
strip_each [] = ([], 0)
strip_each (t ∷ ts) =
    let (rest, n) = strip_each ts in ((strip_invisible t).0 ∷ rest, (strip_invisible t).1 + n)

unfoldable pub strip_invisible_metadata : Metadata → Metadata × ℕ
unfolding strip_each
strip_invisible_metadata m = (
  record {
    title = (strip_invisible m.title).0;
    author = (strip_invisible m.author).0;
    description = (strip_invisible m.description).0;
    site_name = (strip_invisible m.site_name).0;
    language = (strip_invisible m.language).0;
    categories = (strip_each m.categories).0;
    tags = (strip_each m.tags).0;
  },
  (strip_invisible m.title).1
      + (strip_invisible m.author).1
      + (strip_invisible m.description).1
      + (strip_invisible m.site_name).1
      + (strip_invisible m.language).1
      + (strip_each m.categories).1
      + (strip_each m.tags).1,
)
