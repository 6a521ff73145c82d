-- ===== src/GoLib/Strings.antt =====
-- Functions of Go's package strings, over texts as bytes. An index is `none` where Go returns -1.
use mathlib.Core.List.{reverse}
use mcp_searxng_relay.Base.{
  zero, List, ◌++◌, drop, ℕ, suc, ◌+◌, ◌-◌, ◌≡◌, refl, Bool, true, false, [], ◌∷◌, map, Option,
  none, some, Text, text_eq, leb, ◌==◌, if◌then◌else◌, ◌&&◌, ◌||◌, length, take, is_some, codes,
}
use mathlib.Core.Option

abbrev pub is_space : ℕ → Bool
is_space c = c == 32 || leb 9 c && leb c 13

pub trim_left : Text → Text
trim_left [] = []
trim_left (c ∷ s) = if is_space c then trim_left s else c ∷ s

-- strings.TrimSpace
unfoldable pub trim_space : Text → Text
unfolding trim_left
trim_space s = reverse (trim_left (reverse (trim_left s)))

abbrev pub lower : ℕ → ℕ
lower c = if leb b'A' c && leb c b'Z' then c + 32 else c

-- strings.ToLower
unfoldable pub to_lower : Text → Text
to_lower s = map lower s

-- strings.IndexByte
unfoldable pub index_byte : Text → ℕ → Option ℕ
index_byte [] c = none
index_byte (d ∷ s) c = let rest = Option.map suc (index_byte s c) in if d == c then some 0 else rest

-- strings.LastIndexByte
unfoldable pub last_index_byte : Text → ℕ → Option ℕ
last_index_byte [] c = none
last_index_byte (d ∷ s) c = elim (last_index_byte s c) [
  | some i ↦ some (suc i)
  | none ↦ if d == c then some 0 else none
]

unfoldable pub contains_byte : Text → ℕ → Bool
unfolding index_byte
contains_byte s c = is_some (index_byte s c)

-- strings.HasPrefix
unfoldable pub has_prefix : Text → Text → Bool
has_prefix s [] = true
has_prefix [] (p ∷ ps) = false
has_prefix (c ∷ s) (p ∷ ps) = c == p && has_prefix s ps

-- strings.HasSuffix
unfoldable pub has_suffix : Text → Text → Bool
unfolding has_prefix
has_suffix s t = has_prefix (reverse s) (reverse t)

-- strings.TrimSuffix
unfoldable pub trim_suffix : Text → Text → Text
unfolding has_suffix
trim_suffix s t = if has_suffix s t then take (length s - length t) s else s

-- strings.EqualFold
unfoldable pub equal_fold : Text → Text → Bool
unfolding text_eq to_lower
equal_fold s t = text_eq (to_lower s) (to_lower t)

-- strings.ReplaceAll for a text that is not empty: `skip` bytes belong to the last match.
unfoldable pub replace_from : ℕ → Text → Text → Text → Text
replace_from skip [] old new = []
replace_from (suc skip) (c ∷ s) old new = replace_from skip s old new
replace_from zero (c ∷ s) old new =
    let matched = new ++ replace_from (length old - 1) s old new in
    let passed = c ∷ replace_from zero s old new in
    if has_prefix (c ∷ s) old then matched else passed

unfoldable pub replace_all : Text → Text → Text → Text
unfolding replace_from has_prefix
replace_all s old new = replace_from 0 s old new

-- strings.TrimRight with one byte as its cutset
unfoldable pub trim_right : Text → ℕ → Text
trim_right [] c = []
trim_right (d ∷ s) c = elim (trim_right s c) [
  | [] ↦ if d == c then [] else d ∷ []
  | e ∷ t ↦ d ∷ e ∷ t
]

-- strings.Split at one byte
unfoldable pub split : Text → ℕ → List Text
split [] c = [] ∷ []
split (d ∷ s) c = elim (split s c) [
  | [] ↦ (d ∷ []) ∷ []
  | part ∷ parts ↦ if d == c then [] ∷ part ∷ parts else (d ∷ part) ∷ parts
]

-- strings.CutPrefix
unfoldable pub cut_prefix : Text → Text → Option Text
unfolding has_prefix
cut_prefix s p = if has_prefix s p then some (drop (length p) s) else none

replaced : replace_all (codes "a&amp;b") (codes "&amp;") (codes "&") ≡ codes "a&b"
unfolding replace_all
replaced = refl

split_parts : split (codes "a/b/") b'/' ≡ codes "a" ∷ codes "b" ∷ [] ∷ []
unfolding split
split_parts = refl

trimmed : trim_space (codes "  a b ") ≡ codes "a b"
unfolding trim_space
trimmed = refl

last_colon : last_index_byte (codes "a:b:c") b':' ≡ some 3
unfolding last_index_byte
last_colon = refl
