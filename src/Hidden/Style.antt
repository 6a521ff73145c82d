-- ===== src/Hidden/Style.antt =====
-- inlineStyleHides, stripCSSComments and isCSSZero of hidden.go, over bytes. Whether
-- strconv.ParseFloat reads a text as the number 0 is the parameter `reads_zero`.
pub mod Comments
pub mod Cascade
use mcp_searxng_relay.Base.{
  ℕ, zero, suc, ◌+◌, ◌-◌, ◌*◌, ◌≤◌, ◌<◌, min, max, ◌≡◌, refl, sym, ap, subst, ◌∙◌, ◌≢◌, ◌↔◌, ◌⊎◌,
  inl, inr, Bool, true, false, not, ◌&&◌, ◌||◌, Option, none, some, List, [], ◌∷◌, ◌++◌, map,
  append_assoc, append-nil, arith, Text, codes, text_eq, text_eq_iff, text_eq_refl, text_eq-cases,
  ltb, leb, ◌==◌, ==_iff, if◌then◌else◌, length, get_elem?, set, take, drop, length-append,
  length-set, length-take, length-drop, get_elem?-set_self, get_elem?-set_ne, get_elem?-lt, All,
  All-append, get_elem?-append_left, get_elem?-concat_last, get_elem?-set_cases,
  get_elem?-concat_cases, Bool-cases, Option-cases, is_some,
}
use mcp_searxng_relay.Base.Dict.{lookup, insert}
use mcp_searxng_relay.GoLib.Strings.{trim_space, to_lower, last_index_byte, split}
use mcp_searxng_relay.GoLib.Search.{index, cut}

abbrev pub comment_open : Text
comment_open = b'/' ∷ b'*' ∷ []

abbrev pub comment_close : Text
comment_close = b'*' ∷ b'/' ∷ []

-- One round of stripCSSComments: the result, or the text of the next round.
unfoldable pub strip_round : Text → Text ⊎ Text
unfolding index
strip_round s = elim (index s comment_open) [
  | none ↦ inl s
  | some i ↦ elim (index (drop (i + 2) s) comment_close) [
    | none ↦ inl (take i s)
    | some j ↦ inr (take i s ++ drop (i + 2 + j + 2) s)
  ]
]

-- The loop on fuel, `none` when it runs out.
unfoldable pub strip_from : ℕ → Text → Option Text
unfolding strip_round
strip_from zero s = elim (strip_round s) [ inl t ↦ some t | inr t ↦ none ]
strip_from (suc fuel) s = elim (strip_round s) [ inl t ↦ some t | inr t ↦ strip_from fuel t ]

-- Every round shortens the text, so its length is enough fuel.
unfoldable pub strip_css_comments : Text → Text
unfolding strip_from
strip_css_comments s = elim (strip_from (length s) s) [ none ↦ [] | some t ↦ t ]

-- What one property is declared as.
pub record Decl : Type 0 where
  pub value : Text
  pub important : Bool

-- The value with its `!important` taken off.
unfoldable pub decl_of : Text → Decl
decl_of value = elim (last_index_byte value b'!') [
  | none ↦ record { value = value; important = false }
  | some i ↦
      if text_eq (trim_space (drop (i + 1) value)) (codes "important")
      then record { value = trim_space (take i value); important = true }
      else record { value = value; important = false }
]

-- One part between semicolons; `none` without a colon.
unfoldable pub parse_decl : Text → Option (Text × Decl)
unfolding decl_of
parse_decl part =
    let c = cut part b':' in
    if c.2 then some (to_lower (trim_space c.0), decl_of (to_lower (trim_space c.1))) else none

-- One round of the loop over the parts.
unfoldable pub declare : Text × Decl → List (Text × Decl) → List (Text × Decl)
declare (prop, d) final = elim (lookup prop final) [
  | none ↦ insert prop d final
  | some prev ↦ if prev.important && not d.important then final else insert prop d final
]

unfoldable pub declarations : List Text → List (Text × Decl)
declarations [] = []
declarations (part ∷ parts) = elim (parse_decl part) [
  | none ↦ declarations parts
  | some d ↦ d ∷ declarations parts
]

unfoldable pub declare_all : List (Text × Decl) → List (Text × Decl) → List (Text × Decl)
declare_all [] final = final
declare_all (d ∷ ds) final = declare_all ds (declare d final)

-- `final` after the loop over the parts of a style.
unfoldable pub cascade : Text → List (Text × Decl)
unfolding strip_css_comments declarations declare_all
cascade style = declare_all (declarations (split (strip_css_comments style) b';')) []

-- `final[prop].value`, the empty text for a property that is not there.
abbrev pub value_of : Option Decl → Text
value_of none = []
value_of (some d) = d.value

abbrev pub unit_byte : ℕ → Bool
unit_byte c = leb b'a' c && leb c b'z' || c == b'%'

-- strings.TrimRightFunc with the test of isCSSZero
unfoldable pub trim_unit : Text → Text
trim_unit [] = []
trim_unit (d ∷ s) = elim (trim_unit s) [
  | [] ↦ if unit_byte d then [] else d ∷ []
  | e ∷ t ↦ d ∷ e ∷ t
]

module _ (reads_zero : Text → Bool) where
  unfoldable pub is_css_zero : Text → Bool
  unfolding trim_unit
  is_css_zero v = elim (trim_unit v) [ [] ↦ false | d ∷ s ↦ reads_zero (d ∷ s) ]

  abbrev pub zero_in : Option Decl → Bool
  zero_in none = false
  zero_in (some d) = is_css_zero d.value

  -- The tests after the loop, on the four properties.
  abbrev pub hides : Option Decl → Option Decl → Option Decl → Option Decl → Bool
  hides display visibility opacity font_size =
      if text_eq (value_of display) (codes "none")
      then true
      else if text_eq (value_of visibility) (codes "hidden")
          || text_eq (value_of visibility) (codes "collapse")
      then true
      else if zero_in opacity
      then true
      else zero_in font_size

  unfoldable pub inline_style_hides : Text → Bool
  unfolding cascade is_css_zero
  inline_style_hides style =
      let final = cascade style in
      hides (lookup (codes "display") final) (lookup (codes "visibility") final)
        (lookup (codes "opacity") final) (lookup (codes "font-size") final)
