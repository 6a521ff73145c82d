-- ===== src/Hidden/Tests.antt =====
-- Runs of the removal of hidden elements, and its theorems at concrete inputs.
use mcp_searxng_relay.Base.{
  ℕ, zero, suc, ◌+◌, ◌-◌, ◌*◌, ◌≤◌, ◌<◌, min, max, ◌≡◌, refl, sym, ap, subst, ◌∙◌, ◌≢◌, ◌↔◌, ◌⊎◌,
  inl, inr, Bool, true, false, not, ◌&&◌, ◌||◌, Option, none, some, List, [], ◌∷◌, ◌++◌, map,
  append_assoc, append-nil, arith, Text, codes, text_eq, text_eq_iff, text_eq_refl, text_eq-cases,
  ltb, leb, ◌==◌, ==_iff, if◌then◌else◌, length, get_elem?, set, take, drop, length-append,
  length-set, length-take, length-drop, get_elem?-set_self, get_elem?-set_ne, get_elem?-lt, All,
  All-append, get_elem?-append_left, get_elem?-concat_last, get_elem?-set_cases,
  get_elem?-concat_cases, Bool-cases, Option-cases, is_some,
}
use mcp_searxng_relay.GoLib.Search.{index}
use mcp_searxng_relay.GoLib.Strings.{split}
use mcp_searxng_relay.Hidden.Style.{
  hides, comment_open, strip_from, declarations, strip_css_comments, is_css_zero,
  inline_style_hides,
}
use mcp_searxng_relay.Hidden.Style.Cascade.{winner, inline_style_hides_by_winners}
use mcp_searxng_relay.Hidden.Dom.{
  Node, Document, children_of, is_hidden_element, remove_hidden_nodes, strip_hidden_elements,
}
use mcp_searxng_relay.Hidden.Dom.Rounds.{IsTree}
use mcp_searxng_relay.Hidden.Dom.Removed.{
  Removed, remove_hidden_nodes-Removed, strip_hidden_elements-Removed,
}

-- A reader that knows "0" only.
abbrev reads_zero : Text → Bool
reads_zero v = text_eq v (codes "0")

comment_cut : strip_css_comments (codes "a/**/b/*c") ≡ codes "ab"
unfolding strip_css_comments
comment_cut = refl

comment_joined : strip_css_comments (codes "//**/*x*/y") ≡ codes "y"
unfolding strip_css_comments
comment_joined = refl

important_wins :
    inline_style_hides reads_zero (codes "display:none !important; display:block") ≡ true
unfolding inline_style_hides text_eq mcp_searxng_relay.Base.Dict.lookup
    mcp_searxng_relay.GoLib.Strings.split mcp_searxng_relay.Hidden.Style.parse_decl
    mcp_searxng_relay.GoLib.Search.cut mcp_searxng_relay.Hidden.Style.declare
    mcp_searxng_relay.Base.Dict.insert mcp_searxng_relay.GoLib.Strings.to_lower
    mcp_searxng_relay.GoLib.Strings.trim_space mcp_searxng_relay.GoLib.Strings.last_index_byte
important_wins = refl

last_wins : inline_style_hides reads_zero (codes "display:none; display:block") ≡ false
unfolding inline_style_hides text_eq mcp_searxng_relay.Base.Dict.lookup
    mcp_searxng_relay.GoLib.Strings.split mcp_searxng_relay.Hidden.Style.parse_decl
    mcp_searxng_relay.GoLib.Search.cut mcp_searxng_relay.Hidden.Style.declare
    mcp_searxng_relay.Base.Dict.insert mcp_searxng_relay.GoLib.Strings.to_lower
    mcp_searxng_relay.GoLib.Strings.trim_space mcp_searxng_relay.GoLib.Strings.last_index_byte
last_wins = refl

zero_with_unit : inline_style_hides reads_zero (codes "OPACITY : 0%") ≡ true
unfolding inline_style_hides text_eq mcp_searxng_relay.Base.Dict.lookup
    mcp_searxng_relay.GoLib.Strings.split mcp_searxng_relay.Hidden.Style.parse_decl
    mcp_searxng_relay.GoLib.Search.cut mcp_searxng_relay.Hidden.Style.declare
    mcp_searxng_relay.Base.Dict.insert mcp_searxng_relay.GoLib.Strings.to_lower
    mcp_searxng_relay.GoLib.Strings.trim_space mcp_searxng_relay.GoLib.Strings.last_index_byte
zero_with_unit = refl

abbrev hiding : Text
hiding = codes "display:none !important; display:block"

inline_style_hides_by_winners_example :
    let ds = declarations (split (strip_css_comments hiding) b';') in
    inline_style_hides reads_zero hiding
    ≡ hides reads_zero
        (winner (codes "display") ds)
        (winner (codes "visibility") ds)
        (winner (codes "opacity") ds)
        (winner (codes "font-size") ds)
inline_style_hides_by_winners_example = inline_style_hides_by_winners reads_zero hiding

abbrev body_node : Node
body_node = record { is_element = true; data_ = codes "body"; attr = [] }

abbrev hidden_div : Node
hidden_div = record { is_element = true; data_ = codes "div"; attr = (codes "hidden", []) ∷ [] }

abbrev paragraph : Node
paragraph = record {
  is_element = true;
  data_ = codes "p";
  attr = (codes "hidden", codes "until-found") ∷ [];
}

-- A body with a hidden part, which has a paragraph, and with a second paragraph.
abbrev nodes : List Node
nodes = body_node ∷ hidden_div ∷ paragraph ∷ paragraph ∷ []

abbrev kids : List (List ℕ)
kids = (1 ∷ 3 ∷ []) ∷ (2 ∷ []) ∷ [] ∷ [] ∷ []

abbrev document : Document
document = record { nodes = nodes; children = kids; root = 0 }

abbrev size : ℕ → ℕ
size zero = 4
size (suc zero) = 2
size (suc (suc n)) = 1

kids-IsTree : IsTree size kids
unfolding children_of
kids-IsTree zero = omega arith
kids-IsTree (suc zero) = omega arith
kids-IsTree (suc (suc zero)) = omega arith
kids-IsTree (suc (suc (suc zero))) = omega arith
kids-IsTree (suc (suc (suc (suc n)))) = omega arith

div_removed :
    remove_hidden_nodes reads_zero nodes 4 0 kids ≡ some ((3 ∷ []) ∷ (2 ∷ []) ∷ [] ∷ [] ∷ [], 1)
unfolding remove_hidden_nodes is_hidden_element text_eq mcp_searxng_relay.GoLib.Strings.to_lower
    mcp_searxng_relay.GoLib.Strings.trim_space
div_removed = refl

remove_hidden_nodes-Removed_example :
    (left : List (List ℕ)) × (removed : ℕ) × (remove_hidden_nodes reads_zero nodes 4 0 kids
      ≡ some (left, removed))
    × Removed reads_zero nodes kids 0 left removed
remove_hidden_nodes-Removed_example =
    remove_hidden_nodes-Removed reads_zero nodes size kids 0 4 kids-IsTree (omega arith)

abbrev parse : Text → Option Document
parse body = some document

abbrev render : Document → Option Text
render doc = some (codes "<p></p>")

stripped :
    strip_hidden_elements reads_zero parse render (codes "<div hidden>") ≡ some (codes "<p></p>", 1)
unfolding strip_hidden_elements is_hidden_element text_eq mcp_searxng_relay.GoLib.Strings.to_lower
    mcp_searxng_relay.GoLib.Strings.trim_space
stripped = refl

strip_hidden_elements-Removed_example :
    ((◌≡◌ {A = ℕ} 1 0)
      × (codes "<p></p>" ≡ codes "<div hidden>")
      × Removed reads_zero nodes kids 0 kids 0)
    ⊎ ((0 < 1)
        × (left : List (List ℕ)) × Removed reads_zero nodes kids 0 left 1
        × (render (record document { children = left }) ≡ some (codes "<p></p>")))
strip_hidden_elements-Removed_example =
    strip_hidden_elements-Removed reads_zero parse render size (codes "<div hidden>") document
      (codes "<p></p>") 1 refl kids-IsTree (omega arith) stripped
