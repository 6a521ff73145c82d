-- ===== src/Hidden/Dom.antt =====
-- isHiddenElement, removeHiddenNodes and stripHiddenElements of hidden.go. The nodes that
-- golang.org/x/net/html parses are named by their place in a list, and the sibling links of a node
-- are the list of its children; html.Parse and html.Render are parameters.
pub mod Removal
pub mod Rounds
pub mod Removed
use mcp_searxng_relay.Base.{
  ℕ, zero, suc, ◌+◌, ◌-◌, ◌*◌, ◌≤◌, ◌<◌, min, max, ◌≡◌, refl, sym, ap, subst, ◌∙◌, ◌≢◌, ◌↔◌, ◌⊎◌,
  inl, inr, Bool, true, false, not, ◌&&◌, ◌||◌, Option, none, some, List, [], ◌∷◌, ◌++◌, map,
  append_assoc, append-nil, arith, Text, codes, text_eq, text_eq_iff, text_eq_refl, text_eq-cases,
  ltb, leb, ◌==◌, ==_iff, if◌then◌else◌, length, get_elem?, set, take, drop, length-append,
  length-set, length-take, length-drop, get_elem?-set_self, get_elem?-set_ne, get_elem?-lt, All,
  All-append, get_elem?-append_left, get_elem?-concat_last, get_elem?-set_cases,
  get_elem?-concat_cases, Bool-cases, Option-cases, is_some,
}
use mcp_searxng_relay.GoLib.Strings.{trim_space, to_lower}
use mcp_searxng_relay.Hidden.Style.{inline_style_hides}

-- What the code reads of a node.
pub record Node : Type 0 where
  pub is_element : Bool
  pub data_ : Text
  pub attr : List (Text × Text)

module _ (reads_zero : Text → Bool) where
  -- One attribute, under the element's tag.
  unfoldable pub hidden_by : Text → Text × Text → Bool
  hidden_by tag (key, value) =
      let k = to_lower key in
      let v = to_lower (trim_space value) in
      if text_eq k (codes "hidden")
      then not (text_eq v (codes "until-found"))
      else if text_eq k (codes "aria-hidden")
      then text_eq v (codes "true")
      else if text_eq k (codes "type")
      then text_eq tag (codes "input") && text_eq v (codes "hidden")
      else if text_eq k (codes "style")
      then inline_style_hides reads_zero value
      else false

  abbrev pub any_hides : Text → List (Text × Text) → Bool
  any_hides tag [] = false
  any_hides tag (a ∷ attr) = let rest = any_hides tag attr in if hidden_by tag a then true else rest

  unfoldable pub is_hidden_element : Node → Bool
  unfolding hidden_by
  is_hidden_element n =
      let tag = to_lower n.data_ in
      if text_eq tag (codes "template") then true else any_hides tag n.attr

-- The state of the walk: the children of every node, the count, and the stack, its top first.
pub record Walk : Type 0 where
  pub children : List (List ℕ)
  pub removed : ℕ
  pub stack : List ℕ

unfoldable pub children_of : List (List ℕ) → ℕ → List ℕ
children_of children n = elim (get_elem? children n) [ none ↦ [] | some cs ↦ cs ]

abbrev pub without : ℕ → List ℕ → List ℕ
without c [] = []
without c (d ∷ ds) = let rest = without c ds in if d == c then ds else d ∷ rest

-- n.RemoveChild(c)
unfoldable pub remove_child : ℕ → ℕ → List (List ℕ) → List (List ℕ)
unfolding children_of
remove_child n c children = set children n (without c (children_of children n))

module _ (reads_zero : Text → Bool) (nodes : List Node) where
  -- The test of the inner loop.
  unfoldable pub is_removed : ℕ → Bool
  is_removed c = elim (get_elem? nodes c) [
    | none ↦ false
    | some node ↦ node.is_element && is_hidden_element reads_zero node
  ]

  -- The inner loop, over the children of `n`.
  unfoldable pub visit_children : ℕ → List ℕ → Walk → Walk
  unfolding is_removed remove_child
  visit_children n [] w = w
  visit_children n (c ∷ cs) w =
      let removed =
        visit_children n cs
          (record w { children = remove_child n c w.children; removed = w.removed + 1 }) in
      let pushed = visit_children n cs (record w { stack = c ∷ w.stack }) in
      if is_removed c then removed else pushed

  -- The outer loop on fuel, `none` when it runs out.
  unfoldable pub walk_from : ℕ → Walk → Option Walk
  unfolding visit_children children_of
  walk_from zero w = elim w.stack [ [] ↦ some w | n ∷ rest ↦ none ]
  walk_from (suc fuel) w = elim w.stack [
    | [] ↦ some w
    | n ∷ rest ↦
        walk_from fuel (visit_children n (children_of w.children n) (record w { stack = rest }))
  ]

  -- The children that are left, and how many nodes were detached.
  unfoldable pub remove_hidden_nodes : ℕ → ℕ → List (List ℕ) → Option (List (List ℕ) × ℕ)
  unfolding walk_from
  remove_hidden_nodes fuel root children =
      elim (walk_from fuel (record { children = children; removed = 0; stack = root ∷ [] })) [
        | none ↦ none
        | some w ↦ some (w.children, w.removed)
      ]

-- A parsed document.
pub record Document : Type 0 where
  pub nodes : List Node
  pub children : List (List ℕ)
  pub root : ℕ

module _ (reads_zero : Text → Bool) (parse : Text → Option Document)
    (render : Document → Option Text) where
  -- `none` is an error of the parser or of the renderer.
  unfoldable pub strip_hidden_elements : Text → Option (Text × ℕ)
  unfolding remove_hidden_nodes
  strip_hidden_elements body = elim (parse body) [
    | none ↦ none
    | some doc ↦
        elim (remove_hidden_nodes reads_zero doc.nodes (length doc.nodes) doc.root doc.children) [
          | none ↦ none
          | some (children, removed) ↦
              if removed == 0
              then some (body, 0)
              else elim (render (record doc { children = children })) [
                | none ↦ none
                | some out ↦ some (out, removed)
              ]
        ]
  ]
