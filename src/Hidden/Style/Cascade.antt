-- ===== src/Hidden/Style/Cascade.antt =====
-- The loop over the declarations, against the rule of the CSS cascade.
use mcp_searxng_relay.Base.{
  ◌≡◌, refl, ◌≢◌, inl, inr, Bool, true, not, ◌&&◌, Option, none, some, List, [], ◌∷◌, arith, Text,
  codes, text_eq, text_eq-cases, if◌then◌else◌, Bool-cases, Option-cases,
}
use mcp_searxng_relay.Base.Dict.{lookup, lookup-insert_self, lookup-insert_ne}
use mcp_searxng_relay.GoLib.Strings.{split}
use mcp_searxng_relay.Hidden.Style.{
  Decl, declare, declare_all, cascade, declarations, strip_css_comments, hides, inline_style_hides,
}

-- The last declaration of a property among those that the test holds of.
abbrev pub last_of : (Decl → Bool) → Text → List (Text × Decl) → Option Decl
last_of test prop [] = none
last_of test prop ((p, d) ∷ ds) = elim (last_of test prop ds) [
  | some e ↦ some e
  | none ↦ if text_eq p prop && test d then some d else none
]

-- The declaration of a property that counts: the last important one, else the last one.
abbrev pub winner : Text → List (Text × Decl) → Option Decl
winner prop ds = elim (last_of (λ d. d.important) prop ds) [
  | some d ↦ some d
  | none ↦ last_of (λ d. true) prop ds
]

-- The same, when one declaration stands already.
abbrev winner_after : Option Decl → Text → List (Text × Decl) → Option Decl
winner_after held prop ds = elim (last_of (λ d. d.important) prop ds) [
  | some d ↦ some d
  | none ↦ elim held [
    | none ↦ last_of (λ d. true) prop ds
    | some h ↦
        if h.important
        then some h
        else elim (last_of (λ d. true) prop ds) [ none ↦ some h | some d ↦ some d ]
  ]
]

lookup-declare_self :
    (p : Text) (d : Decl) (final : List (Text × Decl))
    → lookup p (declare (p, d) final) ≡ elim (lookup p final) [
      | none ↦ some d
      | some h ↦ if h.important && not d.important then some h else some d
    ]
unfolding declare
lookup-declare_self p d final = elim (Option-cases (lookup p final)) [
  | inl e ↦ rw (e, declare) (lookup-insert_self p d final)
  | inr (h, e) ↦ elim (Bool-cases (h.important && not d.important)) [
    | inl b ↦ rw (e, b, declare) e
    | inr b ↦ rw (e, b, declare) (lookup-insert_self p d final)
  ]
]

lookup-declare_ne :
    (p q : Text) (d : Decl) (final : List (Text × Decl))
    → p ≢ q
    → lookup q (declare (p, d) final) ≡ lookup q final
unfolding declare
lookup-declare_ne p q d final ne = elim (Option-cases (lookup p final)) [
  | inl e ↦ rw (e, declare) (lookup-insert_ne p q d final ne)
  | inr (h, e) ↦ elim (Bool-cases (h.important && not d.important)) [
    | inl b ↦ rw (e, b, declare) refl
    | inr b ↦ rw (e, b, declare) (lookup-insert_ne p q d final ne)
  ]
]

lookup-declare_all :
    (prop : Text) (ds final : List (Text × Decl))
    → lookup prop (declare_all ds final) ≡ winner_after (lookup prop final) prop ds
unfolding declare_all
lookup-declare_all prop [] final = elim (Option-cases (lookup prop final)) [
  | inl e ↦ rw e refl
  | inr (h, e) ↦ rw e (ground arith)
]
lookup-declare_all prop ((p, d) ∷ ds) final = elim (text_eq-cases p prop) [
  | inl (t, e) ↦
      ground
        (arith, lookup-declare_all prop ds (declare (p, d) final), lookup-declare_self p d final, e)
  | inr (t, ne) ↦ ground (
    arith,
    lookup-declare_all prop ds (declare (p, d) final),
    lookup-declare_ne p prop d final ne,
  )
]

-- An inline style hides an element just where the declarations that count do, the last important
-- one of a property and else its last one: `display` as none, `visibility` as hidden or collapse,
-- `opacity` or `font-size` as zero.
pub inline_style_hides_by_winners :
    (reads_zero : Text → Bool) (style : Text)
    → let ds = declarations (split (strip_css_comments style) b';') in
      inline_style_hides reads_zero style
      ≡ hides reads_zero
          (winner (codes "display") ds)
          (winner (codes "visibility") ds)
          (winner (codes "opacity") ds)
          (winner (codes "font-size") ds)
unfolding inline_style_hides cascade lookup
inline_style_hides_by_winners reads_zero style =
    let ds = declarations (split (strip_css_comments style) b';') in
    rw
      (
        lookup-declare_all (codes "display") ds [],
        lookup-declare_all (codes "visibility") ds [],
        lookup-declare_all (codes "opacity") ds [],
        lookup-declare_all (codes "font-size") ds [],
      )
      refl
