-- ===== src/Hidden/Style/Comments.antt =====
-- stripCSSComments ends, and leaves no comment.
use mcp_searxng_relay.Base.{
  ℕ, zero, suc, ◌+◌, ◌≤◌, ◌<◌, ◌≡◌, refl, ◌⊎◌, inl, inr, none, some, ◌++◌, arith, Text, length,
  take, drop, length-append, length-take, length-drop, Option-cases,
}
use mcp_searxng_relay.GoLib.Search.{index, index-le, index-take}
use mcp_searxng_relay.Hidden.Style.{
  comment_open, comment_close, strip_round, strip_from, strip_css_comments,
}

-- A round either ends without a comment or shortens the text.
strip_round_cases :
    (s : Text)
    → ((t : Text) × (strip_round s ≡ inl t) × (index t comment_open ≡ none))
      ⊎ ((t : Text) × (strip_round s ≡ inr t) × (length t < length s))
unfolding strip_round
strip_round_cases s = elim (Option-cases (index s comment_open)) [
  | inl e ↦ inl (s, rw (strip_round, e) refl, e)
  | inr (i, e) ↦
      let fits = index-le s comment_open i e in
      elim (Option-cases (index (drop (i + 2) s) comment_close)) [
        | inl f ↦
            inl (take i s, rw (strip_round, e, f) refl, index-take s comment_open i (omega arith) e)
        | inr (j, f) ↦ inr (
          take i s ++ drop (i + 2 + j + 2) s,
          rw (strip_round, e, f) refl,
          omega (
            arith,
            fits,
            index-le (drop (i + 2) s) comment_close j f,
            length-drop (i + 2) s,
            length-append (take i s) (drop (i + 2 + j + 2) s),
            length-take i s,
            length-drop (i + 2 + j + 2) s,
          ),
        )
      ]
]

strip_from_ends :
    (fuel : ℕ) (s : Text)
    → length s ≤ fuel
    → (t : Text) × (strip_from fuel s ≡ some t) × (index t comment_open ≡ none)
unfolding strip_from
strip_from_ends zero s h = elim (strip_round_cases s) [
  | inl (t, e, clean) ↦ (t, rw (strip_from, e) refl, clean)
  | inr (t, e, shorter) ↦ absurd (omega (arith, h, shorter))
]
strip_from_ends (suc fuel) s h = elim (strip_round_cases s) [
  | inl (t, e, clean) ↦ (t, rw (strip_from, e) refl, clean)
  | inr (t, e, shorter) ↦
      let (u, f, clean) = strip_from_ends fuel t (omega (arith, h, shorter)) in
      (u, rw (strip_from, e) f, clean)
]

-- stripCSSComments ends within as many rounds as the style has bytes, and its result holds no
-- opening of a comment, also where taking comments out puts one together.
strip_css_comments_ends :
    (s : Text)
    → (strip_from (length s) s ≡ some (strip_css_comments s))
      × (index (strip_css_comments s) comment_open ≡ none)
unfolding strip_css_comments
strip_css_comments_ends s =
    let (t, e, clean) = strip_from_ends (length s) s (omega arith) in
    rw (strip_css_comments, e) (refl, clean)
