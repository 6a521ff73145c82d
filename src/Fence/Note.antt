-- ===== src/Fence/Note.antt =====
-- The note on what was removed from a text, of fence.go: removalCounts, sanitisationNote and
-- pluralise.
use mcp_searxng_relay.Base.{
  ℕ, ◌≡◌, ◌↔◌, refl, arith, inl, inr, List, [], ◌∷◌, ◌++◌, Text, codes, ltb, ◌==◌, if◌then◌else◌,
  Bool-cases,
}
use mcp_searxng_relay.GoLib.Strconv.{itoa}

pub record RemovalCounts : Type 0 where
  pub invisible_chars : ℕ
  pub hidden_elements : ℕ

unfoldable pub pluralise : ℕ → Text → Text → Text
pluralise n one many = if n == 1 then codes "1 " ++ one else itoa n ++ (codes " " ++ many)

-- strings.Join with " and "
abbrev join_and : List Text → Text
join_and [] = []
join_and (p ∷ []) = p
join_and (p ∷ q ∷ parts) = p ++ (codes " and " ++ join_and (q ∷ parts))

abbrev note_of : List Text → Text
note_of [] = []
note_of (p ∷ parts) =
    codes "This content contained "
    ++ (join_and (p ∷ parts)
        ++ codes ", which the relay removed. Hidden text is a common way to smuggle instructions.")

unfoldable pub sanitisation_note : RemovalCounts → Text
unfolding pluralise
sanitisation_note c =
    let hidden =
      pluralise c.hidden_elements (codes "hidden page element") (codes "hidden page elements") in
    let invisible =
      pluralise c.invisible_chars (codes "invisible character") (codes "invisible characters") in
    note_of (
      (if ltb 0 c.hidden_elements then hidden ∷ [] else [])
      ++ (if ltb 0 c.invisible_chars then invisible ∷ [] else []))

-- A text is marked exactly where something was removed from it: the note is empty just where both
-- counts are 0.
pub sanitisation_note_nil :
    (c : RemovalCounts)
    → (sanitisation_note c ≡ []) ↔ ((c.hidden_elements ≡ 0) × (c.invisible_chars ≡ 0))
unfolding sanitisation_note
sanitisation_note_nil c = elim (Bool-cases (ltb 0 c.hidden_elements)) [
  | inl e ↦ rw (sanitisation_note, e) ((λ h. cc), (λ (h, _). absurd (ground arith)))
  | inr e ↦ elim (Bool-cases (ltb 0 c.invisible_chars)) [
    | inl f ↦ rw (sanitisation_note, e, f) ((λ h. cc), (λ (_, h). absurd (ground arith)))
    | inr f ↦ rw (sanitisation_note, e, f) ((λ h. (ground arith, ground arith)), (λ h. refl))
  ]
]
