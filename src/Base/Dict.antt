-- ===== src/Base/Dict.antt =====
-- Go maps with text keys, as association lists: `m[k]`, `m[k] = v` and `delete(m, k)`.
use mcp_searxng_relay.Base.{
  ◌≡◌, ◌≢◌, refl, List, [], ◌∷◌, Option, none, some, arith, Text, text_eq, text_eq_iff,
  text_eq_refl, text_eq-cases, if◌then◌else◌, ◌⊎◌, inl, inr, ap, sym, ◌∙◌,
}

module _ {ℓ} {V : Type ℓ} where
  unfoldable pub lookup : Text → List (Text × V) → Option V
  lookup k [] = none
  lookup k ((j, v) ∷ m) = if text_eq j k then some v else lookup k m

  unfoldable pub insert : Text → V → List (Text × V) → List (Text × V)
  insert k v [] = (k, v) ∷ []
  insert k v ((j, w) ∷ m) = if text_eq j k then (k, v) ∷ m else (j, w) ∷ insert k v m

  unfoldable pub delete : Text → List (Text × V) → List (Text × V)
  delete k [] = []
  delete k ((j, w) ∷ m) = if text_eq j k then delete k m else (j, w) ∷ delete k m

  pub lookup-insert :
      (k j : Text) (v : V) (m : List (Text × V))
      → lookup j (insert k v m) ≡ (if text_eq k j then some v else lookup j m)
  unfolding lookup insert
  lookup-insert k j v [] = refl
  lookup-insert k j v ((i, w) ∷ m) =
      ground (arith, text_eq_iff k j, text_eq_iff i k, text_eq_iff i j, lookup-insert k j v m)

  pub lookup-delete :
      (k j : Text) (m : List (Text × V))
      → lookup j (delete k m) ≡ (if text_eq k j then none else lookup j m)
  unfolding lookup delete
  lookup-delete k j [] = ground arith
  lookup-delete k j ((i, w) ∷ m) =
      ground (arith, text_eq_iff k j, text_eq_iff i k, text_eq_iff i j, lookup-delete k j m)

module _ {ℓ} {V : Type ℓ} where
  pub lookup-insert_self :
      (k : Text) (v : V) (m : List (Text × V)) → lookup k (insert k v m) ≡ some v
  lookup-insert_self k v m = rw (lookup-insert k k v m, text_eq_refl k)

  pub lookup-insert_ne :
      (k j : Text) (v : V) (m : List (Text × V)) → k ≢ j → lookup j (insert k v m) ≡ lookup j m
  lookup-insert_ne k j v m ne = elim (text_eq-cases k j) [
    | inl (_, e) ↦ absurd (ne e)
    | inr (e, _) ↦ rw (lookup-insert k j v m, e)
  ]

  pub lookup-delete_ne :
      (k j : Text) (m : List (Text × V)) → k ≢ j → lookup j (delete k m) ≡ lookup j m
  lookup-delete_ne k j m ne = elim (text_eq-cases k j) [
    | inl (_, e) ↦ absurd (ne e)
    | inr (e, _) ↦ rw (lookup-delete k j m, e)
  ]

  pub lookup-delete_self : (k : Text) (m : List (Text × V)) → lookup k (delete k m) ≡ none
  lookup-delete_self k m = rw (lookup-delete k k m, text_eq_refl k)

  -- Where an entry comes from.
  pub lookup-insert_cases :
      (k j : Text) (v w : V) (m : List (Text × V))
      → lookup j (insert k v m) ≡ some w
      → (k ≡ j) × (v ≡ w) ⊎ (k ≢ j) × (lookup j m ≡ some w)
  lookup-insert_cases k j v w m h = elim (text_eq-cases k j) [
    | inl (t, e) ↦ inl (e, cc (lookup-insert k j v m, ap (λ b. if b then some v else lookup j m) t))
    | inr (_, ne) ↦ inr (ne, sym (lookup-insert_ne k j v m ne) ∙ h)
  ]

  pub lookup-delete_cases :
      (k j : Text) (w : V) (m : List (Text × V))
      → lookup j (delete k m) ≡ some w
      → (k ≢ j) × (lookup j m ≡ some w)
  lookup-delete_cases k j w m h = elim (text_eq-cases k j) [
    | inl (_, e) ↦ absurd (cc (lookup-delete_self k m, ap (λ i. lookup i (delete k m)) e))
    | inr (_, ne) ↦ (ne, sym (lookup-delete_ne k j m ne) ∙ h)
  ]
