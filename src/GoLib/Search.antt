-- ===== src/GoLib/Search.antt =====
-- strings.Index and strings.Cut of Go's package strings, with what a match says of lengths.
use mcp_searxng_relay.Base.{
  ℕ, zero, suc, ◌+◌, ◌≤◌, ◌<◌, ◌≡◌, refl, ap, inl, inr, Bool, true, false, Option, none, some, [],
  ◌∷◌, arith, Text, ◌==◌, if◌then◌else◌, length, take, Bool-cases, Option-cases,
}
use mathlib.Core.Option
use mathlib.Core.Option.{some-injective}
use mcp_searxng_relay.GoLib.Strings.{has_prefix}

-- `none` is Go's -1.
unfoldable pub index : Text → Text → Option ℕ
unfolding has_prefix
index [] p = if has_prefix [] p then some 0 else none
index (c ∷ s) p =
    let rest = Option.map suc (index s p) in if has_prefix (c ∷ s) p then some 0 else rest

-- strings.Cut at one byte
unfoldable pub cut : Text → ℕ → Text × Text × Bool
cut [] c = ([], [], false)
cut (d ∷ s) c = let rest = cut s c in if d == c then ([], s, true) else (d ∷ rest.0, rest.1, rest.2)

has_prefix-le : (s p : Text) → has_prefix s p ≡ true → length p ≤ length s
unfolding has_prefix
has_prefix-le s [] h = omega arith
has_prefix-le [] (q ∷ p) h = cc
has_prefix-le (c ∷ s) (q ∷ p) h = ground (arith, has_prefix-le s p)

-- A match lies within the text.
pub index-le : (s p : Text) (i : ℕ) → index s p ≡ some i → i + length p ≤ length s
unfolding index
index-le [] p i h = ground (arith, has_prefix-le [] p)
index-le (c ∷ s) p i h = elim (Bool-cases (has_prefix (c ∷ s) p)) [
  | inl e ↦ ground (arith, has_prefix-le (c ∷ s) p e)
  | inr e ↦ elim (Option-cases (index s p)) [
    | inl n ↦ cc (rw (index, e, n) at h)
    | inr (j, m) ↦ omega (arith, index-le s p j m, some-injective _ _ (rw (index, e, m) at h))
  ]
]

has_prefix-take : (s p : Text) (n : ℕ) → has_prefix (take n s) p ≡ true → has_prefix s p ≡ true
unfolding has_prefix
has_prefix-take s [] n h = refl
has_prefix-take [] (q ∷ p) zero h = cc
has_prefix-take [] (q ∷ p) (suc n) h = cc
has_prefix-take (c ∷ s) (q ∷ p) zero h = cc
has_prefix-take (c ∷ s) (q ∷ p) (suc n) h = ground (arith, has_prefix-take s p n)

-- The text before the first match holds no match.
pub index-take :
    (s p : Text) (i : ℕ) → 0 < length p → index s p ≡ some i → index (take i s) p ≡ none
unfolding index has_prefix
index-take s [] i z h = absurd (omega arith)
index-take [] (q ∷ p) i z h = cc
index-take (c ∷ s) (q ∷ p) zero z h = refl
index-take (c ∷ s) (q ∷ p) (suc i) z h = elim (Bool-cases (has_prefix (c ∷ s) (q ∷ p))) [
  | inl e ↦ absurd (omega (arith, some-injective _ _ (rw (index, e) at h)))
  | inr e ↦ elim (Option-cases (index s (q ∷ p))) [
    | inl n ↦ cc (rw (index, e, n) at h)
    | inr (j, m) ↦ elim (Bool-cases (has_prefix (take (suc i) (c ∷ s)) (q ∷ p))) [
      | inl f ↦ cc (has_prefix-take (c ∷ s) (q ∷ p) (suc i) f)
      | inr f ↦
          let same : j ≡ i = omega (arith, some-injective _ _ (rw (index, e, m) at h)) in
          let before : index (take i s) (q ∷ p) ≡ none =
            index-take s (q ∷ p) i z (rw m (ap some same)) in
          rw (index, f, before) refl
    ]
  ]
]
