-- ===== src/Metrics/Tables/Sums.antt =====
-- The size of a dictionary, and the sum of a counter over its entries, when an entry is put in.
use mcp_searxng_relay.Base.{ℕ, suc, ◌+◌, ◌≡◌, refl, none, some, List, [], ◌∷◌, arith, Text, length}
use mcp_searxng_relay.Base.Dict.{lookup, insert}

abbrev pub sum_by {ℓ} : {V : Type ℓ} → (V → ℕ) → List (Text × V) → ℕ
sum_by f [] = 0
sum_by f ((k, v) ∷ m) = f v + sum_by f m

module _ {ℓ} {V : Type ℓ} where
  pub length-insert-some :
      (k : Text) (v w : V) (m : List (Text × V))
      → lookup k m ≡ some w
      → length (insert k v m) ≡ length m
  unfolding lookup insert
  length-insert-some k v w [] h = cc
  length-insert-some k v w ((j, u) ∷ m) h = ground (arith, length-insert-some k v w m)

  pub length-insert-none :
      (k : Text) (v : V) (m : List (Text × V))
      → lookup k m ≡ none
      → length (insert k v m) ≡ suc (length m)
  unfolding lookup insert
  length-insert-none k v [] h = refl
  length-insert-none k v ((j, u) ∷ m) h = ground (arith, length-insert-none k v m)

  pub sum_by-insert-some :
      (f : V → ℕ) (k : Text) (v w : V) (m : List (Text × V))
      → lookup k m ≡ some w
      → sum_by f (insert k v m) + f w ≡ sum_by f m + f v
  unfolding lookup insert
  sum_by-insert-some f k v w [] h = cc
  sum_by-insert-some f k v w ((j, u) ∷ m) h = ground (arith, sum_by-insert-some f k v w m)

  pub sum_by-insert-none :
      (f : V → ℕ) (k : Text) (v : V) (m : List (Text × V))
      → lookup k m ≡ none
      → sum_by f (insert k v m) ≡ sum_by f m + f v
  unfolding lookup insert
  sum_by-insert-none f k v [] h = omega arith
  sum_by-insert-none f k v ((j, u) ∷ m) h = ground (arith, sum_by-insert-none f k v m)
