-- ===== src/GoLib/Lru/Unbounded.antt =====
-- A cache without a bound, which shows that what the program relies on can be had.
use mcp_searxng_relay.Base.{
  ◌≡◌, ◌≢◌, refl, ◌⊎◌, inl, inr, none, some, List, [], Text, text_eq-cases, text_eq_refl,
}
use mcp_searxng_relay.Base.Dict.{
  lookup, insert, delete, lookup-insert, lookup-delete_self, lookup-delete_ne,
}
use mcp_searxng_relay.GoLib.Lru.{Lru}

pub peek-insert_self :
    {V : Type 0} (c : List (Text × V)) (k : Text) (v : V) → lookup k (insert k v c) ≡ some v
peek-insert_self c k v = rw (lookup-insert k k v c, text_eq_refl k)

pub peek-insert_ne :
    {V : Type 0} (c : List (Text × V)) (k j : Text) (v : V)
    → k ≢ j
    → (lookup j (insert k v c) ≡ none) ⊎ (lookup j (insert k v c) ≡ lookup j c)
peek-insert_ne c k j v ne = elim (text_eq-cases k j) [
  | inl (_, e) ↦ absurd (ne e)
  | inr (e, _) ↦ inr (rw (lookup-insert k j v c, e))
]

pub lookup-nil : {V : Type 0} (k : Text) → lookup {V = V} k [] ≡ none
unfolding lookup
lookup-nil k = refl

abbrev pub unbounded : (V : Type 0) → Lru V
unbounded V = record {
  Cache = List (Text × V);
  empty = [];
  peek = λ c k. lookup k c;
  get = λ c k. c;
  add = λ c k v. insert k v c;
  remove = λ c k. delete k c;
  peek-empty = λ k. lookup-nil k;
  peek-get = λ c k j. refl;
  peek-add_self = peek-insert_self;
  peek-add_ne = peek-insert_ne;
  peek-remove_self = λ c k. lookup-delete_self k c;
  peek-remove_ne = λ c k j ne. lookup-delete_ne k j c ne;
}
