-- ===== src/GoLib/Lru/Pointers.antt =====
-- A cache of pointers into a heap that only grows: every cached pointer is in the heap, and no two
-- keys share one.
use mcp_searxng_relay.Base.{
  ℕ, suc, ◌<◌, ◌≡◌, sym, ◌∙◌, ◌≢◌, ◌⊎◌, inl, inr, some, arith, Text, text_eq-cases,
}
use mcp_searxng_relay.GoLib.Lru.{Lru}

module _ (L : Lru ℕ) where
  pub record IsApart (size : ℕ) (c : L.Cache) : Type 0 where
    pub in_heap : (k : Text) (p : ℕ) → L.peek c k ≡ some p → p < size
    pub distinct : (j k : Text) (p : ℕ) → L.peek c j ≡ some p → L.peek c k ≡ some p → j ≡ k

  pub empty-IsApart : IsApart 0 L.empty
  empty-IsApart = record {
    in_heap = λ k p h. cc (L.peek-empty k);
    distinct = λ j k p h g. cc (L.peek-empty j);
  }

  pub get-IsApart :
      (size : ℕ) (c : L.Cache) (key : Text) → IsApart size c → IsApart size (L.get c key)
  get-IsApart size c key v =
      let same = L.peek-get c key in
      record {
        in_heap = λ k q h. v.in_heap k q (sym (same k) ∙ h);
        distinct = λ j k q h g. v.distinct j k q (sym (same j) ∙ h) (sym (same k) ∙ g);
      }

  -- What the cache holds once a key's new pointer is in it.
  pub peek-install :
      (size : ℕ) (c : L.Cache) (key k : Text) (p : ℕ)
      → L.peek (L.add (L.get c key) key size) k ≡ some p
      → (key ≡ k) × (p ≡ size) ⊎ (key ≢ k) × (L.peek c k ≡ some p)
  peek-install size c key k p h = elim (text_eq-cases key k) [
    | inl (_, e) ↦ inl (e, cc (rw (← e) at h, L.peek-add_self (L.get c key) key size))
    | inr (_, ne) ↦ inr (
      ne,
      elim (L.peek-add_ne (L.get c key) key k size ne) [
        | inl gone ↦ cc
        | inr kept ↦ cc (L.peek-get c key k)
      ],
    )
  ]

  pub install-IsApart :
      (size : ℕ) (c : L.Cache) (key : Text)
      → IsApart size c
      → IsApart (suc size) (L.add (L.get c key) key size)
  install-IsApart size c key v = record {
    in_heap = λ k p h. elim (peek-install size c key k p h) [
      | inl (_, new) ↦ omega (arith, new)
      | inr (_, old) ↦ omega (arith, v.in_heap k p old)
    ];
    distinct = λ j k p h g. elim (peek-install size c key j p h) [
      | inl (jk, jp) ↦ elim (peek-install size c key k p g) [
        | inl (kk, kp) ↦ sym jk ∙ kk
        | inr (_, old) ↦ absurd (omega (arith, v.in_heap k p old, jp))
      ]
      | inr (_, j_old) ↦ elim (peek-install size c key k p g) [
        | inl (_, kp) ↦ absurd (omega (arith, v.in_heap j p j_old, kp))
        | inr (_, k_old) ↦ v.distinct j k p j_old k_old
      ]
    ];
  }
