-- ===== src/Hidden/Dom/Removed.antt =====
-- What removeHiddenNodes does to a document, and that it ends.
use mcp_searxng_relay.Hidden.Dom.Rounds.{
  Inv-round, round, weight-push_all, round-stack, total, weight-visible, step, Reach, popped, shown,
  weight, Below, IsTree, Inv,
}
use mcp_searxng_relay.Base.{
  subst₂, List-cases, ℕ, zero, suc, ◌+◌, ◌≤◌, ◌<◌, ◌≡◌, refl, sym, ap, subst, ◌∙◌, ◌⊎◌, inl, inr,
  Bool, Option, some, List, [], ◌∷◌, arith, Text, ◌==◌, ==_iff, length, Bool-cases, Option-cases,
}
use mathlib.Core.List.{Memᴰ}
use mathlib.Core.List.Memᴰ
use mathlib.Core.Option.{some-injective}
use mcp_searxng_relay.Hidden.Dom.{
  Node, Walk, children_of, walk_from, remove_hidden_nodes, Document, strip_hidden_elements,
}

module _ (reads_zero : Text → Bool) (nodes : List Node) where
  walk_from-Inv :
      (size : ℕ → ℕ) (kss : List (List ℕ)) (root fuel : ℕ) (w : Walk)
      → IsTree size kss
      → Inv reads_zero nodes kss root w
      → weight size w.stack ≤ fuel
      → (v : Walk) × (walk_from reads_zero nodes fuel w ≡ some v)
        × (v.stack ≡ [])
        × Inv reads_zero nodes kss root v
  unfolding walk_from
  walk_from-Inv size kss root zero w tree inv h = elim (List-cases w.stack) [
    | inl e ↦ (w, simp (walk_from, e), e, inv)
    | inr (n, rest, e) ↦ absurd (omega (arith, h, ap (weight size) e, tree n))
  ]
  walk_from-Inv size kss root (suc fuel) w tree inv h = elim (List-cases w.stack) [
    | inl e ↦ (w, simp (walk_from, e), e, inv)
    | inr (n, rest, e) ↦
        let w' = popped reads_zero nodes w rest in
        let less = weight-visible reads_zero nodes size (children_of kss n) in
        let same = ap (weight size) (inv.kept n) in
        let pushed =
          ap (weight size) (round-stack reads_zero nodes n w')
          ∙ weight-push_all size (shown reads_zero nodes (children_of w.children n)) rest in
        let (v, ends, empty, kept) =
          walk_from-Inv size kss root fuel (round reads_zero nodes n w') tree
            (Inv-round reads_zero nodes kss root n w rest e inv)
            (omega (arith, h, ap (weight size) e, tree n, less, same, pushed)) in
        (v, rw (walk_from, e) ends, empty, kept)
  ]

  -- What is left of a document, and the count.
  pub record Removed (kss : List (List ℕ)) (root : ℕ) (left : List (List ℕ)) (removed : ℕ)
      : Type 0 where
    -- Each node above no hidden element keeps just its visible children, in order.
    pub kept :
        (n : ℕ)
        → Below reads_zero nodes kss root n
        → children_of left n ≡ shown reads_zero nodes (children_of kss n)
    -- What can still be reached was reached through visible children only.
    pub clean : (n : ℕ) → Reach left root n → Below reads_zero nodes kss root n
    pub untouched : removed ≡ 0 → left ≡ kss
    pub counted : total left + removed ≡ total kss

  Inv-start :
      (kss : List (List ℕ)) (root : ℕ)
      → Inv reads_zero nodes kss root (record { children = kss; removed = 0; stack = root ∷ [] })
  Inv-start kss root = record {
    kept = λ n. refl;
    untouched = λ z. refl;
    counted = omega arith;
    done = λ n b. inl (root, Memᴰ.head refl, b);
  }

  -- From a node that is done, every way down in what is left is a way down through visible children.
  clean-from :
      (kss left : List (List ℕ)) (root : ℕ)
      → ((n : ℕ)
          → Below reads_zero nodes kss root n
          → children_of left n ≡ shown reads_zero nodes (children_of kss n))
      → {n m : ℕ} → Below reads_zero nodes kss root n
      → Reach left n m
      → Below reads_zero nodes kss root m
  clean-from kss left root kept b Reach.here = b
  clean-from kss left root kept {n = n} b (Reach.down k r) =
      clean-from kss left root kept (step reads_zero nodes b (subst (Memᴰ _) (kept n b) k)) r

  -- On a document that is a tree, removeHiddenNodes ends within as many rounds as the root's size.
  -- From then on every node that can be reached was reached through visible children only, those
  -- that can be reached have kept just their visible children, in order, and the count is that of
  -- the nodes detached from their parents.
  pub remove_hidden_nodes-Removed :
      (size : ℕ → ℕ) (kss : List (List ℕ)) (root fuel : ℕ)
      → IsTree size kss
      → size root ≤ fuel
      → (left : List (List ℕ)) × (removed : ℕ) × (remove_hidden_nodes reads_zero nodes fuel root kss
          ≡ some (left, removed))
        × Removed kss root left removed
  unfolding remove_hidden_nodes
  remove_hidden_nodes-Removed size kss root fuel tree h =
      let (v, ends, empty, inv) =
        walk_from-Inv size kss root fuel _ tree (Inv-start kss root) (omega (arith, h)) in
      let kept : (n : ℕ)
          → Below reads_zero nodes kss root n
          → children_of v.children n ≡ shown reads_zero nodes (children_of kss n) =
        λ n b. elim (inv.done n b) [
          | inl (s, k, _) ↦ absurd (Memᴰ.not-nil (subst (Memᴰ s) empty k))
          | inr e ↦ e
        ] in
      (
        v.children,
        v.removed,
        rw (ends, remove_hidden_nodes) refl,
        record {
          kept = kept;
          clean = λ n r. clean-from kss v.children root kept Below.here r;
          untouched = inv.untouched;
          counted = inv.counted;
        },
      )

-- What stripHiddenElements hands to the extractor: the body as it came, when the parsed document
-- shows no hidden element, else a rendering of the document without its hidden elements, and never
-- the body itself when there was something to remove, whatever error the renderer has.
pub strip_hidden_elements-Removed :
    (reads_zero : Text → Bool) (parse : Text → Option Document) (render : Document → Option Text)
    (size : ℕ → ℕ) (body : Text) (doc : Document) (out : Text) (count : ℕ)
    → parse body ≡ some doc
    → IsTree size doc.children
    → size doc.root ≤ length doc.nodes
    → strip_hidden_elements reads_zero parse render body ≡ some (out, count)
    → ((count ≡ 0)
        × (out ≡ body)
        × Removed reads_zero doc.nodes doc.children doc.root doc.children 0)
      ⊎ ((0 < count)
          × (left : List (List ℕ)) × Removed reads_zero doc.nodes doc.children doc.root left count
          × (render (record doc { children = left }) ≡ some out))
unfolding strip_hidden_elements
strip_hidden_elements-Removed reads_zero parse render size body doc out count parsed tree fits h =
    let (left, removed, ends, r) =
      remove_hidden_nodes-Removed reads_zero doc.nodes size doc.children doc.root (length doc.nodes)
        tree fits in
    elim (Bool-cases (removed == 0)) [
      | inl e ↦
          let zero_removed = (==_iff removed 0).0 e in
          let same = some-injective _ _ (rw (strip_hidden_elements, parsed, ends, e) at h) in
          inl (
            sym (ap (λ p. p.1) same),
            sym (ap (λ p. p.0) same),
            subst₂ (Removed reads_zero doc.nodes doc.children doc.root) (r.untouched zero_removed)
                zero_removed r,
          )
      | inr e ↦ elim (Option-cases (render (record doc { children = left }))) [
        | inl f ↦ cc (rw (strip_hidden_elements, parsed, ends, e, f) at h)
        | inr (text, f) ↦
            let same = some-injective _ _ (rw (strip_hidden_elements, parsed, ends, e, f) at h) in
            let count_same = ap (λ p. p.1) same in
            inr (
              let positive : 0 < removed = ground arith in omega (arith, count_same, positive),
              left,
              subst (Removed reads_zero doc.nodes doc.children doc.root left) count_same r,
              f ∙ ap some (ap (λ p. p.0) same),
            )
      ]
    ]
