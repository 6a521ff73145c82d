-- ===== src/Hidden/Dom/Rounds.antt =====
-- The invariant of the walk of removeHiddenNodes, round by round.
use mcp_searxng_relay.Base.{
  set_same, set_outside, ℕ, zero, suc, ◌+◌, ◌≤◌, ◌<◌, ◌≡◌, refl, sym, ap, subst, ◌∙◌, ◌≢◌, ◌⊎◌, inl,
  inr, Bool, some, List, [], ◌∷◌, arith, Text, ◌==◌, ==_iff, length, get_elem?, set,
  get_elem?-set_self, get_elem?-set_ne, get_elem?-lt, Bool-cases, Option-cases,
}
use mathlib.Core.Option.{some-injective}
use mathlib.Core.List.{Memᴰ}
use mathlib.Core.List.Memᴰ
use mcp_searxng_relay.Hidden.Dom.{Node, Walk, children_of, visit_children}
use mcp_searxng_relay.Hidden.Dom.Removal.{
  hidden_count, visible, visible_idem, length-visible, push_all, children_of_eq, visit_children_lem,
}

-- All entries of the child lists together.
abbrev pub total : List (List ℕ) → ℕ
total [] = 0
total (ks ∷ kss) = length ks + total kss

total-set :
    (kss : List (List ℕ)) (n : ℕ) (ks new : List ℕ)
    → get_elem? kss n ≡ some ks
    → total (set kss n new) + length ks ≡ total kss + length new
total-set [] n ks new h = cc
total-set (js ∷ kss) zero ks new h =
    let e : js ≡ ks = some-injective js ks h in omega (arith, ap length e)
total-set (js ∷ kss) (suc n) ks new h = omega (arith, total-set kss n ks new h)

-- The sum of the sizes of some nodes.
abbrev pub weight : (ℕ → ℕ) → List ℕ → ℕ
weight size [] = 0
weight size (n ∷ ns) = size n + weight size ns

-- Sizes that show a document to be a tree: a node's is more than its children's together.
abbrev pub IsTree : (ℕ → ℕ) → List (List ℕ) → Type 0
IsTree size children = (n : ℕ) → weight size (children_of children n) < size n

children_of-set_self :
    (kss : List (List ℕ)) (n : ℕ) (new : List ℕ)
    → (children_of kss n ≡ [] → new ≡ [])
    → children_of (set kss n new) n ≡ new
unfolding children_of
children_of-set_self kss n new h = elim (Option-cases (get_elem? kss n)) [
  | inl e ↦
      let same = set_outside kss n new e in
      let nothing : children_of kss n ≡ [] = rw (e, children_of) refl in
      rw (same, nothing) (sym (h nothing))
  | inr (ks, e) ↦
      children_of_eq (set kss n new) n new (get_elem?-set_self kss n new (get_elem?-lt kss n ks e))
]

children_of-set_ne :
    (kss : List (List ℕ)) (n m : ℕ) (new : List ℕ)
    → n ≢ m
    → children_of (set kss n new) m ≡ children_of kss m
unfolding children_of
children_of-set_ne kss n m new ne = rw (children_of, get_elem?-set_ne kss n m new ne) refl

push_all-right : (cs stack : List ℕ) {s : ℕ} → Memᴰ s stack → Memᴰ s (push_all cs stack)
push_all-right [] stack m = m
push_all-right (c ∷ cs) stack m = push_all-right cs (c ∷ stack) (Memᴰ.tail m)

push_all-left : (cs stack : List ℕ) {s : ℕ} → Memᴰ s cs → Memᴰ s (push_all cs stack)
push_all-left [] stack m = elim m [ ]
push_all-left (c ∷ cs) stack m = elim (Memᴰ.cases_cons m) [
  | inl e ↦ push_all-right cs (c ∷ stack) (Memᴰ.head e)
  | inr rest ↦ push_all-left cs (c ∷ stack) rest
]

pub weight-push_all :
    (size : ℕ → ℕ) (cs stack : List ℕ)
    → weight size (push_all cs stack) ≡ weight size cs + weight size stack
weight-push_all size [] stack = omega arith
weight-push_all size (c ∷ cs) stack = omega (arith, weight-push_all size cs (c ∷ stack))

-- A way down a document.
pub data Reach (children : List (List ℕ)) : ℕ → ℕ → Type 0 where
  here : {n : ℕ} → Reach children n n
  down : {n c m : ℕ} → Memᴰ c (children_of children n) → Reach children c m → Reach children n m

module _ (reads_zero : Text → Bool) (nodes : List Node) where
  abbrev pub shown : List ℕ → List ℕ
  shown = visible reads_zero nodes

  pub weight-visible : (size : ℕ → ℕ) (cs : List ℕ) → weight size (shown cs) ≤ weight size cs
  weight-visible size [] = omega arith
  weight-visible size (c ∷ cs) = ground (arith, weight-visible size cs)

  -- A way down through children that stay.
  pub data Below (children : List (List ℕ)) : ℕ → ℕ → Type 0 where
    here : {n : ℕ} → Below children n n
    down :
        {n c m : ℕ}
        → Memᴰ c (shown (children_of children n))
        → Below children c m
        → Below children n m

  pub step :
      {kss : List (List ℕ)} {n m c : ℕ}
      → Below kss n m
      → Memᴰ c (shown (children_of kss m))
      → Below kss n c
  step Below.here m = Below.down m Below.here
  step (Below.down k b) m = Below.down k (step b m)

  -- What holds at each round: the children that a node loses are hidden ones, each is counted, and
  -- a node is done unless the way to it leads through the stack.
  pub record Inv (children : List (List ℕ)) (root : ℕ) (w : Walk) : Type 0 where
    pub kept : (n : ℕ) → shown (children_of w.children n) ≡ shown (children_of children n)
    pub counted : total w.children + w.removed ≡ total children
    pub untouched : w.removed ≡ 0 → w.children ≡ children
    pub done :
        (n : ℕ)
        → Below children root n
        → ((s : ℕ) × Memᴰ s w.stack × Below children s n)
          ⊎ (children_of w.children n ≡ shown (children_of children n))

  abbrev pub round : ℕ → Walk → Walk
  round n w = visit_children reads_zero nodes n (children_of w.children n) w

  counted-round :
      (n : ℕ) (w : Walk)
      → total (round n w).children + (round n w).removed ≡ total w.children + w.removed
  unfolding children_of
  counted-round n w =
      rw (visit_children_lem reads_zero nodes n w) (elim (Option-cases (get_elem? w.children n)) [
        | inl e ↦
            let empty : children_of w.children n ≡ [] = rw (e, children_of) refl in
            rw (set_outside w.children n (shown (children_of w.children n)) e, empty) (omega arith)
        | inr (ks, e) ↦
            let found = children_of_eq w.children n ks e in
            let sums = length-visible reads_zero nodes ks in
            rw found (omega (arith, sums, total-set w.children n ks (shown ks) e))
      ])

  visible_whole : (ks : List ℕ) → hidden_count reads_zero nodes ks ≡ 0 → shown ks ≡ ks
  visible_whole [] h = refl
  visible_whole (c ∷ ks) h = ground (arith, visible_whole ks)

  -- A round that counts nothing changes nothing.
  removed-round : (n : ℕ) (w : Walk) → (round n w).removed ≡ 0 → w.removed ≡ 0
  removed-round n w z =
      omega (arith, ap (λ v. v.removed) (visit_children_lem reads_zero nodes n w), z)

  untouched-round : (n : ℕ) (w : Walk) → (round n w).removed ≡ 0 → (round n w).children ≡ w.children
  unfolding children_of
  untouched-round n w z =
      let ks = children_of w.children n in
      let none_hidden : hidden_count reads_zero nodes ks ≡ 0 =
        omega (arith, ap (λ v. v.removed) (visit_children_lem reads_zero nodes n w), z) in
      ap (λ v. v.children) (visit_children_lem reads_zero nodes n w)
      ∙ ap (set w.children n) (visible_whole ks none_hidden)
      ∙ elim (Option-cases (get_elem? w.children n)) [
        | inl e ↦ set_outside w.children n ks e
        | inr (js, e) ↦
            set_same w.children n ks (e ∙ ap some (sym (children_of_eq w.children n js e)))
      ]

  -- The children of the node that a round is for, and of the others.
  round_self :
      (n : ℕ) (w : Walk) → children_of (round n w).children n ≡ shown (children_of w.children n)
  round_self n w =
      rw (visit_children_lem reads_zero nodes n w)
        (children_of-set_self w.children n _ (λ e. rw e refl))

  round-other :
      (n m : ℕ) (w : Walk) → n ≢ m → children_of (round n w).children m ≡ children_of w.children m
  round-other n m w ne =
      rw (visit_children_lem reads_zero nodes n w) (children_of-set_ne w.children n m _ ne)

  pub round-stack :
      (n : ℕ) (w : Walk) → (round n w).stack ≡ push_all (shown (children_of w.children n)) w.stack
  round-stack n w = rw (visit_children_lem reads_zero nodes n w) refl

  abbrev pub popped : Walk → List ℕ → Walk
  popped w rest = record w { stack = rest }

  -- A way down from the node that a round is for ends there or goes on through the new stack.
  spread :
      (kss : List (List ℕ)) (n m : ℕ) (w : Walk)
      → shown (children_of w.children n) ≡ shown (children_of kss n)
      → Below kss n m
      → (n ≡ m) ⊎ ((s : ℕ) × Memᴰ s (round n w).stack × Below kss s m)
  spread kss n m w e Below.here = inl refl
  spread kss n m w e (Below.down {c = c} k b) =
      inr (c, rw (round-stack n w, e) (push_all-left (shown (children_of kss n)) w.stack k), b)

  done-round :
      (kss : List (List ℕ)) (root n m : ℕ) (w : Walk) (rest : List ℕ)
      → w.stack ≡ n ∷ rest
      → Inv kss root w
      → Below kss root m
      → ((s : ℕ) × Memᴰ s (round n (popped w rest)).stack × Below kss s m)
        ⊎ (children_of (round n (popped w rest)).children m ≡ shown (children_of kss m))
  done-round kss root n m w rest e inv b =
      let w' = popped w rest in
      let finished : children_of (round n w').children n ≡ shown (children_of kss n) =
        round_self n w' ∙ inv.kept n in
      let at_n : n ≡ m → children_of (round n w').children m ≡ shown (children_of kss m) = λ p.
        subst (λ i. children_of (round n w').children i ≡ shown (children_of kss i)) p finished in
      elim (inv.done m b) [
        | inr before ↦ elim (Bool-cases (n == m)) [
          | inl t ↦ inr (at_n ((==_iff n m).0 t))
          | inr f ↦ inr (round-other n m w' (λ p. ground arith) ∙ before)
        ]
        | inl (s, k, below) ↦ elim (Memᴰ.cases_cons (subst (Memᴰ s) e k)) [
          | inl same ↦
              elim (spread kss n m w' (inv.kept n) (subst (λ i. Below kss i m) same below)) [
                | inl p ↦ inr (at_n p)
                | inr ahead ↦ inl ahead
              ]
          | inr waiting ↦ inl (
            s,
            rw (round-stack n w') (push_all-right (shown (children_of w.children n)) rest waiting),
            below,
          )
        ]
      ]

  kept-round :
      (kss : List (List ℕ)) (root n m : ℕ) (w : Walk) (rest : List ℕ)
      → Inv kss root w
      → shown (children_of (round n (popped w rest)).children m) ≡ shown (children_of kss m)
  kept-round kss root n m w rest inv = elim (Bool-cases (n == m)) [
    | inl t ↦
        subst
          (λ i.
            shown (children_of (round n (popped w rest)).children i) ≡ shown (children_of kss i))
          ((==_iff n m).0 t)
          (ap shown (round_self n (popped w rest))
            ∙ visible_idem reads_zero nodes (children_of w.children n)
            ∙ inv.kept n)
    | inr f ↦ ap shown (round-other n m (popped w rest) (λ p. ground arith)) ∙ inv.kept m
  ]

  pub Inv-round :
      (kss : List (List ℕ)) (root n : ℕ) (w : Walk) (rest : List ℕ)
      → w.stack ≡ n ∷ rest
      → Inv kss root w
      → Inv kss root (round n (popped w rest))
  Inv-round kss root n w rest e inv = record {
    kept = λ m. kept-round kss root n m w rest inv;
    counted = counted-round n (popped w rest) ∙ inv.counted;
    untouched = λ z.
        untouched-round n (popped w rest) z ∙ inv.untouched (removed-round n (popped w rest) z);
    done = λ m b. done-round kss root n m w rest e inv b;
  }
