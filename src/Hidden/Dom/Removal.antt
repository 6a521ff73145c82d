-- ===== src/Hidden/Dom/Removal.antt =====
-- One round of the walk of removeHiddenNodes: what it does to the children of a node.
use mcp_searxng_relay.Base.{
  ap, set_outside, Option-cases, set_same, append_assoc, inr, set_twice, get_elem?-lt,
  get_elem?-set_self, inl, Bool-cases, some, get_elem?, set, ℕ, suc, ◌+◌, ◌≡◌, refl, Bool, true,
  List, [], ◌∷◌, ◌++◌, arith, Text, if◌then◌else◌, length,
}
use mcp_searxng_relay.Hidden.Dom.{
  remove_child, children_of, Walk, visit_children, Node, without, is_removed,
}

abbrev pub push_all : List ℕ → List ℕ → List ℕ
push_all [] stack = stack
push_all (c ∷ cs) stack = push_all cs (c ∷ stack)

pub children_of_eq :
    (children : List (List ℕ)) (n : ℕ) (ks : List ℕ)
    → get_elem? children n ≡ some ks
    → children_of children n ≡ ks
unfolding children_of
children_of_eq children n ks h = rw (h, children_of) refl

module _ (reads_zero : Text → Bool) (nodes : List Node) where
  abbrev pub gone : ℕ → Bool
  gone c = is_removed reads_zero nodes c

  -- The children that stay.
  abbrev pub visible : List ℕ → List ℕ
  visible [] = []
  visible (c ∷ cs) = let rest = visible cs in if gone c then rest else c ∷ rest

  -- The count of the others.
  abbrev pub hidden_count : List ℕ → ℕ
  hidden_count [] = 0
  hidden_count (c ∷ cs) = let rest = hidden_count cs in if gone c then suc rest else rest

  visible-append : (xs ys : List ℕ) → visible (xs ++ ys) ≡ visible xs ++ visible ys
  visible-append [] ys = refl
  visible-append (c ∷ xs) ys = ground (arith, visible-append xs ys)

  pub visible_idem : (xs : List ℕ) → visible (visible xs) ≡ visible xs
  visible_idem [] = refl
  visible_idem (c ∷ xs) = ground (arith, visible_idem xs)

  -- Removing a hidden child finds it behind the visible ones before it.
  without-visible :
      (c : ℕ) (xs ys : List ℕ) → gone c ≡ true → without c (visible xs ++ c ∷ ys) ≡ visible xs ++ ys
  without-visible c [] ys h = ground arith
  without-visible c (x ∷ xs) ys h = ground (arith, without-visible c xs ys h)

  pub length-visible : (xs : List ℕ) → length (visible xs) + hidden_count xs ≡ length xs
  length-visible [] = refl
  length-visible (c ∷ xs) = ground (arith, length-visible xs)

  -- The walk after the children `cs` of `n`, where `xs` come before them.
  after : ℕ → List ℕ → List ℕ → Walk → Walk
  after n xs cs w = record {
    children = set w.children n (visible xs ++ visible cs);
    removed = w.removed + hidden_count cs;
    stack = push_all (visible cs) w.stack;
  }

  visit_children-after :
      (n : ℕ) (cs xs : List ℕ) (w : Walk)
      → get_elem? w.children n ≡ some (visible xs ++ cs)
      → visit_children reads_zero nodes n cs w ≡ after n xs cs w
  unfolding visit_children after remove_child
  visit_children-after n [] xs w h =
      let no_more : w.removed + 0 ≡ w.removed = omega arith in
      rw (after, set_same w.children n (visible xs ++ []) h, no_more) refl
  visit_children-after n (c ∷ cs) xs w h = elim (Bool-cases (gone c)) [
    | inl e ↦
        let hit = children_of_eq w.children n (visible xs ++ c ∷ cs) h in
        let w' = record w {
          children = set w.children n (visible xs ++ cs);
          removed = w.removed + 1;
        } in
        let ih =
          visit_children-after n cs xs w'
            (get_elem?-set_self w.children n _ (get_elem?-lt w.children n _ h)) in
        rw
          (
            visit_children,
            e,
            hit,
            without-visible c xs cs e,
            ih,
            after,
            set_twice w.children n (visible xs ++ cs) (visible xs ++ visible cs),
          )
          (ap
            (λ r. record {
              children = set w.children n (visible xs ++ visible cs);
              removed = r;
              stack = push_all (visible cs) w.stack;
            })
            (omega arith))
    | inr e ↦
        let one : visible (xs ++ c ∷ []) ≡ visible xs ++ c ∷ [] =
          rw (visible-append xs (c ∷ []), e) refl in
        let w' = record w { stack = c ∷ w.stack } in
        let joined = append_assoc (visible xs) (c ∷ []) cs in
        let ih = visit_children-after n cs (xs ++ c ∷ []) w' (rw (one, joined) h) in
        rw (visit_children, e, ih, after, one)
          (rw (append_assoc (visible xs) (c ∷ []) (visible cs)) refl)
  ]

  -- One round of the outer loop, for a node that may also lie outside.
  pub visit_children_lem :
      (n : ℕ) (w : Walk)
      → let ks = children_of w.children n in
        visit_children reads_zero nodes n ks w ≡ record {
          children = set w.children n (visible ks);
          removed = w.removed + hidden_count ks;
          stack = push_all (visible ks) w.stack;
        }
  unfolding visit_children after
  visit_children_lem n w = elim (Option-cases (get_elem? w.children n)) [
    | inl e ↦
        let empty : children_of w.children n ≡ [] = rw (e, children_of) refl in
        let no_more : w.removed + 0 ≡ w.removed = omega arith in
        rw (empty, set_outside w.children n [] e, no_more) refl
    | inr (ks, e) ↦
        let found = children_of_eq w.children n ks e in rw found (visit_children-after n ks [] w e)
  ]
