-- ===== src/History/Table/Valid.antt =====
-- The invariant of the table: the index and the entries name each other, sequence numbers are
-- distinct and never ahead of the count, and the capacity is kept.
use native.Mathlib.Decide.{ℕ_discrete as dec_eq}
use mcp_searxng_relay.Base.{
  subst, ℕ, suc, ◌≤◌, ◌≡◌, ◌≢◌, sym, ap, ◌∙◌, inl, inr, arith, none, some, List, [], ◌∷◌, ◌++◌,
  Text, length, get_elem?, set, get_elem?-set_cases, get_elem?-set_self, get_elem?-set_ne,
  get_elem?-concat_cases, get_elem?-append_left, get_elem?-concat_last, get_elem?-lt,
}
use mcp_searxng_relay.Base.Dict.{
  lookup, insert, delete, lookup-insert_self, lookup-insert_ne, lookup-delete_ne,
  lookup-insert_cases, lookup-delete_cases,
}
use mcp_searxng_relay.History.Record.{FetchRecord, citable_url}
use mcp_searxng_relay.History.Table.{FetchHistory, capacity}

pub record Filing (entries : List FetchRecord) (index : List (Text × ℕ)) (total : ℕ) : Type 0 where
  -- The index leads each of its addresses to an entry that is cited by it,
  pub indexed :
      (k : Text) (i : ℕ)
      → lookup k index ≡ some i
      → (r : FetchRecord) × (get_elem? entries i ≡ some r) × (citable_url r ≡ k)
  -- and every entry is found so.
  pub filed :
      (i : ℕ) (r : FetchRecord)
      → get_elem? entries i ≡ some r
      → lookup (citable_url r) index ≡ some i
  pub numbered : (i : ℕ) (r : FetchRecord) → get_elem? entries i ≡ some r → r.seq ≤ total
  pub distinct :
      (i j : ℕ) (r q : FetchRecord)
      → get_elem? entries i ≡ some r
      → get_elem? entries j ≡ some q
      → r.seq ≡ q.seq
      → i ≡ j

pub record IsValid (h : FetchHistory) : Type 0 where
  pub filing : Filing h.entries h.index h.total
  pub bounded : length h.entries ≤ capacity h.cap

module _ (entries : List FetchRecord) (index : List (Text × ℕ)) (total : ℕ)
    (f : Filing entries index total) (r : FetchRecord) (fresh : r.seq ≡ suc total) where
  -- A write of a record with a new number keeps the numbers apart.
  set-numbered :
      (o i : ℕ) (q : FetchRecord) → get_elem? (set entries o r) i ≡ some q → q.seq ≤ suc total
  set-numbered o i q h = elim (get_elem?-set_cases entries o r i q h) [
    | inl (_, e) ↦ omega (arith, ap (λ (x : FetchRecord). x.seq) e)
    | inr (_, old) ↦ omega (arith, f.numbered i q old)
  ]

  set-distinct :
      (o i j : ℕ) (p q : FetchRecord)
      → get_elem? (set entries o r) i ≡ some p
      → get_elem? (set entries o r) j ≡ some q
      → p.seq ≡ q.seq
      → i ≡ j
  set-distinct o i j p q hp hq e = elim (get_elem?-set_cases entries o r i p hp) [
    | inl (io, pr) ↦ elim (get_elem?-set_cases entries o r j q hq) [
      | inl (jo, _) ↦ io ∙ sym jo
      | inr (_, old) ↦
          absurd (omega (arith, f.numbered j q old, ap (λ (x : FetchRecord). x.seq) pr))
    ]
    | inr (_, p_old) ↦ elim (get_elem?-set_cases entries o r j q hq) [
      | inl (_, qr) ↦
          absurd (omega (arith, f.numbered i p p_old, ap (λ (x : FetchRecord). x.seq) qr))
      | inr (_, q_old) ↦ f.distinct i j p q p_old q_old e
    ]
  ]

  -- A repeat fetch, merged into its slot.
  pub merge-Filing :
      (o : ℕ) → lookup (citable_url r) index ≡ some o → Filing (set entries o r) index (suc total)
  merge-Filing o at_o =
      let (held, there, same_url) = f.indexed (citable_url r) o at_o in
      record {
        indexed = λ k i h. elim (dec_eq i o) [
          | yes io ↦
              let (q, at_q, q_url) = f.indexed k i h in
              (
                r,
                subst (λ j. get_elem? (set entries o r) j ≡ some r) (sym io)
                    (get_elem?-set_self entries o r (get_elem?-lt entries o held there)),
                cc,
              )
          | no apart ↦
              let (q, at_q, q_url) = f.indexed k i h in
              (q, get_elem?-set_ne entries o i r (λ e. apart (sym e)) ∙ at_q, q_url)
        ];
        filed = λ i q h. elim (get_elem?-set_cases entries o r i q h) [
          | inl (io, e) ↦ cc
          | inr (_, old) ↦ f.filed i q old
        ];
        numbered = set-numbered o;
        distinct = set-distinct o;
      }

  pub push-Filing :
      lookup (citable_url r) index ≡ none
      → Filing (entries ++ r ∷ []) (insert (citable_url r) (length entries) index) (suc total)
  push-Filing absent = record {
    indexed = λ k i h. elim (lookup-insert_cases (citable_url r) k (length entries) i index h) [
      | inl (e, ei) ↦ (
        r,
        subst (λ j. get_elem? (entries ++ r ∷ []) j ≡ some r) ei (get_elem?-concat_last entries r),
        e,
      )
      | inr (_, old) ↦
          let (q, at_q, q_url) = f.indexed k i old in
          (
            q,
            get_elem?-append_left entries (r ∷ []) i (get_elem?-lt entries i q at_q) ∙ at_q,
            q_url,
          )
    ];
    filed = λ i q h. elim (get_elem?-concat_cases entries r i q h) [
      | inl (ei, e) ↦ cc (lookup-insert_self (citable_url r) (length entries) index)
      | inr old ↦
          let known = f.filed i q old in
          let apart : citable_url r ≢ citable_url q = λ e. cc (ap (λ k. lookup k index) e) in
          lookup-insert_ne (citable_url r) (citable_url q) (length entries) index apart ∙ known
    ];
    numbered = λ i q h. elim (get_elem?-concat_cases entries r i q h) [
      | inl (_, e) ↦ omega (arith, ap (λ (x : FetchRecord). x.seq) e)
      | inr old ↦ omega (arith, f.numbered i q old)
    ];
    distinct = λ i j p q hp hq e. elim (get_elem?-concat_cases entries r i p hp) [
      | inl (io, pr) ↦ elim (get_elem?-concat_cases entries r j q hq) [
        | inl (jo, _) ↦ io ∙ sym jo
        | inr old ↦ absurd (omega (arith, f.numbered j q old, ap (λ (x : FetchRecord). x.seq) pr))
      ]
      | inr p_old ↦ elim (get_elem?-concat_cases entries r j q hq) [
        | inl (_, qr) ↦
            absurd (omega (arith, f.numbered i p p_old, ap (λ (x : FetchRecord). x.seq) qr))
        | inr q_old ↦ f.distinct i j p q p_old q_old e
      ]
    ];
  }

  pub replace-Filing :
      (o : ℕ) (old : FetchRecord)
      → get_elem? entries o ≡ some old
      → lookup (citable_url r) index ≡ none
      → Filing
          (set entries o r)
          (insert (citable_url r) o (delete (citable_url old) index))
          (suc total)
  replace-Filing o old at_o absent =
      let key = citable_url r in
      let gone = citable_url old in
      record {
        indexed = λ k i h. elim (lookup-insert_cases key k o i (delete gone index) h) [
          | inl (e, ei) ↦ (
            r,
            subst (λ j. get_elem? (set entries o r) j ≡ some r) ei
                (get_elem?-set_self entries o r (get_elem?-lt entries o old at_o)),
            e,
          )
          | inr (_, left) ↦
              let (apart, known) = lookup-delete_cases gone k i index left in
              let (q, at_q, q_url) = f.indexed k i known in
              let elsewhere : o ≢ i = λ e. apart (cc (ap (get_elem? entries) e)) in
              (q, get_elem?-set_ne entries o i r elsewhere ∙ at_q, q_url)
        ];
        filed = λ i q h. elim (get_elem?-set_cases entries o r i q h) [
          | inl (ei, e) ↦ cc (lookup-insert_self key o (delete gone index))
          | inr (elsewhere, kept) ↦
              let known = f.filed i q kept in
              let new : key ≢ citable_url q = λ e. cc (ap (λ k. lookup k index) e) in
              let stays : gone ≢ citable_url q =
                λ e. elsewhere (cc (ap (λ k. lookup k index) e, f.filed o old at_o)) in
              lookup-insert_ne key (citable_url q) o (delete gone index) new
              ∙ lookup-delete_ne gone (citable_url q) index stays
              ∙ known
        ];
        numbered = set-numbered o;
        distinct = set-distinct o;
      }
