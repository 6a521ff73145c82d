-- ===== src/History/Table/Oldest.antt =====
-- The scan of evictLeastRecent finds an entry with the least sequence number.
use mcp_searxng_relay.Base.{
  ℕ, zero, suc, ◌≤◌, ◌<◌, ◌≡◌, refl, ◌∙◌, inl, inr, arith, some, List, [], ◌∷◌, ◌++◌, append_assoc,
  append-nil, length, get_elem?, get_elem?-concat_cases, get_elem?-append_left,
  get_elem?-concat_last, length-append, ltb, Bool-cases, subst₂, get_elem?-lt,
}
use mcp_searxng_relay.History.Record.{FetchRecord}
use mcp_searxng_relay.History.Table.{oldest_from, oldest_slot}

-- The slot holds an entry, and none is older.
pub record Least (entries : List FetchRecord) (slot : ℕ) : Type 0 where
  pub victim : FetchRecord
  pub held : get_elem? entries slot ≡ some victim
  pub least : (i : ℕ) (q : FetchRecord) → get_elem? entries i ≡ some q → victim.seq ≤ q.seq

oldest_from-Least :
    (rs pre : List FetchRecord) (slot seq : ℕ) (r : FetchRecord)
    → get_elem? pre slot ≡ some r
    → r.seq ≡ seq
    → ((i : ℕ) (q : FetchRecord) → get_elem? pre i ≡ some q → seq ≤ q.seq)
    → Least (pre ++ rs) (oldest_from rs (length pre) slot seq)
unfolding oldest_from
oldest_from-Least [] pre slot seq r at_slot e least =
    rw append-nil
      (record { victim = r; held = at_slot; least = λ i q h. omega (arith, e, least i q h) })
oldest_from-Least (x ∷ rs) pre slot seq r at_slot e least =
    let pre' = pre ++ x ∷ [] in
    let regroup : pre' ++ rs ≡ pre ++ x ∷ rs = append_assoc pre (x ∷ []) rs in
    let count : length pre' ≡ suc (length pre) = omega (arith, length-append pre (x ∷ [])) in
    elim (Bool-cases (ltb x.seq seq)) [
      | inl lower ↦
          rw (lower, oldest_from)
            (subst₂ (λ l n. Least l (oldest_from rs n (length pre) x.seq)) regroup count
              (oldest_from-Least rs pre' (length pre) x.seq x (get_elem?-concat_last pre x) refl
                λ i q h. elim (get_elem?-concat_cases pre x i q h) [
                  | inl (_, same) ↦ ground arith
                  | inr old ↦ ground (arith, least i q old)
                ]))
      | inr stays ↦
          rw (stays, oldest_from)
            (subst₂ (λ l n. Least l (oldest_from rs n slot seq)) regroup count
              (oldest_from-Least rs pre' slot seq r
                (get_elem?-append_left pre (x ∷ []) slot (get_elem?-lt pre slot r at_slot)
                  ∙ at_slot)
                e
                λ i q h. elim (get_elem?-concat_cases pre x i q h) [
                  | inl (_, same) ↦ ground arith
                  | inr old ↦ ground (arith, least i q old)
                ]))
    ]

pub oldest_slot-Least :
    (entries : List FetchRecord) → 0 < length entries → Least entries (oldest_slot entries)
unfolding oldest_slot
oldest_slot-Least [] h = absurd (omega arith)
oldest_slot-Least (r ∷ rs) h = oldest_from-Least rs (r ∷ []) 0 r.seq r refl refl (alone r)
  where
    alone :
        (r : FetchRecord) (i : ℕ) (q : FetchRecord) → get_elem? (r ∷ []) i ≡ some q → r.seq ≤ q.seq
    alone r zero q h = ground arith
    alone r (suc i) q h = cc
