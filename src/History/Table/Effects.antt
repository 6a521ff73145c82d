-- ===== src/History/Table/Effects.antt =====
-- Each way to file a record has the effect that Append states.
use mcp_searxng_relay.Base.{
  ltb→lt, ℕ, suc, ◌≡◌, ◌≢◌, refl, sym, ap, ◌∙◌, inl, inr, arith, true, false, none, some, [], ◌∷◌,
  ◌++◌, Text, length, get_elem?, set, get_elem?-set_self, get_elem?-set_ne, get_elem?-append_left,
  get_elem?-concat_last, get_elem?-lt, length-set, length-append, ltb, Option-cases,
}
use mcp_searxng_relay.Base.Dict.{
  lookup, insert, delete, lookup-insert_self, lookup-insert_ne, lookup-delete_ne,
  lookup-delete_self,
}
use mcp_searxng_relay.History.Record.{FetchRecord, citable_url, merge_record}
use mcp_searxng_relay.History.Record.Merge.{merge_record-citable, merge_record-seq}
use mcp_searxng_relay.History.Table.{FetchHistory, capacity}
use mcp_searxng_relay.History.Table.Valid.{IsValid, merge-Filing, push-Filing}
use mcp_searxng_relay.History.Table.Append.{
  at_slot, source, filed_over, stamped, kept, Appended, merged, pushed,
}

module _ (fetched : FetchRecord) (h : FetchHistory) (v : IsValid h) where
  abbrev pub key : Text
  key = citable_url (stamped h fetched)

  -- A write to a slot changes the source of no address that leads to another slot.
  source-set :
      (o : ℕ) (q : FetchRecord) (j : Text)
      → ((i : ℕ) → lookup j h.index ≡ some i → o ≢ i)
      → at_slot (set h.entries o q) (lookup j h.index) ≡ source h j
  source-set o q j apart = elim (Option-cases (lookup j h.index)) [
    | inl e ↦ rw e
    | inr (i, e) ↦ rw e (get_elem?-set_ne h.entries o i q (apart i e))
  ]

  pub same_capacity : capacity (capacity h.cap) ≡ capacity h.cap
  same_capacity = ground arith

  key_apart :
      (j : Text) (o i : ℕ) (k : Text)
      → lookup k h.index ≡ some o
      → k ≢ j
      → lookup j h.index ≡ some i
      → o ≢ i
  key_apart j o i k at_o ne at_i e =
      let (p, at_p, p_url) = v.filing.indexed k o at_o in
      let (q, at_q, q_url) = v.filing.indexed j i at_i in
      let same : p ≡ q = cc (at_p, at_q, ap (get_elem? h.entries) e) in
      ne (sym p_url ∙ ap citable_url same ∙ q_url)

  pub merged-Appended :
      (idx : ℕ) (held : FetchRecord)
      → lookup key h.index ≡ some idx
      → get_elem? h.entries idx ≡ some held
      → Appended h fetched ((suc h.total, false), merged h idx held (stamped h fetched))
  unfolding citable_url
  merged-Appended idx held e at_idx =
      let r = stamped h fetched in
      let m = merge_record held r in
      record {
        numbered = refl;
        total = refl;
        filed =
            ap (at_slot (set h.entries idx m)) e
            ∙ get_elem?-set_self h.entries idx m (get_elem?-lt h.entries idx held at_idx)
            ∙ ap (λ o. some (filed_over o r)) (sym (ap (at_slot h.entries) e ∙ at_idx));
        effect = kept (λ j ne. source-set idx m j (λ i at_i. key_apart j idx i key e ne at_i)) refl;
        valid = record {
          filing =
              merge-Filing h.entries h.index h.total v.filing m (merge_record-seq held r) idx
                (ap (λ k. lookup k h.index) (merge_record-citable held r) ∙ e);
          bounded = omega (arith, length-set h.entries idx m, v.bounded, same_capacity);
        };
      }

  pushed-others :
      (n : ℕ) (r : FetchRecord) (j : Text)
      → key ≢ j
      → at_slot (h.entries ++ r ∷ []) (lookup j (insert key n h.index)) ≡ source h j
  pushed-others n r j ne =
      rw (lookup-insert_ne key j n h.index ne) (elim (Option-cases (lookup j h.index)) [
        | inl e ↦ rw e
        | inr (i, e) ↦
            let (q, at_q, q_url) = v.filing.indexed j i e in
            rw e (get_elem?-append_left h.entries (r ∷ []) i (get_elem?-lt h.entries i q at_q))
      ])

  pub pushed-Appended :
      lookup key h.index ≡ none
      → ltb (length h.entries) (capacity h.cap) ≡ true
      → Appended h fetched ((suc h.total, false), pushed h (stamped h fetched))
  unfolding citable_url
  pushed-Appended e room =
      let r = stamped h fetched in
      record {
        numbered = refl;
        total = refl;
        filed =
            ap (at_slot (h.entries ++ r ∷ [])) (lookup-insert_self key (length h.entries) h.index)
            ∙ get_elem?-concat_last h.entries r
            ∙ ap (λ o. some (filed_over o r)) (sym (ap (at_slot h.entries) e));
        effect = kept (λ j ne. pushed-others (length h.entries) r j ne) refl;
        valid = record {
          filing = push-Filing h.entries h.index h.total v.filing r refl e;
          bounded = omega (
            arith,
            length-append h.entries (r ∷ []),
            same_capacity,
            ltb→lt (length h.entries) (capacity h.cap) room,
          );
        };
      }

  -- An entry and the address that it is cited by lead to one another.
  pub source-entry :
      (i : ℕ) (q : FetchRecord) → get_elem? h.entries i ≡ some q → source h (citable_url q) ≡ some q
  source-entry i q at_i = ap (at_slot h.entries) (v.filing.filed i q at_i) ∙ at_i

  pub entry-source :
      (j : Text) (q : FetchRecord)
      → source h j ≡ some q
      → (i : ℕ) × (lookup j h.index ≡ some i) × (get_elem? h.entries i ≡ some q)
  entry-source j q e = elim (Option-cases (lookup j h.index)) [
    | inl gone ↦ absurd (cc (ap (at_slot h.entries) gone))
    | inr (i, at_i) ↦ (i, at_i, sym (ap (at_slot h.entries) at_i) ∙ e)
  ]

  pub replaced-others :
      (o : ℕ) (old r : FetchRecord) (j : Text)
      → get_elem? h.entries o ≡ some old
      → key ≢ j
      → citable_url old ≢ j
      → at_slot (set h.entries o r) (lookup j (insert key o (delete (citable_url old) h.index)))
        ≡ source h j
  replaced-others o old r j at_o ne apart =
      rw
        (
          lookup-insert_ne key j o (delete (citable_url old) h.index) ne,
          lookup-delete_ne (citable_url old) j h.index apart,
        )
        (source-set o r j
          (λ i at_i. key_apart j o i (citable_url old) (v.filing.filed o old at_o) apart at_i))

  pub replaced-gone :
      (o : ℕ) (old r : FetchRecord)
      → get_elem? h.entries o ≡ some old
      → lookup key h.index ≡ none
      → at_slot
          (set h.entries o r)
          (lookup (citable_url old) (insert key o (delete (citable_url old) h.index)))
        ≡ none
  replaced-gone o old r at_o absent =
      let known = v.filing.filed o old at_o in
      let ne : key ≢ citable_url old = λ e. cc (ap (λ k. lookup k h.index) e) in
      rw (
        lookup-insert_ne key (citable_url old) o (delete (citable_url old) h.index) ne,
        lookup-delete_self (citable_url old) h.index,
      )
