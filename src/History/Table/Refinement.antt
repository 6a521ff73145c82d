-- ===== src/History/Table/Refinement.antt =====
-- appendRecord keeps the table valid and refines an operation on the map from addresses to sources.
use mcp_searxng_relay.Base.{
  ℕ, suc, ◌<◌, ◌≡◌, refl, sym, ap, ◌∙◌, inl, inr, arith, true, false, none, some, length, set,
  get_elem?-set_self, get_elem?-lt, length-set, ltb, Bool-cases, Option-cases,
}
use mcp_searxng_relay.Base.Dict.{lookup, delete, lookup-insert_self}
use mcp_searxng_relay.History.Record.{FetchRecord, citable_url}
use mcp_searxng_relay.History.Table.{
  FetchHistory, capacity, oldest_slot, new_fetch_history, append_record,
}
use mcp_searxng_relay.History.Table.Valid.{IsValid, replace-Filing}
use mcp_searxng_relay.History.Table.Oldest.{Least, oldest_slot-Least}
use mcp_searxng_relay.History.Table.Append.{
  at_slot, filed_over, stamped, dropped, Appended, replaced, append_record-merged,
  append_record-pushed, append_record-replaced,
}
use mcp_searxng_relay.History.Table.Effects.{
  key, source-entry, entry-source, replaced-others, replaced-gone, merged-Appended, pushed-Appended,
  same_capacity,
}

pub new_fetch_history-IsValid : (n : ℕ) → IsValid (new_fetch_history n)
unfolding new_fetch_history lookup
new_fetch_history-IsValid n = record {
  filing = record {
    indexed = λ k i h. cc;
    filed = λ i r h. cc;
    numbered = λ i r h. cc;
    distinct = λ i j r q h. cc;
  };
  bounded = omega arith;
}

module _ (fetched : FetchRecord) (h : FetchHistory) (v : IsValid h) where
  full_length : ltb (length h.entries) (capacity h.cap) ≡ false → length h.entries ≡ capacity h.cap
  full_length full = ground (arith, v.bounded)

  replaced-Appended :
      (least : Least h.entries (oldest_slot h.entries))
      → lookup (key fetched h v) h.index ≡ none
      → ltb (length h.entries) (capacity h.cap) ≡ false
      → Appended h fetched
          ((suc h.total, true), replaced h (oldest_slot h.entries) least.victim (stamped h fetched))
  unfolding citable_url
  replaced-Appended least e full =
      let r = stamped h fetched in
      let o = oldest_slot h.entries in
      let old = least.victim in
      let in_range = get_elem?-lt h.entries o old least.held in
      record {
        numbered = refl;
        total = refl;
        filed =
            ap (at_slot (set h.entries o r))
              (lookup-insert_self (key fetched h v) o (delete (citable_url old) h.index))
            ∙ get_elem?-set_self h.entries o r in_range
            ∙ ap (λ s. some (filed_over s r)) (sym (ap (at_slot h.entries) e));
        effect =
            dropped old (source-entry fetched h v o old least.held)
              (λ j q at_j.
                let (i, _, at_i) = entry-source fetched h v j q at_j in least.least i q at_i)
              (replaced-gone fetched h v o old r least.held e)
              (λ j ne apart. replaced-others fetched h v o old r j least.held ne apart)
              (full_length full) (ap (at_slot h.entries) e) refl;
        valid = record {
          filing = replace-Filing h.entries h.index h.total v.filing r refl o old least.held e;
          bounded = omega (arith, length-set h.entries o r, v.bounded, same_capacity fetched h v);
        };
      }

  nonempty : ltb (length h.entries) (capacity h.cap) ≡ false → 0 < length h.entries
  nonempty full = ground (arith, v.bounded)

  -- Filing a fetch in a valid table. It takes the next sequence number. Under its address the
  -- table then holds the fetch, merged into the record held there if there was one. Every other
  -- source stays as it was; only where the address is new and the table full, one source is
  -- dropped and counted, and it is one with the least sequence number of all. The table stays
  -- valid: its index and its entries agree, and it is within its capacity.
  pub append_record-Appended : Appended h fetched (append_record fetched h)
  append_record-Appended = elim (Option-cases (lookup (citable_url (stamped h fetched)) h.index)) [
    | inr (idx, e) ↦
        let (held, at_idx, _) = v.filing.indexed (citable_url (stamped h fetched)) idx e in
        rw (append_record-merged fetched h idx held e at_idx)
          (merged-Appended fetched h v idx held e at_idx)
    | inl e ↦ elim (Bool-cases (ltb (length h.entries) (capacity h.cap))) [
      | inl room ↦ rw (append_record-pushed fetched h e room) (pushed-Appended fetched h v e room)
      | inr full ↦
          let least = oldest_slot-Least h.entries (nonempty full) in
          rw (append_record-replaced fetched h least.victim e full least.held)
            (replaced-Appended least e full)
    ]
  ]
