-- ===== src/Config/Roster/Step.antt =====
-- One engine of one layer of mergeRosters.
use mcp_searxng_relay.Base.{
  ℕ, ◌≡◌, refl, sym, ap, subst, ◌∙◌, inl, inr, true, false, not, ◌&&◌, none, some, List, [], ◌∷◌,
  ◌++◌, append_assoc, text_eq, text_eq_refl, text_eq-cases, if◌then◌else◌, length, Bool-cases,
  Option-cases,
}
use mcp_searxng_relay.Base.{List-cases, text_eq_ne}
use mcp_searxng_relay.Base.Dict.{
  lookup, insert, lookup-insert_cases, lookup-insert_self, lookup-insert_ne,
}
use mcp_searxng_relay.RateLimit.Limiter.{member}
use mcp_searxng_relay.Config.Roster.{is_empty, EngineDescriptor, Roster, set_purpose, merge_engine}
use mcp_searxng_relay.Config.Roster.Described.{
  names, new_names, last_purpose, described, brought_up,
}
use mcp_searxng_relay.Config.Roster.Places.{
  At, Indexed, names-append, names-set_purpose, member-append, At-member, At-append, At-last,
  length-names,
}
use mcp_searxng_relay.Config.Roster.Purposes.{
  brought_up_other, brought_up_own, brought_up-append, new_names_fresh, described_other,
}

pub merge_engine_nameless :
    (e : EngineDescriptor) (r : Roster) → is_empty e.name ≡ true → merge_engine e r ≡ r
unfolding merge_engine
merge_engine_nameless e r b = rw (merge_engine, b) refl

-- What is known of the roster after one named engine.
pub merge_engine_known :
    (e : EngineDescriptor) (r : Roster) (i : ℕ)
    → is_empty e.name ≡ false
    → lookup e.name r.index ≡ some i
    → (merge_engine e r).roster
      ≡ (if is_empty e.purpose then r.roster else set_purpose i e.purpose r.roster)
unfolding merge_engine
merge_engine_known e r i n h = elim (Bool-cases (is_empty e.purpose)) [
  | inl b ↦ rw (merge_engine, n, h, b) refl
  | inr b ↦ rw (merge_engine, n, h, b) refl
]

pub merge_engine_index :
    (e : EngineDescriptor) (r : Roster) (i : ℕ)
    → is_empty e.name ≡ false
    → lookup e.name r.index ≡ some i
    → (merge_engine e r).index ≡ r.index
unfolding merge_engine
merge_engine_index e r i n h = elim (Bool-cases (is_empty e.purpose)) [
  | inl b ↦ rw (merge_engine, n, h, b) refl
  | inr b ↦ rw (merge_engine, n, h, b) refl
]

pub names-merge_engine :
    (e : EngineDescriptor) (r : Roster) (i : ℕ)
    → is_empty e.name ≡ false
    → lookup e.name r.index ≡ some i
    → names (merge_engine e r).roster ≡ names r.roster
names-merge_engine e r i n h = elim (Bool-cases (is_empty e.purpose)) [
  | inl b ↦ rw (merge_engine_known e r i n h, b) refl
  | inr b ↦ rw (merge_engine_known e r i n h, b) (names-set_purpose i e.purpose r.roster)
]

pub merge_engine_new :
    (e : EngineDescriptor) (r : Roster)
    → is_empty e.name ≡ false
    → lookup e.name r.index ≡ none
    → merge_engine e r
      ≡ record { roster = r.roster ++ e ∷ []; index = insert e.name (length r.roster) r.index }
unfolding merge_engine
merge_engine_new e r n h = rw (merge_engine, n, h) refl

pub Indexed-new :
    (e : EngineDescriptor) (r : Roster)
    → Indexed r
    → lookup e.name r.index ≡ none
    → Indexed
        (record { roster = r.roster ++ e ∷ []; index = insert e.name (length r.roster) r.index })
Indexed-new e r ind h =
    let absent = ind.missing e.name h in
    record {
      places = λ name i found.
          rw (names-append r.roster (e ∷ []))
            (elim (lookup-insert_cases e.name name (length r.roster) i r.index found) [
              | inl (p, q) ↦
                  subst (λ k. At i k (names r.roster ++ e.name ∷ [])) p
                    (subst (λ j. At j e.name (names r.roster ++ e.name ∷ []))
                      (length-names r.roster ∙ q) (At-last e.name (names r.roster) absent))
              | inr (ne, old) ↦
                  At-append i name e.name (names r.roster) (text_eq_ne e.name name ne)
                    (ind.places name i old)
            ]);
      missing = λ name gone. elim (text_eq-cases e.name name) [
        | inl (_, p) ↦ cc (
          lookup-insert_self e.name (length r.roster) r.index,
          ap (λ k. lookup k (insert e.name (length r.roster) r.index)) p,
        )
        | inr (f, ne) ↦
            rw
              (
                names-append r.roster (e ∷ []),
                member-append name (names r.roster) (e.name ∷ []),
                f,
                ind.missing name
                    (sym (lookup-insert_ne e.name name (length r.roster) r.index ne) ∙ gone),
              )
              refl
      ];
    }

pub Indexed-merge_engine :
    (e : EngineDescriptor) (r : Roster)
    → is_empty e.name ≡ false
    → Indexed r
    → Indexed (merge_engine e r)
Indexed-merge_engine e r n ind = elim (Option-cases (lookup e.name r.index)) [
  | inl h ↦ rw (merge_engine_new e r n h) (Indexed-new e r ind h)
  | inr (i, h) ↦ record {
    places = rw (names-merge_engine e r i n h, merge_engine_index e r i n h) ind.places;
    missing = rw (names-merge_engine e r i n h, merge_engine_index e r i n h) ind.missing;
  }
]

pub own_purpose :
    (e : EngineDescriptor)
    → (if text_eq e.name e.name && not (is_empty e.purpose) then e.purpose else []) ≡ e.purpose
own_purpose e = elim (List-cases e.purpose) [
  | inl p ↦ rw (p, text_eq_refl e.name) refl
  | inr (c, t, p) ↦ rw (p, text_eq_refl e.name) refl
]

-- One named engine: what the roster is to become is the same before and after it.
pub merge_engine_step :
    (e : EngineDescriptor) (es : List EngineDescriptor) (r : Roster)
    → is_empty e.name ≡ false
    → Indexed r
    → brought_up es (merge_engine e r).roster
        ++ described es (new_names (names (merge_engine e r).roster) es)
      ≡ brought_up (e ∷ es) r.roster ++ described (e ∷ es) (new_names (names r.roster) (e ∷ es))
merge_engine_step e es r n ind = elim (Option-cases (lookup e.name r.index)) [
  | inl h ↦
      let absent = ind.missing e.name h in
      let present : member e.name (names r.roster ++ e.name ∷ []) ≡ true =
        rw (member-append e.name (names r.roster) (e.name ∷ []), absent, text_eq_refl e.name)
          refl in
      let fresh = new_names_fresh (names r.roster ++ e.name ∷ []) es in
      rw
        (
          merge_engine_new e r n h,
          absent,
          brought_up_other e es r.roster absent,
          brought_up-append es r.roster e,
          names-append r.roster (e ∷ []),
          described_other e es _ _ present fresh,
        )
        (rw
          (
            append_assoc (brought_up es r.roster)
                (record { name = e.name; purpose = last_purpose e.purpose e.name es } ∷ [])
                (described es (new_names (names r.roster ++ e.name ∷ []) es)),
            own_purpose e,
          )
          refl)
  | inr (i, h) ↦
      let at_i = ind.places e.name i h in
      let present = At-member i e.name (names r.roster) at_i in
      let fresh = new_names_fresh (names r.roster) es in
      rw
        (
          names-merge_engine e r i n h,
          present,
          brought_up_own e es r.roster i at_i,
          described_other e es _ _ present fresh,
          merge_engine_known e r i n h,
        )
        refl
]
