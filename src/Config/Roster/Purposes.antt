-- ===== src/Config/Roster/Purposes.antt =====
-- What one more entry changes in the description of a roster.
use mcp_searxng_relay.Base.{
  ℕ, zero, suc, ◌≡◌, refl, ap, inl, inr, true, false, List, [], ◌∷◌, ◌++◌, arith, Text, text_eq,
  text_eq_refl, text_eq-cases, if◌then◌else◌, All, Bool-cases,
}
use mcp_searxng_relay.RateLimit.Limiter.{member}
use mcp_searxng_relay.Config.Roster.{is_empty, EngineDescriptor, set_purpose}
use mcp_searxng_relay.Config.Roster.Described.{
  names, new_names, last_purpose, described, brought_up,
}
use mcp_searxng_relay.Config.Roster.Places.{At, member-append, text_eq-false, member_rest}

-- An entry whose name is not in the roster changes no purpose in it.
pub brought_up_other :
    (e : EngineDescriptor) (es r : List EngineDescriptor)
    → member e.name (names r) ≡ false
    → brought_up (e ∷ es) r ≡ brought_up es r
brought_up_other e es [] h = refl
brought_up_other e es (d ∷ r) h =
    rw
      (
        text_eq-false e.name d.name (names r) h,
        brought_up_other e es r (member_rest e.name d.name (names r) h),
      )
      refl

-- One whose name is in the roster changes the purpose at its place.
pub brought_up_own :
    (e : EngineDescriptor) (es r : List EngineDescriptor) (i : ℕ)
    → At i e.name (names r)
    → brought_up (e ∷ es) r
      ≡ brought_up es (if is_empty e.purpose then r else set_purpose i e.purpose r)
brought_up_own e es [] i h = elim h [ ]
brought_up_own e es (d ∷ r) zero (same, others) =
    let hit : text_eq d.name e.name ≡ true = rw same (text_eq_refl e.name) in
    elim (Bool-cases (is_empty e.purpose)) [
      | inl b ↦ rw (hit, b, brought_up_other e es r others) refl
      | inr b ↦ rw (hit, b, brought_up_other e es r others) refl
    ]
brought_up_own e es (d ∷ r) (suc i) (other, h) = elim (Bool-cases (is_empty e.purpose)) [
  | inl b ↦ rw (other, brought_up_own e es r i h, b) refl
  | inr b ↦ rw (other, brought_up_own e es r i h, b) refl
]

pub brought_up-append :
    (es r : List EngineDescriptor) (e : EngineDescriptor)
    → brought_up es (r ++ e ∷ [])
      ≡ brought_up es r ++ record e { purpose = last_purpose e.purpose e.name es } ∷ []
brought_up-append es [] e = refl
brought_up-append es (d ∷ r) e =
    ap (λ s. record { name = d.name; purpose = last_purpose d.purpose d.name es } ∷ s)
      (brought_up-append es r e)

pub All-earlier :
    (seen : List Text) (k : Text) (ns : List Text)
    → All (λ n. member n (seen ++ k ∷ []) ≡ false) ns
    → All (λ n. member n seen ≡ false) ns
All-earlier seen k [] a = _
All-earlier seen k (n ∷ ns) (h, a) =
    let e = member-append n seen (k ∷ []) in (ground (arith, e, h), All-earlier seen k ns a)

-- New names are not among those seen.
pub new_names_fresh :
    (seen : List Text) (es : List EngineDescriptor)
    → All (λ n. member n seen ≡ false) (new_names seen es)
new_names_fresh seen [] = _
new_names_fresh seen (e ∷ es) = elim (Bool-cases (member e.name seen)) [
  | inl b ↦ rw b (new_names_fresh seen es)
  | inr b ↦ rw b (b, All-earlier seen e.name _ (new_names_fresh (seen ++ e.name ∷ []) es))
]

pub described_other :
    (e : EngineDescriptor) (es : List EngineDescriptor) (seen ns : List Text)
    → member e.name seen ≡ true
    → All (λ n. member n seen ≡ false) ns
    → described (e ∷ es) ns ≡ described es ns
described_other e es seen [] h a = refl
described_other e es seen (n ∷ ns) h (f, a) = elim (text_eq-cases n e.name) [
  | inl (_, p) ↦ cc (f, h, ap (λ k. member k seen) p)
  | inr (g, _) ↦ rw (g, described_other e es seen ns h a) refl
]
