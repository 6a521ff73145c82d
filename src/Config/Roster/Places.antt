-- ===== src/Config/Roster/Places.antt =====
-- The places of the names in a roster, and the index that has them.
use mcp_searxng_relay.Base.{
  ℕ, zero, suc, ◌≡◌, refl, ap, true, false, ◌||◌, none, some, List, [], ◌∷◌, ◌++◌, arith, Text,
  text_eq, text_eq_refl, length,
}
use mcp_searxng_relay.Base.Dict.{lookup}
use mcp_searxng_relay.RateLimit.Limiter.{member}
use mcp_searxng_relay.Config.Roster.{EngineDescriptor, Roster, no_engines, set_purpose}
use mcp_searxng_relay.Config.Roster.Described.{names}

-- A name stands at one place of a list, and at no other.
abbrev pub At : ℕ → Text → List Text → Type 0
At i name [] = ⊥
At zero name (n ∷ ns) = (n ≡ name) × (member name ns ≡ false)
At (suc i) name (n ∷ ns) = (text_eq n name ≡ false) × At i name ns

-- The index has the place of just the names of the roster.
pub record Indexed (r : Roster) : Type 0 where
  pub places : (name : Text) (i : ℕ) → lookup name r.index ≡ some i → At i name (names r.roster)
  pub missing : (name : Text) → lookup name r.index ≡ none → member name (names r.roster) ≡ false

pub no_engines-Indexed : Indexed no_engines
unfolding lookup
no_engines-Indexed = record { places = λ name i h. cc; missing = λ name h. refl }

pub names-append : (r s : List EngineDescriptor) → names (r ++ s) ≡ names r ++ names s
names-append [] s = refl
names-append (e ∷ r) s = ap (λ n. e.name ∷ n) (names-append r s)

pub names-set_purpose :
    (i : ℕ) (p : Text) (r : List EngineDescriptor) → names (set_purpose i p r) ≡ names r
names-set_purpose i p [] = refl
names-set_purpose zero p (e ∷ r) = refl
names-set_purpose (suc i) p (e ∷ r) = ap (λ n. e.name ∷ n) (names-set_purpose i p r)

pub member-append :
    (k : Text) (ns ms : List Text) → member k (ns ++ ms) ≡ (member k ns || member k ms)
member-append k [] ms = refl
member-append k (n ∷ ns) ms = ground (arith, member-append k ns ms)

pub At-member : (i : ℕ) (name : Text) (ns : List Text) → At i name ns → member name ns ≡ true
At-member i name [] h = elim h [ ]
At-member zero name (n ∷ ns) (e, _) = rw (e, text_eq_refl name) refl
At-member (suc i) name (n ∷ ns) (e, h) = rw (e, At-member i name ns h) refl

pub At-append :
    (i : ℕ) (name new : Text) (ns : List Text)
    → text_eq new name ≡ false
    → At i name ns
    → At i name (ns ++ new ∷ [])
At-append i name new [] f h = elim h [ ]
At-append zero name new (n ∷ ns) f (e, h) = (e, rw (member-append name ns (new ∷ []), h, f) refl)
At-append (suc i) name new (n ∷ ns) f (e, h) = (e, At-append i name new ns f h)

pub text_eq-false : (k n : Text) (ns : List Text) → member k (n ∷ ns) ≡ false → text_eq n k ≡ false
text_eq-false k n ns h = ground arith

pub member_rest : (k n : Text) (ns : List Text) → member k (n ∷ ns) ≡ false → member k ns ≡ false
member_rest k n ns h = ground arith

pub At-last :
    (name : Text) (ns : List Text) → member name ns ≡ false → At (length ns) name (ns ++ name ∷ [])
At-last name [] h = (refl, refl)
At-last name (n ∷ ns) h = (text_eq-false name n ns h, At-last name ns (member_rest name n ns h))

pub length-names : (r : List EngineDescriptor) → length (names r) ≡ length r
length-names [] = refl
length-names (e ∷ r) = ap suc (length-names r)
