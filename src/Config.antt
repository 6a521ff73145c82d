-- ===== src/Config.antt =====
-- The readers of environment variables in config.go: flags, numbers and lists (here), the engine
-- roster (Roster) and the bearer tokens (Tokens). The environment and the files are arguments.
pub mod Roster
pub mod Tokens
mod Tests
use mcp_searxng_relay.Base.{
  ℕ, zero, suc, ◌+◌, ◌-◌, ◌*◌, ◌≤◌, ◌<◌, min, max, ◌≡◌, refl, sym, ap, subst, ◌∙◌, ◌≢◌, ◌↔◌, ◌⊎◌,
  inl, inr, Bool, true, false, not, ◌&&◌, ◌||◌, Option, none, some, List, [], ◌∷◌, ◌++◌, map,
  append_assoc, append-nil, arith, Text, codes, text_eq, text_eq_iff, text_eq_refl, text_eq-cases,
  ltb, leb, ◌==◌, ==_iff, if◌then◌else◌, length, get_elem?, set, take, drop, length-append,
  length-set, length-take, length-drop, get_elem?-set_self, get_elem?-set_ne, get_elem?-lt, All,
  All-append, get_elem?-append_left, get_elem?-concat_last, get_elem?-set_cases,
  get_elem?-concat_cases, Bool-cases, Option-cases, is_some,
}
use mcp_searxng_relay.Base.Int.{ℤ, pos, negsuc}
use mcp_searxng_relay.GoLib.Strconv.{atoi}
use mcp_searxng_relay.Base.Int.{ℤ, pos, negsuc}
use mcp_searxng_relay.Base.Dict.{insert}
use mcp_searxng_relay.GoLib.Strings.{trim_space, to_lower, split}

unfoldable pub parse_bool : Text → Bool
parse_bool s =
    let v = to_lower (trim_space s) in
    text_eq v (codes "1")
    || text_eq v (codes "true")
    || text_eq v (codes "yes")
    || text_eq v (codes "on")

-- os.LookupEnv gives `none` for a variable that is not set.
unfoldable pub lookup_string : Option Text → Text → Text
lookup_string none default_val = default_val
lookup_string (some v) default_val = v

unfoldable pub parse_bool_default : Text → Bool → Bool
unfolding parse_bool
parse_bool_default s default_val =
    let v = to_lower (trim_space s) in
    if text_eq v (codes "1")
      || text_eq v (codes "true")
      || text_eq v (codes "yes")
      || text_eq v (codes "on")
    then true
    else if text_eq v (codes "0")
        || text_eq v (codes "false")
        || text_eq v (codes "no")
        || text_eq v (codes "off")
    then false
    else default_val

-- Trimmed and not empty, in order.
abbrev pub keep_some : (Text → Text) → List Text → List Text
keep_some f [] = []
keep_some f (p ∷ ps) = elim (f p) [ [] ↦ keep_some f ps | c ∷ s ↦ (c ∷ s) ∷ keep_some f ps ]

unfoldable pub parse_csv : Text → List Text
parse_csv s = elim (trim_space s) [ [] ↦ [] | c ∷ t ↦ keep_some trim_space (split (c ∷ t) b',') ]

unfoldable pub lower_all : List Text → List Text
lower_all ss = keep_some (λ s. to_lower (trim_space s)) ss

-- strconv.ParseInt in base 10 with 64 bits reads what strconv.Atoi reads.
unfoldable pub parse_int64 : Text → ℕ → ℕ
parse_int64 s default_val = elim (trim_space s) [
  | [] ↦ default_val
  | c ∷ t ↦ elim (atoi (c ∷ t)) [
    | none ↦ default_val
    | some (negsuc n) ↦ default_val
    | some (pos n) ↦ if n == 0 then default_val else n
  ]
]

-- With the 64 bits of an int.
unfoldable pub parse_int : Text → ℕ → ℕ
unfolding parse_int64
parse_int s default_val = parse_int64 s default_val

-- A number of seconds: the caller multiplies it by time.Second.
unfoldable pub parse_duration : Text → ℕ → ℕ
unfolding parse_int64
parse_duration s default_val = parse_int64 s default_val

-- The loop over a map from digests to identities, `seen` a set of identities.
abbrev pub collect : List (Text × Text) → List (Text × Unit {0}) → List (Text × Unit {0})
collect [] seen = seen
collect ((digest, id) ∷ m) seen = collect m (insert id _ seen)

unfoldable pub count_identities : List (Text × Text) → ℕ
count_identities m = length (collect m [])
