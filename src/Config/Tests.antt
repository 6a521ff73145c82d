-- ===== src/Config/Tests.antt =====
-- Runs of the configuration readers, and their theorems at concrete inputs.
use mcp_searxng_relay.Base.{
  ℕ, zero, suc, ◌+◌, ◌-◌, ◌*◌, ◌≤◌, ◌<◌, min, max, ◌≡◌, refl, sym, ap, subst, ◌∙◌, ◌≢◌, ◌↔◌, ◌⊎◌,
  inl, inr, Bool, true, false, not, ◌&&◌, ◌||◌, Option, none, some, List, [], ◌∷◌, ◌++◌, map,
  append_assoc, append-nil, arith, Text, codes, text_eq, text_eq_iff, text_eq_refl, text_eq-cases,
  ltb, leb, ◌==◌, ==_iff, if◌then◌else◌, length, get_elem?, set, take, drop, length-append,
  length-set, length-take, length-drop, get_elem?-set_self, get_elem?-set_ne, get_elem?-lt, All,
  All-append, get_elem?-append_left, get_elem?-concat_last, get_elem?-set_cases,
  get_elem?-concat_cases, Bool-cases, Option-cases, is_some,
}
use mcp_searxng_relay.Base.Dict.{lookup}
use mcp_searxng_relay.Config.{
  parse_bool, parse_bool_default, parse_csv, lower_all, parse_int64, count_identities,
}
use mcp_searxng_relay.Config.Roster.{EngineDescriptor, parse_engine_roster, merge_rosters}
use mcp_searxng_relay.Config.Roster.Described.{concat, named, new_names, described}
use mcp_searxng_relay.Config.Roster.Merged.{merge_rosters-described}
use mcp_searxng_relay.Config.Tokens.{
  TokenError, Tokens, too_short, parse_auth_tokens, parse_shared_secret_token,
}
use mcp_searxng_relay.Config.Tokens.Issued.{configured, last_identity, parse_auth_tokens-configured}

bool_on : parse_bool (codes " Yes ") ≡ true
unfolding parse_bool text_eq mcp_searxng_relay.GoLib.Strings.to_lower
    mcp_searxng_relay.GoLib.Strings.trim_space
bool_on = refl

bool_default : parse_bool_default (codes "maybe") true ≡ true
unfolding parse_bool_default text_eq mcp_searxng_relay.GoLib.Strings.to_lower
    mcp_searxng_relay.GoLib.Strings.trim_space
bool_default = refl

csv : parse_csv (codes " a, b,,c ,") ≡ codes "a" ∷ codes "b" ∷ codes "c" ∷ []
unfolding parse_csv mcp_searxng_relay.GoLib.Strings.trim_space mcp_searxng_relay.GoLib.Strings.split
csv = refl

lowered : lower_all (codes "It" ∷ codes " " ∷ []) ≡ codes "it" ∷ []
unfolding lower_all mcp_searxng_relay.GoLib.Strings.to_lower
    mcp_searxng_relay.GoLib.Strings.trim_space
lowered = refl

int_garbage : parse_int64 (codes "300abc") 7 ≡ 7
unfolding parse_int64 mcp_searxng_relay.GoLib.Strings.trim_space
    mcp_searxng_relay.GoLib.Strconv.atoi mathlib.Core.Option.bind
int_garbage = refl

int_read : parse_int64 (codes " 300 ") 7 ≡ 300
unfolding parse_int64 mcp_searxng_relay.GoLib.Strings.trim_space
    mcp_searxng_relay.GoLib.Strconv.atoi mathlib.Core.Option.bind
int_read = refl

identities : count_identities ((codes "d", codes "alice") ∷ (codes "e", codes "alice") ∷ []) ≡ 1
unfolding count_identities mcp_searxng_relay.Base.Dict.insert text_eq
identities = refl

abbrev engine : Text → Text → EngineDescriptor
engine name purpose = record { name = name; purpose = purpose }

roster_read :
    parse_engine_roster (codes "Bing: web; ;gitea") (some (some (codes "# code\nbing: news\n")))
    ≡ some (engine (codes "bing") (codes "news") ∷ engine (codes "gitea") [] ∷ [])
unfolding parse_engine_roster mcp_searxng_relay.GoLib.Strings.split
    mcp_searxng_relay.GoLib.Strings.trim_space mcp_searxng_relay.GoLib.Strings.to_lower
    mcp_searxng_relay.GoLib.Search.cut lookup mcp_searxng_relay.Base.Dict.insert text_eq
roster_read = refl

abbrev layers : List (List EngineDescriptor)
layers =
    (engine (codes "bing") (codes "web") ∷ engine (codes "gitea") [] ∷ [])
    ∷ (engine (codes "gitea") (codes "code") ∷ engine (codes "bing") [] ∷ [])
    ∷ []

rosters_merged :
    merge_rosters layers
    ≡ engine (codes "bing") (codes "web") ∷ engine (codes "gitea") (codes "code") ∷ []
unfolding merge_rosters lookup mcp_searxng_relay.Base.Dict.insert text_eq
rosters_merged = refl

merge_rosters-described_example :
    merge_rosters layers ≡ described (named (concat layers)) (new_names [] (named (concat layers)))
merge_rosters-described_example = merge_rosters-described layers

-- A digest that shows the text.
abbrev shown : Text → Text
shown t = t

abbrev pairs : Text
pairs = codes "alice:0123456789abcdef0123456789abcdef"

short_refused : parse_auth_tokens shown (codes "secret") [] none ≡ inl too_short
unfolding parse_auth_tokens mcp_searxng_relay.GoLib.Strings.trim_space
short_refused = refl

pair_read :
    parse_auth_tokens shown [] pairs none
    ≡ inr ((codes "Bearer 0123456789abcdef0123456789abcdef", codes "alice") ∷ [])
unfolding parse_auth_tokens mcp_searxng_relay.GoLib.Strings.trim_space
    mcp_searxng_relay.GoLib.Strings.split mcp_searxng_relay.GoLib.Search.cut
    mcp_searxng_relay.Base.Dict.insert
pair_read = refl

secret_unset : parse_shared_secret_token shown (codes " ") ≡ inr []
unfolding parse_shared_secret_token mcp_searxng_relay.GoLib.Strings.trim_space
secret_unset = refl

parse_auth_tokens-configured_example :
    ((configured [] pairs none ≡ none)
      × (e : TokenError) × (parse_auth_tokens shown [] pairs none ≡ inl e))
    ⊎ ((es : List (Text × Text)) × (m : Tokens) × (configured [] pairs none ≡ some es)
        × (parse_auth_tokens shown [] pairs none ≡ inr m)
        × ((digest : Text) → lookup digest m ≡ last_identity shown digest none es))
parse_auth_tokens-configured_example = parse_auth_tokens-configured shown [] pairs none
