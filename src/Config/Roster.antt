-- ===== src/Config/Roster.antt =====
-- parseEngineEntry, parseEngineRoster and mergeRosters of config.go.
pub mod Described
pub mod Places
pub mod Purposes
pub mod Step
pub mod Merged
use mcp_searxng_relay.Base.{
  ℕ, zero, suc, ◌+◌, ◌-◌, ◌*◌, ◌≤◌, ◌<◌, min, max, ◌≡◌, refl, sym, ap, subst, ◌∙◌, ◌≢◌, ◌↔◌, ◌⊎◌,
  inl, inr, Bool, true, false, not, ◌&&◌, ◌||◌, Option, none, some, List, [], ◌∷◌, ◌++◌, map,
  append_assoc, append-nil, arith, Text, codes, text_eq, text_eq_iff, text_eq_refl, text_eq-cases,
  ltb, leb, ◌==◌, ==_iff, if◌then◌else◌, length, get_elem?, set, take, drop, length-append,
  length-set, length-take, length-drop, get_elem?-set_self, get_elem?-set_ne, get_elem?-lt, All,
  All-append, get_elem?-append_left, get_elem?-concat_last, get_elem?-set_cases,
  get_elem?-concat_cases, Bool-cases, Option-cases, is_some,
}
use mcp_searxng_relay.Base.Dict.{lookup, insert}
use mcp_searxng_relay.GoLib.Strings.{trim_space, to_lower, split, has_prefix}
use mcp_searxng_relay.GoLib.Search.{cut}

pub record EngineDescriptor : Type 0 where
  pub name : Text
  pub purpose : Text

-- A roster under construction, with the place of each name in it.
pub record Roster : Type 0 where
  pub roster : List EngineDescriptor
  pub index : List (Text × ℕ)

abbrev pub no_engines : Roster
no_engines = record { roster = []; index = [] }

-- `none` is ok=false.
unfoldable pub parse_engine_entry : Text → Option (Text × Text)
parse_engine_entry entry = elim (trim_space entry) [
  | [] ↦ none
  | c ∷ s ↦
      let parts = cut (c ∷ s) b':' in
      elim (to_lower (trim_space parts.0)) [
        | [] ↦ none
        | d ∷ name ↦ some (d ∷ name, trim_space parts.1)
      ]
]

-- `roster[i].Purpose = purpose`
abbrev pub set_purpose : ℕ → Text → List EngineDescriptor → List EngineDescriptor
set_purpose i purpose [] = []
set_purpose zero purpose (e ∷ es) = record e { purpose = purpose } ∷ es
set_purpose (suc i) purpose (e ∷ es) = e ∷ set_purpose i purpose es

-- The closure `add` of parseEngineRoster.
unfoldable pub add_entry : Text → Text → Roster → Roster
add_entry name purpose r = elim (lookup name r.index) [
  | some i ↦ record r { roster = set_purpose i purpose r.roster }
  | none ↦ record {
    roster = r.roster ++ record { name = name; purpose = purpose } ∷ [];
    index = insert name (length r.roster) r.index;
  }
]

unfoldable pub add_entries : List Text → Roster → Roster
unfolding parse_engine_entry add_entry
add_entries [] r = r
add_entries (entry ∷ entries) r = elim (parse_engine_entry entry) [
  | none ↦ add_entries entries r
  | some (name, purpose) ↦ add_entries entries (add_entry name purpose r)
]

abbrev pub keep_lines : List Text → List Text
keep_lines [] = []
keep_lines (raw ∷ lines) =
    let rest = keep_lines lines in
    elim (trim_space raw) [ [] ↦ rest | c ∷ s ↦ if c == b'#' then rest else (c ∷ s) ∷ rest ]

-- Lines that are neither blank nor comments, trimmed.
unfoldable pub config_lines : Text → List Text
config_lines content = keep_lines (split content b'\n')

-- `file` is the outcome of reading SEARXNG_ENGINES_FILE, when one is named: `some none` is the
-- error of os.ReadFile.
unfoldable pub parse_engine_roster : Text → Option (Option Text) → Option (List EngineDescriptor)
unfolding add_entries config_lines
parse_engine_roster engines file =
    let inline = add_entries (split engines b';') no_engines in
    elim file [
      | none ↦ some inline.roster
      | some none ↦ none
      | some (some content) ↦ some (add_entries (config_lines content) inline).roster
    ]

abbrev pub is_empty : Text → Bool
is_empty [] = true
is_empty (c ∷ s) = false

-- One engine of one layer.
unfoldable pub merge_engine : EngineDescriptor → Roster → Roster
merge_engine e r = if is_empty e.name then r else elim (lookup e.name r.index) [
  | some i ↦
      if is_empty e.purpose then r else record r { roster = set_purpose i e.purpose r.roster }
  | none ↦ record { roster = r.roster ++ e ∷ []; index = insert e.name (length r.roster) r.index }
]

unfoldable pub merge_layer : List EngineDescriptor → Roster → Roster
unfolding merge_engine
merge_layer [] r = r
merge_layer (e ∷ es) r = merge_layer es (merge_engine e r)

unfoldable pub merge_layers : List (List EngineDescriptor) → Roster → Roster
unfolding merge_layer
merge_layers [] r = r
merge_layers (layer ∷ layers) r = merge_layers layers (merge_layer layer r)

unfoldable pub merge_rosters : List (List EngineDescriptor) → List EngineDescriptor
unfolding merge_layers
merge_rosters layers = (merge_layers layers no_engines).roster
