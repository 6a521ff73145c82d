-- ===== src/Config/Roster/Described.antt =====
-- An independent description of a merged roster.
use mcp_searxng_relay.Base.{not, ◌&&◌, List, [], ◌∷◌, ◌++◌, Text, text_eq, if◌then◌else◌}
use mcp_searxng_relay.RateLimit.Limiter.{member}
use mcp_searxng_relay.Config.Roster.{is_empty, EngineDescriptor}

abbrev pub concat : List (List EngineDescriptor) → List EngineDescriptor
concat [] = []
concat (layer ∷ layers) = layer ++ concat layers

abbrev pub names : List EngineDescriptor → List Text
names [] = []
names (e ∷ es) = e.name ∷ names es

-- Entries without a name do not count.
abbrev pub named : List EngineDescriptor → List EngineDescriptor
named [] = []
named (e ∷ es) = let rest = named es in if is_empty e.name then rest else e ∷ rest

-- The names that are new after `seen`, in the order of their first appearance.
abbrev pub new_names : List Text → List EngineDescriptor → List Text
new_names seen [] = []
new_names seen (e ∷ es) =
    let more = e.name ∷ new_names (seen ++ e.name ∷ []) es in
    let rest = new_names seen es in if member e.name seen then rest else more

-- The last purpose that is not empty among the entries of a name, else `held`.
abbrev pub last_purpose : Text → Text → List EngineDescriptor → Text
last_purpose held name [] = held
last_purpose held name (e ∷ es) =
    last_purpose (if text_eq name e.name && not (is_empty e.purpose) then e.purpose else held) name
      es

-- The roster as it should come out.
abbrev pub described : List EngineDescriptor → List Text → List EngineDescriptor
described es [] = []
described es (n ∷ ns) = record { name = n; purpose = last_purpose [] n es } ∷ described es ns

-- The entries of the roster with what the coming entries make of their purposes.
abbrev pub brought_up : List EngineDescriptor → List EngineDescriptor → List EngineDescriptor
brought_up es [] = []
brought_up es (e ∷ r) = record e { purpose = last_purpose e.purpose e.name es } ∷ brought_up es r
