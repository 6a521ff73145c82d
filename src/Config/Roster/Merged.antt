-- ===== src/Config/Roster/Merged.antt =====
-- mergeRosters against its description.
use mcp_searxng_relay.Base.{
  ◌≡◌, refl, sym, ap, ◌∙◌, inl, inr, List, [], ◌∷◌, ◌++◌, append-nil, Bool-cases,
}
use mcp_searxng_relay.Config.Roster.{
  is_empty, EngineDescriptor, Roster, no_engines, merge_engine, merge_layer, merge_layers,
  merge_rosters,
}
use mcp_searxng_relay.Config.Roster.Described.{
  concat, names, named, new_names, described, brought_up,
}
use mcp_searxng_relay.Config.Roster.Places.{Indexed, no_engines-Indexed}
use mcp_searxng_relay.Config.Roster.Step.{
  merge_engine_nameless, Indexed-merge_engine, merge_engine_step,
}

brought_up-nil : (r : List EngineDescriptor) → brought_up [] r ≡ r
brought_up-nil [] = refl
brought_up-nil (e ∷ r) = ap (λ s. e ∷ s) (brought_up-nil r)

merge_layer_lem :
    (es : List EngineDescriptor) (r : Roster)
    → Indexed r
    → (merge_layer es r).roster
      ≡ brought_up (named es) r.roster
        ++ described (named es) (new_names (names r.roster) (named es))
unfolding merge_layer
merge_layer_lem [] r ind = rw (brought_up-nil r.roster) (sym (append-nil r.roster))
merge_layer_lem (e ∷ es) r ind = elim (Bool-cases (is_empty e.name)) [
  | inl b ↦
      rw b (
        ap (λ x. (merge_layer es x).roster) (merge_engine_nameless e r b)
        ∙ merge_layer_lem es r ind)
  | inr b ↦ rw b (
      merge_layer_lem es (merge_engine e r) (Indexed-merge_engine e r b ind)
      ∙ merge_engine_step e (named es) r b ind)
]

merge_layer-append :
    (es fs : List EngineDescriptor) (r : Roster)
    → merge_layer (es ++ fs) r ≡ merge_layer fs (merge_layer es r)
unfolding merge_layer
merge_layer-append [] fs r = refl
merge_layer-append (e ∷ es) fs r = merge_layer-append es fs (merge_engine e r)

merge_layers-concat :
    (layers : List (List EngineDescriptor)) (r : Roster)
    → merge_layers layers r ≡ merge_layer (concat layers) r
unfolding merge_layers merge_layer
merge_layers-concat [] r = refl
merge_layers-concat (layer ∷ layers) r =
    merge_layers-concat layers (merge_layer layer r)
    ∙ sym (merge_layer-append layer (concat layers) r)

-- The merged roster has each name that is not empty once, in the order in which the names first
-- appear in the layers, and with the last purpose given for it that is not empty.
pub merge_rosters-described :
    (layers : List (List EngineDescriptor))
    → merge_rosters layers
      ≡ described (named (concat layers)) (new_names [] (named (concat layers)))
unfolding merge_rosters
merge_rosters-described layers =
    rw (merge_rosters, merge_layers-concat layers no_engines)
      (merge_layer_lem (concat layers) no_engines no_engines-Indexed)
