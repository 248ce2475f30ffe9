-- ===== src/Registry/Tests.antt =====
-- Runs on the registry of models, and instances of its theorems.
use model_switch.Base.{
  In, bytes, eq_nat, eq_str, filter, Str, ◌≡◌, refl, ◌↔◌, ◌⊎◌, inl, inr, not, Option, none, some,
  [], ◌∷◌, ◌++◌, List,
}
use model_switch.Base.Map
use model_switch.Base.Map.{Map, Unique, contains_key, insert, remove, filter_some}
use model_switch.Base.Longest.{longest, IsLongest}
use model_switch.Registry.{
  ModelCapabilities, ModelRegistry, standard, capabilities_of, matches_key, comes_from, get,
  add_models, update_models,
}
use model_switch.Registry.Listed.{remove_listed}
use model_switch.Registry.Lookup.{get-IsLongest, get-order}
use model_switch.Registry.Update.{update_models-again}

abbrev known : ModelRegistry
known = record {
  models =
      (bytes "gpt-4", standard (bytes "gpt-4")) ∷ (bytes "gpt-4o", standard (bytes "gpt-4o")) ∷ [];
  refresh_times = [];
}

abbrev turned : ModelRegistry
turned = record {
  models =
      (bytes "gpt-4o", standard (bytes "gpt-4o")) ∷ (bytes "gpt-4", standard (bytes "gpt-4")) ∷ [];
  refresh_times = [];
}

abbrev refreshed : ModelRegistry
refreshed = update_models 1 (bytes "gpt-4o" ∷ []) (bytes "u") known

-- The context of a model that its source lists twice in a row shrinks to that of its family.
shrinks :
    (get
      (update_models 2 (bytes "gpt-4o" ∷ []) (bytes "u") refreshed)
      (bytes "gpt-4o")).max_context_tokens
    ≡ some 8_192
unfolding update_models add_models get longest matches_key insert Map.get
shrinks = refl

before_that : (get refreshed (bytes "gpt-4o")).max_context_tokens ≡ some 128_000
unfolding update_models add_models get longest matches_key insert Map.get
before_that = refl

get-IsLongest_example :
    ((caps : ModelCapabilities) × (Map.get known.models (bytes "gpt-4o-mini") ≡ some caps)
      × (get known (bytes "gpt-4o-mini") ≡ caps))
    ⊎ ((Map.get known.models (bytes "gpt-4o-mini") ≡ none)
        × ((best : Option (Str × ModelCapabilities)) × IsLongest
              (matches_key (bytes "gpt-4o-mini"))
              known.models
              best
            × (get known (bytes "gpt-4o-mini") ≡ capabilities_of best)))
get-IsLongest_example = get-IsLongest known (bytes "gpt-4o-mini")

known-Unique : Unique known.models
unfolding contains_key
known-Unique = (refl, (refl, tt))

turned-Unique : Unique turned.models
unfolding contains_key
turned-Unique = (refl, (refl, tt))

swapped : (e : Str × ModelCapabilities) → In e known.models ↔ In e turned.models
swapped e = (
  λ k. elim k [ inl a ↦ inr (inl a) | inr (inl b) ↦ inl b | inr (inr c) ↦ elim c [ ] ],
  λ k. elim k [ inl a ↦ inr (inl a) | inr (inl b) ↦ inl b | inr (inr c) ↦ elim c [ ] ],
)

get-order_example : get known (bytes "gpt-4o-mini") ≡ get turned (bytes "gpt-4o-mini")
get-order_example = get-order known turned (bytes "gpt-4o-mini") known-Unique turned-Unique swapped

abbrev known_before : List Str
known_before = bytes "o1" ∷ []

-- Both refreshes list two models, in different order.
update_models-again_example :
    Map.get
      (update_models 2
        (known_before ++ bytes "gpt-4o" ∷ bytes "gpt-5" ∷ [])
        (bytes "u")
        (update_models 1 (bytes "gpt-4o" ∷ bytes "o1" ∷ []) (bytes "u") known)).models
      (bytes "gpt-4o")
    ≡ some
        (record (capabilities_of (
          longest (matches_key (bytes "gpt-4o")) none (
            remove_listed (bytes "gpt-4o" ∷ bytes "o1" ∷ []) (
              filter
                (λ (e : Str × ModelCapabilities). not (comes_from (bytes "u") e.1))
                known.models)))) { source = some (bytes "u") })
unfolding matches_key
update_models-again_example =
    update_models-again (bytes "u") (bytes "gpt-4o") 1 2 (bytes "gpt-4o" ∷ bytes "o1" ∷ [])
      known_before (bytes "gpt-5" ∷ []) known known-Unique refl (refl, tt) refl
