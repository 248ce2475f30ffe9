-- ===== src/Registry/Lookup.antt =====
-- src-tauri/src/model_registry.rs: which entry answers for a model.
use model_switch.Base.{
  In, Option-cases, eq_nat, eq_str, starts_with, Str, ◌≡◌, refl, sym, ap, ◌∙◌, ◌↔◌, ◌⊎◌, inl, inr,
  true, Option, none, some, [], ◌∷◌, ◌++◌, arith,
}
use model_switch.Base.Map
use model_switch.Base.Map.{Map, Unique, get-In, In-get}
use model_switch.Base.Longest.{longest, IsLongest, longest-IsLongest, longest-same}
use model_switch.Registry.{
  ModelCapabilities, ModelRegistry, capabilities_of, matches_key, or_longest, get,
}

starts_with-append : (s a b : Str) → starts_with s (a ++ b) ≡ true → starts_with s a ≡ true
starts_with-append s [] b h = refl
starts_with-append [] (x ∷ a) b h = h
starts_with-append (c ∷ s) (x ∷ a) b h = ground (arith, starts_with-append s a b)

-- The second half of the test of `get`, the key with a hyphen, decides nothing: a key matches a model
-- exactly when the model's name starts with it, at a hyphen or not.
pub matches_key_lem : (model key : Str) → matches_key model key ≡ starts_with model key
unfolding matches_key
matches_key_lem model key = ground (arith, starts_with-append model key (b'-' ∷ []))

-- A model is answered for by its own entry, and where it has none, by the entry with the longest key
-- that its name starts with, or by the default capabilities if there is no such key.
pub get-IsLongest :
    (r : ModelRegistry) (model : Str)
    → ((caps : ModelCapabilities) × (Map.get r.models model ≡ some caps) × (get r model ≡ caps))
      ⊎ ((Map.get r.models model ≡ none)
          × ((best : Option (Str × ModelCapabilities)) × IsLongest (matches_key model) r.models best
              × (get r model ≡ capabilities_of best)))
unfolding get
get-IsLongest r model = elim (Option-cases (Map.get r.models model)) [
  | inl e ↦ inr (
    e,
    (
      longest (matches_key model) none r.models,
      longest-IsLongest (matches_key model) r.models,
      rw e refl,
    ),
  )
  | inr (caps, e) ↦ inl (caps, e, rw e refl)
]

get-same :
    {V : Type 0} (m n : Map Str V) (k : Str)
    → Unique m
    → Unique n
    → ((e : Str × V) → In e m ↔ In e n)
    → Map.get m k ≡ Map.get n k
get-same m n k um un same = elim (Option-cases (Map.get m k)) [
  | inr (v, e) ↦ e ∙ sym (get-In n k un ((same (k, v)).0 (In-get m k e)))
  | inl e ↦ elim (Option-cases (Map.get n k)) [
    | inl d ↦ e ∙ sym d
    | inr (v, d) ↦ cc (get-In m k um ((same (k, v)).1 (In-get n k d)))
  ]
]

-- The order in which the map of the models is iterated does not matter: registries with the same
-- entries, each key once, give every model the same capabilities.
pub get-order :
    (r q : ModelRegistry) (model : Str)
    → Unique r.models
    → Unique q.models
    → ((e : Str × ModelCapabilities) → In e r.models ↔ In e q.models)
    → get r model ≡ get q model
unfolding get
get-order r q model ur uq same =
    let prefix : (key : Str) → matches_key model key ≡ true → starts_with model key ≡ true =
      λ key h. sym (matches_key_lem model key) ∙ h in
    let exact = get-same r.models q.models model ur uq same in
    let close = longest-same (matches_key model) model r.models q.models prefix ur same in
    let given : (held : Option ModelCapabilities)
        → or_longest model r.models held ≡ or_longest model q.models held =
      λ held. elim held as (λ h. or_longest model r.models h ≡ or_longest model q.models h) [
        | none ↦ ap capabilities_of close
        | some caps ↦ refl
      ] in
    rw exact (given (Map.get q.models model))
