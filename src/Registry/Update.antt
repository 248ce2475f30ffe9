-- ===== src/Registry/Update.antt =====
-- src-tauri/src/model_registry.rs: what a refresh from an endpoint leaves in the registry.
use model_switch.Base.{
  Bool-cases, eq_nat, eq_str, filter, if◌then◌else◌, str_beq, str_beq_iff, str_beq_refl, Str, ℕ,
  ◌≡◌, refl, sym, ap, ◌∙◌, subst, inl, inr, Bool, true, false, not, ◌||◌, Option, none, some, List,
  [], ◌∷◌, ◌++◌, All, starts_with,
}
use model_switch.Base.Map
use model_switch.Base.Map.{
  Map, Unique, insert, remove, contains_key, get-insert, get-insert_self, get-filter, filter-Unique,
  get-remove, filter_some, insert-Unique, beq_refl, contains_key-filter, remove-absent,
}
use model_switch.Base.Longest.{longest}
use model_switch.Registry.Listed.{
  holds, starts_with_refl, filter-idempotent, filter-insert, remove_listed, get-remove_listed,
  longest-insert,
}
use model_switch.Registry.{
  ModelCapabilities, ModelRegistry, capabilities_of, or_longest, matches_key, get, comes_from,
  add_models, update_models,
}

-- What the registry has for a key after the loop.
abbrev pub Refreshed :
    Str → Str → Bool → Option ModelCapabilities → Option ModelCapabilities → Type 0
Refreshed source j true before after =
    (caps : ModelCapabilities) × (after ≡ some caps) × (caps.source ≡ some source)
Refreshed source j false before after = after ≡ before

module _ (source : Str) where
  step :
      (j : Str) (same among : Bool) (caps : ModelCapabilities)
      (before after : Option ModelCapabilities)
      → caps.source ≡ some source
      → Refreshed source j among (if same then some caps else before) after
      → Refreshed source j (same || among) before after
  step j true true caps before after e h = h
  step j true false caps before after e h = (caps, h, e)
  step j false true caps before after e h = h
  step j false false caps before after e h = h

  add_models-Refreshed :
      (models : List Str) (r : ModelRegistry) (j : Str)
      → Refreshed source j
          (holds j models)
          (Map.get r.models j)
          (Map.get (add_models source models r).models j)
  unfolding add_models
  add_models-Refreshed [] r j = refl
  add_models-Refreshed (m ∷ models) r j =
      let caps : ModelCapabilities = record (get r m) { source = some source } in
      let r' : ModelRegistry = record r { models = insert m caps r.models } in
      let after = Map.get (add_models source models r').models j in
      step j (str_beq m j) (holds j models) caps (Map.get r.models j) after refl (
        subst (λ b. Refreshed source j (holds j models) b after) (get-insert r.models m j caps)
          (add_models-Refreshed models r' j))

  -- What the registry holds for a model after a refresh from a source: an entry of that source if the
  -- source lists the model, and otherwise what it held before, unless that came from the source. No
  -- key stands twice in the registry.
  pub update_models-Refreshed :
      (now : ℕ) (models : List Str) (r : ModelRegistry) (j : Str)
      → Unique r.models
      → Refreshed source j
          (holds j models)
          (filter_some (λ caps. not (comes_from source caps)) (Map.get r.models j))
          (Map.get (update_models now models source r).models j)
  unfolding update_models
  update_models-Refreshed now models r j u =
      let others : Str × ModelCapabilities → Bool = λ e. not (comes_from source e.1) in
      let kept : ModelRegistry = record r { models = filter others r.models } in
      subst
        (λ b.
          Refreshed source j (holds j models) b (Map.get (add_models source models kept).models j))
        (get-filter (λ caps. not (comes_from source caps)) r.models j u)
        (add_models-Refreshed models kept j)

module _ (source : Str) where
  abbrev others : Str × ModelCapabilities → Bool
  others e = not (comes_from source e.1)

  own_source :
      (caps : ModelCapabilities)
      → not (comes_from source (record caps { source = some source })) ≡ false
  own_source caps = rw (str_beq_refl source) refl

  -- All that the loop put in comes from the source.
  filter-add_models :
      (listed : List Str) (r : ModelRegistry)
      → Unique r.models
      → filter others (add_models source listed r).models
        ≡ remove_listed listed (filter others r.models)
  unfolding add_models remove_listed
  filter-add_models [] r u = refl
  filter-add_models (key ∷ listed) r u =
      let caps : ModelCapabilities = record (get r key) { source = some source } in
      let r' : ModelRegistry = record r { models = insert key caps r.models } in
      filter-add_models listed r' (insert-Unique key caps r.models u)
      ∙ ap (λ z. remove_listed listed z)
          (filter-insert (λ c. not (comes_from source c)) key caps r.models (own_source (get r key))
            u)

  add_models-append :
      (xs ys : List Str) (r : ModelRegistry)
      → add_models source (xs ++ ys) r ≡ add_models source ys (add_models source xs r)
  unfolding add_models
  add_models-append [] ys r = refl
  add_models-append (x ∷ xs) ys r =
      let caps : ModelCapabilities = record (get r x) { source = some source } in
      add_models-append xs ys (record r { models = insert x caps r.models })

  longest-add_models :
      (p : Str → Bool) (listed : List Str) (r : ModelRegistry)
      → All (λ key. p key ≡ false) listed
      → longest p none (add_models source listed r).models ≡ longest p none r.models
  unfolding add_models
  longest-add_models p [] r h = refl
  longest-add_models p (key ∷ listed) r h =
      let caps : ModelCapabilities = record (get r key) { source = some source } in
      longest-add_models p listed (record r { models = insert key caps r.models }) h.1
      ∙ longest-insert p key caps none r.models h.0

  -- What a refresh leaves of the refresh before it from the same source.
  filter-update_models :
      (now : ℕ) (listed : List Str) (r : ModelRegistry)
      → Unique r.models
      → filter others (update_models now listed source r).models
        ≡ remove_listed listed (filter others r.models)
  unfolding update_models
  filter-update_models now listed r u =
      let kept : ModelRegistry = record r { models = filter others r.models } in
      filter-add_models listed kept (filter-Unique (λ c. not (comes_from source c)) r.models u)
      ∙ ap (λ z. remove_listed listed z) (filter-idempotent others r.models)

  module _ (m : Str) where
    unmatched-holds :
        (listed : List Str) → All (λ key. matches_key m key ≡ false) listed → holds m listed ≡ false
    unfolding matches_key
    unmatched-holds [] h = refl
    unmatched-holds (key ∷ listed) h = elim (Bool-cases (str_beq key m)) [
      | inl same ↦
          let own : starts_with m key ≡ true =
            subst (λ z. starts_with m z ≡ true) (sym ((str_beq_iff key m).0 same))
              (starts_with_refl m) in
          absurd (cc (rw own at h.0))
      | inr other ↦ rw other (unmatched-holds listed h.1)
    ]

    -- The entry of a model that the loop comes to when there is none for it.
    entered :
        (before rest : List Str) (s : ModelRegistry)
        → Map.get s.models m ≡ none
        → All (λ key. matches_key m key ≡ false) before
        → holds m rest ≡ false
        → Map.get (add_models source (before ++ m ∷ rest) s).models m
          ≡ some (record (capabilities_of (longest (matches_key m) none s.models)) {
            source = some source;
          })
    unfolding add_models get
    entered before rest s absent unmatched once =
        let a = add_models source before s in
        let caps : ModelCapabilities = record (get a m) { source = some source } in
        let a' : ModelRegistry = record a { models = insert m caps a.models } in
        let still : Map.get a.models m ≡ none =
          subst (λ b. Refreshed source m b (Map.get s.models m) (Map.get a.models m))
            (unmatched-holds before unmatched) (add_models-Refreshed source before s m)
          ∙ absent in
        let last : Map.get (add_models source rest a').models m ≡ Map.get a'.models m =
          subst
            (λ b.
              Refreshed source m b (Map.get a'.models m)
                (Map.get (add_models source rest a').models m))
            once (add_models-Refreshed source rest a' m) in
        let looked_up : get a m ≡ capabilities_of (longest (matches_key m) none s.models) =
          ap (λ o. or_longest m a.models o) still
          ∙ ap capabilities_of (longest-add_models (matches_key m) before s unmatched) in
        ap (λ z. Map.get z.models m) (add_models-append before (m ∷ rest) s)
        ∙ last
        ∙ get-insert_self a.models m caps
        ∙ ap {A = ModelCapabilities} (λ c. some (record c { source = some source })) looked_up

-- A refresh from a source forgets all that the last refresh from it made before it looks a model up: a
-- model that both list is then described by the longest key that its name starts with, among the
-- entries of other origin whose keys the last refresh did not list, and by the default capabilities
-- if there is none. The second refresh lists the model once, and before it no key that its name
-- starts with. No key stands twice in the registry.
pub update_models-again :
    (source m : Str) (first second : ℕ) (listed before rest : List Str) (r : ModelRegistry)
    → Unique r.models
    → holds m listed ≡ true
    → All (λ key. matches_key m key ≡ false) before
    → holds m rest ≡ false
    → Map.get
        (update_models second
          (before ++ m ∷ rest)
          source
          (update_models first listed source r)).models
        m
      ≡ some
          (record (capabilities_of (
            longest (matches_key m) none (
              remove_listed listed (
                filter (λ (e : Str × ModelCapabilities). not (comes_from source e.1)) r.models)))) {
                  source = some source;
                })
unfolding update_models
update_models-again source m first second listed before rest r u both unmatched once =
    let r1 = update_models first listed source r in
    let left = filter-update_models source first listed r u in
    let kept : ModelRegistry = record r1 { models = filter (others source) r1.models } in
    let absent : Map.get kept.models m ≡ none =
      ap (λ z. Map.get z m) left
      ∙ get-remove_listed listed (filter (others source) r.models) m
      ∙ rw both refl in
    entered source m before rest kept absent unmatched once
    ∙ ap {A = Map Str ModelCapabilities}
        (λ z.
          some (record (capabilities_of (longest (matches_key m) none z)) { source = some source }))
        left
