-- ===== src/Registry.antt =====
-- src-tauri/src/model_registry.rs: what each model can do, built in or discovered. The clock of
-- `update_models` is an argument, in seconds since the epoch; a clock before the epoch is not modelled.
-- What an endpoint lists, which `refresh_from_endpoint` fetches, is an argument too.
pub mod Listed
pub mod Lookup
pub mod Update
mod Tests
use model_switch.Base.{
  contains, In-append_left, In-append_right, All, All-In, All-append, All-of_In, Bool-cases, In,
  In-append, In-filter, In-filter_of, In-get_elem?, In-take, Option-cases, any, as_u32, bytes,
  clamp, div_ceil, eq_nat, eq_str, filter, get_elem?, get_elem?-lt, if◌then◌else◌, is_empty,
  is_some, last, leb, leb→le, length, length-append, length-replicate, length-set, length-take-le,
  ltb, ltb→lt, max_u32, max_u64, nat_beq, nat_beq_iff, replicate, saturating_add_u64,
  saturating_mul_u32, saturating_pow_u32, saturating_sub, set, some_inj, starts_with, str_beq,
  str_beq_iff, str_beq_refl, sum_by, sum_u64, take, wrapping_add_u32, wrapping_add_u64, ◌==◌,
  PartialEq, Str, ℕ, zero, suc, ◌+◌, ◌-◌, ◌*◌, ◌/◌, ◌%◌, ◌^◌, ◌≤◌, ◌<◌, min, max, compare, Ordering,
  ◌≡◌, refl, sym, ap, ap₂, ◌∙◌, subst, ◌≢◌, ◌↔◌, ◌⊎◌, inl, inr, Bool, true, false, not, ◌&&◌, ◌||◌,
  Option, none, some, List, [], ◌∷◌, ◌++◌, map, arith,
}
use model_switch.Base.Map
use model_switch.Base.Map.{Map, insert, keys}
use model_switch.Base.Sort.{sort_by}
use model_switch.Base.Longest.{longest}

-- `level` is the effort of the model.
pub data ThinkingFormat : Type 0 where
  no_thinking budget level hybrid : ThinkingFormat

pub record ModelCapabilities : Type 0 where
  pub supports_thinking : Bool
  pub supports_vision : Bool
  pub supports_tools : Bool
  pub max_context_tokens : Option ℕ
  pub thinking_format : ThinkingFormat
  pub source : Option Str

pub record ModelRegistryEntry : Type 0 where
  pub name : Str
  pub capabilities : ModelCapabilities
  pub is_discovered : Bool
  pub last_refreshed_secs : Option ℕ

pub record ModelRegistry : Type 0 where
  pub models : Map Str ModelCapabilities
  pub refresh_times : Map Str ℕ

-- `derive(Default)`
abbrev pub default_capabilities : ModelCapabilities
default_capabilities = record {
  supports_thinking = false;
  supports_vision = false;
  supports_tools = false;
  max_context_tokens = none;
  thinking_format = no_thinking;
  source = none;
}

abbrev pub insert_models :
    (Str → ModelCapabilities) → List Str → Map Str ModelCapabilities → Map Str ModelCapabilities
insert_models caps [] models = models
insert_models caps (model ∷ rest) models =
    insert_models caps rest (insert model (caps model) models)

abbrev pub standard : Str → ModelCapabilities
standard model = record {
  supports_thinking = false;
  supports_vision =
      not (str_beq model (bytes "gpt-4")) && not (str_beq model (bytes "gpt-3.5-turbo"));
  supports_tools = true;
  max_context_tokens =
      if contains model (bytes "turbo") || str_beq model (bytes "gpt-4o")
      then some 128_000
      else some 8_192;
  thinking_format = level;
  source = none;
}

abbrev pub reasoning : Str → ModelCapabilities
reasoning model =
    let limited = str_beq model (bytes "o1-preview") || str_beq model (bytes "o1-mini") in
    record {
      supports_thinking = true;
      supports_vision = not limited;
      supports_tools = not limited;
      max_context_tokens = some 200_000;
      thinking_format = level;
      source = none;
    }

-- The other families differ in three fields.
abbrev pub family : Bool → ℕ → ThinkingFormat → ModelCapabilities
family thinking max_context format = record {
  supports_thinking = thinking;
  supports_vision = true;
  supports_tools = true;
  max_context_tokens = some max_context;
  thinking_format = format;
  source = none;
}

abbrev pub gemini_thinking : Str → ModelCapabilities
gemini_thinking model =
    family true 1_000_000 (if str_beq model (bytes "gemini-3-pro") then hybrid else budget)

-- `ModelRegistry::new`
abbrev pub builtin : ModelRegistry
builtin =
    let openai =
      insert_models standard
        (bytes "gpt-4o"
          ∷ bytes "gpt-4o-mini"
          ∷ bytes "gpt-4-turbo"
          ∷ bytes "gpt-4"
          ∷ bytes "gpt-3.5-turbo"
          ∷ [])
        [] in
    let openai_reasoning =
      insert_models reasoning
        (bytes "o1"
          ∷ bytes "o1-preview"
          ∷ bytes "o1-mini"
          ∷ bytes "o3"
          ∷ bytes "o3-mini"
          ∷ bytes "o4-mini"
          ∷ [])
        openai in
    let claude =
      insert_models (λ model. family false 200_000 no_thinking)
        (bytes "claude-3-5-sonnet"
          ∷ bytes "claude-3-5-haiku"
          ∷ bytes "claude-3-opus"
          ∷ bytes "claude-3-sonnet"
          ∷ bytes "claude-3-haiku"
          ∷ [])
        openai_reasoning in
    let claude_thinking =
      insert_models (λ model. family true 200_000 budget)
        (bytes "claude-sonnet-4" ∷ bytes "claude-opus-4" ∷ bytes "claude-3-7-sonnet" ∷ []) claude in
    let gemini =
      insert_models (λ model. family false 1_000_000 no_thinking)
        (bytes "gemini-1.5-pro" ∷ bytes "gemini-1.5-flash" ∷ bytes "gemini-2.0-flash" ∷ [])
        claude_thinking in
    record {
      models =
          insert_models gemini_thinking
            (bytes "gemini-2.5-pro" ∷ bytes "gemini-2.5-flash" ∷ bytes "gemini-3-pro" ∷ []) gemini;
      refresh_times = [];
    }

-- The test of `get`: the key itself, or the key and a hyphen.
unfoldable pub matches_key : Str → Str → Bool
matches_key model key = starts_with model key || starts_with model (key ++ b'-' ∷ [])

abbrev pub capabilities_of : Option (Str × ModelCapabilities) → ModelCapabilities
capabilities_of none = default_capabilities
capabilities_of (some e) = e.1

abbrev pub or_longest :
    Str → Map Str ModelCapabilities → Option ModelCapabilities → ModelCapabilities
or_longest model models (some caps) = caps
or_longest model models none = capabilities_of (longest (matches_key model) none models)

unfoldable pub get : ModelRegistry → Str → ModelCapabilities
get r model = or_longest model r.models (Map.get r.models model)

abbrev pub comes_from : Str → ModelCapabilities → Bool
comes_from source caps = elim caps.source [ none ↦ false | some s ↦ str_beq s source ]

-- The loop over the fetched models.
unfoldable pub add_models : Str → List Str → ModelRegistry → ModelRegistry
add_models source [] r = r
add_models source (model_id ∷ models) r =
    let capabilities : ModelCapabilities = record (get r model_id) { source = some source } in
    add_models source models (record r { models = insert model_id capabilities r.models })

unfoldable pub update_models : ℕ → List Str → Str → ModelRegistry → ModelRegistry
update_models now models source r =
    let kept : ModelRegistry = record r {
      models = filter (λ (e : Str × ModelCapabilities). not (comes_from source e.1)) r.models;
    } in
    let added = add_models source models kept in
    record added { refresh_times = insert source now added.refresh_times }

unfoldable pub list_models : ModelRegistry → List Str
list_models r = keys r.models

-- `str::cmp` does not answer `Greater`.
unfoldable pub le_str : Str → Str → Bool
le_str [] t = true
le_str (a ∷ s) [] = false
le_str (a ∷ s) (b ∷ t) = ltb a b || (nat_beq a b && le_str s t)

abbrev pub refreshed_at : Map Str ℕ → Option Str → Option ℕ
refreshed_at times none = none
refreshed_at times (some source) = Map.get times source

abbrev pub entry_of : ModelRegistry → Str × ModelCapabilities → ModelRegistryEntry
entry_of r e = record {
  name = e.0;
  capabilities = e.1;
  is_discovered = is_some e.1.source;
  last_refreshed_secs = refreshed_at r.refresh_times e.1.source;
}

unfoldable pub list_all : ModelRegistry → List ModelRegistryEntry
list_all r =
    sort_by (λ (a b : ModelRegistryEntry). le_str a.name b.name) (map (entry_of r) r.models)
