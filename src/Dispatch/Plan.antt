-- ===== src/Dispatch/Plan.antt =====
-- src-tauri/src/proxy/dispatch.rs: the models that a request may use, the order in which they are
-- tried, how often each, and the pauses between the attempts.
pub mod Retries
pub mod Models
use model_switch.Base.{
  contains, In-append_left, In-append_right, All, All-In, All-append, All-of_In, Bool-cases, In,
  In-append, In-filter, In-filter_of, In-get_elem?, In-take, Option-cases, any, as_u32, bytes,
  clamp, div_ceil, eq_nat, eq_str, filter, get_elem?, get_elem?-lt, if◌then◌else◌, is_empty,
  is_some, last, leb, leb→le, length, length-append, length-replicate, length-set, length-take-le,
  ltb, ltb→lt, max_u32, max_u64, nat_beq, nat_beq_iff, replicate, saturating_add_u64,
  saturating_mul_u32, saturating_pow_u32, saturating_sub, set, some_inj, starts_with, str_beq,
  str_beq_iff, str_beq_refl, sum_by, sum_u64, take, wrapping_add_u32, wrapping_add_u64, ◌==◌,
  PartialEq, Str, ℕ, zero, suc, ◌+◌, ◌-◌, ◌*◌, ◌/◌, ◌%◌, ◌^◌, ◌≤◌, ◌<◌, min, max, compare, Ordering,
  ◌≡◌, refl, sym, ap, ap₂, ◌∙◌, subst, ◌≢◌, ◌↔◌, ◌⊎◌, inl, inr, Bool, true, false, not, ◌&&◌, ◌||◌,
  Option, none, some, List, [], ◌∷◌, ◌++◌, map, arith,
}
use model_switch.Base.Map.{Map, get}
use model_switch.Glob.{matches_glob}
use model_switch.VirtualKey.{VirtualKey, is_model_allowed}
use model_switch.Router.Fallback.{
  strip_date_suffix, ends_with_star, without_last, is_star, merge, resolve_fallback_chain,
}

-- config/gateway.rs
pub record ModelRetryConfig : Type 0 where
  pub max_retries : Option ℕ
  pub retry_base_ms : Option ℕ
  pub retry_max_ms : Option ℕ

-- The fields of the gateway's configuration that dispatching a request reads.
pub record GatewayConfig : Type 0 where
  pub model_aliases : Map Str Str
  pub model_groups : Map Str (List Str)
  pub model_fallbacks : Map Str (List Str)
  pub context_window_fallbacks : Map Str (List Str)
  pub model_retry_overrides : Map Str ModelRetryConfig
  pub max_retries : ℕ
  pub retry_base_ms : ℕ
  pub retry_max_ms : ℕ
  pub request_timeout_secs : Option ℕ

abbrev pub unwrap_or {ℓ} : {A : Type ℓ} → Option A → A → A
unwrap_or none d = d
unwrap_or (some a) d = a

abbrev pub group_has : Str → Option (List Str) → Bool
group_has model none = false
group_has model (some group_models) = any (λ gm. matches_glob gm model) group_models

-- Some group that the key allows holds the model.
abbrev pub in_allowed_group : Option (List Str) → Str → Map Str (List Str) → Bool
in_allowed_group none model model_groups = false
in_allowed_group (some allowed) model model_groups =
    any (λ entry. group_has model (get model_groups entry)) allowed

unfoldable pub is_model_allowed_with_groups : VirtualKey → Str → Map Str (List Str) → Bool
is_model_allowed_with_groups vk model model_groups =
    if is_model_allowed vk model
    then true
    else in_allowed_group vk.allowed_models model model_groups

abbrev pub or_empty : Option (List Str) → List Str
or_empty none = []
or_empty (some models) = models

-- The chain that the request's own model starts.
unfoldable pub base_chain : Str → Bool → GatewayConfig → List Str
base_chain original_model is_group_request g =
    if is_group_request
    then unwrap_or (get g.model_groups original_model) (original_model ∷ [])
    else resolve_fallback_chain original_model g.model_fallbacks

-- The models for larger contexts are pushed where the chain does not hold them.
unfoldable pub build_fallback_chain : Str → Bool → GatewayConfig → List Str
build_fallback_chain original_model is_group_request g =
    merge (base_chain original_model is_group_request g)
      (or_empty (get g.context_window_fallbacks original_model))

abbrev pub no_overrides : ModelRetryConfig
no_overrides = record { max_retries = none; retry_base_ms = none; retry_max_ms = none }

abbrev pub Override : Type 0
Override = Str × ModelRetryConfig

abbrev pub longer_than : Option Override → Str → Bool
longer_than none key = true
longer_than (some best) key = ltb (length best.0) (length key)

abbrev pub is_none : Option Override → Bool
is_none none = true
is_none (some best) = false

-- One turn of the loop over the overrides.
abbrev pub improved : Str → Override → Option Override → Option Override
improved model e best_match =
    if ends_with_star e.0 && ltb 1 (length e.0)
    then (if starts_with model (without_last e.0) && longer_than best_match e.0
        then some e
        else best_match)
    else if is_star e.0 && is_none best_match
    then some e
    else best_match

unfoldable pub best_wildcard : Str → Option Override → Map Str ModelRetryConfig → Option Override
best_wildcard model best_match [] = best_match
best_wildcard model best_match (e ∷ es) = best_wildcard model (improved model e best_match) es

abbrev pub config_of : Option Override → ModelRetryConfig
config_of none = no_overrides
config_of (some e) = e.1

abbrev pub stripped_config : Option Str → Map Str ModelRetryConfig → Option ModelRetryConfig
stripped_config none overrides = none
stripped_config (some stripped_model) overrides = get overrides stripped_model

unfoldable pub resolve_model_retry_config : Str → Map Str ModelRetryConfig → ModelRetryConfig
resolve_model_retry_config model overrides = elim (get overrides model) [
  | some cfg ↦ cfg
  | none ↦ elim (stripped_config (strip_date_suffix model) overrides) [
    | some cfg ↦ cfg
    | none ↦ config_of (best_wildcard model none overrides)
  ]
]

unfoldable pub resolve_model_retry_counts : List Str → Map Str ModelRetryConfig → ℕ → List ℕ
resolve_model_retry_counts [] overrides default_max_retries = []
resolve_model_retry_counts (m ∷ ms) overrides default_max_retries =
    unwrap_or (resolve_model_retry_config m overrides).max_retries default_max_retries
    ∷ resolve_model_retry_counts ms overrides default_max_retries

abbrev pub saturating_mul_u64 : ℕ → ℕ → ℕ
saturating_mul_u64 a b = min (a * b) max_u64

-- The pause after a failed attempt, without the random part.
unfoldable pub exp_delay : ℕ → ℕ → ℕ → ℕ
exp_delay model_base_ms model_max_ms attempt =
    min (saturating_mul_u64 model_base_ms (2 ^ min attempt 6)) model_max_ms
