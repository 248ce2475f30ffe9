-- ===== src/Dispatch/Select.antt =====
-- src-tauri/src/proxy/dispatch.rs: the channel of an attempt, and the models that are not tried.
pub mod Serves
use model_switch.Base.{
  contains, In-append_left, In-append_right, All, All-In, All-append, All-of_In, Bool-cases, In,
  In-append, In-filter, In-filter_of, In-get_elem?, In-take, Option-cases, any, as_u32, bytes,
  clamp, div_ceil, eq_nat, eq_str, filter, get_elem?, get_elem?-lt, if◌then◌else◌, is_empty,
  is_some, last, leb, leb→le, length, length-append, length-replicate, length-set, length-take-le,
  ltb, ltb→lt, max_u32, max_u64, nat_beq, nat_beq_iff, replicate, saturating_add_u64,
  saturating_mul_u32, saturating_pow_u32, saturating_sub, set, some_inj, starts_with, str_beq,
  str_beq_iff, str_beq_refl, sum_by, sum_u64, take, wrapping_add_u32, wrapping_add_u64, ◌==◌,
  PartialEq, Str, ℕ, zero, suc, ◌+◌, ◌-◌, ◌*◌, ◌/◌, ◌%◌, ◌^◌, ◌≤◌, ◌<◌, min, max, compare, Ordering,
  ◌≡◌, refl, sym, ap, ap₂, ◌∙◌, subst, ◌≢◌, ◌↔◌, ◌⊎◌, inl, inr, Bool, true, false, not, ◌&&◌, ◌||◌,
  Option, none, some, List, [], ◌∷◌, ◌++◌, map, arith,
}
use model_switch.Base.Map.{Map, get, values, contains_key}
use model_switch.F64.{Floats}
use model_switch.Channel.{Channel, is_available, is_model_excluded, recover_if_expired}
use model_switch.Trackers.Cooldown.{CooldownTracker, is_in_cooldown}
use model_switch.Router.Weighted.{Rng}
use model_switch.Router.Strategy.{RoutingStrategyType}
use model_switch.Router.Select.{RoutingContext, Clock, in_group, select_channel}
use model_switch.Registry
use model_switch.Registry.{ModelRegistry, ModelCapabilities}

-- The model mapping of a channel, if it has one, lists the model.
abbrev pub mapping_allows : Channel → Str → Bool
mapping_allows ch model = is_empty ch.model_mapping || contains_key ch.model_mapping model

-- The affinity channel may be used.
unfoldable pub is_affine : Clock → RoutingContext → Str → Option Str → Channel → Bool
is_affine clock ctx current_model account_group ch =
    in_group account_group ch.account_group
    && (mapping_allows ch current_model
        && (is_available clock.utc ch
            && not (is_in_cooldown clock.instant ctx.cooldown_tracker ch.id)))

abbrev pub affine_or : Bool → Channel → Option Channel → Option Channel
affine_or true ch routed = some ch
affine_or false ch routed = routed

abbrev pub stored_channel : Map ℕ Channel → Option ℕ → Option Channel
stored_channel channels none = none
stored_channel channels (some aff_id) = get channels aff_id

unfoldable pub select_channel_for_attempt :
    Rng
    → Floats
    → Clock
    → Option ℕ
    → Map ℕ Channel
    → Str
    → RoutingStrategyType
    → RoutingContext
    → Option Str
    → Option Channel
select_channel_for_attempt rng f clock affinity_channel channels current_model strategy ctx
      account_group =
    let routed = select_channel rng f clock channels current_model strategy ctx account_group in
    elim (stored_channel channels affinity_channel) [
      | none ↦ routed
      | some ch ↦
          affine_or (is_affine clock ctx current_model account_group ch)
            (recover_if_expired clock.utc ch) routed
    ]

abbrev pub exceeds_context : ℕ → ModelCapabilities → Bool
exceeds_context body_str_len caps = elim caps.max_context_tokens [
  | none ↦ false
  | some max_ctx ↦ ltb max_ctx (body_str_len / 4)
]

-- The test of a channel in the pre-flight check.
unfoldable pub may_serve : Clock → CooldownTracker → Str → Channel → Bool
may_serve clock cooldown_tracker current_model ch =
    ch.enabled
    && (is_available clock.utc ch
        && (not (is_model_excluded ch current_model)
            && (mapping_allows ch current_model
                && not (is_in_cooldown clock.instant cooldown_tracker ch.id))))

unfoldable pub pre_flight_skip_model :
    ModelRegistry → Clock → CooldownTracker → Str → ℕ → Map ℕ Channel → Bool
pre_flight_skip_model registry clock cooldown_tracker current_model body_str_len channels =
    if exceeds_context body_str_len (Registry.get registry current_model)
    then true
    else not (any (may_serve clock cooldown_tracker current_model) (values channels))
