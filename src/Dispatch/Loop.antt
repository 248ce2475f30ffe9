-- ===== src/Dispatch/Loop.antt =====
-- src-tauri/src/proxy/dispatch.rs: the loop over the models of the chain and the attempts on each. The
-- pauses between attempts are not part of the state: what a later attempt meets is an argument.
pub mod Bounds
pub mod Effects
pub mod Guards
use model_switch.Base.{
  contains, In-append_left, In-append_right, All, All-In, All-append, All-of_In, Bool-cases, In,
  In-append, In-filter, In-filter_of, In-get_elem?, In-take, Option-cases, any, as_u32, bytes,
  clamp, div_ceil, eq_nat, eq_str, filter, get_elem?, get_elem?-lt, if◌then◌else◌, is_empty,
  is_some, last, leb, leb→le, length, length-append, length-replicate, length-set, length-take-le,
  ltb, ltb→lt, max_u32, max_u64, nat_beq, nat_beq_iff, replicate, saturating_add_u64,
  saturating_mul_u32, saturating_pow_u32, saturating_sub, set, some_inj, starts_with, str_beq,
  str_beq_iff, str_beq_refl, sum_by, sum_u64, take, wrapping_add_u32, wrapping_add_u64, ◌==◌,
  PartialEq, Str, ℕ, zero, suc, ◌+◌, ◌-◌, ◌*◌, ◌/◌, ◌%◌, ◌^◌, ◌≤◌, ◌<◌, min, max, compare, Ordering,
  ◌≡◌, refl, sym, ap, ap₂, ◌∙◌, subst, ◌≢◌, ◌↔◌, ◌⊎◌, inl, inr, Bool, true, false, not, ◌&&◌, ◌||◌,
  Option, none, some, List, [], ◌∷◌, ◌++◌, map, arith,
}
use model_switch.Base.Map.{Map}
use model_switch.F64.{Floats}
use model_switch.Channel.{Channel}
use model_switch.Channel.Names.{as_str}
use model_switch.Router.Weighted.{Rng}
use model_switch.Router.Select.{Clock}
use model_switch.ProviderBudget.{check_budget}
use model_switch.Registry.{ModelRegistry}
use model_switch.Dispatch.State.{
  AppState, DispatchContext, World, Response, AttemptOutcome, respond, retry, context_overflow,
  crashed, routing_context,
}
use model_switch.Dispatch.Select.{select_channel_for_attempt, pre_flight_skip_model}
use model_switch.Dispatch.Attempt.{try_channel_attempt}

-- What the loop knows of the request.
pub record Request : Type 0 where
  pub session_id : Option Str
  pub affinity_channel : Option ℕ
  pub account_group : Option Str
  pub vk_id : Option ℕ
  pub reserved_cents : ℕ
  pub cache_key : ℕ
  pub cache_key_material : Str
  pub body_str_len : ℕ
  pub deadline : ℕ
  pub max_total_attempts : ℕ

-- How a turn of the loop ends. `next_model` is its `break`, and `again` its `continue`.
pub data Step : Type 0 where
  answered : Response → Step
  again next_model stopped : Step

abbrev pub step_of : AttemptOutcome → Step
step_of (respond response) = answered response
step_of retry = again
step_of context_overflow = next_model
step_of crashed = stopped

-- The channel's own cap on the attempts.
abbrev pub over_cap : ℕ → Option ℕ → Bool
over_cap attempt none = false
over_cap attempt (some ch_max) = ltb ch_max attempt

-- The state, the attempts so far, and how it ended.
abbrev pub Progress : Type 0
Progress = AppState × (ℕ × Step)

abbrev pub or_again : AppState → ℕ → Step → Progress → Progress
or_again st total again rest = rest
or_again st total (answered r) rest = (st, (total, answered r))
or_again st total next_model rest = (st, (total, next_model))
or_again st total stopped rest = (st, (total, stopped))

abbrev pub or_next : Progress → Progress → Progress
or_next (st, (total, next_model)) rest = rest
or_next (st, (total, again)) rest = rest
or_next (st, (total, answered r)) rest = (st, (total, answered r))
or_next (st, (total, stopped)) rest = (st, (total, stopped))

-- The parameters: arithmetic, random numbers, the lower case of a text, the credential store, the
-- registry of models, the dates of the provider budgets, what each attempt meets, and the request.
module _ (rng : Rng) (f : Floats) (lower : Str → Str) (stored : Str → Option Str)
    (registry : ModelRegistry) (today this_month : Str) (world : ℕ → World) (req : Request) where
  abbrev pub context_for : Str → Channel → DispatchContext
  context_for current_model channel = record {
    channel = channel;
    current_model = current_model;
    session_id = req.session_id;
    vk_id = req.vk_id;
    reserved_cents = req.reserved_cents;
    cache_key = req.cache_key;
    cache_key_material = req.cache_key_material;
  }

  unfoldable pub attempt_on : Str → ℕ → World → Channel → AppState → AppState × Step
  attempt_on current_model attempt w channel st =
      let tried =
        try_channel_attempt f lower stored registry w (context_for current_model channel) st in
      if not (check_budget today this_month st.provider_budgets (as_str channel.provider))
      then (st, again)
      else if over_cap attempt channel.max_retries
      then (st, again)
      else (tried.0, step_of tried.1)

  -- A turn of the inner loop behind its guards.
  unfoldable pub turn : Str → ℕ → World → AppState → AppState × Step
  turn current_model attempt w st =
      elim (select_channel_for_attempt rng f w.clock req.affinity_channel st.manager.channels
        current_model w.routing_strategy (routing_context st) req.account_group) [
          | none ↦ (st, next_model)
          | some channel ↦ attempt_on current_model attempt w channel st
        ]

  -- The inner loop. `left` is how many attempts the model has left.
  unfoldable pub attempts : Str → ℕ → ℕ → ℕ → AppState → Progress
  attempts current_model zero attempt total st = (st, (total, next_model))
  attempts current_model (suc left) attempt total st =
      let w = world total in
      let taken = turn current_model (attempt + 1) w st in
      let rest = attempts current_model left (attempt + 1) (total + 1) taken.0 in
      if not (ltb total req.max_total_attempts)
      then (st, (total, next_model))
      else if ltb req.deadline w.clock.instant
      then (st, (total, next_model))
      else or_again taken.0 (total + 1) taken.1 rest

  -- The outer loop, over the chain and the counts of its models. An index out of the counts panics.
  unfoldable pub over_models : List Str → List ℕ → ℕ → AppState → Progress
  over_models [] counts total st = (st, (total, next_model))
  over_models (m ∷ ms) [] total st = (st, (total, stopped))
  over_models (m ∷ ms) (model_max_retries ∷ counts) total st =
      let clock = (world total).clock in
      let tried = attempts m model_max_retries 0 total st in
      let skipped = over_models ms counts total st in
      let rest = over_models ms counts tried.1.0 tried.0 in
      if pre_flight_skip_model registry clock st.cooldown_tracker m req.body_str_len
        st.manager.channels
      then skipped
      else or_next tried rest
