-- ===== src/Dispatch/Request.antt =====
-- src-tauri/src/proxy/dispatch.rs: a request from its arrival to its response. What is read from its
-- headers and its body, and the key of the cache, are given with it.
pub mod Admitted
pub mod Settled
pub mod Task
use model_switch.Base.{
  contains, In-append_left, In-append_right, All, All-In, All-append, All-of_In, Bool-cases, In,
  In-append, In-filter, In-filter_of, In-get_elem?, In-take, Option-cases, any, as_u32, bytes,
  clamp, div_ceil, eq_nat, eq_str, filter, get_elem?, get_elem?-lt, if◌then◌else◌, is_empty,
  is_some, last, leb, leb→le, length, length-append, length-replicate, length-set, length-take-le,
  ltb, ltb→lt, max_u32, max_u64, nat_beq, nat_beq_iff, replicate, saturating_add_u64,
  saturating_mul_u32, saturating_pow_u32, saturating_sub, set, some_inj, starts_with, str_beq,
  str_beq_iff, str_beq_refl, sum_by, sum_u64, take, wrapping_add_u32, wrapping_add_u64, ◌==◌,
  PartialEq, Str, ℕ, zero, suc, ◌+◌, ◌-◌, ◌*◌, ◌/◌, ◌%◌, ◌^◌, ◌≤◌, ◌<◌, min, max, compare, Ordering,
  ◌≡◌, refl, sym, ap, ap₂, ◌∙◌, subst, ◌≢◌, ◌↔◌, ◌⊎◌, inl, inr, Bool, true, false, not, ◌&&◌, ◌||◌,
  Option, none, some, List, [], ◌∷◌, ◌++◌, map, arith,
}
use model_switch.Base.Map.{Map, get, contains_key}
use model_switch.F64.{Floats}
use model_switch.Manager.{Outcome, returned, panicked}
use model_switch.Router.Weighted.{Rng}
use model_switch.VirtualKey.{VirtualKey, is_model_denied}
use model_switch.VirtualKey.Spend.{
  ReserveResult, no_budget, reserved, exceeded, reserve_spend, reconcile_spend,
}
use model_switch.RequestCache
use model_switch.RequestCache.InFlight.{register, complete}
use model_switch.Registry.{ModelRegistry}
use model_switch.Dispatch.Plan.{
  GatewayConfig, unwrap_or, is_model_allowed_with_groups, build_fallback_chain,
  resolve_model_retry_counts,
}
use model_switch.Dispatch.State.{AppState, World, Response, json, refused, all_exhausted}
use model_switch.Dispatch.Loop.{
  Request, Progress, answered, again, next_model, stopped, over_models,
}

-- The estimate of the cost, the key of the cache and its material are for the model of the request by
-- its canonical name. `start` is the time when the request is admitted, and `woken` when it may look
-- into the cache again after waiting for another one.
pub record Incoming : Type 0 where
  pub original_model : Str
  pub session_id : Option Str
  pub affinity_channel : Option ℕ
  pub account_group : Option Str
  pub vk_id : Option ℕ
  pub is_blocked : Bool
  pub estimated_cost_cents : ℕ
  pub cache_key : Str → ℕ
  pub cache_key_material : Str → Str
  pub body_str_len : ℕ
  pub start : ℕ
  pub woken : ℕ

abbrev pub held_key : Map ℕ VirtualKey → Option ℕ → Option VirtualKey
held_key keys none = none
held_key keys (some vk) = get keys vk

-- The check of the model against the key's lists: the code of the refusal.
unfoldable pub model_refusal : GatewayConfig → Str → Option VirtualKey → Option Str
model_refusal g model none = none
model_refusal g model (some virtual_key) =
    if not (is_model_allowed_with_groups virtual_key model g.model_groups)
    then some (bytes "virtual_key_model_not_allowed")
    else if is_model_denied virtual_key model
    then some (bytes "virtual_key_model_denied")
    else none

abbrev pub with_keys : AppState → Map ℕ VirtualKey × ReserveResult → AppState × ReserveResult
with_keys st (keys, result) = (record st { virtual_keys = keys }, result)

unfoldable pub reserve : Str → Str → Option ℕ → ℕ → AppState → AppState × ReserveResult
reserve today this_month none cost st = (st, no_budget)
reserve today this_month (some vk) cost st =
    with_keys st (reserve_spend today this_month vk cost st.virtual_keys)

abbrev pub reserved_cents : ReserveResult → ℕ
reserved_cents no_budget = 0
reserved_cents exceeded = 0
reserved_cents (reserved n) = n

abbrev pub or_registered : ℕ → AppState → Option Str → AppState × Option Str
or_registered key st (some cached) = (st, some cached)
or_registered key st none = (record st { in_flight = (register key st.in_flight).0 }, none)

-- `check_request_cache`. What others do while the request waits is `waiting`.
unfoldable pub check_request_cache :
    (AppState → AppState) → ℕ → ℕ → ℕ → Str → AppState → AppState × Option Str
check_request_cache waiting now woken key material st =
    elim (RequestCache.get now key material st.request_cache) [
      | some cached ↦ (st, some cached)
      | none ↦
          let (keys, is_first) = register key st.in_flight in
          let waited = waiting (record st { in_flight = keys }) in
          if is_first
          then (record st { in_flight = keys }, none)
          else or_registered key waited (RequestCache.get woken key material waited.request_cache)
    ]

-- `iter().sum()` of `u32`
abbrev pub sum_u32 : List ℕ → ℕ
sum_u32 counts = sum_by (λ n. n) counts % 2 ^ 32

abbrev pub refund : Option ℕ → ℕ → AppState → AppState
refund none reserved_cents st = st
refund (some vk) reserved_cents st = record st {
  virtual_keys =
      if ltb 0 reserved_cents
      then reconcile_spend vk reserved_cents 0 st.virtual_keys
      else st.virtual_keys;
}

abbrev pub exhausted : Request → AppState → AppState × Outcome Response
exhausted req st =
    let refunded = refund req.vk_id req.reserved_cents st in
    (
      record refunded { in_flight = complete req.cache_key refunded.in_flight },
      returned all_exhausted,
    )

-- The end of `dispatch`, after the loop.
unfoldable pub finish : Request → Progress → AppState × Outcome Response
finish req (st, (total, answered response)) = (st, returned response)
finish req (st, (total, stopped)) = (st, panicked)
finish req (st, (total, again)) = exhausted req st
finish req (st, (total, next_model)) = exhausted req st

abbrev pub canonical_model : GatewayConfig → Incoming → Str
canonical_model g inc = unwrap_or (get g.model_aliases inc.original_model) inc.original_model

abbrev pub fallback_chain : GatewayConfig → Incoming → List Str
fallback_chain g inc =
    build_fallback_chain (canonical_model g inc)
      (contains_key g.model_groups (canonical_model g inc)) g

abbrev pub retry_counts : GatewayConfig → Incoming → List ℕ
retry_counts g inc =
    resolve_model_retry_counts (fallback_chain g inc) g.model_retry_overrides g.max_retries

abbrev pub request_with : GatewayConfig → Incoming → ℕ → Request
request_with g inc reserved_cents = record {
  session_id = inc.session_id;
  affinity_channel = inc.affinity_channel;
  account_group = inc.account_group;
  vk_id = inc.vk_id;
  reserved_cents = reserved_cents;
  cache_key = inc.cache_key (canonical_model g inc);
  cache_key_material = inc.cache_key_material (canonical_model g inc);
  body_str_len = inc.body_str_len;
  deadline = inc.start + unwrap_or g.request_timeout_secs 120 * 1_000_000_000;
  max_total_attempts = sum_u32 (retry_counts g inc);
}

module _ (rng : Rng) (f : Floats) (lower : Str → Str) (stored : Str → Option Str)
    (registry : ModelRegistry) (g : GatewayConfig) (today this_month : Str) (world : ℕ → World)
    (waiting : AppState → AppState) (inc : Incoming) where
  -- The part of `dispatch` that calls upstream servers.
  unfoldable pub serve : ℕ → AppState → AppState × Outcome Response
  serve reserved_cents st =
      let req = request_with g inc reserved_cents in
      finish req (
        over_models rng f lower stored registry today this_month world req (fallback_chain g inc)
          (retry_counts g inc) 0 st)

  abbrev pub cached_or_serve : ℕ → AppState × Option Str → AppState × Outcome Response
  cached_or_serve reserved_cents (st, some cached) = (st, returned (json cached))
  cached_or_serve reserved_cents (st, none) = serve reserved_cents st

  abbrev pub with_reservation : AppState × ReserveResult → AppState × Outcome Response
  with_reservation (st, exceeded) =
      (st, returned (refused 402 (bytes "virtual_key_budget_exceeded")))
  with_reservation (st, no_budget) = cached_or_serve 0 (
      check_request_cache waiting inc.start inc.woken (inc.cache_key (canonical_model g inc))
        (inc.cache_key_material (canonical_model g inc)) st)
  with_reservation (st, reserved n) = cached_or_serve n (
      check_request_cache waiting inc.start inc.woken (inc.cache_key (canonical_model g inc))
        (inc.cache_key_material (canonical_model g inc)) st)

  abbrev pub unless_refused : Option Str → AppState → AppState × Outcome Response
  unless_refused (some code) st = (st, returned (refused 403 code))
  unless_refused none st =
      with_reservation (reserve today this_month inc.vk_id inc.estimated_cost_cents st)

  unfoldable pub dispatch : AppState → AppState × Outcome Response
  dispatch st =
      if inc.is_blocked
      then (st, returned (refused 403 (bytes "guardrails_blocked")))
      else unless_refused
          (model_refusal g (canonical_model g inc) (held_key st.virtual_keys inc.vk_id)) st
