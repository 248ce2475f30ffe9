-- ===== src/Dispatch/Tests.antt =====
-- Runs of the dispatch of a request, and instances of its theorems.
use model_switch.Base.{
  bytes, eq_nat, eq_str, max_u32, sum_by, Str, ℕ, ◌+◌, ◌≤◌, ◌<◌, min, max, ◌≡◌, refl, ◌⊎◌, true,
  false, Option, none, some, [], ◌∷◌, ◌++◌, arith,
}
use model_switch.Dispatch.Plan
use model_switch.VirtualKey
use model_switch.VirtualKey.Spend
use model_switch.Base.Map.{Map, get, insert, modify, contains_key}
use model_switch.Manager.{Outcome, returned, panicked}
use model_switch.VirtualKey.{VirtualKey, daily_spend, monthly_spend}
use model_switch.VirtualKey.Spend.{
  ReserveResult, no_budget, reserved, exceeded, reserve_key, reserve_spend, reconcile_spend,
  reconcile_key,
}
use model_switch.RequestCache
use model_switch.RequestCache.InFlight.{register, is_registered}
use model_switch.Registry.{ModelRegistry}
use model_switch.Dispatch.Plan.{GatewayConfig}
use model_switch.Dispatch.State.{
  AppState, World, TelemetryRecord, Response, json, relayed, all_exhausted,
}
use model_switch.Dispatch.Loop.{
  Request, Progress, answered, again, next_model, stopped, over_models,
}
use model_switch.Dispatch.Loop.Effects.{ledger, over_models-Ended}
use model_switch.Dispatch.Request.{
  Incoming, model_refusal, reserve, check_request_cache, finish, fallback_chain, retry_counts,
  request_with, serve, dispatch,
}
use model_switch.Channel
use model_switch.Channel.{Channel}
use model_switch.Router.Fallback
use model_switch.Base.Sort.{sort_by, insert_by}
use model_switch.Glob.{matches_glob}
use model_switch.ProviderBudget
use model_switch.Registry
use model_switch.Dispatch.Select
use model_switch.Dispatch.Loop
use model_switch.Dispatch.Attempt
use model_switch.Manager
use model_switch.Manager.{ChannelManager}
use model_switch.Samples.{steady, least, fractions}
use model_switch.Trackers.ActiveRequests
use model_switch.Trackers.Cooldown
use model_switch.RateLimiter.Channels
use model_switch.RateLimiter.Keys
use model_switch.Router.Affinity.{with_options}
use model_switch.Router.Strategy.{weighted_random_type}
use model_switch.Router.Select.{Clock}
use model_switch.Registry.{family, level}
use model_switch.RateLimiter.Window
use model_switch.RateLimiter.Channels.{RateLimiter}
use model_switch.Dispatch.State.{Upstream, DispatchContext}
use model_switch.Base.Longest.{IsLongest}
use model_switch.Dispatch.State.{AttemptOutcome, routing_context}
use model_switch.Dispatch.Plan.{
  ModelRetryConfig, Override, no_overrides, base_chain, or_empty, build_fallback_chain,
  stripped_config, config_of, resolve_model_retry_config,
}
use model_switch.Dispatch.Plan.Models.{Extends, build_fallback_chain-Extends}
use model_switch.Dispatch.Plan.Retries.{resolve_model_retry_config-IsLongest}
use model_switch.Dispatch.Select.{select_channel_for_attempt}
use model_switch.Dispatch.Select.Serves.{IsServing, select_channel_for_attempt-IsServing}
use model_switch.Dispatch.Attempt.{try_channel_attempt}
use model_switch.Dispatch.Telemetry.{run_task}
use model_switch.Dispatch.Attempt.Effects.{Effect, view, try_channel_attempt-Effect}
use model_switch.Dispatch.Loop.Bounds.{Made, over_models_bounds}
use model_switch.Dispatch.Loop.Effects.{EndedAt}
use model_switch.Dispatch.Loop.Guards.{BalancedAt, over_models-BalancedAt}
use model_switch.Dispatch.Request.Admitted.{IsAdmitted, charged_key, prepared}
use model_switch.Dispatch.Request.Settled.{dispatch-served, dispatch-relayed, dispatch-exhausted}
use model_switch.Dispatch.Request.Task.{run_task-settles}

abbrev clock : Clock
clock = record { utc = 10; instant = 20; millis = 30 }

abbrev key : VirtualKey
key = record {
  id = 7;
  key_hash = bytes "ab";
  key_prefix = bytes "sk-ms";
  name = bytes "team";
  daily_budget_cents = some 1000;
  monthly_budget_cents = none;
  enabled = true;
  created_at = 0;
  spend = record {
    today = record { date = bytes "d"; cents = 300 };
    this_month = record { month = bytes "m"; cents = 400 };
    total_cents = 500;
  };
  allowed_models = some (bytes "gpt" ∷ []);
  denied_models = [];
  allowed_ips = [];
  rpm_limit = none;
  tpm_limit = none;
  expires_at = none;
  group = none;
}

abbrev manager : ChannelManager
manager = record {
  channels = (1, steady) ∷ [];
  circuit_breaker_minutes = 2;
  key_indices = [];
  disable_cooling = false;
}

abbrev limiter : RateLimiter
limiter = record {
  channels =
      (
        1,
        record {
          tpm_window = Window.new 60_000 0;
          rpm_window = Window.new 60_000 0;
          tpm_limit = none;
          rpm_limit = 60;
        },
      )
      ∷ [];
  global_tpm = Window.new 60_000 0;
  global_tpm_limit = none;
}

abbrev models : ModelRegistry
models = record { models = (bytes "gpt-4o", family false 128_000 level) ∷ []; refresh_times = [] }

abbrev idle : AppState
idle = record {
  manager = manager;
  cooldown_tracker = Cooldown.new;
  active_requests = [];
  rate_limiter = limiter;
  latency_tracker = [];
  session_affinity = with_options 100 10;
  virtual_keys = (7, key) ∷ [];
  key_rate_limiter = Keys.new;
  provider_budgets = record { configs = []; spend = [] };
  request_cache = RequestCache.new 100 10 RequestCache.on;
  in_flight = 5 ∷ [];
  background = [];
}

abbrev reply_with : ℕ → Upstream
reply_with status = record {
  status = status;
  retry_after_secs = none;
  body_text = bytes "no";
  response_str = bytes "{}";
  is_blocked = false;
  input_tokens = some 3;
  output_tokens = some 4;
  cost_cents = 2;
}

abbrev world_with : ℕ → ℕ → World
world_with status n = record {
  clock = clock;
  later = clock;
  routing_strategy = weighted_random_type;
  redis = some (record {
    global_tpm = Channels.allowed;
    channel_rpm = Channels.allowed;
    channel_tpm = Channels.allowed;
  });
  estimated_tokens = 9;
  body_len = λ caps. 40;
  client_is_built = true;
  reply = some (reply_with status);
  latency_ms = 6;
}

abbrev gateway : GatewayConfig
gateway = record {
  model_aliases = (bytes "best", bytes "gpt-4o") ∷ [];
  model_groups = [];
  model_fallbacks = [];
  context_window_fallbacks = [];
  model_retry_overrides = [];
  max_retries = 1;
  retry_base_ms = 100;
  retry_max_ms = 1000;
  request_timeout_secs = none;
}

abbrev incoming : Incoming
incoming = record {
  original_model = bytes "best";
  session_id = none;
  affinity_channel = some 1;
  account_group = none;
  vk_id = some 7;
  is_blocked = false;
  estimated_cost_cents = 3;
  cache_key = λ model. 42;
  cache_key_material = λ model. model;
  body_str_len = 40;
  start = 15;
  woken = 15;
}

abbrev run_with : ℕ → AppState × Outcome Response
run_with status =
    dispatch least fractions (λ s. s) (λ s. none) models gateway (bytes "d") (bytes "m")
      (world_with status) (λ st. st) incoming idle

admitted : IsAdmitted gateway (bytes "d") (bytes "m") incoming idle 7 key
unfolding model_refusal reserve_key RequestCache.get RequestCache.new get
    Plan.is_model_allowed_with_groups VirtualKey.is_model_allowed VirtualKey.is_model_denied
    Spend.roll_over RequestCache.can_read
admitted = record {
  unblocked = refl;
  keyed = refl;
  held = refl;
  allowed = refl;
  granted = refl;
  uncached = refl;
  alone = refl;
}

served : (run_with 200).1 ≡ returned (json (bytes "{}"))
unfolding dispatch model_refusal reserve_key RequestCache.get RequestCache.new get contains_key
    insert modify Plan.is_model_allowed_with_groups VirtualKey.is_model_allowed
    VirtualKey.is_model_denied Spend.roll_over RequestCache.can_read reserve reserve_spend
    check_request_cache register serve finish over_models Plan.base_chain Plan.build_fallback_chain
    Plan.resolve_model_retry_counts Plan.resolve_model_retry_config Plan.best_wildcard
    Fallback.merge Fallback.merge_all Fallback.resolve_fallback_chain Fallback.strip_date_suffix
    Fallback.split_last_dash Fallback.match_wildcards Fallback.once_each Fallback.is_wildcard_for
    sort_by insert_by Select.pre_flight_skip_model Select.may_serve Select.is_affine
    Select.select_channel_for_attempt Channel.is_available Channel.is_model_excluded
    Channel.all_keys Channel.recover_if_expired matches_glob Cooldown.is_in_cooldown Registry.get
    Loop.attempts Loop.turn Loop.attempt_on ProviderBudget.check_budget Attempt.try_channel_attempt
    Channels.check Channels.check_with_redis Channels.redis_verdict Channels.get_or_create
    Channels.channel_verdict Manager.get_credential Manager.channel_credential Manager.key_at
    Attempt.with_credential Attempt.build_and_send_request Attempt.send Attempt.answer
    Attempt.error_status Attempt.fail_and_retry Attempt.handle_json_success
    Attempt.is_context_window_error
served = refl

answered_in_error : (run_with 401).1 ≡ returned (relayed 401 (bytes "no"))
unfolding dispatch model_refusal reserve_key RequestCache.get RequestCache.new get contains_key
    insert modify Plan.is_model_allowed_with_groups VirtualKey.is_model_allowed
    VirtualKey.is_model_denied Spend.roll_over RequestCache.can_read reserve reserve_spend
    check_request_cache register serve finish over_models Plan.base_chain Plan.build_fallback_chain
    Plan.resolve_model_retry_counts Plan.resolve_model_retry_config Plan.best_wildcard
    Fallback.merge Fallback.merge_all Fallback.resolve_fallback_chain Fallback.strip_date_suffix
    Fallback.split_last_dash Fallback.match_wildcards Fallback.once_each Fallback.is_wildcard_for
    sort_by insert_by Select.pre_flight_skip_model Select.may_serve Select.is_affine
    Select.select_channel_for_attempt Channel.is_available Channel.is_model_excluded
    Channel.all_keys Channel.recover_if_expired matches_glob Cooldown.is_in_cooldown Registry.get
    Loop.attempts Loop.turn Loop.attempt_on ProviderBudget.check_budget Attempt.try_channel_attempt
    Channels.check Channels.check_with_redis Channels.redis_verdict Channels.get_or_create
    Channels.channel_verdict Manager.get_credential Manager.channel_credential Manager.key_at
    Attempt.with_credential Attempt.build_and_send_request Attempt.send Attempt.answer
    Attempt.error_status Attempt.fail_and_retry Attempt.handle_json_success
    Attempt.is_context_window_error
answered_in_error = refl

failed : (run_with 500).1 ≡ returned all_exhausted
unfolding dispatch model_refusal reserve_key RequestCache.get RequestCache.new get contains_key
    insert modify Plan.is_model_allowed_with_groups VirtualKey.is_model_allowed
    VirtualKey.is_model_denied Spend.roll_over RequestCache.can_read reserve reserve_spend
    check_request_cache register serve finish over_models Plan.base_chain Plan.build_fallback_chain
    Plan.resolve_model_retry_counts Plan.resolve_model_retry_config Plan.best_wildcard
    Fallback.merge Fallback.merge_all Fallback.resolve_fallback_chain Fallback.strip_date_suffix
    Fallback.split_last_dash Fallback.match_wildcards Fallback.once_each Fallback.is_wildcard_for
    sort_by insert_by Select.pre_flight_skip_model Select.may_serve Select.is_affine
    Select.select_channel_for_attempt Channel.is_available Channel.is_model_excluded
    Channel.all_keys Channel.recover_if_expired matches_glob Cooldown.is_in_cooldown Registry.get
    Loop.attempts Loop.turn Loop.attempt_on ProviderBudget.check_budget Attempt.try_channel_attempt
    Channels.check Channels.check_with_redis Channels.redis_verdict Channels.get_or_create
    Channels.channel_verdict Manager.get_credential Manager.channel_credential Manager.key_at
    Attempt.with_credential Attempt.build_and_send_request Attempt.send Attempt.answer
    Attempt.error_status Attempt.fail_and_retry Attempt.handle_json_success
    Attempt.is_context_window_error
failed = refl

-- The request of the runs, in the loop.
abbrev request : Request
request = request_with gateway incoming 3

abbrev start : AppState
start = prepared gateway (bytes "d") (bytes "m") incoming idle 7 key

abbrev looped : Progress
looped =
    over_models least fractions (λ s. s) (λ s. none) models (bytes "d") (bytes "m") (world_with 500)
      request (fallback_chain gateway incoming) (retry_counts gateway incoming) 0 start

abbrev ctx : DispatchContext
ctx = record {
  channel = steady;
  current_model = bytes "gpt-4o";
  session_id = some (bytes "s");
  vk_id = some 7;
  reserved_cents = 3;
  cache_key = 42;
  cache_key_material = bytes "gpt-4o";
}

abbrev tried : AppState × AttemptOutcome
tried = try_channel_attempt fractions (λ s. s) (λ s. none) models (world_with 200 0) ctx start

-- No request is in flight.
idle_fits : (id : ℕ) → ActiveRequests.get idle.active_requests id < max_u32
unfolding ActiveRequests.get get
idle_fits id = ground arith

idle_bounded : (id : ℕ) → ActiveRequests.get (routing_context idle).active_requests id ≤ max_u32
unfolding ActiveRequests.get get
idle_bounded id = ground arith

try_channel_attempt-Effect_example : Effect ctx (view start) (view tried.0) tried.1
try_channel_attempt-Effect_example =
    try_channel_attempt-Effect fractions (λ s. s) (λ s. none) models (world_with 200 0) ctx start

over_models-Ended_example : EndedAt request (ledger start) looped
over_models-Ended_example =
    over_models-Ended least fractions (λ s. s) (λ s. none) models (bytes "d") (bytes "m")
      (world_with 500) request (fallback_chain gateway incoming) (retry_counts gateway incoming) 0
      start

over_models-BalancedAt_example : BalancedAt 1 start looped
over_models-BalancedAt_example =
    over_models-BalancedAt least fractions (λ s. s) (λ s. none) models (bytes "d") (bytes "m")
      (world_with 500) request (fallback_chain gateway incoming) (retry_counts gateway incoming) 0 1
      start (idle_fits 1)

over_models_bounds_example :
    Made least fractions
      (λ s. s)
      (λ s. none)
      models
      (bytes "d")
      (bytes "m")
      (world_with 500)
      request
      0
      (min (0 + sum_by (λ n. n) (retry_counts gateway incoming)) (max 0 request.max_total_attempts))
      start
      looped
over_models_bounds_example =
    over_models_bounds least fractions (λ s. s) (λ s. none) models (bytes "d") (bytes "m")
      (world_with 500) request (fallback_chain gateway incoming) (retry_counts gateway incoming) 0
      start

abbrev chosen : Option Channel
chosen =
    select_channel_for_attempt least fractions clock (some 1) manager.channels (bytes "gpt-4o")
      weighted_random_type (routing_context idle) none

select_channel_for_attempt-IsServing_example :
    (chosen ≡ none)
    ⊎ IsServing least fractions clock manager.channels
        (bytes "gpt-4o")
        weighted_random_type
        (routing_context idle)
        none
        (some 1)
        chosen
select_channel_for_attempt-IsServing_example =
    select_channel_for_attempt-IsServing least fractions clock manager.channels (bytes "gpt-4o")
      weighted_random_type (routing_context idle) none (some 1) idle_bounded

abbrev wide : GatewayConfig
wide = record gateway {
  model_groups = (bytes "fast", bytes "a" ∷ bytes "b" ∷ []) ∷ [];
  context_window_fallbacks = (bytes "fast", bytes "b" ∷ bytes "c" ∷ []) ∷ [];
}

build_fallback_chain-Extends_example :
    Extends
      (base_chain (bytes "fast") true wide)
      (or_empty (get wide.context_window_fallbacks (bytes "fast")))
      (build_fallback_chain (bytes "fast") true wide)
build_fallback_chain-Extends_example = build_fallback_chain-Extends (bytes "fast") true wide

abbrev twice : ModelRetryConfig
twice = record { max_retries = some 2; retry_base_ms = none; retry_max_ms = none }

abbrev overrides : Map Str ModelRetryConfig
overrides = (bytes "gpt*", twice) ∷ (bytes "*", no_overrides) ∷ []

resolve_model_retry_config-IsLongest_example :
    ((cfg : ModelRetryConfig) × (get overrides (bytes "gpt-4o") ≡ some cfg)
      × (resolve_model_retry_config (bytes "gpt-4o") overrides ≡ cfg))
    ⊎ ((cfg : ModelRetryConfig) × (get overrides (bytes "gpt-4o") ≡ none)
        × (stripped_config (Fallback.strip_date_suffix (bytes "gpt-4o")) overrides ≡ some cfg)
        × (resolve_model_retry_config (bytes "gpt-4o") overrides ≡ cfg))
    ⊎ ((best : Option Override) × (get overrides (bytes "gpt-4o") ≡ none)
        × (stripped_config (Fallback.strip_date_suffix (bytes "gpt-4o")) overrides ≡ none)
        × IsLongest (Fallback.is_wildcard_for (bytes "gpt-4o")) overrides best
        × (resolve_model_retry_config (bytes "gpt-4o") overrides ≡ config_of best))
resolve_model_retry_config-IsLongest_example =
    resolve_model_retry_config-IsLongest (bytes "gpt-4o") overrides

dispatch-served_example :
    (get (run_with 200).0.virtual_keys 7
      ≡ some (charged_key gateway (bytes "d") (bytes "m") incoming key))
    × (is_registered 42 (run_with 200).0.in_flight ≡ false)
    × ((rec : TelemetryRecord) × ((run_with 200).0.background ≡ [] ++ rec ∷ [])
        × (rec.vk_id ≡ some 7)
        × ◌≡◌ {A = ℕ} rec.reserved_cents 3)
dispatch-served_example =
    dispatch-served least fractions (λ s. s) (λ s. none) models gateway (bytes "d") (bytes "m")
      (world_with 200) (λ st. st) incoming idle 7 key (bytes "{}") admitted served

dispatch-relayed_example :
    (get (run_with 401).0.virtual_keys 7
      ≡ some (charged_key gateway (bytes "d") (bytes "m") incoming key))
    × ((run_with 401).0.in_flight ≡ 42 ∷ 5 ∷ [])
    × ((run_with 401).0.background ≡ [])
dispatch-relayed_example =
    dispatch-relayed least fractions (λ s. s) (λ s. none) models gateway (bytes "d") (bytes "m")
      (world_with 401) (λ st. st) incoming idle 7 key 401 (bytes "no") admitted answered_in_error

dispatch-exhausted_example :
    ((k : VirtualKey) × (get (run_with 500).0.virtual_keys 7 ≡ some k)
      × (daily_spend (bytes "d") k ≡ daily_spend (bytes "d") key)
      × (monthly_spend (bytes "m") k ≡ monthly_spend (bytes "m") key)
      × (k.spend.total_cents ≡ key.spend.total_cents))
    × (is_registered 42 (run_with 500).0.in_flight ≡ false)
    × ((run_with 500).0.background ≡ [])
dispatch-exhausted_example =
    dispatch-exhausted least fractions (λ s. s) (λ s. none) models gateway (bytes "d") (bytes "m")
      (world_with 500) (λ st. st) incoming idle 7 key admitted failed (omega arith) (omega arith)
      (omega arith) (omega arith) (omega arith)

abbrev task : TelemetryRecord
task = record {
  channel_id = 1;
  provider_name = bytes "openai";
  input_tokens = some 3;
  output_tokens = none;
  cost_cents = 2;
  vk_id = some 7;
  reserved_cents = 3;
  latency_ms = 6;
}

run_task-settles_example :
    (k : VirtualKey) × (get
        (run_task fractions (bytes "d") (bytes "m") clock task start).virtual_keys
        7
      ≡ some k)
    × (daily_spend (bytes "d") k ≡ daily_spend (bytes "d") key + 2)
    × (monthly_spend (bytes "m") k ≡ monthly_spend (bytes "m") key + 2)
unfolding reserve_key Spend.roll_over get insert
run_task-settles_example =
    run_task-settles fractions (bytes "d") (bytes "m") clock start task 7 key refl (omega arith)
      refl refl (omega arith) (omega arith) (omega arith) (omega arith) (omega arith)
