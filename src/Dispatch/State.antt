-- ===== src/Dispatch/State.antt =====
-- `AppState` of src-tauri/src/proxy/mod.rs, as far as dispatching a request reads and writes it, what a
-- request is about, and what an attempt on a channel meets outside of the state.
use model_switch.Base.{eq_nat, eq_str, Str, ℕ, Bool, Option, List}
use model_switch.Base.Map.{Map}
use model_switch.Channel.{Channel}
use model_switch.Manager.{ChannelManager}
use model_switch.Trackers.ActiveRequests.{ActiveRequests}
use model_switch.Trackers.Cooldown.{CooldownTracker}
use model_switch.Trackers.Latency.{LatencyTracker}
use model_switch.RateLimiter.Channels.{RateLimiter, Redis}
use model_switch.RateLimiter.Keys.{KeyRateLimiter}
use model_switch.Router.Strategy.{RoutingStrategyType}
use model_switch.Router.Select.{RoutingContext, Clock}
use model_switch.Router.Affinity.{AffinityState}
use model_switch.VirtualKey.{VirtualKey}
use model_switch.ProviderBudget.{ProviderBudgetStore}
use model_switch.RequestCache.{RequestCache}
use model_switch.RequestCache.InFlight.{InFlight}
use model_switch.Registry.{ModelCapabilities}

-- What is recorded after a response: the work of the task that `handle_json_success` starts. The cost
-- is in whole cents.
pub record TelemetryRecord : Type 0 where
  pub channel_id : ℕ
  pub provider_name : Str
  pub input_tokens : Option ℕ
  pub output_tokens : Option ℕ
  pub cost_cents : ℕ
  pub vk_id : Option ℕ
  pub reserved_cents : ℕ
  pub latency_ms : ℕ

-- `background` holds the tasks that are started and have not run.
pub record AppState : Type 0 where
  pub manager : ChannelManager
  pub cooldown_tracker : CooldownTracker
  pub active_requests : ActiveRequests
  pub rate_limiter : RateLimiter
  pub latency_tracker : LatencyTracker
  pub session_affinity : AffinityState
  pub virtual_keys : Map ℕ VirtualKey
  pub key_rate_limiter : KeyRateLimiter
  pub provider_budgets : ProviderBudgetStore
  pub request_cache : RequestCache
  pub in_flight : InFlight
  pub background : List TelemetryRecord

abbrev pub routing_context : AppState → RoutingContext
routing_context st = record {
  active_requests = st.active_requests;
  rate_limiter = st.rate_limiter;
  latency_tracker = st.latency_tracker;
  cooldown_tracker = st.cooldown_tracker;
}

-- `DispatchContext`, less what is only logged or translated. Streaming requests are not modelled.
pub record DispatchContext : Type 0 where
  pub channel : Channel
  pub current_model : Str
  pub session_id : Option Str
  pub vk_id : Option ℕ
  pub reserved_cents : ℕ
  pub cache_key : ℕ
  pub cache_key_material : Str

-- The response of an upstream server. The body after its translation, what the guardrails say of it,
-- the tokens that it reports and their cost are given with it.
pub record Upstream : Type 0 where
  pub status : ℕ
  pub retry_after_secs : Option ℕ
  pub body_text : Str
  pub response_str : Str
  pub is_blocked : Bool
  pub input_tokens : Option ℕ
  pub output_tokens : Option ℕ
  pub cost_cents : ℕ

-- What one attempt meets: the clocks when it starts and when the response is there, the strategy in
-- force, the answers of Redis, the estimate of its tokens, the length of the body that is left of the
-- request for a model, whether the client for the channel's proxy could be built, and the response,
-- `none` for a transport error.
pub record World : Type 0 where
  pub clock : Clock
  pub later : Clock
  pub routing_strategy : RoutingStrategyType
  pub redis : Option Redis
  pub estimated_tokens : ℕ
  pub body_len : ModelCapabilities → ℕ
  pub client_is_built : Bool
  pub reply : Option Upstream
  pub latency_ms : ℕ

pub data Response : Type 0 where
  json : Str → Response
  relayed refused : ℕ → Str → Response
  all_exhausted : Response

-- `crashed` stands for a panic.
pub data AttemptOutcome : Type 0 where
  respond : Response → AttemptOutcome
  retry context_overflow crashed : AttemptOutcome
