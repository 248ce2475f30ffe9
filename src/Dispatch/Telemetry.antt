-- ===== src/Dispatch/Telemetry.antt =====
-- src-tauri/src/proxy/response.rs: what is recorded after a response.
use model_switch.Base.{
  eq_nat, eq_str, if◌then◌else◌, ltb, wrapping_add_u64, Str, ℕ, Option, none, some,
}
use model_switch.F64.{Floats}
use model_switch.Manager
use model_switch.Trackers.Latency
use model_switch.RateLimiter.Keys
use model_switch.Router.Select.{Clock}
use model_switch.VirtualKey.Spend.{reconcile_spend, accumulate_spend}
use model_switch.ProviderBudget
use model_switch.Dispatch.State.{AppState, TelemetryRecord}

abbrev or_zero : Option ℕ → ℕ
or_zero none = 0
or_zero (some n) = n

abbrev pub charge_key : Str → Str → ℕ → TelemetryRecord → ℕ → AppState → AppState
charge_key today this_month now rec vk st = record st {
  virtual_keys =
      if ltb 0 rec.reserved_cents
      then reconcile_spend vk rec.reserved_cents rec.cost_cents st.virtual_keys
      else accumulate_spend today this_month vk rec.cost_cents st.virtual_keys;
  key_rate_limiter =
      Keys.record_tokens now vk
        (wrapping_add_u64 (or_zero rec.input_tokens) (or_zero rec.output_tokens))
        st.key_rate_limiter;
}

abbrev pub charge_key_if : Str → Str → ℕ → TelemetryRecord → Option ℕ → AppState → AppState
charge_key_if today this_month now rec none st = st
charge_key_if today this_month now rec (some vk) st = charge_key today this_month now rec vk st

-- `record_post_response_telemetry`, less the quota store.
unfoldable pub record_post_response_telemetry :
    Str → Str → ℕ → TelemetryRecord → AppState → AppState
record_post_response_telemetry today this_month now rec st =
    let charged = charge_key_if today this_month now rec rec.vk_id st in
    record charged {
      provider_budgets =
          ProviderBudget.accumulate_spend today this_month rec.provider_name rec.cost_cents
            charged.provider_budgets;
    }

-- The task that is started with the response.
unfoldable pub run_task : Floats → Str → Str → Clock → TelemetryRecord → AppState → AppState
run_task f today this_month clock rec st =
    let recorded = record_post_response_telemetry today this_month clock.millis rec st in
    record recorded {
      manager = Manager.record_latency f clock.utc rec.channel_id rec.latency_ms recorded.manager;
      latency_tracker =
          Latency.record_with_tokens rec.channel_id rec.latency_ms rec.output_tokens
            recorded.latency_tracker;
    }
