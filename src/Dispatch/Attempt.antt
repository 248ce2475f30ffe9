-- ===== src/Dispatch/Attempt.antt =====
-- src-tauri/src/proxy/attempt.rs and the non-streaming part of response.rs: one attempt to serve a
-- request on a channel. Logs and metrics are left out.
pub mod Guards
pub mod Effects
use model_switch.Base.{
  contains, In-append_left, In-append_right, All, All-In, All-append, All-of_In, Bool-cases, In,
  In-append, In-filter, In-filter_of, In-get_elem?, In-take, Option-cases, any, as_u32, bytes,
  clamp, div_ceil, eq_nat, eq_str, filter, get_elem?, get_elem?-lt, if◌then◌else◌, is_empty,
  is_some, last, leb, leb→le, length, length-append, length-replicate, length-set, length-take-le,
  ltb, ltb→lt, max_u32, max_u64, nat_beq, nat_beq_iff, replicate, saturating_add_u64,
  saturating_mul_u32, saturating_pow_u32, saturating_sub, set, some_inj, starts_with, str_beq,
  str_beq_iff, str_beq_refl, sum_by, sum_u64, take, wrapping_add_u32, wrapping_add_u64, ◌==◌,
  PartialEq, Str, ℕ, zero, suc, ◌+◌, ◌-◌, ◌*◌, ◌/◌, ◌%◌, ◌^◌, ◌≤◌, ◌<◌, min, max, compare, Ordering,
  ◌≡◌, refl, sym, ap, ap₂, ◌∙◌, subst, ◌≢◌, ◌↔◌, ◌⊎◌, inl, inr, Bool, true, false, not, ◌&&◌, ◌||◌,
  Option, none, some, List, [], ◌∷◌, ◌++◌, map, arith,
}
use model_switch.F64.{Floats}
use model_switch.Channel.{Channel}
use model_switch.Channel.Names.{as_str}
use model_switch.Manager
use model_switch.Manager.{Outcome, returned, panicked}
use model_switch.Trackers.ActiveRequests.{increment, decrement}
use model_switch.Trackers.Cooldown.{record_attempt}
use model_switch.Trackers.Latency
use model_switch.RateLimiter.Channels
use model_switch.RateLimiter.Keys
use model_switch.Router.Select.{Clock}
use model_switch.Router.Affinity.{AffinityState, set_channel}
use model_switch.VirtualKey.Spend.{reconcile_spend, accumulate_spend}
use model_switch.ProviderBudget
use model_switch.RequestCache
use model_switch.RequestCache.InFlight.{complete}
use model_switch.Registry
use model_switch.Registry.{ModelRegistry, ModelCapabilities}
use model_switch.Dispatch.State.{
  AppState, DispatchContext, Upstream, World, TelemetryRecord, Response, json, relayed, refused,
  AttemptOutcome, respond, retry, context_overflow, crashed,
}

-- `str::to_lowercase` is a parameter.
unfoldable pub is_context_window_error : (Str → Str) → ℕ → Str → Bool
is_context_window_error lower status body =
    let body_lower = lower body in
    if not (nat_beq status 400) && not (nat_beq status 413)
    then false
    else if contains body_lower (bytes "maximum context length")
        || (contains body_lower (bytes "context_length_exceeded")
            || (contains body_lower (bytes "context length exceeded")
                || contains body_lower (bytes "reduce the length of the messages")))
    then true
    else if contains body_lower (bytes "prompt is too long")
    then true
    else contains body_lower (bytes "context window")
      && (contains body_lower (bytes "exceed") || contains body_lower (bytes "limit"))

unfoldable pub is_stream_error_chunk : Str → Bool
is_stream_error_chunk chunk =
    if contains chunk (bytes "event: error")
    then true
    else if contains chunk (bytes "\"type\":\"error\"")
        || contains chunk (bytes "\"type\": \"error\"")
    then true
    else contains chunk (bytes "\"error\"") && not (contains chunk (bytes "\"choices\""))

abbrev pub is_server_error : ℕ → Bool
is_server_error status = leb 500 status && ltb status 600

abbrev pub is_success : ℕ → Bool
is_success status = leb 200 status && ltb status 300

module _ (f : Floats) where
  unfoldable pub fail_and_retry : Clock → Channel → AppState → AppState × AttemptOutcome
  fail_and_retry clock channel st = (
    record st {
      manager = Manager.mark_circuit_open clock.utc channel.id st.manager;
      cooldown_tracker = record_attempt f clock.instant channel.id false st.cooldown_tracker;
    },
    retry,
  )

  -- The branch of a 429.
  unfoldable pub rate_limited :
      Clock → DispatchContext → Option ℕ → AppState → AppState × AttemptOutcome
  rate_limited clock ctx retry_after_secs st =
      let cooled =
        Manager.mark_model_rate_limited clock.utc ctx.channel.id ctx.current_model retry_after_secs
          st.manager in
      (
        record st {
          manager =
              Manager.mark_circuit_open_with_retry clock.utc ctx.channel.id retry_after_secs cooled;
          cooldown_tracker =
              record_attempt f clock.instant ctx.channel.id false st.cooldown_tracker;
        },
        retry,
      )

abbrev pub client_error : (Str → Str) → Upstream → AppState → AppState × AttemptOutcome
client_error lower r st =
    if is_context_window_error lower r.status r.body_text
    then (st, context_overflow)
    else (st, respond (relayed r.status r.body_text))

abbrev pub touch_session : ℕ → ℕ → Option Str → AffinityState → AffinityState
touch_session now channel_id none sessions = sessions
touch_session now channel_id (some sid) sessions = set_channel now sid channel_id sessions

unfoldable pub record_success_side_effects : Floats → Clock → DispatchContext → AppState → AppState
record_success_side_effects f clock ctx st = record st {
  cooldown_tracker = record_attempt f clock.instant ctx.channel.id true st.cooldown_tracker;
  session_affinity = touch_session clock.instant ctx.channel.id ctx.session_id st.session_affinity;
}

unfoldable pub record_cache_entry : Clock → DispatchContext → Str → AppState → AppState
record_cache_entry clock ctx body st = record st {
  request_cache =
      RequestCache.insert clock.instant ctx.cache_key ctx.cache_key_material body st.request_cache;
  in_flight = complete ctx.cache_key st.in_flight;
}

abbrev pub telemetry_of : World → DispatchContext → Upstream → TelemetryRecord
telemetry_of w ctx r = record {
  channel_id = ctx.channel.id;
  provider_name = as_str ctx.channel.provider;
  input_tokens = r.input_tokens;
  output_tokens = r.output_tokens;
  cost_cents = r.cost_cents;
  vk_id = ctx.vk_id;
  reserved_cents = ctx.reserved_cents;
  latency_ms = w.latency_ms;
}

unfoldable pub handle_json_success :
    World → DispatchContext → Upstream → AppState → AppState × AttemptOutcome
handle_json_success w ctx r st =
    let cached = record_cache_entry w.later ctx r.response_str st in
    if r.is_blocked then (st, respond (refused 403 (bytes "guardrails_response_blocked"))) else (
      record cached { background = cached.background ++ telemetry_of w ctx r ∷ [] },
      respond (json r.response_str),
    )

-- The guard is dropped when the attempt is over.
abbrev pub drop_guard : Channel → AppState × AttemptOutcome → AppState × AttemptOutcome
drop_guard channel (st, outcome) =
    (record st { active_requests = decrement channel.id st.active_requests }, outcome)

abbrev pub is_too_long : World → ModelCapabilities → Bool
is_too_long w caps = elim caps.max_context_tokens [
  | none ↦ false
  | some max_context ↦ ltb max_context (w.body_len caps / 4)
]

module _ (f : Floats) (lower : Str → Str) where
  -- `check_error_status`, on a response that it ends the attempt with.
  unfoldable pub error_status :
      Clock → DispatchContext → Upstream → AppState → AppState × AttemptOutcome
  error_status clock ctx r st =
      if nat_beq r.status 429
      then rate_limited f clock ctx r.retry_after_secs st
      else if is_server_error r.status
      then fail_and_retry f clock ctx.channel st
      else client_error lower r st

  -- The attempt once there is a response.
  unfoldable pub answer : World → DispatchContext → Upstream → AppState → AppState × AttemptOutcome
  answer w ctx r st =
      if is_success r.status
      then handle_json_success w ctx r (record_success_side_effects f w.later ctx st)
      else error_status w.later ctx r st

  abbrev pub reply_or_fail :
      World → DispatchContext → Option Upstream → AppState → AppState × AttemptOutcome
  reply_or_fail w ctx none st = fail_and_retry f w.later ctx.channel st
  reply_or_fail w ctx (some r) st = answer w ctx r st

  -- `send_with_timeout` and what follows it.
  unfoldable pub send : World → DispatchContext → AppState → AppState × AttemptOutcome
  send w ctx st =
      let sent : AppState = record st {
        active_requests = increment ctx.channel.id st.active_requests;
        rate_limiter =
            Channels.record_request w.later.millis ctx.channel.id w.estimated_tokens
              st.rate_limiter;
      } in
      drop_guard ctx.channel (reply_or_fail w ctx w.reply sent)

  unfoldable pub build_and_send_request :
      World → DispatchContext → AppState → AppState × AttemptOutcome
  build_and_send_request w ctx st =
      if w.client_is_built then send w ctx st else fail_and_retry f w.clock ctx.channel st

module _ (f : Floats) (lower : Str → Str) (stored : Str → Option Str)
    (registry : ModelRegistry) where
  -- The attempt with what the look-up of the credential came back with.
  unfoldable pub with_credential :
      World → DispatchContext → Outcome (Option Str) → AppState → AppState × AttemptOutcome
  with_credential w ctx panicked st = (st, crashed)
  with_credential w ctx (returned none) st = fail_and_retry f w.clock ctx.channel st
  with_credential w ctx (returned (some api_key)) st =
      if is_too_long w (Registry.get registry ctx.current_model)
      then (st, context_overflow)
      else build_and_send_request f lower w ctx st

  unfoldable pub try_channel_attempt :
      World → DispatchContext → AppState → AppState × AttemptOutcome
  try_channel_attempt w ctx st =
      let (limiter, verdict) =
        Channels.check w.redis w.clock.millis ctx.channel.id w.estimated_tokens st.rate_limiter in
      let checked : AppState = record st { rate_limiter = limiter } in
      let (manager, credential) = Manager.get_credential stored ctx.channel.id checked.manager in
      if not verdict.0
      then (checked, retry)
      else with_credential w ctx credential (record checked { manager = manager })
