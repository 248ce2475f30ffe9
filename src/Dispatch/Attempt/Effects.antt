-- ===== src/Dispatch/Attempt/Effects.antt =====
-- src-tauri/src/proxy/attempt.rs: what an attempt on a channel leaves behind, by its outcome.
use model_switch.Base.{
  eq_nat, eq_str, if◌then◌else◌, nat_beq, Str, ℕ, ◌≡◌, refl, ap, subst, Bool, true, false, not,
  Option, none, some, List, [], ◌∷◌, ◌++◌,
}
use model_switch.Base.Map.{Map}
use model_switch.F64.{Floats}
use model_switch.Channel.{Channel}
use model_switch.Manager
use model_switch.Manager.{ChannelManager, Outcome, returned, panicked}
use model_switch.Manager.Breaker.{channels-get_credential}
use model_switch.Trackers.ActiveRequests.{increment}
use model_switch.Trackers.Cooldown.{CooldownTracker}
use model_switch.Trackers.Latency.{LatencyTracker}
use model_switch.RateLimiter.Channels
use model_switch.RateLimiter.Keys.{KeyRateLimiter}
use model_switch.Router.Select.{Clock}
use model_switch.Router.Affinity.{AffinityState}
use model_switch.VirtualKey.{VirtualKey}
use model_switch.ProviderBudget.{ProviderBudgetStore}
use model_switch.RequestCache.{RequestCache}
use model_switch.RequestCache.InFlight.{InFlight, complete}
use model_switch.Registry
use model_switch.Registry.{ModelRegistry}
use model_switch.Dispatch.State.{
  AppState, DispatchContext, Upstream, World, TelemetryRecord, json, relayed, refused,
  all_exhausted, AttemptOutcome, respond, retry, context_overflow, crashed,
}
use model_switch.Dispatch.Attempt.{
  is_context_window_error, is_server_error, is_success, fail_and_retry, rate_limited, error_status,
  record_success_side_effects, record_cache_entry, telemetry_of, handle_json_success, answer,
  reply_or_fail, send, build_and_send_request, is_too_long, with_credential, try_channel_attempt,
}

-- What the money of the gateway depends on.
pub record Books : Type 0 where
  pub virtual_keys : Map ℕ VirtualKey
  pub key_rate_limiter : KeyRateLimiter
  pub provider_budgets : ProviderBudgetStore
  pub latency_tracker : LatencyTracker

-- What coalesced requests and later ones are served from.
pub record Desk : Type 0 where
  pub request_cache : RequestCache
  pub in_flight : InFlight
  pub background : List TelemetryRecord

-- How the channels stand.
pub record Standing : Type 0 where
  pub channels : Map ℕ Channel
  pub cooldown_tracker : CooldownTracker

abbrev pub books : AppState → Books
books st = record {
  virtual_keys = st.virtual_keys;
  key_rate_limiter = st.key_rate_limiter;
  provider_budgets = st.provider_budgets;
  latency_tracker = st.latency_tracker;
}

abbrev pub desk : AppState → Desk
desk st = record {
  request_cache = st.request_cache;
  in_flight = st.in_flight;
  background = st.background;
}

abbrev pub standing : AppState → Standing
standing st = record { channels = st.manager.channels; cooldown_tracker = st.cooldown_tracker }

-- The part of the state that the outcome of an attempt says something of.
pub record View : Type 0 where
  pub of_books : Books
  pub of_desk : Desk
  pub of_standing : Standing
  pub of_sessions : AffinityState

abbrev pub view : AppState → View
view st = record {
  of_books = books st;
  of_desk = desk st;
  of_standing = standing st;
  of_sessions = st.session_affinity;
}

-- The desk after a response that is cached, and the work that is left to the background.
abbrev pub IsServed : ℕ → Option ℕ → ℕ → Desk → Desk → Type 0
IsServed cache_key vk_id reserved_cents before after =
    (after.in_flight ≡ complete cache_key before.in_flight)
    × ((rec : TelemetryRecord) × (after.background ≡ before.background ++ rec ∷ [])
        × (rec.vk_id ≡ vk_id)
        × (rec.reserved_cents ≡ reserved_cents))

abbrev pub Effect : DispatchContext → View → View → AttemptOutcome → Type 0
Effect ctx before after (respond (json body)) =
    (after.of_books ≡ before.of_books)
    × IsServed ctx.cache_key ctx.vk_id ctx.reserved_cents before.of_desk after.of_desk
Effect ctx before after (respond (relayed status body)) = after ≡ before
Effect ctx before after (respond (refused status code)) =
    (after.of_books ≡ before.of_books) × (after.of_desk ≡ before.of_desk)
Effect ctx before after (respond all_exhausted) = ⊥
Effect ctx before after retry =
    (after.of_books ≡ before.of_books)
    × (after.of_desk ≡ before.of_desk)
    × (after.of_sessions ≡ before.of_sessions)
Effect ctx before after context_overflow = after ≡ before
Effect ctx before after crashed = after ≡ before

module _ (f : Floats) (lower : Str → Str) (stored : Str → Option Str) (registry : ModelRegistry)
    (w : World) (ctx : DispatchContext) where
  abbrev Does : AppState → AppState × AttemptOutcome → Type 0
  Does st p = Effect ctx (view st) (view p.0) p.1

  if-Does :
      (st : AppState) (b : Bool) (p q : AppState × AttemptOutcome)
      → Does st p
      → Does st q
      → Does st (if b then p else q)
  if-Does st true p q x y = x
  if-Does st false p q x y = y

  fail_and_retry-Does :
      (clock : Clock) (st : AppState) → Does st (fail_and_retry f clock ctx.channel st)
  unfolding fail_and_retry
  fail_and_retry-Does clock st = (refl, refl, refl)

  error_status-Does :
      (clock : Clock) (r : Upstream) (st : AppState) → Does st (error_status f lower clock ctx r st)
  unfolding error_status rate_limited
  error_status-Does clock r st =
      if-Does st (nat_beq r.status 429) _ _ (refl, refl, refl)
        (if-Does st (is_server_error r.status) _ _ (fail_and_retry-Does clock st)
          (if-Does st (is_context_window_error lower r.status r.body_text) _ _ refl refl))

  success-Does :
      (r : Upstream) (st : AppState)
      → Does st (handle_json_success w ctx r (record_success_side_effects f w.later ctx st))
  unfolding handle_json_success record_cache_entry record_success_side_effects
  success-Does r st =
      if-Does st r.is_blocked _ _ (refl, refl)
        (refl, (refl, (telemetry_of w ctx r, refl, refl, refl)))

  answer-Does : (r : Upstream) (st : AppState) → Does st (answer f lower w ctx r st)
  unfolding answer
  answer-Does r st =
      if-Does st (is_success r.status) _ _ (success-Does r st) (error_status-Does w.later r st)

  reply_or_fail-Does :
      (r : Option Upstream) (st : AppState) → Does st (reply_or_fail f lower w ctx r st)
  reply_or_fail-Does none st = fail_and_retry-Does w.later st
  reply_or_fail-Does (some r) st = answer-Does r st

  send-Does : (st : AppState) → Does st (send f lower w ctx st)
  unfolding send
  send-Does st = reply_or_fail-Does w.reply (record st {
    active_requests = increment ctx.channel.id st.active_requests;
    rate_limiter =
        Channels.record_request w.later.millis ctx.channel.id w.estimated_tokens st.rate_limiter;
  })

  build_and_send_request-Does : (st : AppState) → Does st (build_and_send_request f lower w ctx st)
  unfolding build_and_send_request
  build_and_send_request-Does st =
      if-Does st w.client_is_built _ _ (send-Does st) (fail_and_retry-Does w.clock st)

  with_credential-Does :
      (credential : Outcome (Option Str)) (st : AppState)
      → Does st (with_credential f lower stored registry w ctx credential st)
  unfolding with_credential
  with_credential-Does panicked st = refl
  with_credential-Does (returned none) st = fail_and_retry-Does w.clock st
  with_credential-Does (returned (some api_key)) st =
      if-Does st (is_too_long w (Registry.get registry ctx.current_model)) _ _ refl
        (build_and_send_request-Does st)

  -- What an attempt leaves behind, by its outcome. No attempt changes what a key has spent, the token
  -- counts of the keys, the spend of the providers or the latencies. A response that is served from
  -- the upstream server completes the request for its coalesced waiters and leaves one record to
  -- the background, of the request's key and reservation. Every other outcome leaves the cache, the
  -- requests in flight and the background as they were. A response with the client's error, a
  -- context overflow and a panic leave also every channel, its cooldown and the sessions as they were,
  -- and a failure that is tried again leaves the sessions.
  pub try_channel_attempt-Effect :
      (st : AppState)
      → Effect ctx
          (view st)
          (view (try_channel_attempt f lower stored registry w ctx st).0)
          (try_channel_attempt f lower stored registry w ctx st).1
  unfolding try_channel_attempt
  try_channel_attempt-Effect st =
      let (limiter, verdict) =
        Channels.check w.redis w.clock.millis ctx.channel.id w.estimated_tokens st.rate_limiter in
      let (manager, credential) = Manager.get_credential stored ctx.channel.id st.manager in
      let next : AppState = record st { rate_limiter = limiter; manager = manager } in
      let same : view next ≡ view st =
        ap
          (λ channels. record (view st) {
            of_standing = record { channels = channels; cooldown_tracker = st.cooldown_tracker };
          })
          (channels-get_credential stored ctx.channel.id st.manager) in
      if-Does st (not verdict.0) _ _ (refl, refl, refl)
        (subst
          (λ v.
            Effect ctx v (view (with_credential f lower stored registry w ctx credential next).0)
              (with_credential f lower stored registry w ctx credential next).1)
          same (with_credential-Does credential next))
