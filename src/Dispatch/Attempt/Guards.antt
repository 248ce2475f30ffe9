-- ===== src/Dispatch/Attempt/Guards.antt =====
-- src-tauri/src/proxy/attempt.rs: the guard of an attempt.
use model_switch.Base.{
  eq_nat, eq_str, if◌then◌else◌, max_u32, nat_beq, Str, ℕ, ◌<◌, ◌≡◌, refl, ap, ◌∙◌, Bool, true,
  false, not, Option, none, some, arith,
}
use model_switch.F64.{Floats}
use model_switch.Channel.{Channel}
use model_switch.Manager
use model_switch.Manager.{ChannelManager, Outcome, returned, panicked}
use model_switch.Trackers.ActiveRequests
use model_switch.Trackers.ActiveRequests.{increment, decrement, get-increment, get-decrement}
use model_switch.RateLimiter.Channels
use model_switch.Registry
use model_switch.Registry.{ModelRegistry}
use model_switch.Dispatch.State.{AppState, DispatchContext, Upstream, World, AttemptOutcome}
use model_switch.Dispatch.Attempt.{
  is_context_window_error, is_server_error, is_success, fail_and_retry, rate_limited, error_status,
  record_success_side_effects, record_cache_entry, handle_json_success, answer, reply_or_fail,
  drop_guard, send, build_and_send_request, is_too_long, with_credential, try_channel_attempt,
}

-- The counters of requests in flight.
abbrev KeepsActive : AppState → AppState × AttemptOutcome → Type 0
KeepsActive st p = p.0.active_requests ≡ st.active_requests

if-KeepsActive :
    (st : AppState) (b : Bool) (p q : AppState × AttemptOutcome)
    → KeepsActive st p
    → KeepsActive st q
    → KeepsActive st (if b then p else q)
if-KeepsActive st true p q x y = x
if-KeepsActive st false p q x y = y

dropped :
    (channel : Channel) (id : ℕ) (st : AppState) (p : AppState × AttemptOutcome)
    → ActiveRequests.get st.active_requests id < max_u32
    → p.0.active_requests ≡ increment channel.id st.active_requests
    → ActiveRequests.get (drop_guard channel p).0.active_requests id
      ≡ ActiveRequests.get st.active_requests id
dropped channel id st p fits e =
    ap (λ counts. ActiveRequests.get (decrement channel.id counts) id) e
    ∙ get-decrement (increment channel.id st.active_requests) channel.id id
    ∙ ground (arith, get-increment st.active_requests channel.id id, fits)

module _ (f : Floats) (lower : Str → Str) (w : World) (ctx : DispatchContext) where
  reply_or_fail-KeepsActive :
      (r : Option Upstream) (st : AppState) → KeepsActive st (reply_or_fail f lower w ctx r st)
  unfolding fail_and_retry rate_limited error_status answer handle_json_success record_cache_entry
      record_success_side_effects
  reply_or_fail-KeepsActive none st = refl
  reply_or_fail-KeepsActive (some r) st =
      if-KeepsActive st (is_success r.status) _ _ (if-KeepsActive st r.is_blocked _ _ refl refl) (
        if-KeepsActive st (nat_beq r.status 429) _ _ refl (
          if-KeepsActive st (is_server_error r.status) _ _ refl
            (if-KeepsActive st (is_context_window_error lower r.status r.body_text) _ _ refl refl)))

  abbrev pub IsBalanced : ℕ → AppState → AppState × AttemptOutcome → Type 0
  IsBalanced id st p =
      ActiveRequests.get p.0.active_requests id ≡ ActiveRequests.get st.active_requests id

  if-IsBalanced :
      (id : ℕ) (st : AppState) (b : Bool) (p q : AppState × AttemptOutcome)
      → IsBalanced id st p
      → IsBalanced id st q
      → IsBalanced id st (if b then p else q)
  if-IsBalanced id st true p q x y = x
  if-IsBalanced id st false p q x y = y

  build_and_send_request-IsBalanced :
      (id : ℕ) (st : AppState)
      → ActiveRequests.get st.active_requests id < max_u32
      → IsBalanced id st (build_and_send_request f lower w ctx st)
  unfolding build_and_send_request send fail_and_retry
  build_and_send_request-IsBalanced id st fits =
      let sent : AppState = record st {
        active_requests = increment ctx.channel.id st.active_requests;
        rate_limiter =
            Channels.record_request w.later.millis ctx.channel.id w.estimated_tokens
              st.rate_limiter;
      } in
      if-IsBalanced id st w.client_is_built _ _
        (dropped ctx.channel id st (reply_or_fail f lower w ctx w.reply sent) fits
          (reply_or_fail-KeepsActive w.reply sent))
        refl

module _ (f : Floats) (lower : Str → Str) (stored : Str → Option Str) (registry : ModelRegistry)
    (w : World) (ctx : DispatchContext) where
  with_credential-IsBalanced :
      (id : ℕ) (credential : Outcome (Option Str)) (st : AppState)
      → ActiveRequests.get st.active_requests id < max_u32
      → IsBalanced f lower w ctx id st (with_credential f lower stored registry w ctx credential st)
  unfolding with_credential fail_and_retry
  with_credential-IsBalanced id panicked st fits = refl
  with_credential-IsBalanced id (returned none) st fits = refl
  with_credential-IsBalanced id (returned (some api_key)) st fits =
      if-IsBalanced f lower w ctx id st (is_too_long w (Registry.get registry ctx.current_model)) _
        _ refl (build_and_send_request-IsBalanced f lower w ctx id st fits)

  -- An attempt ends with as many requests in flight on every channel as it began with, whatever its
  -- outcome, where the 32-bit counter of the channel is not full.
  pub try_channel_attempt-IsBalanced :
      (id : ℕ) (st : AppState)
      → ActiveRequests.get st.active_requests id < max_u32
      → IsBalanced f lower w ctx id st (try_channel_attempt f lower stored registry w ctx st)
  unfolding try_channel_attempt
  try_channel_attempt-IsBalanced id st fits =
      let (limiter, verdict) =
        Channels.check w.redis w.clock.millis ctx.channel.id w.estimated_tokens st.rate_limiter in
      let (manager, credential) = Manager.get_credential stored ctx.channel.id st.manager in
      let next : AppState = record st { rate_limiter = limiter; manager = manager } in
      if-IsBalanced f lower w ctx id st (not verdict.0) _ _ refl
        (with_credential-IsBalanced id credential next fits)
