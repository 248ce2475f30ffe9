-- ===== src/Dispatch/Request/Settled.antt =====
-- src-tauri/src/proxy/dispatch.rs: what an admitted request has cost its key when it is answered, and
-- what it leaves to the requests that wait for it.
use model_switch.Base.{
  eq_nat, eq_str, ltb, nat_beq, Str, ℕ, ◌+◌, ◌^◌, ◌<◌, ◌≡◌, refl, sym, ap, ◌∙◌, subst, true, false,
  Option, none, some, [], ◌∷◌, ◌++◌, arith,
}
use model_switch.Base.Map.{Map, get, get-insert_self, get-modify, beq_refl}
use model_switch.F64.{Floats}
use model_switch.Manager.{Outcome, returned, panicked}
use model_switch.Router.Weighted.{Rng}
use model_switch.VirtualKey.{VirtualKey, daily_spend, monthly_spend}
use model_switch.VirtualKey.Spend.{reconcile_spend, reconcile_key}
use model_switch.VirtualKey.Settle.{reconcile_key-reserve_key}
use model_switch.RequestCache.InFlight.{InFlight, complete, is_registered}
use model_switch.Registry.{ModelRegistry}
use model_switch.Dispatch.Plan.{GatewayConfig}
use model_switch.Dispatch.State.{
  AppState, World, TelemetryRecord, Response, json, relayed, refused, all_exhausted,
}
use model_switch.Dispatch.Loop.{
  Request, Progress, answered, again, next_model, stopped, over_models,
}
use model_switch.Dispatch.Attempt.Effects.{IsServed, desk}
use model_switch.Dispatch.Loop.Effects.{Ledger, ledger, Ended, over_models-Ended}
use model_switch.Dispatch.Request.{
  Incoming, refund, exhausted, finish, canonical_model, fallback_chain, retry_counts, request_with,
  dispatch,
}
use model_switch.Dispatch.Request.Admitted.{IsAdmitted, charged_key, prepared, dispatch-admitted}

is_registered-complete : (key : ℕ) (keys : InFlight) → is_registered key (complete key keys) ≡ false
unfolding complete
is_registered-complete key [] = refl
is_registered-complete key (k ∷ keys) = ground (arith, is_registered-complete key keys)

-- Reconciling a reservation on the store, where the two amounts differ.
pub get-reconcile_spend :
    (id cost actual : ℕ) (vk : VirtualKey) (keys : Map ℕ VirtualKey)
    → nat_beq cost actual ≡ false
    → get keys id ≡ some vk
    → get (reconcile_spend id cost actual keys) id ≡ some (reconcile_key cost actual vk)
unfolding reconcile_spend
get-reconcile_spend id cost actual vk keys differ held =
    rw differ (get-modify keys id id (reconcile_key cost actual) ∙ rw (beq_refl id, held) refl)

-- How the request of a reservation ends, by the response.
abbrev Settles : Request → Ledger → AppState → Outcome Response → Type 0
Settles req before after (returned (json body)) =
    ((ledger after).of_books ≡ before.of_books)
    × IsServed req.cache_key req.vk_id req.reserved_cents before.of_desk (desk after)
Settles req before after (returned (relayed status body)) = ledger after ≡ before
Settles req before after (returned (refused status code)) = ledger after ≡ before
Settles req before after (returned all_exhausted) =
    (st : AppState) × (ledger st ≡ before) × (after ≡ (exhausted req st).0)
Settles req before after panicked = ledger after ≡ before

finish-Settles :
    (req : Request) (before : Ledger) (p : Progress)
    → Ended req before (ledger p.0) p.1.1
    → Settles req before (finish req p).0 (finish req p).1
unfolding finish
finish-Settles req before (st, (total, answered (json body))) e = e
finish-Settles req before (st, (total, answered (relayed status body))) e = e
finish-Settles req before (st, (total, answered (refused status code))) e = e
finish-Settles req before (st, (total, answered all_exhausted)) e = absurd e
finish-Settles req before (st, (total, again)) e = (st, e, refl)
finish-Settles req before (st, (total, next_model)) e = (st, e, refl)
finish-Settles req before (st, (total, stopped)) e = e

module _ (rng : Rng) (f : Floats) (lower : Str → Str) (stored : Str → Option Str)
    (registry : ModelRegistry) (g : GatewayConfig) (today this_month : Str) (world : ℕ → World)
    (waiting : AppState → AppState) (inc : Incoming) where
  abbrev run : AppState → AppState × Outcome Response
  run = dispatch rng f lower stored registry g today this_month world waiting inc

  abbrev own_key : ℕ
  own_key = inc.cache_key (canonical_model g inc)

  exhausted-key :
      (end : AppState) (cost : ℕ) {id : ℕ} (vk : VirtualKey)
      → inc.vk_id ≡ some id
      → 0 < cost
      → get end.virtual_keys id ≡ some vk
      → get (exhausted (request_with g inc cost) end).0.virtual_keys id
        ≡ some (reconcile_key cost 0 vk)
  exhausted-key end cost {id} vk keyed positive held =
      let charged : ltb 0 cost ≡ true = ground (arith, positive) in
      rw (keyed, charged)
        (get-reconcile_spend id cost 0 vk end.virtual_keys (ground (arith, positive)) held)

  exhausted-background :
      (end : AppState) (cost : ℕ)
      → (exhausted (request_with g inc cost) end).0.background ≡ end.background
  exhausted-background end cost =
      elim inc.vk_id as (λ vk. (refund vk cost end).background ≡ end.background) [
        | none ↦ refl
        | some vk ↦ refl
      ]

  dispatch-Settles :
      (st : AppState) (id : ℕ) (key : VirtualKey) (response : Outcome Response)
      → IsAdmitted g today this_month inc st id key
      → (run st).1 ≡ response
      → Settles
          (request_with g inc inc.estimated_cost_cents)
          (ledger (prepared g today this_month inc st id key))
          (run st).0
          response
  dispatch-Settles st id key response a e =
      let req = request_with g inc inc.estimated_cost_cents in
      let start = prepared g today this_month inc st id key in
      let p =
        over_models rng f lower stored registry today this_month world req (fallback_chain g inc)
          (retry_counts g inc) 0 start in
      let ended =
        over_models-Ended rng f lower stored registry today this_month world req
          (fallback_chain g inc) (retry_counts g inc) 0 start in
      let same =
        dispatch-admitted rng f lower stored registry g today this_month world waiting inc st id key
          a in
      subst (λ r. Settles req (ledger start) (run st).0 r) e
        (subst (λ (q : AppState × Outcome Response). Settles req (ledger start) q.0 q.1) (sym same)
          (finish-Settles req (ledger start) p ended))

  -- A request that is admitted and answered from an upstream server leaves its key charged with the
  -- reservation, has completed its entry for the requests that wait for it, and leaves to the
  -- background one record, of its key and its reservation.
  pub dispatch-served :
      (st : AppState) (id : ℕ) (key : VirtualKey) (body : Str)
      → IsAdmitted g today this_month inc st id key
      → (run st).1 ≡ returned (json body)
      → (get (run st).0.virtual_keys id ≡ some (charged_key g today this_month inc key))
        × (is_registered own_key (run st).0.in_flight ≡ false)
        × ((rec : TelemetryRecord) × ((run st).0.background ≡ st.background ++ rec ∷ [])
            × (rec.vk_id ≡ some id)
            × (rec.reserved_cents ≡ inc.estimated_cost_cents))
  dispatch-served st id key body a e =
      let (same, (left, (rec, more, of_key, of_reservation))) =
        dispatch-Settles st id key (returned (json body)) a e in
      (
        ap (λ b. get b.virtual_keys id) same ∙ get-insert_self st.virtual_keys id _,
        ap (is_registered own_key) left ∙ is_registered-complete own_key (own_key ∷ st.in_flight),
        (rec, more, of_key ∙ a.keyed, of_reservation),
      )

  -- A request that is admitted and answered with the upstream's own error leaves its key charged with
  -- the whole reservation, leaves nothing to the background that could settle it, and stays among those
  -- in flight, so that the requests that wait for it are not woken.
  pub dispatch-relayed :
      (st : AppState) (id : ℕ) (key : VirtualKey) (status : ℕ) (body : Str)
      → IsAdmitted g today this_month inc st id key
      → (run st).1 ≡ returned (relayed status body)
      → (get (run st).0.virtual_keys id ≡ some (charged_key g today this_month inc key))
        × ((run st).0.in_flight ≡ own_key ∷ st.in_flight)
        × ((run st).0.background ≡ st.background)
  dispatch-relayed st id key status body a e =
      let same = dispatch-Settles st id key (returned (relayed status body)) a e in
      (
        ap (λ (l : Ledger). get l.of_books.virtual_keys id) same
            ∙ get-insert_self st.virtual_keys id _,
        ap (λ (l : Ledger). l.of_desk.in_flight) same,
        ap (λ (l : Ledger). l.of_desk.background) same,
      )

  -- A request that is admitted and for which every channel fails costs its key nothing: its day, its
  -- month and its total are again what they were before the reservation, which is at least a cent and
  -- with which the amounts stay within 64 bits. The requests that wait for it are woken, and
  -- nothing is left to the background.
  pub dispatch-exhausted :
      (st : AppState) (id : ℕ) (key : VirtualKey)
      → IsAdmitted g today this_month inc st id key
      → (run st).1 ≡ returned all_exhausted
      → 0 < inc.estimated_cost_cents
      → inc.estimated_cost_cents < 2 ^ 63
      → daily_spend today key + inc.estimated_cost_cents < 2 ^ 64
      → monthly_spend this_month key + inc.estimated_cost_cents < 2 ^ 64
      → key.spend.total_cents + inc.estimated_cost_cents < 2 ^ 64
      → ((k : VirtualKey) × (get (run st).0.virtual_keys id ≡ some k)
          × (daily_spend today k ≡ daily_spend today key)
          × (monthly_spend this_month k ≡ monthly_spend this_month key)
          × (k.spend.total_cents ≡ key.spend.total_cents))
        × (is_registered own_key (run st).0.in_flight ≡ false)
        × ((run st).0.background ≡ st.background)
  dispatch-exhausted st id key a e positive small day month total =
      let cost = inc.estimated_cost_cents in
      let req = request_with g inc cost in
      let (end, same, after) = dispatch-Settles st id key (returned all_exhausted) a e in
      let held : get end.virtual_keys id ≡ some (charged_key g today this_month inc key) =
        ap (λ (l : Ledger). get l.of_books.virtual_keys id) same
        ∙ get-insert_self st.virtual_keys id _ in
      let settled =
        reconcile_key-reserve_key today this_month cost 0 key a.granted small (omega arith)
          (omega (arith, day)) (omega (arith, month)) (omega (arith, total)) in
      let refunded : get (exhausted req end).0.virtual_keys id
          ≡ some (reconcile_key cost 0 (charged_key g today this_month inc key)) =
        exhausted-key end cost (charged_key g today this_month inc key) a.keyed positive held in
      (
        (
          reconcile_key cost 0 (charged_key g today this_month inc key),
          ap (λ b. get b.virtual_keys id) after ∙ refunded,
          settled.0 ∙ omega arith,
          settled.1 ∙ omega arith,
          settled.2 ∙ omega arith,
        ),
        ap (λ b. is_registered own_key b.in_flight) after ∙ is_registered-complete own_key _,
        ap (λ b. b.background) after
            ∙ exhausted-background end cost
            ∙ ap (λ (l : Ledger). l.of_desk.background) same,
      )
