-- ===== src/Dispatch/Request/Admitted.antt =====
-- src-tauri/src/proxy/dispatch.rs: the requests of a key that are admitted to the loop, and how they end.
use model_switch.Base.{eq_nat, eq_str, Str, ℕ, ◌≡◌, refl, false, Option, none, some, ◌∷◌}
use model_switch.Base.Map.{get, insert}
use model_switch.F64.{Floats}
use model_switch.Manager.{Outcome}
use model_switch.Router.Weighted.{Rng}
use model_switch.VirtualKey.{VirtualKey}
use model_switch.VirtualKey.Spend.{reserved, reserve_key, reserve_spend}
use model_switch.RequestCache
use model_switch.RequestCache.InFlight.{register, is_registered}
use model_switch.Registry.{ModelRegistry}
use model_switch.Dispatch.Plan.{GatewayConfig}
use model_switch.Dispatch.State.{AppState, World, Response}
use model_switch.Dispatch.Loop.{Progress, over_models}
use model_switch.Dispatch.Request.{
  Incoming, held_key, model_refusal, reserve, check_request_cache, finish, canonical_model,
  fallback_chain, retry_counts, request_with, serve, dispatch,
}

module _ (g : GatewayConfig) (today this_month : Str) (inc : Incoming) where
  -- The request of a key that passes the guardrails and the key's lists, is granted its reservation, is
  -- not in the cache, and is the only one of its kind.
  pub record IsAdmitted (st : AppState) (id : ℕ) (key : VirtualKey) : Type 0 where
    pub unblocked : inc.is_blocked ≡ false
    pub keyed : inc.vk_id ≡ some id
    pub held : get st.virtual_keys id ≡ some key
    pub allowed : model_refusal g (canonical_model g inc) (some key) ≡ none
    pub granted :
        (reserve_key today this_month inc.estimated_cost_cents key).1
        ≡ reserved inc.estimated_cost_cents
    pub uncached :
        RequestCache.get inc.start
          (inc.cache_key (canonical_model g inc))
          (inc.cache_key_material (canonical_model g inc))
          st.request_cache
        ≡ none
    pub alone : is_registered (inc.cache_key (canonical_model g inc)) st.in_flight ≡ false

  -- The key after its reservation.
  abbrev pub charged_key : VirtualKey → VirtualKey
  charged_key key = (reserve_key today this_month inc.estimated_cost_cents key).0

  abbrev charged_state : AppState → ℕ → VirtualKey → AppState
  charged_state st id key = record st { virtual_keys = insert id (charged_key key) st.virtual_keys }

  -- The state with the reservation and with the request among those in flight.
  abbrev pub prepared : AppState → ℕ → VirtualKey → AppState
  prepared st id key = record st {
    virtual_keys = insert id (charged_key key) st.virtual_keys;
    in_flight = inc.cache_key (canonical_model g inc) ∷ st.in_flight;
  }

  module _ (st : AppState) (id : ℕ) (key : VirtualKey) (a : IsAdmitted st id key) where
    refusal-none :
        model_refusal g (canonical_model g inc) (held_key st.virtual_keys inc.vk_id) ≡ none
    refusal-none = rw (a.keyed, a.held) a.allowed

    reserve-charged :
        reserve today this_month inc.vk_id inc.estimated_cost_cents st
        ≡ (charged_state st id key, reserved inc.estimated_cost_cents)
    unfolding reserve reserve_spend
    reserve-charged = rw (a.keyed, reserve, a.held, reserve_spend, a.granted) refl

    check_request_cache-none :
        (waiting : AppState → AppState)
        → check_request_cache waiting inc.start inc.woken
            (inc.cache_key (canonical_model g inc))
            (inc.cache_key_material (canonical_model g inc))
            (charged_state st id key)
          ≡ (prepared st id key, none)
    unfolding check_request_cache register
    check_request_cache-none waiting = rw (a.uncached, check_request_cache, a.alone) refl

module _ (rng : Rng) (f : Floats) (lower : Str → Str) (stored : Str → Option Str)
    (registry : ModelRegistry) (g : GatewayConfig) (today this_month : Str) (world : ℕ → World)
    (waiting : AppState → AppState) (inc : Incoming) where
  abbrev run : AppState → AppState × Outcome Response
  run = dispatch rng f lower stored registry g today this_month world waiting inc

  abbrev looped : AppState → Progress
  looped st =
      over_models rng f lower stored registry today this_month world
        (request_with g inc inc.estimated_cost_cents) (fallback_chain g inc) (retry_counts g inc) 0
        st

  -- An admitted request goes to the loop with its reservation made.
  pub dispatch-admitted :
      (st : AppState) (id : ℕ) (key : VirtualKey)
      → IsAdmitted g today this_month inc st id key
      → run st
        ≡ finish
            (request_with g inc inc.estimated_cost_cents)
            (looped (prepared g today this_month inc st id key))
  unfolding dispatch serve
  dispatch-admitted st id key a =
      rw
        (
          a.unblocked,
          dispatch,
          refusal-none g today this_month inc st id key a,
          reserve-charged g today this_month inc st id key a,
          check_request_cache-none g today this_month inc st id key a waiting,
        )
        refl
