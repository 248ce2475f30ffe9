-- ===== src/Dispatch/Select/Serves.antt =====
-- src-tauri/src/proxy/dispatch.rs: what holds of the channel of an attempt.
use model_switch.Base.{
  Bool-cases, In, In-filter, Option-cases, eq_nat, eq_str, max_u32, Str, ℕ, ◌≤◌, ◌<◌, ◌≡◌, refl,
  sym, ap, subst, ◌⊎◌, inl, inr, true, false, Option, none, some, [], ◌∷◌, arith,
}
use model_switch.Base.Map.{Map, get, values, In-get}
use model_switch.F64.{Floats}
use model_switch.Channel.{
  Channel, is_available, is_model_excluded, is_model_in_cooldown, recover_if_expired,
}
use model_switch.Trackers.ActiveRequests
use model_switch.Trackers.Cooldown.{is_in_cooldown}
use model_switch.Router.Weighted.{Rng}
use model_switch.Router.Strategy.{RoutingStrategyType}
use model_switch.Router.Select.{
  RoutingContext, Clock, in_group, select_channel, at_limit, is_candidate,
}
use model_switch.Router.Select.Outcome.{select_channel-best}
use model_switch.Registry
use model_switch.Dispatch.Select.{
  mapping_allows, is_affine, stored_channel, select_channel_for_attempt,
}

-- What holds of every channel that an attempt on a model uses.
pub record MayServe (clock : Clock) (ctx : RoutingContext) (model : Str) (group : Option Str)
    (c : Channel) : Type 0 where
  pub available : is_available clock.utc c ≡ true
  pub fits_group : in_group group c.account_group ≡ true
  pub maps_model : mapping_allows c model ≡ true
  pub cool : is_in_cooldown clock.instant ctx.cooldown_tracker c.id ≡ false

abbrev pub HasRoom : ℕ → Option ℕ → Type 0
HasRoom count none = Unit
HasRoom count (some limit) = count < limit

at_limit-HasRoom : (count : ℕ) (o : Option ℕ) → at_limit count o ≡ false → HasRoom count o
at_limit-HasRoom count none h = tt
at_limit-HasRoom count (some limit) h = ground arith

-- What holds besides of a channel that is not the one of the session's affinity.
pub record IsOpenTo (clock : Clock) (ctx : RoutingContext) (model : Str) (c : Channel)
    : Type 0 where
  pub not_excluded : is_model_excluded c model ≡ false
  pub model_cool : is_model_in_cooldown clock.utc c model ≡ false
  pub has_room : HasRoom (ActiveRequests.get ctx.active_requests c.id) c.max_concurrent

In-values : (m : Map ℕ Channel) (k : ℕ) (c : Channel) → In (k, c) m → In c (values m)
In-values [] k c i = absurd i
In-values ((j, d) ∷ m) k c (inl e) = inl (ap (λ x. x.1) e)
In-values ((j, d) ∷ m) k c (inr i) = inr (In-values m k c i)

module _ (rng : Rng) (f : Floats) (clock : Clock) (channels : Map ℕ Channel) (model : Str)
    (kind : RoutingStrategyType) (ctx : RoutingContext) (group : Option Str) where
  candidate-MayServe :
      (c : Channel) → is_candidate clock ctx model group c ≡ true → MayServe clock ctx model group c
  unfolding is_candidate
  candidate-MayServe c h = record {
    available = ground arith;
    fits_group = ground arith;
    maps_model = ground arith;
    cool = ground arith;
  }

  candidate-IsOpenTo :
      (c : Channel) → is_candidate clock ctx model group c ≡ true → IsOpenTo clock ctx model c
  unfolding is_candidate
  candidate-IsOpenTo c h = record {
    not_excluded = ground arith;
    model_cool = ground arith;
    has_room = at_limit-HasRoom _ c.max_concurrent (ground arith);
  }

  affine-MayServe :
      (c : Channel) → is_affine clock ctx model group c ≡ true → MayServe clock ctx model group c
  unfolding is_affine
  affine-MayServe c h = record {
    available = ground arith;
    fits_group = ground arith;
    maps_model = ground arith;
    cool = ground arith;
  }

  abbrev pub IsServing : Option ℕ → Option Channel → Type 0
  IsServing affinity_channel r =
      (c : Channel) × (r ≡ some (recover_if_expired clock.utc c))
      × In c (values channels)
      × MayServe clock ctx model group c
      × ((stored_channel channels affinity_channel ≡ some c) ⊎ IsOpenTo clock ctx model c)

  routed-IsServing :
      (affinity_channel : Option ℕ)
      → ((id : ℕ) → ActiveRequests.get ctx.active_requests id ≤ max_u32)
      → (select_channel rng f clock channels model kind ctx group ≡ none)
        ⊎ IsServing affinity_channel (select_channel rng f clock channels model kind ctx group)
  routed-IsServing affinity_channel fits =
      elim (select_channel-best rng f clock channels model kind ctx group fits) [
        | inl nothing ↦ inl nothing.0
        | inr (c, e, i, lows, half) ↦
            let (j, passes) = In-filter (is_candidate clock ctx model group) (values channels) i in
            inr (c, e, j, candidate-MayServe c passes, inr (candidate-IsOpenTo c passes))
      ]

  affinity-cases :
      (aff_id : ℕ)
      → (select_channel_for_attempt rng f clock (some aff_id) channels model kind ctx group
          ≡ select_channel rng f clock channels model kind ctx group)
        ⊎ ((ch : Channel) × (select_channel_for_attempt rng f clock
                (some aff_id)
                channels
                model
                kind
                ctx
                group
              ≡ some (recover_if_expired clock.utc ch))
            × (get channels aff_id ≡ some ch)
            × (is_affine clock ctx model group ch ≡ true))
  unfolding select_channel_for_attempt
  affinity-cases aff_id = elim (Option-cases (get channels aff_id)) [
    | inl e ↦ inl (rw (e, select_channel_for_attempt) refl)
    | inr (ch, e) ↦ elim (Bool-cases (is_affine clock ctx model group ch)) [
      | inl affine ↦ inr (ch, rw (e, select_channel_for_attempt, affine) refl, e, affine)
      | inr other ↦ inl (rw (e, select_channel_for_attempt, other) refl)
    ]
  ]

  -- The channel of an attempt, where there is one, is a copy of a stored channel, with its breaker
  -- recovered, that is available, fits the group, has the model in its mapping if it has a mapping,
  -- and is not cooling down after failures. Besides, it is the channel of the session's affinity, or
  -- it does not exclude the model, has no cooldown for the model and is below its limit of concurrent
  -- requests: the affinity channel is not asked these three. The counters are 32-bit numbers.
  pub select_channel_for_attempt-IsServing :
      (affinity_channel : Option ℕ)
      → ((id : ℕ) → ActiveRequests.get ctx.active_requests id ≤ max_u32)
      → (select_channel_for_attempt rng f clock affinity_channel channels model kind ctx group
          ≡ none)
        ⊎ IsServing affinity_channel
            (select_channel_for_attempt rng f clock affinity_channel channels model kind ctx group)
  unfolding select_channel_for_attempt
  select_channel_for_attempt-IsServing none fits = routed-IsServing none fits
  select_channel_for_attempt-IsServing (some aff_id) fits = elim (affinity-cases aff_id) [
    | inl e ↦
        subst (λ r. (r ≡ none) ⊎ IsServing (some aff_id) r) (sym e)
          (routed-IsServing (some aff_id) fits)
    | inr (ch, e, held, affine) ↦ inr (
      ch,
      e,
      In-values channels aff_id ch (In-get channels aff_id held),
      affine-MayServe ch affine,
      inl held,
    )
  ]
