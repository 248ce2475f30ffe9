-- ===== src/Dispatch/Loop/Guards.antt =====
-- src-tauri/src/proxy/dispatch.rs: the requests in flight over the whole loop.
use model_switch.Base.{
  eq_nat, eq_str, if◌then◌else◌, ltb, max_u32, Str, ℕ, zero, suc, ◌+◌, ◌<◌, ◌≡◌, refl, sym, ◌∙◌,
  subst, Bool, true, false, not, Option, none, some, List, [], ◌∷◌,
}
use model_switch.F64.{Floats}
use model_switch.Channel.{Channel}
use model_switch.Channel.Names.{as_str}
use model_switch.Trackers.ActiveRequests
use model_switch.Router.Weighted.{Rng}
use model_switch.ProviderBudget.{check_budget}
use model_switch.Registry.{ModelRegistry}
use model_switch.Dispatch.State.{AppState, World, routing_context}
use model_switch.Dispatch.Select.{select_channel_for_attempt, pre_flight_skip_model}
use model_switch.Dispatch.Loop.{
  Request, Step, answered, again, next_model, stopped, over_cap, Progress, or_again, or_next,
  context_for, attempt_on, turn, attempts, over_models,
}
use model_switch.Dispatch.Attempt.Guards.{try_channel_attempt-IsBalanced}

-- The requests in flight on a channel.
abbrev active : AppState → ℕ → ℕ
active st id = ActiveRequests.get st.active_requests id

abbrev pub BalancedAt : ℕ → AppState → Progress → Type 0
BalancedAt id st p = active p.0 id ≡ active st id

if-BalancedAt :
    (id : ℕ) (st : AppState) (b : Bool) (p q : Progress)
    → BalancedAt id st p
    → BalancedAt id st q
    → BalancedAt id st (if b then p else q)
if-BalancedAt id st true p q x y = x
if-BalancedAt id st false p q x y = y

or_again-BalancedAt :
    (id total : ℕ) (st st' : AppState) (step : Step) (rest : Progress)
    → active st' id ≡ active st id
    → BalancedAt id st' rest
    → BalancedAt id st (or_again st' total step rest)
or_again-BalancedAt id total st st' again rest e r = r ∙ e
or_again-BalancedAt id total st st' (answered x) rest e r = e
or_again-BalancedAt id total st st' next_model rest e r = e
or_again-BalancedAt id total st st' stopped rest e r = e

or_next-BalancedAt :
    (id : ℕ) (st : AppState) (p rest : Progress)
    → BalancedAt id st p
    → BalancedAt id p.0 rest
    → BalancedAt id st (or_next p rest)
or_next-BalancedAt id st (st', (total, next_model)) rest e r = r ∙ e
or_next-BalancedAt id st (st', (total, again)) rest e r = r ∙ e
or_next-BalancedAt id st (st', (total, answered x)) rest e r = e
or_next-BalancedAt id st (st', (total, stopped)) rest e r = e

module _ (rng : Rng) (f : Floats) (lower : Str → Str) (stored : Str → Option Str)
    (registry : ModelRegistry) (today this_month : Str) (world : ℕ → World) (req : Request) where
  abbrev TakesActive : ℕ → AppState → AppState × Step → Type 0
  TakesActive id st p = active p.0 id ≡ active st id

  if-TakesActive :
      (id : ℕ) (st : AppState) (b : Bool) (p q : AppState × Step)
      → TakesActive id st p
      → TakesActive id st q
      → TakesActive id st (if b then p else q)
  if-TakesActive id st true p q x y = x
  if-TakesActive id st false p q x y = y

  attempt_on-TakesActive :
      (m : Str) (attempt : ℕ) (w : World) (channel : Channel) (id : ℕ) (st : AppState)
      → active st id < max_u32
      → TakesActive id st
          (attempt_on rng f lower stored registry today this_month world req m attempt w channel st)
  unfolding attempt_on
  attempt_on-TakesActive m attempt w channel id st fits =
      let ctx = context_for rng f lower stored registry today this_month world req m channel in
      if-TakesActive id st
        (not (check_budget today this_month st.provider_budgets (as_str channel.provider))) _ _ refl
        (if-TakesActive id st (over_cap attempt channel.max_retries) _ _ refl
          (try_channel_attempt-IsBalanced f lower stored registry w ctx id st fits))

  turn-active :
      (m : Str) (attempt : ℕ) (w : World) (id : ℕ) (st : AppState)
      → active st id < max_u32
      → active (turn rng f lower stored registry today this_month world req m attempt w st).0 id
        ≡ active st id
  unfolding turn
  turn-active m attempt w id st fits = go (
      select_channel_for_attempt rng f w.clock req.affinity_channel st.manager.channels m
        w.routing_strategy (routing_context st) req.account_group)
    where
      go :
          (c : Option Channel)
          → active
              (elim c as (λ c. AppState × Step) [
                | none ↦ (st, next_model)
                | some channel ↦
                    attempt_on rng f lower stored registry today this_month world req m attempt w
                      channel st
              ]).0
              id
            ≡ active st id
      go none = refl
      go (some channel) = attempt_on-TakesActive m attempt w channel id st fits

  attempts-BalancedAt :
      (m : Str) (left attempt total id : ℕ) (st : AppState)
      → active st id < max_u32
      → BalancedAt id st
          (attempts rng f lower stored registry today this_month world req m left attempt total st)
  unfolding attempts
  attempts-BalancedAt m zero attempt total id st fits = refl
  attempts-BalancedAt m (suc left) attempt total id st fits =
      let w = world total in
      let taken =
        turn rng f lower stored registry today this_month world req m (attempt + 1) w st in
      let same = turn-active m (attempt + 1) w id st fits in
      if-BalancedAt id st (not (ltb total req.max_total_attempts)) _ _ refl (
        if-BalancedAt id st (ltb req.deadline w.clock.instant) _ _ refl (
          or_again-BalancedAt id (total + 1) st taken.0 taken.1 _ same (
            attempts-BalancedAt m left (attempt + 1) (total + 1) id taken.0
              (subst (λ n. n < max_u32) (sym same) fits))))

  -- When the loop ends, however it ends, as many requests are in flight on every channel as before, where
  -- the 32-bit counter of the channel was not full.
  pub over_models-BalancedAt :
      (ms : List Str) (counts : List ℕ) (total id : ℕ) (st : AppState)
      → active st id < max_u32
      → BalancedAt id st
          (over_models rng f lower stored registry today this_month world req ms counts total st)
  unfolding over_models
  over_models-BalancedAt [] counts total id st fits = refl
  over_models-BalancedAt (m ∷ ms) [] total id st fits = refl
  over_models-BalancedAt (m ∷ ms) (count ∷ counts) total id st fits =
      let tried =
        attempts rng f lower stored registry today this_month world req m count 0 total st in
      let same = attempts-BalancedAt m count 0 total id st fits in
      if-BalancedAt id st
        (pre_flight_skip_model registry (world total).clock st.cooldown_tracker m req.body_str_len
          st.manager.channels)
        _ _ (over_models-BalancedAt ms counts total id st fits)
        (or_next-BalancedAt id st tried _ same (
          over_models-BalancedAt ms counts tried.1.0 id tried.0
            (subst (λ n. n < max_u32) (sym same) fits)))
