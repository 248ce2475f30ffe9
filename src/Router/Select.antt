-- ===== src/Router/Select.antt =====
-- src-tauri/src/router/mod.rs: the channels that may serve a request, and the choice among them.
pub mod Loop
pub mod Best
pub mod Outcome
use model_switch.Base.{
  ℕ, Option, none, some, List, [], ◌∷◌, ◌++◌, Bool, true, false, not, ◌&&◌, ◌||◌, is_empty, filter,
  map, Str, eq_str, ◌==◌, ltb, leb, nat_beq, if◌then◌else◌,
}
use model_switch.Base.Map.{Map, values, contains_key}
use model_switch.Base.Sort.{sort_by}
use model_switch.F64.{Floats}
use model_switch.Channel.{
  Channel, ChannelStatus, healthy, half_open, eq_status, is_available, is_model_excluded,
  is_model_in_cooldown, recover_if_expired,
}
use model_switch.Trackers.ActiveRequests
use model_switch.Trackers.ActiveRequests.{ActiveRequests}
use model_switch.Trackers.Cooldown.{CooldownTracker, is_in_cooldown}
use model_switch.Trackers.Latency.{LatencyTracker}
use model_switch.RateLimiter.Channels.{RateLimiter}
use model_switch.Router.Weighted.{Rng, weighted_random}
use model_switch.Router.Strategy.{
  RoutingStrategyType, weighted_random_type, latency, least_busy, usage, lowest_cost,
  select_latency, select_least_busy, select_lowest_cost, select_usage,
}

pub record RoutingContext : Type 0 where
  pub active_requests : ActiveRequests
  pub rate_limiter : RateLimiter
  pub latency_tracker : LatencyTracker
  pub cooldown_tracker : CooldownTracker

-- The three clocks: `Utc::now`, `Instant::now` (both in nanoseconds) and the limiter's milliseconds.
pub record Clock : Type 0 where
  pub utc : ℕ
  pub instant : ℕ
  pub millis : ℕ

abbrev pub in_group : Option Str → Option Str → Bool
in_group none own = true
in_group (some tag) none = true
in_group (some tag) (some own) = own == tag

abbrev pub at_limit : ℕ → Option ℕ → Bool
at_limit count none = false
at_limit count (some limit) = leb limit count

-- The filter of the candidates.
unfoldable pub is_candidate : Clock → RoutingContext → Str → Option Str → Channel → Bool
is_candidate clock ctx requested_model account_group c =
    if not (is_available clock.utc c)
    then false
    else if not (in_group account_group c.account_group)
    then false
    else if at_limit (ActiveRequests.get ctx.active_requests c.id) c.max_concurrent
    then false
    else if not (is_empty c.model_mapping) && not (contains_key c.model_mapping requested_model)
    then false
    else if is_model_excluded c requested_model
    then false
    else if is_model_in_cooldown clock.utc c requested_model
    then false
    else if is_in_cooldown clock.instant ctx.cooldown_tracker c.id
    then false
    else true

-- By priority, and in one priority the healthy channels first.
unfoldable pub by_priority : Channel → Channel → Bool
by_priority a b =
    if nat_beq a.priority b.priority
    then not ((b.status == healthy) && not (a.status == healthy))
    else ltb a.priority b.priority

unfoldable pub select_with :
    Rng → Floats → Clock → RoutingContext → RoutingStrategyType → List Channel → Option Channel
select_with rng f clock ctx latency = select_latency rng ctx.latency_tracker
select_with rng f clock ctx least_busy = select_least_busy rng ctx.active_requests
select_with rng f clock ctx usage = select_usage rng f clock.millis ctx.rate_limiter
select_with rng f clock ctx lowest_cost = select_lowest_cost rng f
select_with rng f clock ctx weighted_random_type = weighted_random rng

abbrev pub or_else : Option Channel → Option Channel → Option Channel
or_else (some c) other = some c
or_else none other = other

-- The loop's variables.
pub record Groups : Type 0 where
  pub current_priority : ℕ
  pub healthy_candidates : List Channel
  pub halfopen_candidates : List Channel

abbrev pub push_candidate : Channel → Groups → Groups
push_candidate ch g =
    if ch.status == half_open
    then record g { halfopen_candidates = g.halfopen_candidates ++ ch ∷ [] }
    else record g { healthy_candidates = g.healthy_candidates ++ ch ∷ [] }

-- The lists are cleared for another priority.
abbrev pub enter_priority : Channel → Groups → Groups
enter_priority ch g = if nat_beq ch.priority g.current_priority then g else record {
  current_priority = ch.priority;
  healthy_candidates = [];
  halfopen_candidates = [];
}

module _ (select : List Channel → Option Channel) where
  abbrev pub try_select : List Channel → Option Channel
  try_select cs = if is_empty cs then none else select cs

  abbrev pub flush : Groups → Option Channel
  flush g = or_else (try_select g.healthy_candidates) (try_select g.halfopen_candidates)

  -- The loop over the sorted candidates.
  unfoldable pub route : Groups → List Channel → Option Channel
  route g [] = flush g
  route g (ch ∷ rest) =
      let later = route (push_candidate ch (enter_priority ch g)) rest in
      if nat_beq ch.priority g.current_priority then later else or_else (flush g) later

abbrev pub no_groups : Groups
no_groups = record { current_priority = 0; healthy_candidates = []; halfopen_candidates = [] }

unfoldable pub select_channel :
    Rng
    → Floats
    → Clock
    → Map ℕ Channel
    → Str
    → RoutingStrategyType
    → RoutingContext
    → Option Str
    → Option Channel
select_channel rng f clock channels requested_model routing_strategy ctx account_group =
    let candidates =
      map (recover_if_expired clock.utc)
        (filter (is_candidate clock ctx requested_model account_group) (values channels)) in
    if is_empty candidates
    then none
    else route (select_with rng f clock ctx routing_strategy) no_groups
        (sort_by by_priority candidates)
