-- ===== src/Router/Tests.antt =====
-- Runs of the router, and instances of its theorems.
use model_switch.Base.{
  Str, length, ◌↔◌, eq_str, ℕ, ◌+◌, ◌≤◌, ◌≡◌, ◌⊎◌, refl, arith, some, none, List, [], ◌∷◌, false,
  sum_by, nat_beq, eq_nat, if◌then◌else◌, In, All, max_u32, bytes,
}
use model_switch.Base.Map
use model_switch.Base.Map.{Map, Unique, values}
use model_switch.Base.Sort
use model_switch.Glob.{matches_glob}
use model_switch.Channel
use model_switch.Channel.{Channel, recover_if_expired}
use model_switch.Trackers.ActiveRequests
use model_switch.Trackers.ActiveRequests.{ActiveRequests}
use model_switch.Trackers.Cooldown
use model_switch.Trackers.Latency.{LatencyTracker}
use model_switch.RateLimiter.Channels
use model_switch.RateLimiter.Channels.{RateLimiter}
use model_switch.Router.Weighted.{weighted_random, walk, total_weight}
use model_switch.Router.Weighted.Chance.{count_below, chosen, walk-count}
use model_switch.Router.Strategy.{least_busy, weighted_random_type, select_least_busy}
use model_switch.Router.Strategy.Busy.{select_least_busy-fewest}
use model_switch.Router.Select.{
  RoutingContext, Clock, is_candidate, by_priority, route, select_with, select_channel,
}
use model_switch.Router.Select.Outcome.{IsAnswer, select_channel-best}
use model_switch.Router.Affinity
use model_switch.Router.Affinity.{AffinityState, set_channel}
use model_switch.Router.Affinity.Capacity.{set_channel-IsBounded}
use model_switch.Router.Fallback.{resolve_fallback_chain}
use model_switch.Router.Fallback.Chain.{StartsChain, Distinct, resolve_fallback_chain-Distinct}
use model_switch.Router.Fallback.Members.{FromEntry, resolve_fallback_chain_iff}
use model_switch.Samples.{steady, tripped, backup, fractions, least}

abbrev pool : List Channel
pool = steady ∷ tripped ∷ backup ∷ []

walk-count_example :
    count_below (total_weight pool) (λ r. chosen (λ c. nat_beq c.id 1) (walk pool (r + 1) pool))
    ≡ sum_by (λ (c : Channel). if nat_beq c.id 1 then c.weight else 0) pool
walk-count_example = walk-count (λ c. nat_beq c.id 1) pool pool

abbrev latencies : LatencyTracker
latencies = (1, (300, none) ∷ []) ∷ (3, (100, some 50) ∷ []) ∷ []

abbrev limiter : RateLimiter
limiter = Channels.new 0 none

-- Two requests on the first channel, one on the third.
abbrev busy : ActiveRequests
busy = (1, 2) ∷ (3, 1) ∷ []

busy_fits : (id : ℕ) → ActiveRequests.get busy id ≤ max_u32
unfolding ActiveRequests.get Map.get
busy_fits id = ground arith

select_least_busy-fewest_example :
    (c : Channel) × (select_least_busy least busy pool ≡ some c)
    × In c pool
    × All (λ d. ActiveRequests.get busy c.id ≤ ActiveRequests.get busy d.id) pool
select_least_busy-fewest_example = select_least_busy-fewest busy least pool (λ e. cc) busy_fits

abbrev stored : Map ℕ Channel
stored = (3, backup) ∷ (2, tripped) ∷ (1, steady) ∷ []

abbrev ctx : RoutingContext
ctx = record {
  active_requests = busy;
  rate_limiter = limiter;
  latency_tracker = latencies;
  cooldown_tracker = Cooldown.new;
}

-- After the first minute the breaker of the second channel is half-open.
abbrev clock : Clock
clock = record { utc = 61_000_000_000; instant = 0; millis = 61_000 }

select_channel-best_example :
    ((select_channel least fractions clock stored (bytes "gpt-4o") least_busy ctx none ≡ none)
      × All (λ d. is_candidate clock ctx (bytes "gpt-4o") none d ≡ false) (values stored))
    ⊎ IsAnswer least fractions clock stored
        (bytes "gpt-4o")
        least_busy
        ctx
        none
        (select_channel least fractions clock stored (bytes "gpt-4o") least_busy ctx none)
select_channel-best_example =
    select_channel-best least fractions clock stored (bytes "gpt-4o") least_busy ctx none busy_fits

-- The healthy channel of the first priority is chosen before the half-open one.
healthy_first :
    select_channel least fractions clock stored (bytes "gpt-4o") weighted_random_type ctx none
    ≡ some steady
unfolding select_channel is_candidate by_priority route select_with weighted_random Sort.sort_by
    Sort.insert_by Channel.is_available Channel.is_model_excluded Channel.is_model_in_cooldown
    Channel.recover_if_expired total_weight walk Cooldown.is_in_cooldown ActiveRequests.get Map.get
    Map.contains_key matches_glob
healthy_first = refl

abbrev fallbacks : Map Str (List Str)
fallbacks =
    (bytes "gpt-4o", bytes "gpt-4" ∷ bytes "claude" ∷ [])
    ∷ (bytes "gpt*", bytes "claude" ∷ bytes "o3" ∷ [])
    ∷ []

fallbacks-Unique : Unique fallbacks
unfolding Map.contains_key
fallbacks-Unique = (refl, (refl, tt))

resolve_fallback_chain-Distinct_example :
    StartsChain (bytes "gpt-4o-0613") (resolve_fallback_chain (bytes "gpt-4o-0613") fallbacks)
    × Distinct (resolve_fallback_chain (bytes "gpt-4o-0613") fallbacks)
resolve_fallback_chain-Distinct_example =
    resolve_fallback_chain-Distinct (bytes "gpt-4o-0613") fallbacks

resolve_fallback_chain_iff_example :
    In (bytes "o3") (resolve_fallback_chain (bytes "gpt-4o-0613") fallbacks)
    ↔ ((bytes "o3" ≡ bytes "gpt-4o-0613") ⊎ FromEntry fallbacks (bytes "gpt-4o-0613") (bytes "o3"))
resolve_fallback_chain_iff_example =
    resolve_fallback_chain_iff fallbacks (bytes "gpt-4o-0613") (bytes "o3") fallbacks-Unique

abbrev two_sessions : AffinityState
two_sessions = record {
  map = (bytes "a", (1, 5)) ∷ (bytes "b", (2, 3)) ∷ [];
  ttl = 100;
  max_entries = 2;
  set_counter = 62;
}

-- The session that was used least recently makes room.
evicts :
    (set_channel 9 (bytes "c") 3 two_sessions).map ≡ (bytes "a", (1, 5)) ∷ (bytes "c", (3, 9)) ∷ []
unfolding set_channel Affinity.evict_lru Affinity.remove_all Affinity.cleanup_expired Map.insert
    Map.remove Sort.sort_by Sort.insert_by
evicts = refl

two_sessions-Unique : Unique two_sessions.map
unfolding Map.contains_key
two_sessions-Unique = (refl, (refl, tt))

set_channel-IsBounded_example :
    (length (set_channel 9 (bytes "c") 3 two_sessions).map ≤ 2)
    × Unique (set_channel 9 (bytes "c") 3 two_sessions).map
set_channel-IsBounded_example =
    set_channel-IsBounded two_sessions 9 (bytes "c") 3 two_sessions-Unique
