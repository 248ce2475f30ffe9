-- ===== src/Router/Strategy.antt =====
-- src-tauri/src/router/strategy.rs: the five ways to choose among candidates of one rank.
pub mod Total
pub mod Busy
use model_switch.Base.{
  ℕ, suc, zero, ◌+◌, ◌-◌, ◌≤◌, ◌<◌, min, Option, none, some, List, [], ◌∷◌, ◌++◌, Bool, true, false,
  not, is_empty, is_some, length, get_elem?, take, map, nat_beq, leb, ltb, ◌||◌, if◌then◌else◌,
  Ordering, max_u32,
}
use model_switch.Base.Sort.{sort_by}
use model_switch.F64.{Floats}
use model_switch.Channel.{Channel, F64}
use model_switch.Trackers.ActiveRequests
use model_switch.Trackers.ActiveRequests.{ActiveRequests}
use model_switch.Trackers.Latency.{LatencyTracker, avg_latency, avg_latency_per_token}
use model_switch.RateLimiter.Channels.{RateLimiter, current_tpm, tpm_limit}
use model_switch.Router.Weighted.{Rng, weighted_random}

pub data RoutingStrategyType : Type 0 where
  weighted_random_type latency least_busy usage lowest_cost : RoutingStrategyType

-- A candidate with its score.
abbrev pub Scored : Type 0 → Type 0
Scored S = Channel × S

abbrev pub first_channel : {S : Type 0} → Option (Scored S) → Option Channel
first_channel none = none
first_channel (some s) = some s.0

-- Sorted, the first `k` of the candidates, and one of these at random.
unfoldable pub pick_top :
    {S : Type 0} → Rng → (Scored S → Scored S → Bool) → ℕ → List (Scored S) → Option Channel
pick_top rng le k scored =
    let top = take (min k (length scored)) (sort_by le scored) in
    first_channel (get_elem? top (rng.below (length top)))

-- The candidates with latency per token, and those with a raw latency alone.
unfoldable pub with_per_token : LatencyTracker → List Channel → List (Scored ℕ)
with_per_token t [] = []
with_per_token t (c ∷ cs) =
    let rest = with_per_token t cs in
    elim (avg_latency_per_token t c.id) [ some score ↦ (c, score) ∷ rest | none ↦ rest ]

unfoldable pub with_raw_latency : LatencyTracker → List Channel → List (Scored ℕ)
with_raw_latency t [] = []
with_raw_latency t (c ∷ cs) =
    let rest = with_raw_latency t cs in
    let lat = avg_latency t c.id in
    if is_some (avg_latency_per_token t c.id)
    then rest
    else if ltb 0 lat
    then (c, lat) ∷ rest
    else rest

abbrev pub by_score : Scored ℕ → Scored ℕ → Bool
by_score a b = leb a.1 b.1

unfoldable pub select_latency : Rng → LatencyTracker → List Channel → Option Channel
select_latency rng t candidates =
    if is_empty candidates
    then none
    else if not (is_empty (with_per_token t candidates))
    then pick_top rng by_score 2 (with_per_token t candidates)
    else if not (is_empty (with_raw_latency t candidates))
    then pick_top rng by_score 2 (with_raw_latency t candidates)
    else weighted_random rng candidates

-- The loop of the least-busy strategy: the least count so far, and the candidates that have it.
abbrev pub busy_step : ActiveRequests → ℕ × List Channel → Channel → ℕ × List Channel
busy_step counts s c =
    let count = ActiveRequests.get counts c.id in
    if ltb count s.0 then (count, c ∷ []) else if nat_beq count s.0 then (s.0, s.1 ++ c ∷ []) else s

unfoldable pub busy_loop : ActiveRequests → ℕ × List Channel → List Channel → ℕ × List Channel
busy_loop counts s [] = s
busy_loop counts s (c ∷ cs) = busy_loop counts (busy_step counts s c) cs

unfoldable pub select_least_busy : Rng → ActiveRequests → List Channel → Option Channel
select_least_busy rng counts candidates =
    let least_busy = (busy_loop counts (max_u32, []) candidates).1 in
    if is_empty candidates
    then none
    else if nat_beq (length least_busy) (length candidates)
    then weighted_random rng candidates
    else get_elem? least_busy (rng.below (length least_busy))

abbrev pub or_else_f64 : F64 → Option F64 → F64
or_else_f64 d none = d
or_else_f64 d (some x) = x

unfoldable pub channel_cost_score : Floats → Channel → F64
channel_cost_score f c =
    if is_some c.input_cost_per_mtok || is_some c.output_cost_per_mtok
    then f.add (or_else_f64 (f.literal 0 1) c.input_cost_per_mtok)
        (or_else_f64 (f.literal 0 1) c.output_cost_per_mtok)
    else or_else_f64 f.largest c.cost_per_token

-- `partial_cmp(..).unwrap_or(Equal)` does not answer `Greater`.
abbrev pub not_greater : Option Ordering → Bool
not_greater none = true
not_greater (some Ordering.lt) = true
not_greater (some Ordering.eq) = true
not_greater (some Ordering.gt) = false

abbrev pub by_f64 : Floats → Scored F64 → Scored F64 → Bool
by_f64 f a b = not_greater (f.partial_cmp a.1 b.1)

abbrev pub score_with : (Channel → F64) → List Channel → List (Scored F64)
score_with score [] = []
score_with score (c ∷ cs) = (c, score c) ∷ score_with score cs

unfoldable pub select_lowest_cost : Rng → Floats → List Channel → Option Channel
select_lowest_cost rng f candidates =
    if is_empty candidates
    then none
    else pick_top rng (by_f64 f) 2 (score_with (channel_cost_score f) candidates)

abbrev pub ratio_of : Floats → ℕ → Option ℕ → F64
ratio_of f current none = f.literal 0 1
ratio_of f current (some lim) =
    if ltb 0 lim then f.div (f.of_u64 current) (f.of_u64 lim) else f.literal 0 1

unfoldable pub usage_ratio : Floats → ℕ → RateLimiter → Channel → F64
usage_ratio f now limiter c = ratio_of f (current_tpm now c.id limiter) (tpm_limit c.id limiter)

unfoldable pub select_usage : Rng → Floats → ℕ → RateLimiter → List Channel → Option Channel
select_usage rng f now limiter candidates =
    if is_empty candidates
    then none
    else pick_top rng (by_f64 f) 2 (score_with (usage_ratio f now limiter) candidates)
