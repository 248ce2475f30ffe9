-- ===== src/Router/Strategy/Total.antt =====
-- src-tauri/src/router/strategy.rs: the choices of the latency, cost and usage strategies.
use model_switch.Base.{
  ℕ, suc, zero, ◌<◌, min, ◌≡◌, ◌≢◌, inl, inr, refl, ap, Option, some, List, [], ◌∷◌, Bool, false,
  is_empty, length, get_elem?-lt, take, In, In-get_elem?, In-take, Bool-cases, arith,
}
use model_switch.Base.Sort.{sort_by, In-sort_by, length-sort_by}
use model_switch.F64.{Floats}
use model_switch.Channel.{Channel, F64}
use model_switch.Trackers.Latency.{LatencyTracker}
use model_switch.RateLimiter.Channels.{RateLimiter}
use model_switch.Router.Weighted.{Rng, weighted_random}
use model_switch.Router.Weighted.Chance.{weighted_random_total}
use model_switch.Router.Strategy.{
  Scored, first_channel, pick_top, with_per_token, with_raw_latency, by_score, select_latency,
  channel_cost_score, by_f64, score_with, select_lowest_cost, usage_ratio, select_usage,
}

-- The strategy chooses a candidate.
abbrev pub Chooses : Option Channel → List Channel → Type 0
Chooses choice candidates = (c : Channel) × (choice ≡ some c) × In c candidates

length-take-min : {A : Type 0} (n : ℕ) (xs : List A) → length (take n xs) ≡ min n (length xs)
length-take-min zero xs = omega arith
length-take-min (suc n) [] = omega arith
length-take-min (suc n) (x ∷ xs) = omega (arith, length-take-min n xs)

module _ {S : Type 0} (rng : Rng) (le : Scored S → Scored S → Bool) where
  pick_top_total :
      (k : ℕ) (scored : List (Scored S))
      → 0 < k
      → 0 < length scored
      → (s : Scored S) × (pick_top rng le k scored ≡ some s.0) × In s scored
  unfolding pick_top
  pick_top_total k scored hk hs =
      let top = take (min k (length scored)) (sort_by le scored) in
      let size : 0 < length top = omega (
        arith,
        length-take-min (min k (length scored)) (sort_by le scored),
        length-sort_by le scored,
      ) in
      let (s, found) = get_elem?-lt top (rng.below (length top)) (rng.below_lt (length top) size) in
      (
        s,
        ap first_channel found,
        In-sort_by le scored s (In-take _ (sort_by le scored) s (In-get_elem? top _ found)),
      )

-- The tiers of the latency strategy hold candidates.
with_per_token-In :
    (t : LatencyTracker) (cs : List Channel) (s : Scored ℕ) → In s (with_per_token t cs) → In s.0 cs
unfolding with_per_token
with_per_token-In t [] s m = absurd m
with_per_token-In t (c ∷ cs) s m =
    ground (arith, λ (h : In s (with_per_token t cs)). with_per_token-In t cs s h)

with_raw_latency-In :
    (t : LatencyTracker) (cs : List Channel) (s : Scored ℕ)
    → In s (with_raw_latency t cs)
    → In s.0 cs
unfolding with_raw_latency
with_raw_latency-In t [] s m = absurd m
with_raw_latency-In t (c ∷ cs) s m =
    ground (arith, λ (h : In s (with_raw_latency t cs)). with_raw_latency-In t cs s h)

score_with-In :
    (score : Channel → F64) (cs : List Channel) (s : Scored F64)
    → In s (score_with score cs)
    → In s.0 cs
score_with-In score [] s m = absurd m
score_with-In score (c ∷ cs) s m =
    ground (arith, λ (h : In s (score_with score cs)). score_with-In score cs s h)

nonempty-length : {A : Type 0} (xs : List A) → is_empty xs ≡ false → 0 < length xs
nonempty-length [] h = cc
nonempty-length (x ∷ xs) h = omega arith

weighted-Chooses : (rng : Rng) (cs : List Channel) → cs ≢ [] → Chooses (weighted_random rng cs) cs
weighted-Chooses rng cs h = let (c, e, m, p) = weighted_random_total rng cs h in (c, e, m)

tier-Chooses :
    (rng : Rng) (tier : List (Scored ℕ)) (cs : List Channel)
    → is_empty tier ≡ false
    → ((s : Scored ℕ) → In s tier → In s.0 cs)
    → Chooses (pick_top rng by_score 2 tier) cs
tier-Chooses rng tier cs h k =
    let (s, e, m) = pick_top_total rng by_score 2 tier (omega arith) (nonempty-length tier h) in
    (s.0, e, k s m)

-- From any candidates the latency strategy chooses one, with or without samples.
pub select_latency-Chooses :
    (rng : Rng) (t : LatencyTracker) (cs : List Channel)
    → cs ≢ []
    → Chooses (select_latency rng t cs) cs
unfolding select_latency
select_latency-Chooses rng t [] h = absurd (h refl)
select_latency-Chooses rng t (c ∷ cs) h = elim (Bool-cases (is_empty (with_per_token t (c ∷ cs)))) [
  | inr some_data ↦
      rw some_data (tier-Chooses rng _ (c ∷ cs) some_data (with_per_token-In t (c ∷ cs)))
  | inl no_data ↦ elim (Bool-cases (is_empty (with_raw_latency t (c ∷ cs)))) [
    | inr raw ↦ rw (no_data, raw) (tier-Chooses rng _ (c ∷ cs) raw (with_raw_latency-In t (c ∷ cs)))
    | inl none_at_all ↦ rw (no_data, none_at_all) (weighted-Chooses rng (c ∷ cs) h)
  ]
]

scored-Chooses :
    (rng : Rng) (f : Floats) (score : Channel → F64) (c : Channel) (cs : List Channel)
    → Chooses (pick_top rng (by_f64 f) 2 (score_with score (c ∷ cs))) (c ∷ cs)
scored-Chooses rng f score c cs =
    let (s, e, m) =
      pick_top_total rng (by_f64 f) 2 (score_with score (c ∷ cs)) (omega arith) (omega arith) in
    (s.0, e, score_with-In score (c ∷ cs) s m)

-- From any candidates the lowest-cost strategy chooses one, whatever the comparison of costs answers.
pub select_lowest_cost-Chooses :
    (rng : Rng) (f : Floats) (cs : List Channel)
    → cs ≢ []
    → Chooses (select_lowest_cost rng f cs) cs
unfolding select_lowest_cost
select_lowest_cost-Chooses rng f [] h = absurd (h refl)
select_lowest_cost-Chooses rng f (c ∷ cs) h = scored-Chooses rng f (channel_cost_score f) c cs

-- From any candidates the usage strategy chooses one, whatever the comparison of ratios answers.
pub select_usage-Chooses :
    (rng : Rng) (f : Floats) (now : ℕ) (l : RateLimiter) (cs : List Channel)
    → cs ≢ []
    → Chooses (select_usage rng f now l cs) cs
unfolding select_usage
select_usage-Chooses rng f now l [] h = absurd (h refl)
select_usage-Chooses rng f now l (c ∷ cs) h = scored-Chooses rng f (usage_ratio f now l) c cs
