-- ===== src/Router/Select/Outcome.antt =====
-- src-tauri/src/router/mod.rs: the channel that `select_channel` answers with, for every strategy.
use model_switch.Base.{
  ℕ, ◌≤◌, ◌<◌, ◌≡◌, ◌≢◌, ◌⊎◌, inl, inr, refl, ap, ◌∙◌, Option, none, some, List, [], ◌∷◌, Bool,
  true, false, is_empty, filter, map, length, nat_beq, nat_beq_iff, In, In-filter_of, All, All-In,
  All-of_In, Bool-cases, arith, max_u32, Str, ◌==◌,
}
use model_switch.Base.Map.{Map, values}
use model_switch.Base.Sort.{
  sort_by, In-sort_by, All-sort_by_of, IsSorted, sort_by-IsSorted, length-sort_by,
}
use model_switch.F64.{Floats}
use model_switch.Channel.{Channel, half_open, eq_status, status_beq_iff, recover_if_expired}
use model_switch.Trackers.ActiveRequests
use model_switch.Router.Weighted.{Rng}
use model_switch.Router.Weighted.Chance.{weighted_random_total}
use model_switch.Router.Strategy.{
  RoutingStrategyType, weighted_random_type, latency, least_busy, usage, lowest_cost,
}
use model_switch.Router.Strategy.Total.{
  Chooses, select_latency-Chooses, select_lowest_cost-Chooses, select_usage-Chooses,
}
use model_switch.Router.Strategy.Busy.{select_least_busy-fewest}
use model_switch.Router.Select.{
  RoutingContext, Clock, is_candidate, by_priority, select_with, select_channel, route, no_groups,
}
use model_switch.Router.Select.Best.{FirstOf, route-start}

-- Every strategy chooses a candidate.
select_with-Chooses :
    (rng : Rng) (f : Floats) (clock : Clock) (ctx : RoutingContext) (kind : RoutingStrategyType)
    → ((id : ℕ) → ActiveRequests.get ctx.active_requests id ≤ max_u32)
    → (cs : List Channel) → cs ≢ []
    → Chooses (select_with rng f clock ctx kind cs) cs
unfolding select_with
select_with-Chooses rng f clock ctx latency fits cs h = select_latency-Chooses rng _ cs h
select_with-Chooses rng f clock ctx least_busy fits cs h =
    let (c, e, m, p) = select_least_busy-fewest ctx.active_requests rng cs h fits in (c, e, m)
select_with-Chooses rng f clock ctx usage fits cs h = select_usage-Chooses rng f _ _ cs h
select_with-Chooses rng f clock ctx lowest_cost fits cs h = select_lowest_cost-Chooses rng f cs h
select_with-Chooses rng f clock ctx weighted_random_type fits cs h =
    let (c, e, m, p) = weighted_random_total rng cs h in (c, e, m)

by_priority-le : (a b : Channel) → by_priority a b ≡ true → a.priority ≤ b.priority
unfolding by_priority
by_priority-le a b h = ground arith

by_priority-ge : (a b : Channel) → by_priority a b ≡ false → b.priority ≤ a.priority
unfolding by_priority
by_priority-ge a b h = ground arith

recover_if_expired-priority :
    (now : ℕ) (c : Channel) → (recover_if_expired now c).priority ≡ c.priority
unfolding recover_if_expired
recover_if_expired-priority now c = ground arith

In-map :
    {A B : Type 0} (f : A → B) (xs : List A) (b : B)
    → In b (map f xs)
    → (a : A) × In a xs × (b ≡ f a)
In-map f [] b m = absurd m
In-map f (x ∷ xs) b (inl e) = (x, inl refl, e)
In-map f (x ∷ xs) b (inr m) = let (a, i, e) = In-map f xs b m in (a, inr i, e)

In-map_of : {A B : Type 0} (f : A → B) (xs : List A) (a : A) → In a xs → In (f a) (map f xs)
In-map_of f [] a m = absurd m
In-map_of f (x ∷ xs) a (inl e) = inl (ap f e)
In-map_of f (x ∷ xs) a (inr m) = inr (In-map_of f xs a m)

nothing-In : (cs : List Channel) (c : Channel) → is_empty cs ≡ true → In c cs → ⊥
nothing-In [] c e m = m
nothing-In (x ∷ cs) c e m = cc

sort_by_nonempty : (cs : List Channel) → is_empty cs ≡ false → sort_by by_priority cs ≢ []
sort_by_nonempty [] e z = cc
sort_by_nonempty (x ∷ cs) e z =
    let n : length (sort_by by_priority (x ∷ cs)) ≡ 0 = ap length z in
    absurd (omega (arith, n, length-sort_by by_priority (x ∷ cs)))

module _ (rng : Rng) (f : Floats) (clock : Clock) (channels : Map ℕ Channel) (model : Str)
    (kind : RoutingStrategyType) (ctx : RoutingContext) (group : Option Str) where
  abbrev admits : Channel → Bool
  admits = is_candidate clock ctx model group

  abbrev copied : Channel → Channel
  copied = recover_if_expired clock.utc

  abbrev candidates : List Channel
  candidates = map copied (filter admits (values channels))

  -- Where there are candidates, the loop starts from the first of the sorted ones.
  sorted_first :
      ((id : ℕ) → ActiveRequests.get ctx.active_requests id ≤ max_u32)
      → (cs : List Channel) → IsSorted (λ d. d.priority) cs
      → cs ≢ []
      → FirstOf cs (route (select_with rng f clock ctx kind) no_groups cs)
  sorted_first fits [] s ne = absurd (ne refl)
  sorted_first fits (x ∷ rest) s ne =
      route-start (select_with rng f clock ctx kind) (select_with-Chooses rng f clock ctx kind fits)
        x rest s

  abbrev pub passing : List Channel
  passing = filter admits (values channels)

  -- The answer, read back on the stored channels that pass the filter.
  abbrev pub IsAnswer : Option Channel → Type 0
  IsAnswer r =
      (c : Channel) × (r ≡ some (copied c))
      × In c passing
      × All (λ d. c.priority ≤ d.priority) passing
      × (((copied c).status ≢ half_open)
          ⊎ All (λ d. (c.priority < d.priority) ⊎ ((copied d).status ≡ half_open)) passing)

  -- What holds of the copies of two passing channels.
  copied-low :
      (x c d : Channel)
      → x.priority ≡ c.priority
      → x.priority ≤ (copied d).priority
      → c.priority ≤ d.priority
  copied-low x c d pr l = omega (arith, recover_if_expired-priority clock.utc d)

  copied-half :
      (x c d : Channel)
      → x.priority ≡ c.priority
      → x.priority ≤ (copied d).priority
      → ((copied d).priority ≡ x.priority → (copied d).status ≡ half_open)
      → (c.priority < d.priority) ⊎ ((copied d).status ≡ half_open)
  copied-half x c d pr l h = elim (Bool-cases (nat_beq d.priority c.priority)) [
    | inl same ↦ inr (
        h (
          omega (
            arith,
            recover_if_expired-priority clock.utc d,
            (nat_beq_iff d.priority c.priority).0 same,
          )))
    | inr other ↦ inl (ground (arith, recover_if_expired-priority clock.utc d))
  ]

  copy_of : (d : Channel) → In d (values channels) → admits d ≡ true → In (copied d) candidates
  copy_of d j a = In-map_of copied passing d (In-filter_of admits (values channels) j a)

  from_candidates : (r : Option Channel) → FirstOf (sort_by by_priority candidates) r → IsAnswer r
  from_candidates r (x, e, m, low, half) =
      let lows = All-sort_by_of by_priority _ candidates low in
      let (c, i, q) = In-map copied passing x (In-sort_by by_priority candidates x m) in
      let pr : x.priority ≡ c.priority =
        ap (λ z. z.priority) q ∙ recover_if_expired-priority clock.utc c in
      let low_of : (d : Channel) → In d passing → x.priority ≤ (copied d).priority =
        λ d j. All-In _ candidates lows (In-map_of copied passing d j) in
      (
        c,
        e ∙ ap some q,
        i,
        All-of_In _ passing (λ d j. copied-low x c d pr (low_of d j)),
        elim (Bool-cases ((copied c).status == half_open)) [
          | inr other ↦ inl (λ k. cc ((status_beq_iff (copied c).status half_open).1 k))
          | inl half_way ↦
              let h =
                half (
                  ap (λ z. z.status) q ∙ (status_beq_iff (copied c).status half_open).0 half_way) in
              let halves = All-sort_by_of by_priority _ candidates h in
              inr (
                All-of_In _ passing (λ d j.
                  copied-half x c d pr (low_of d j)
                    (All-In _ candidates halves (In-map_of copied passing d j))))
        ],
      )

  -- A channel is chosen if and only if some stored channel passes the filter: enabled, its breaker
  -- not open or its time over, its group fitting, below its limit of requests, serving the model,
  -- and not cooling down. The answer is the copy of such a channel with its breaker recovered, no
  -- such channel has a priority before its own, and if it is half-open then so is every such channel
  -- of its priority. This is so for all five strategies; the counters are 32-bit numbers.
  pub select_channel-best :
      ((id : ℕ) → ActiveRequests.get ctx.active_requests id ≤ max_u32)
      → ((select_channel rng f clock channels model kind ctx group ≡ none)
          × All (λ d. admits d ≡ false) (values channels))
        ⊎ IsAnswer (select_channel rng f clock channels model kind ctx group)
  unfolding select_channel
  select_channel-best fits = elim (Bool-cases (is_empty candidates)) [
    | inl e ↦ inl (
      rw e,
      All-of_In _ (values channels) (λ d j. elim (Bool-cases (admits d)) [
        | inl a ↦ absurd (nothing-In candidates (copied d) e (copy_of d j a))
        | inr a ↦ a
      ]),
    )
    | inr ne ↦ inr (
        from_candidates _ (
          rw ne (
            sorted_first fits (sort_by by_priority candidates)
              (sort_by-IsSorted by_priority _ by_priority-le by_priority-ge candidates)
              (λ z. sort_by_nonempty candidates ne z))))
  ]
