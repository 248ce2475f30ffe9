-- ===== src/Dispatch/Loop/Effects.antt =====
-- src-tauri/src/proxy/dispatch.rs: what the loop leaves behind, by how it ends.
use model_switch.Base.{
  eq_nat, eq_str, if◌then◌else◌, ltb, Str, ℕ, zero, suc, ◌+◌, ◌≡◌, refl, ap, ap₂, subst, Bool, true,
  false, not, Option, none, some, List, [], ◌∷◌,
}
use model_switch.F64.{Floats}
use model_switch.Channel.{Channel}
use model_switch.Channel.Names.{as_str}
use model_switch.Router.Weighted.{Rng}
use model_switch.ProviderBudget.{check_budget}
use model_switch.Registry.{ModelRegistry}
use model_switch.Dispatch.State.{
  AppState, DispatchContext, World, json, relayed, refused, all_exhausted, AttemptOutcome, respond,
  retry, context_overflow, crashed, routing_context,
}
use model_switch.Dispatch.Select.{select_channel_for_attempt, pre_flight_skip_model}
use model_switch.Dispatch.Attempt.{try_channel_attempt}
use model_switch.Dispatch.Loop.{
  Request, Step, answered, again, next_model, stopped, step_of, over_cap, Progress, or_again,
  or_next, context_for, attempt_on, turn, attempts, over_models,
}
use model_switch.Dispatch.Attempt.Effects.{
  Books, Desk, books, desk, IsServed, Effect, view, try_channel_attempt-Effect,
}

-- What a request is charged on, and what it is served from.
pub record Ledger : Type 0 where
  pub of_books : Books
  pub of_desk : Desk

abbrev pub ledger : AppState → Ledger
ledger st = record { of_books = books st; of_desk = desk st }

abbrev pub Ended : Request → Ledger → Ledger → Step → Type 0
Ended req before after (answered (json body)) =
    (after.of_books ≡ before.of_books)
    × IsServed req.cache_key req.vk_id req.reserved_cents before.of_desk after.of_desk
Ended req before after (answered all_exhausted) = ⊥
Ended req before after (answered (relayed status body)) = after ≡ before
Ended req before after (answered (refused status code)) = after ≡ before
Ended req before after again = after ≡ before
Ended req before after next_model = after ≡ before
Ended req before after stopped = after ≡ before

same-ledger : (a b : Ledger) → a.of_books ≡ b.of_books → a.of_desk ≡ b.of_desk → a ≡ b
same-ledger a b x y = ap₂ (λ (m : Books) (n : Desk). record { of_books = m; of_desk = n }) x y

module _ (req : Request) where
  abbrev pub EndedAt : Ledger → Progress → Type 0
  EndedAt before p = Ended req before (ledger p.0) p.1.1

  if-EndedAt :
      (before : Ledger) (b : Bool) (p q : Progress)
      → EndedAt before p
      → EndedAt before q
      → EndedAt before (if b then p else q)
  if-EndedAt before true p q x y = x
  if-EndedAt before false p q x y = y

  or_again-EndedAt :
      (before : Ledger) (total : ℕ) (st : AppState) (step : Step) (rest : Progress)
      → Ended req before (ledger st) step
      → EndedAt (ledger st) rest
      → EndedAt before (or_again st total step rest)
  or_again-EndedAt before total st again rest e r = subst (λ l. EndedAt l rest) e r
  or_again-EndedAt before total st (answered x) rest e r = e
  or_again-EndedAt before total st next_model rest e r = e
  or_again-EndedAt before total st stopped rest e r = e

  or_next-EndedAt :
      (before : Ledger) (p rest : Progress)
      → EndedAt before p
      → EndedAt (ledger p.0) rest
      → EndedAt before (or_next p rest)
  or_next-EndedAt before (st, (total, next_model)) rest e r = subst (λ l. EndedAt l rest) e r
  or_next-EndedAt before (st, (total, again)) rest e r = subst (λ l. EndedAt l rest) e r
  or_next-EndedAt before (st, (total, answered x)) rest e r = e
  or_next-EndedAt before (st, (total, stopped)) rest e r = e

  -- The outcome of an attempt, as the loop sees it.
  Effect-Ended :
      (ctx : DispatchContext) (before after : AppState) (outcome : AttemptOutcome)
      → ctx.cache_key ≡ req.cache_key
      → ctx.vk_id ≡ req.vk_id
      → ctx.reserved_cents ≡ req.reserved_cents
      → Effect ctx (view before) (view after) outcome
      → Ended req (ledger before) (ledger after) (step_of outcome)
  Effect-Ended ctx before after (respond (json body)) k v r e = (e.0, rw (k, v, r) at e.1)
  Effect-Ended ctx before after (respond (relayed status body)) k v r e =
      ap (λ x. record { of_books = x.of_books; of_desk = x.of_desk }) e
  Effect-Ended ctx before after (respond (refused status code)) k v r e = same-ledger _ _ e.0 e.1
  Effect-Ended ctx before after (respond all_exhausted) k v r e = e
  Effect-Ended ctx before after retry k v r e = same-ledger _ _ e.0 e.1
  Effect-Ended ctx before after context_overflow k v r e =
      ap (λ x. record { of_books = x.of_books; of_desk = x.of_desk }) e
  Effect-Ended ctx before after crashed k v r e =
      ap (λ x. record { of_books = x.of_books; of_desk = x.of_desk }) e

module _ (rng : Rng) (f : Floats) (lower : Str → Str) (stored : Str → Option Str)
    (registry : ModelRegistry) (today this_month : Str) (world : ℕ → World) (req : Request) where
  abbrev TurnEnds : AppState → AppState × Step → Type 0
  TurnEnds st p = Ended req (ledger st) (ledger p.0) p.1

  if-TurnEnds :
      (st : AppState) (b : Bool) (p q : AppState × Step)
      → TurnEnds st p
      → TurnEnds st q
      → TurnEnds st (if b then p else q)
  if-TurnEnds st true p q x y = x
  if-TurnEnds st false p q x y = y

  attempt_on-TurnEnds :
      (m : Str) (attempt : ℕ) (w : World) (channel : Channel) (st : AppState)
      → TurnEnds st
          (attempt_on rng f lower stored registry today this_month world req m attempt w channel st)
  unfolding attempt_on
  attempt_on-TurnEnds m attempt w channel st =
      let ctx = context_for rng f lower stored registry today this_month world req m channel in
      let tried = try_channel_attempt f lower stored registry w ctx st in
      if-TurnEnds st
        (not (check_budget today this_month st.provider_budgets (as_str channel.provider))) _ _ refl
        (if-TurnEnds st (over_cap attempt channel.max_retries) _ _ refl (
          Effect-Ended req ctx st tried.0 tried.1 refl refl refl
            (try_channel_attempt-Effect f lower stored registry w ctx st)))

  turn-TurnEnds :
      (m : Str) (attempt : ℕ) (w : World) (st : AppState)
      → TurnEnds st (turn rng f lower stored registry today this_month world req m attempt w st)
  unfolding turn
  turn-TurnEnds m attempt w st = go (
      select_channel_for_attempt rng f w.clock req.affinity_channel st.manager.channels m
        w.routing_strategy (routing_context st) req.account_group)
    where
      go :
          (c : Option Channel)
          → TurnEnds st (elim c [
            | none ↦ (st, next_model)
            | some channel ↦
                attempt_on rng f lower stored registry today this_month world req m attempt w
                  channel st
          ])
      go none = refl
      go (some channel) = attempt_on-TurnEnds m attempt w channel st

  attempts-EndedAt :
      (m : Str) (left attempt total : ℕ) (st : AppState)
      → EndedAt req
          (ledger st)
          (attempts rng f lower stored registry today this_month world req m left attempt total st)
  unfolding attempts
  attempts-EndedAt m zero attempt total st = refl
  attempts-EndedAt m (suc left) attempt total st =
      let w = world total in
      let taken =
        turn rng f lower stored registry today this_month world req m (attempt + 1) w st in
      if-EndedAt req (ledger st) (not (ltb total req.max_total_attempts)) _ _ refl (
        if-EndedAt req (ledger st) (ltb req.deadline w.clock.instant) _ _ refl (
          or_again-EndedAt req (ledger st) (total + 1) taken.0 taken.1 _
            (turn-TurnEnds m (attempt + 1) w st)
            (attempts-EndedAt m left (attempt + 1) (total + 1) taken.0)))

  -- What the loop leaves behind, by how it ends. Served from an upstream server, it has completed the
  -- request for its coalesced waiters and left one record to the background, of the request's key and
  -- reservation. With any other response, or with none, the budgets and spends, the cache, the requests
  -- in flight and the background are as they were, however many attempts failed.
  pub over_models-Ended :
      (ms : List Str) (counts : List ℕ) (total : ℕ) (st : AppState)
      → EndedAt req
          (ledger st)
          (over_models rng f lower stored registry today this_month world req ms counts total st)
  unfolding over_models
  over_models-Ended [] counts total st = refl
  over_models-Ended (m ∷ ms) [] total st = refl
  over_models-Ended (m ∷ ms) (count ∷ counts) total st =
      let tried =
        attempts rng f lower stored registry today this_month world req m count 0 total st in
      if-EndedAt req (ledger st)
        (pre_flight_skip_model registry (world total).clock st.cooldown_tracker m req.body_str_len
          st.manager.channels)
        _ _ (over_models-Ended ms counts total st)
        (or_next-EndedAt req (ledger st) tried _ (attempts-EndedAt m count 0 total st)
          (over_models-Ended ms counts tried.1.0 tried.0))
