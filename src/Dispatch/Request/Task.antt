-- ===== src/Dispatch/Request/Task.antt =====
-- src-tauri/src/proxy/response.rs: the task that runs after a response, on the key of the request.
use model_switch.Base.{
  Bool-cases, eq_nat, eq_str, ltb, nat_beq, nat_beq_iff, Str, ℕ, ◌+◌, ◌^◌, ◌<◌, ◌≡◌, refl, ap, ◌∙◌,
  inl, inr, true, some, arith,
}
use model_switch.Base.Map.{Map, get}
use model_switch.F64.{Floats}
use model_switch.VirtualKey.{VirtualKey, daily_spend, monthly_spend}
use model_switch.VirtualKey.Spend.{reserved, reserve_key, reconcile_spend, reconcile_key}
use model_switch.VirtualKey.Settle.{reconcile_key-reserve_key}
use model_switch.Dispatch.State.{AppState, TelemetryRecord}
use model_switch.VirtualKey.Budget.{reserve_key-reserved}
use model_switch.Router.Select.{Clock}
use model_switch.Dispatch.Telemetry.{record_post_response_telemetry, run_task}
use model_switch.Dispatch.Request.Settled.{get-reconcile_spend}

module _ (f : Floats) (today month : Str) (clock : Clock) where
  charged_keys :
      (st : AppState) (rec : TelemetryRecord) (id : ℕ)
      → rec.vk_id ≡ some id
      → 0 < rec.reserved_cents
      → (run_task f today month clock rec st).virtual_keys
        ≡ reconcile_spend id rec.reserved_cents rec.cost_cents st.virtual_keys
  unfolding run_task record_post_response_telemetry
  charged_keys st rec id of_key positive =
      let charged : ltb 0 rec.reserved_cents ≡ true = ground (arith, positive) in
      rw (of_key, charged) refl

  reconciled :
      (id cost actual : ℕ) (key : VirtualKey) (keys : Map ℕ VirtualKey)
      → get keys id ≡ some (reserve_key today month cost key).0
      → (reserve_key today month cost key).1 ≡ reserved cost
      → cost < 2 ^ 63
      → actual < 2 ^ 63
      → daily_spend today key + (cost + actual) < 2 ^ 64
      → monthly_spend month key + (cost + actual) < 2 ^ 64
      → key.spend.total_cents + (cost + actual) < 2 ^ 64
      → (k : VirtualKey) × (get (reconcile_spend id cost actual keys) id ≡ some k)
        × (daily_spend today k ≡ daily_spend today key + actual)
        × (monthly_spend month k ≡ monthly_spend month key + actual)
  unfolding reconcile_spend
  reconciled id cost actual key keys held granted c a d m t =
      elim (Bool-cases (nat_beq cost actual)) [
        | inr differ ↦
            let (day, whole, total) =
              reconcile_key-reserve_key today month cost actual key granted c a d m t in
            (
              reconcile_key cost actual (reserve_key today month cost key).0,
              get-reconcile_spend id cost actual _ keys differ held,
              day,
              whole,
            )
        | inl same ↦
            let (n, within, day, whole) = reserve_key-reserved today month cost cost key granted in
            let e : cost ≡ actual = (nat_beq_iff cost actual).0 same in
            (
              (reserve_key today month cost key).0,
              rw same held,
              day ∙ omega (arith, d, e),
              whole ∙ omega (arith, m, e),
            )
      ]

  -- The task that runs after a response brings what its key has spent in the day and in the month to
  -- what it was before the reservation and the actual cost, be it less or more than what was reserved.
  -- The key still holds the reservation, of at least a cent, and it is still the day of the reservation;
  -- the amounts stay within 64 bits.
  pub run_task-settles :
      (st : AppState) (rec : TelemetryRecord) (id : ℕ) (key : VirtualKey)
      → rec.vk_id ≡ some id
      → 0 < rec.reserved_cents
      → get st.virtual_keys id ≡ some (reserve_key today month rec.reserved_cents key).0
      → (reserve_key today month rec.reserved_cents key).1 ≡ reserved rec.reserved_cents
      → rec.reserved_cents < 2 ^ 63
      → rec.cost_cents < 2 ^ 63
      → daily_spend today key + (rec.reserved_cents + rec.cost_cents) < 2 ^ 64
      → monthly_spend month key + (rec.reserved_cents + rec.cost_cents) < 2 ^ 64
      → key.spend.total_cents + (rec.reserved_cents + rec.cost_cents) < 2 ^ 64
      → (k : VirtualKey) × (get (run_task f today month clock rec st).virtual_keys id ≡ some k)
        × (daily_spend today k ≡ daily_spend today key + rec.cost_cents)
        × (monthly_spend month k ≡ monthly_spend month key + rec.cost_cents)
  run_task-settles st rec id key of_key positive held granted c a d m t =
      let (k, e, day, whole) =
        reconciled id rec.reserved_cents rec.cost_cents key st.virtual_keys held granted c a d m
          t in
      (k, ap (λ keys. get keys id) (charged_keys st rec id of_key positive) ∙ e, day, whole)
