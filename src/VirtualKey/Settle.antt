-- ===== src/VirtualKey/Settle.antt =====
-- Reconciling a reservation with the actual cost, and accumulating a cost.
use model_switch.Base.{
  Str, ℕ, ◌+◌, ◌-◌, ◌^◌, ◌<◌, ◌≡◌, ◌∙◌, eq_nat, if◌then◌else◌, leb, arith, Bool-cases, inl, inr,
  saturating_add_u64, saturating_sub, wrapping_add_u64,
}
use model_switch.VirtualKey.{VirtualKey, daily_spend, monthly_spend}
use model_switch.VirtualKey.Spend.{
  reserved, roll_over, reserve_key, reconcile_key, accumulate_key, delta_bits,
}
use model_switch.VirtualKey.Charge.{
  charged, reserve_key-cases, daily_spend-charged, monthly_spend-charged,
}

module _ (today month : Str) where
  -- A refund or an extra charge brings a counter to the actual cost.
  abbrev settled : ℕ → ℕ → ℕ → ℕ
  settled cost actual n =
      let delta = delta_bits cost actual in
      if leb (2 ^ 63) delta
      then saturating_sub (saturating_add_u64 n cost) (2 ^ 64 - delta)
      else wrapping_add_u64 (saturating_add_u64 n cost) delta

  settled_lem :
      (cost actual n : ℕ)
      → cost < 2 ^ 63
      → actual < 2 ^ 63
      → n + cost < 2 ^ 64
      → n + actual < 2 ^ 64
      → settled cost actual n ≡ n + actual
  settled_lem cost actual n c a l m = ground arith

  reconcile_key-charged :
      (cost actual : ℕ) (vk : VirtualKey)
      → reconcile_key cost actual (charged today month (λ n. saturating_add_u64 n cost) vk)
        ≡ charged today month (settled cost actual) vk
  unfolding reconcile_key
  reconcile_key-charged cost actual vk = elim (Bool-cases (leb (2 ^ 63) (delta_bits cost actual))) [
    | inl e ↦ rw e
    | inr e ↦ rw e
  ]

  -- A granted reservation that is reconciled with the actual cost, within its day and month, charges
  -- the actual cost, on the day, the month and the total alike, be it less or more than what was
  -- reserved. The amounts stay within 64 bits, and the two costs within 63.
  pub reconcile_key-reserve_key :
      (cost actual : ℕ) (vk : VirtualKey)
      → (reserve_key today month cost vk).1 ≡ reserved cost
      → cost < 2 ^ 63
      → actual < 2 ^ 63
      → daily_spend today vk + (cost + actual) < 2 ^ 64
      → monthly_spend month vk + (cost + actual) < 2 ^ 64
      → vk.spend.total_cents + (cost + actual) < 2 ^ 64
      → (daily_spend today (reconcile_key cost actual (reserve_key today month cost vk).0)
          ≡ daily_spend today vk + actual)
        × (monthly_spend month (reconcile_key cost actual (reserve_key today month cost vk).0)
            ≡ monthly_spend month vk + actual)
        × ((reconcile_key cost actual (reserve_key today month cost vk).0).spend.total_cents
            ≡ vk.spend.total_cents + actual)
  unfolding roll_over
  reconcile_key-reserve_key cost actual vk h c a d m t =
      elim (reserve_key-cases today month cost vk) [
        | inl e ↦ cc
        | inr (inl e) ↦ cc
        | inr (inr (e, day, whole)) ↦
            let r = reconcile_key-charged cost actual vk in
            (
              rw (e, r)
                  (daily_spend-charged today month (settled cost actual) vk
                    ∙ settled_lem cost actual (daily_spend today vk) c a (omega arith)
                        (omega arith)),
              rw (e, r)
                  (monthly_spend-charged today month (settled cost actual) vk
                    ∙ settled_lem cost actual (monthly_spend month vk) c a (omega arith)
                        (omega arith)),
              rw (e, r)
                  (settled_lem cost actual vk.spend.total_cents c a (omega arith) (omega arith)),
            )
      ]

  -- Accumulating a cost adds it to what counts as spent in the day, in the month and in all, where
  -- nothing passes 64 bits.
  pub accumulate_key-adds :
      (cost : ℕ) (vk : VirtualKey)
      → daily_spend today vk + cost < 2 ^ 64
      → monthly_spend month vk + cost < 2 ^ 64
      → vk.spend.total_cents + cost < 2 ^ 64
      → (daily_spend today (accumulate_key today month cost vk) ≡ daily_spend today vk + cost)
        × (monthly_spend month (accumulate_key today month cost vk) ≡ monthly_spend month vk + cost)
        × ((accumulate_key today month cost vk).spend.total_cents ≡ vk.spend.total_cents + cost)
  unfolding accumulate_key roll_over
  accumulate_key-adds cost vk d m t = (
    daily_spend-charged today month (λ n. wrapping_add_u64 n cost) vk ∙ omega arith,
    monthly_spend-charged today month (λ n. wrapping_add_u64 n cost) vk ∙ omega arith,
    omega arith,
  )
