-- ===== src/VirtualKey/Charge.antt =====
-- What counts as spent after a reset of stale periods and a charge, and the ends of a reservation.
use model_switch.Base.{
  Str, ℕ, ◌≡◌, ap, eq_nat, str_beq, str_beq_refl, true, false, arith, Bool-cases, inl, inr,
  saturating_add_u64, ◌⊎◌,
}
use model_switch.VirtualKey.{DailySpend, MonthlySpend, VirtualKey, daily_spend, monthly_spend}
use model_switch.VirtualKey.Spend.{
  change_by, current_day, current_month, exceeds, no_budget, reserved, exceeded, roll_over,
  reserve_key, has_budget,
}

module _ (today month : Str) where
  pub current_day-date : (d : DailySpend) → str_beq (current_day today d).date today ≡ true
  current_day-date d = elim (Bool-cases (str_beq d.date today)) [
    | inl e ↦ rw (e, e)
    | inr e ↦ rw (e) (str_beq_refl today)
  ]

  pub current_month-month : (m : MonthlySpend) → str_beq (current_month month m).month month ≡ true
  current_month-month m = elim (Bool-cases (str_beq m.month month)) [
    | inl e ↦ rw (e, e)
    | inr e ↦ rw (e) (str_beq_refl month)
  ]

  abbrev pub rolled : VirtualKey → VirtualKey
  rolled vk = record vk { spend = roll_over today month vk.spend }

  -- Resetting stale periods does not change what counts as spent.
  pub daily_spend-rolled :
      (vk : VirtualKey) → (roll_over today month vk.spend).today.cents ≡ daily_spend today vk
  unfolding roll_over
  daily_spend-rolled vk = ground arith

  pub monthly_spend-rolled :
      (vk : VirtualKey) → (roll_over today month vk.spend).this_month.cents ≡ monthly_spend month vk
  unfolding roll_over
  monthly_spend-rolled vk = ground arith

  module _ (op : ℕ → ℕ) (vk : VirtualKey) where
    abbrev pub charged : VirtualKey
    charged = record vk { spend = change_by op (roll_over today month vk.spend) }

    pub daily_spend-charged : daily_spend today charged ≡ op (daily_spend today vk)
    unfolding roll_over
    daily_spend-charged = rw (current_day-date vk.spend.today) (ap op (daily_spend-rolled vk))

    pub monthly_spend-charged : monthly_spend month charged ≡ op (monthly_spend month vk)
    unfolding roll_over
    monthly_spend-charged =
        rw (current_month-month vk.spend.this_month) (ap op (monthly_spend-rolled vk))

  module _ (cost : ℕ) (vk : VirtualKey) where
    abbrev pub day_after : ℕ
    day_after = saturating_add_u64 (roll_over today month vk.spend).today.cents cost

    abbrev pub month_after : ℕ
    month_after = saturating_add_u64 (roll_over today month vk.spend).this_month.cents cost

    -- The three ends of a reservation.
    pub reserve_key-cases :
        (reserve_key today month cost vk ≡ (vk, no_budget))
        ⊎ ((reserve_key today month cost vk ≡ (rolled vk, exceeded))
            ⊎ ((reserve_key today month cost vk
                  ≡ (charged (λ n. saturating_add_u64 n cost) vk, reserved cost))
                × (exceeds day_after vk.daily_budget_cents ≡ false)
                × (exceeds month_after vk.monthly_budget_cents ≡ false)))
    unfolding reserve_key
    reserve_key-cases = elim (Bool-cases vk.enabled) [
      | inr off ↦ inl (rw off)
      | inl on ↦ elim (Bool-cases (has_budget vk)) [
        | inr free ↦ inl (rw (on, free))
        | inl b ↦ elim (Bool-cases (exceeds day_after vk.daily_budget_cents)) [
          | inl over ↦ inr (inl (rw (on, b, over)))
          | inr day ↦ elim (Bool-cases (exceeds month_after vk.monthly_budget_cents)) [
            | inl over ↦ inr (inl (rw (on, b, day, over)))
            | inr whole ↦ inr (inr (rw (on, b, day, whole), day, whole))
          ]
        ]
      ]
    ]
