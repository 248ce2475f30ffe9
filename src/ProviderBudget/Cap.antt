-- ===== src/ProviderBudget/Cap.antt =====
-- When a provider is over its cap.
use model_switch.Base.{
  Bool-cases, eq_nat, eq_str, if◌then◌else◌, str_beq, str_beq_iff, str_beq_refl, sum_by,
  wrapping_add_u64, Str, ℕ, ◌+◌, ◌^◌, ◌<◌, ◌≡◌, refl, sym, ap, ap₂, ◌∙◌, subst, ◌↔◌, true, inl, inr,
  Option, none, some, List, [], ◌∷◌, arith,
}
use model_switch.Base.Map.{get, get-insert}
use model_switch.ProviderBudget.{
  ProviderBudgetConfig, ProviderBudgetStore, ProviderSpend, daily_of, monthly_of, within_config,
  check_budget, add_spend, or_default, accumulate_spend,
}

-- What a cap allows, and the caps that are configured.
abbrev pub Below : ℕ → Option ℕ → Type 0
Below spent none = Unit
Below spent (some limit) = spent < limit

abbrev pub daily_cap : Option ProviderBudgetConfig → Option ℕ
daily_cap none = none
daily_cap (some config) = config.daily_budget_cents

abbrev pub monthly_cap : Option ProviderBudgetConfig → Option ℕ
monthly_cap none = none
monthly_cap (some config) = config.monthly_budget_cents

caps_lem :
    (daily monthly : ℕ) (a b : Option ℕ)
    → within_config daily monthly
          (some (record { daily_budget_cents = a; monthly_budget_cents = b }))
        ≡ true
      ↔ (Below daily a × Below monthly b)
caps_lem daily monthly none none = (λ h. (tt, tt), λ h. refl)
caps_lem daily monthly none (some m) = (λ h. (tt, ground arith), λ (u, l). ground arith)
caps_lem daily monthly (some d) none = (λ h. (ground arith, tt), λ (l, u). ground arith)
caps_lem daily monthly (some d) (some m) =
    (λ h. (ground arith, ground arith), λ (l, l'). ground arith)

within_config-caps :
    (daily monthly : ℕ) (o : Option ProviderBudgetConfig)
    → within_config daily monthly o ≡ true
      ↔ (Below daily (daily_cap o) × Below monthly (monthly_cap o))
within_config-caps daily monthly none = (λ h. (tt, tt), λ h. refl)
within_config-caps daily monthly (some config) =
    caps_lem daily monthly config.daily_budget_cents config.monthly_budget_cents

module _ (today month : Str) where
  -- What a provider has spent in the day, and in the month.
  abbrev pub day_total : ProviderBudgetStore → Str → ℕ
  day_total st provider = daily_of today (get st.spend provider)

  abbrev pub month_total : ProviderBudgetStore → Str → ℕ
  month_total st provider = monthly_of month (get st.spend provider)

  daily_of-add :
      (cents : ℕ) (s : ProviderSpend)
      → daily_of today (some (add_spend today month cents s))
        ≡ wrapping_add_u64 (daily_of today (some s)) cents
  unfolding add_spend
  daily_of-add cents s = elim (Bool-cases (str_beq s.today.date today)) [
    | inl same ↦ rw (same, same)
    | inr stale ↦ rw (stale, str_beq_refl today)
  ]

  monthly_of-add :
      (cents : ℕ) (s : ProviderSpend)
      → monthly_of month (some (add_spend today month cents s))
        ≡ wrapping_add_u64 (monthly_of month (some s)) cents
  unfolding add_spend
  monthly_of-add cents s = elim (Bool-cases (str_beq s.this_month.month month)) [
    | inl same ↦ rw (same, same)
    | inr stale ↦ rw (stale, str_beq_refl month)
  ]

  daily_of-default :
      (o : Option ProviderSpend) → daily_of today (some (or_default o)) ≡ daily_of today o
  daily_of-default none = ground arith
  daily_of-default (some s) = refl

  monthly_of-default :
      (o : Option ProviderSpend) → monthly_of month (some (or_default o)) ≡ monthly_of month o
  monthly_of-default none = ground arith
  monthly_of-default (some s) = refl

  -- Calls of `accumulate_spend`, with the provider and the cents.
  unfoldable pub accumulate_all : List (Str × ℕ) → ProviderBudgetStore → ProviderBudgetStore
  accumulate_all [] st = st
  accumulate_all ((provider, cents) ∷ es) st =
      accumulate_all es (accumulate_spend today month provider cents st)

  abbrev pub cost_at : Str → Str × ℕ → ℕ
  cost_at provider e = if str_beq e.0 provider then e.1 else 0

  day_total-accumulate :
      (st : ProviderBudgetStore) (p q : Str) (cents : ℕ)
      → day_total (accumulate_spend today month p cents st) q
        ≡ (if str_beq p q then wrapping_add_u64 (day_total st q) cents else day_total st q)
  unfolding accumulate_spend
  day_total-accumulate st p q cents = elim (Bool-cases (str_beq p q)) [
    | inl same ↦
        rw (get-insert, same)
          (daily_of-add cents (or_default (get st.spend p))
            ∙ ap (λ n. wrapping_add_u64 n cents)
                (daily_of-default (get st.spend p)
                  ∙ ap (λ z. daily_of today (get st.spend z)) ((str_beq_iff p q).0 same)))
    | inr other ↦ rw (get-insert, other)
  ]

  month_total-accumulate :
      (st : ProviderBudgetStore) (p q : Str) (cents : ℕ)
      → month_total (accumulate_spend today month p cents st) q
        ≡ (if str_beq p q then wrapping_add_u64 (month_total st q) cents else month_total st q)
  unfolding accumulate_spend
  month_total-accumulate st p q cents = elim (Bool-cases (str_beq p q)) [
    | inl same ↦
        rw (get-insert, same)
          (monthly_of-add cents (or_default (get st.spend p))
            ∙ ap (λ n. wrapping_add_u64 n cents)
                (monthly_of-default (get st.spend p)
                  ∙ ap (λ z. monthly_of month (get st.spend z)) ((str_beq_iff p q).0 same)))
    | inr other ↦ rw (get-insert, other)
  ]

  totals-accumulate_all :
      (es : List (Str × ℕ)) (st : ProviderBudgetStore) (p : Str)
      → day_total st p + sum_by (cost_at p) es < 2 ^ 64
      → month_total st p + sum_by (cost_at p) es < 2 ^ 64
      → (day_total (accumulate_all es st) p ≡ day_total st p + sum_by (cost_at p) es)
        × (month_total (accumulate_all es st) p ≡ month_total st p + sum_by (cost_at p) es)
  unfolding accumulate_all
  totals-accumulate_all [] st p d m = (omega arith, omega arith)
  totals-accumulate_all ((q, cents) ∷ es) st p d m =
      let st' = accumulate_spend today month q cents st in
      let step_d : day_total st' p ≡ day_total st p + cost_at p (q, cents) =
        day_total-accumulate st q p cents ∙ ground arith in
      let step_m : month_total st' p ≡ month_total st p + cost_at p (q, cents) =
        month_total-accumulate st q p cents ∙ ground arith in
      let (ih_d, ih_m) =
        totals-accumulate_all es st' p (omega (arith, step_d)) (omega (arith, step_m)) in
      (omega (arith, ih_d, step_d), omega (arith, ih_m, step_m))

  configs-accumulate_all :
      (es : List (Str × ℕ)) (st : ProviderBudgetStore) → (accumulate_all es st).configs ≡ st.configs
  unfolding accumulate_all accumulate_spend
  configs-accumulate_all [] st = refl
  configs-accumulate_all ((q, cents) ∷ es) st =
      configs-accumulate_all es (accumulate_spend today month q cents st)

  check_budget-totals :
      (es : List (Str × ℕ)) (st : ProviderBudgetStore) (p : Str)
      → day_total st p + sum_by (cost_at p) es < 2 ^ 64
      → month_total st p + sum_by (cost_at p) es < 2 ^ 64
      → check_budget today month (accumulate_all es st) p
        ≡ within_config
            (day_total st p + sum_by (cost_at p) es)
            (month_total st p + sum_by (cost_at p) es)
            (get st.configs p)
  unfolding check_budget
  check_budget-totals es st p d m =
      let (total_d, total_m) = totals-accumulate_all es st p d m in
      ap₂ (λ a b. within_config a b (get (accumulate_all es st).configs p)) total_d total_m
      ∙ ap
          (λ c.
            within_config (day_total st p + sum_by (cost_at p) es)
              (month_total st p + sum_by (cost_at p) es) (get c p))
          (configs-accumulate_all es st)

  -- After any spending in a day, at any providers in any order, a provider passes the check exactly
  -- if what it had spent before and its own costs add up to less than its daily cap, for the day, and
  -- to less than its monthly cap, for the month, where it has such a cap. The sums fit in 64 bits.
  pub check_budget-accumulate_all :
      (es : List (Str × ℕ)) (st : ProviderBudgetStore) (p : Str)
      → day_total st p + sum_by (cost_at p) es < 2 ^ 64
      → month_total st p + sum_by (cost_at p) es < 2 ^ 64
      → check_budget today month (accumulate_all es st) p ≡ true ↔ (
          Below (day_total st p + sum_by (cost_at p) es) (daily_cap (get st.configs p))
          × Below (month_total st p + sum_by (cost_at p) es) (monthly_cap (get st.configs p)))
  check_budget-accumulate_all es st p d m =
      subst
        (λ b. (b ≡ true) ↔ (
          Below (day_total st p + sum_by (cost_at p) es) (daily_cap (get st.configs p))
          × Below (month_total st p + sum_by (cost_at p) es) (monthly_cap (get st.configs p))))
        (sym (check_budget-totals es st p d m))
        (within_config-caps (day_total st p + sum_by (cost_at p) es)
          (month_total st p + sum_by (cost_at p) es) (get st.configs p))
