-- ===== src/ProviderBudget/Tests.antt =====
-- Instances of the theorems on the budgets of providers.
use model_switch.Base.{
  bytes, eq_nat, eq_str, sum_by, Str, ℕ, ◌+◌, ◌≡◌, ◌↔◌, true, none, some, List, [], ◌∷◌, arith,
}
use model_switch.Base.Map.{get}
use model_switch.ProviderBudget.{ProviderBudgetStore, check_budget}
use model_switch.ProviderBudget.Cap.{
  Below, daily_cap, monthly_cap, day_total, month_total, cost_at, accumulate_all,
  check_budget-accumulate_all,
}

abbrev capped : ProviderBudgetStore
capped = record {
  configs =
      (bytes "openai", record { daily_budget_cents = some 10; monthly_budget_cents = none }) ∷ [];
  spend =
      (
        bytes "openai",
        record {
          today = record { date = bytes "d"; cents = 4 };
          this_month = record { month = bytes "l"; cents = 90 };
          total_cents = 100;
        },
      )
      ∷ [];
}

abbrev costs : List (Str × ℕ)
costs = (bytes "openai", 3) ∷ (bytes "groq", 8) ∷ (bytes "openai", 3) ∷ []

check_budget-accumulate_all_example :
    check_budget
        (bytes "d")
        (bytes "m")
        (accumulate_all (bytes "d") (bytes "m") costs capped)
        (bytes "openai")
      ≡ true
    ↔ (Below
          (day_total (bytes "d") (bytes "m") capped (bytes "openai")
            + sum_by (cost_at (bytes "d") (bytes "m") (bytes "openai")) costs)
          (daily_cap (get capped.configs (bytes "openai")))
        × Below
            (month_total (bytes "d") (bytes "m") capped (bytes "openai")
              + sum_by (cost_at (bytes "d") (bytes "m") (bytes "openai")) costs)
            (monthly_cap (get capped.configs (bytes "openai"))))
unfolding get
check_budget-accumulate_all_example =
    check_budget-accumulate_all (bytes "d") (bytes "m") costs capped (bytes "openai") (omega arith)
      (omega arith)
