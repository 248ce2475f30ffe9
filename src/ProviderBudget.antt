-- ===== src/ProviderBudget.antt =====
-- src-tauri/src/provider_budget.rs: daily and monthly caps on what is spent at a provider. The dates
-- that a call formats from the local clock are its arguments.
pub mod Cap
mod Tests
use model_switch.Base.{
  Str, ℕ, ◌&&◌, ◌+◌, Bool, true, false, Option, none, some, List, [], ◌∷◌, eq_str, str_beq,
  if◌then◌else◌, leb, not, ◌||◌, is_some, wrapping_add_u64,
}
use model_switch.Base.Map.{Map, get, insert, remove, contains_key}
use model_switch.VirtualKey.{DailySpend, MonthlySpend}
use model_switch.VirtualKey.Spend.{current_day, current_month}

pub record ProviderBudgetConfig : Type 0 where
  pub daily_budget_cents : Option ℕ
  pub monthly_budget_cents : Option ℕ

pub record ProviderSpend : Type 0 where
  pub today : DailySpend
  pub this_month : MonthlySpend
  pub total_cents : ℕ

pub record ProviderBudgetStore : Type 0 where
  pub configs : Map Str ProviderBudgetConfig
  pub spend : Map Str ProviderSpend

abbrev pub default_spend : ProviderSpend
default_spend = record {
  today = record { date = []; cents = 0 };
  this_month = record { month = []; cents = 0 };
  total_cents = 0;
}

unfoldable pub set_budget : Str → ProviderBudgetConfig → ProviderBudgetStore → ProviderBudgetStore
set_budget provider config st = record st { configs = insert provider config st.configs }

unfoldable pub get_budget : ProviderBudgetStore → Str → Option ProviderBudgetConfig
get_budget st provider = get st.configs provider

unfoldable pub delete_budget : Str → ProviderBudgetStore → ProviderBudgetStore × Bool
delete_budget provider st =
    (record st { configs = remove provider st.configs }, is_some (get st.configs provider))

-- What counts as spent: nothing, if there is no record or its period is over.
abbrev pub daily_of : Str → Option ProviderSpend → ℕ
daily_of today none = 0
daily_of today (some s) = if str_beq s.today.date today then s.today.cents else 0

abbrev pub monthly_of : Str → Option ProviderSpend → ℕ
monthly_of this_month none = 0
monthly_of this_month (some s) =
    if str_beq s.this_month.month this_month then s.this_month.cents else 0

abbrev pub below : ℕ → Option ℕ → Bool
below spent none = true
below spent (some limit) = not (leb limit spent)

-- `check_budget` with the configuration of the provider. Between its two reads of the configuration
-- nothing else runs here.
abbrev pub within_config : ℕ → ℕ → Option ProviderBudgetConfig → Bool
within_config daily monthly none = true
within_config daily monthly (some config) =
    if not (is_some config.daily_budget_cents || is_some config.monthly_budget_cents)
    then true
    else if not (below daily config.daily_budget_cents)
    then false
    else below monthly config.monthly_budget_cents

unfoldable pub check_budget : Str → Str → ProviderBudgetStore → Str → Bool
check_budget today this_month st provider =
    within_config (daily_of today (get st.spend provider))
      (monthly_of this_month (get st.spend provider)) (get st.configs provider)

abbrev pub or_default : Option ProviderSpend → ProviderSpend
or_default none = default_spend
or_default (some s) = s

unfoldable pub add_spend : Str → Str → ℕ → ProviderSpend → ProviderSpend
add_spend today this_month cents s =
    let d = current_day today s.today in
    let m = current_month this_month s.this_month in
    record {
      today = record d { cents = wrapping_add_u64 d.cents cents };
      this_month = record m { cents = wrapping_add_u64 m.cents cents };
      total_cents = wrapping_add_u64 s.total_cents cents;
    }

unfoldable pub accumulate_spend : Str → Str → Str → ℕ → ProviderBudgetStore → ProviderBudgetStore
accumulate_spend today this_month provider cents st = record st {
  spend =
      insert provider (add_spend today this_month cents (or_default (get st.spend provider)))
        st.spend;
}
