-- ===== src/VirtualKey.antt =====
-- src-tauri/src/virtual_key/key.rs and spend.rs: a virtual key, its budgets, and what is spent on
-- them. The dates that a call formats from the local clock are its arguments.
pub mod Spend
pub mod Charge
pub mod Budget
pub mod Settle
pub mod Store
mod Tests
use model_switch.Base.{
  starts_with, Str, ℕ, ◌+◌, ◌-◌, ◌%◌, ◌^◌, PartialEq, eq_nat, eq_str, str_beq, nat_beq,
  if◌then◌else◌, leb, ltb, Bool, true, false, not, ◌&&◌, ◌||◌, Option, none, some, List, [], ◌∷◌,
  any,
}
use model_switch.Glob.{matches_glob}

pub record DailySpend : Type 0 where
  pub date : Str
  pub cents : ℕ

pub record MonthlySpend : Type 0 where
  pub month : Str
  pub cents : ℕ

pub record VirtualKeySpend : Type 0 where
  pub today : DailySpend
  pub this_month : MonthlySpend
  pub total_cents : ℕ

pub record VirtualKey : Type 0 where
  pub id : ℕ
  pub key_hash : Str
  pub key_prefix : Str
  pub name : Str
  pub daily_budget_cents : Option ℕ
  pub monthly_budget_cents : Option ℕ
  pub enabled : Bool
  pub created_at : ℕ
  pub spend : VirtualKeySpend
  pub allowed_models : Option (List Str)
  pub denied_models : List Str
  pub allowed_ips : List Str
  pub rpm_limit : Option ℕ
  pub tpm_limit : Option ℕ
  pub expires_at : Option ℕ
  pub group : Option Str

-- What counts as spent: nothing, if the stored period is over.
abbrev pub daily_spend : Str → VirtualKey → ℕ
daily_spend today vk = if str_beq vk.spend.today.date today then vk.spend.today.cents else 0

abbrev pub monthly_spend : Str → VirtualKey → ℕ
monthly_spend this_month vk =
    if str_beq vk.spend.this_month.month this_month then vk.spend.this_month.cents else 0

abbrev at_limit : ℕ → Option ℕ → Bool
at_limit spent none = false
at_limit spent (some limit) = leb limit spent

unfoldable pub is_budget_exceeded : Str → Str → VirtualKey → Bool
is_budget_exceeded today this_month vk =
    if at_limit (daily_spend today vk) vk.daily_budget_cents
    then true
    else at_limit (monthly_spend this_month vk) vk.monthly_budget_cents

unfoldable pub is_model_allowed : VirtualKey → Str → Bool
is_model_allowed vk model = elim vk.allowed_models [
  | none ↦ true
  | some allowed ↦ any (λ pattern. starts_with model pattern || matches_glob pattern model) allowed
]

unfoldable pub is_model_denied : VirtualKey → Str → Bool
is_model_denied vk model = any (λ pattern. matches_glob pattern model) vk.denied_models

unfoldable pub is_expired : ℕ → VirtualKey → Bool
is_expired now vk = elim vk.expires_at [ none ↦ false | some expiry ↦ ltb expiry now ]
