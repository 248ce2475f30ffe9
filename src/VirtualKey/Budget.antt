-- ===== src/VirtualKey/Budget.antt =====
-- What the budgets of virtual keys promise.
use model_switch.Base.{
  Str, ℕ, ◌≤◌, ◌≡◌, ap, sym, subst, ◌∙◌, eq_nat, nat_beq, false, Option, none, some, List, [], ◌∷◌,
  arith, Bool-cases, Option-cases, inl, inr, some_inj, saturating_add_u64,
}
use model_switch.Base.Map.{Map, get, insert, get-insert}
use model_switch.VirtualKey.{VirtualKey, daily_spend, monthly_spend}
use model_switch.VirtualKey.Spend.{
  exceeds, reserved, exceeded, roll_over, reserve_key, reserve_spend,
}
use model_switch.VirtualKey.Charge.{
  rolled, charged, day_after, month_after, reserve_key-cases, daily_spend-rolled,
  monthly_spend-rolled, daily_spend-charged, monthly_spend-charged, current_day-date,
  current_month-month,
}

abbrev pub Within : ℕ → Option ℕ → Type 0
Within spent none = Unit
Within spent (some limit) = spent ≤ limit

-- What is spent in this day and in this month is within the budgets.
pub record IsWithin (today month : Str) (vk : VirtualKey) : Type 0 where
  pub day : Within (daily_spend today vk) vk.daily_budget_cents
  pub whole_month : Within (monthly_spend month vk) vk.monthly_budget_cents

-- A counter on which a cost is put, with its limit.
exceeds-Within :
    (spent cost : ℕ) (limit : Option ℕ)
    → exceeds (saturating_add_u64 spent cost) limit ≡ false
    → Within (saturating_add_u64 spent cost) limit
exceeds-Within spent cost none e = tt
exceeds-Within spent cost (some limit) e = ground arith

module _ (today month : Str) where
  charged-IsWithin :
      (cost : ℕ) (vk : VirtualKey)
      → exceeds (day_after today month cost vk) vk.daily_budget_cents ≡ false
      → exceeds (month_after today month cost vk) vk.monthly_budget_cents ≡ false
      → IsWithin today month (charged today month (λ n. saturating_add_u64 n cost) vk)
  charged-IsWithin cost vk day whole = record {
    day =
        subst (λ n. Within n vk.daily_budget_cents)
          (ap (λ n. saturating_add_u64 n cost) (daily_spend-rolled today month vk)
            ∙ sym (daily_spend-charged today month (λ n. saturating_add_u64 n cost) vk))
          (exceeds-Within _ cost vk.daily_budget_cents day);
    whole_month =
        subst (λ n. Within n vk.monthly_budget_cents)
          (ap (λ n. saturating_add_u64 n cost) (monthly_spend-rolled today month vk)
            ∙ sym (monthly_spend-charged today month (λ n. saturating_add_u64 n cost) vk))
          (exceeds-Within _ cost vk.monthly_budget_cents whole);
  }

  daily_spend-reset :
      (vk : VirtualKey) → daily_spend today (rolled today month vk) ≡ daily_spend today vk
  unfolding roll_over
  daily_spend-reset vk =
      rw (current_day-date today month vk.spend.today) (daily_spend-rolled today month vk)

  monthly_spend-reset :
      (vk : VirtualKey) → monthly_spend month (rolled today month vk) ≡ monthly_spend month vk
  unfolding roll_over
  monthly_spend-reset vk =
      rw (current_month-month today month vk.spend.this_month) (monthly_spend-rolled today month vk)

  rolled-IsWithin :
      (vk : VirtualKey) → IsWithin today month vk → IsWithin today month (rolled today month vk)
  rolled-IsWithin vk w = record {
    day = subst (λ n. Within n vk.daily_budget_cents) (sym (daily_spend-reset vk)) w.day;
    whole_month =
        subst (λ n. Within n vk.monthly_budget_cents) (sym (monthly_spend-reset vk)) w.whole_month;
  }

  reserve_key-IsWithin :
      (cost : ℕ) (vk : VirtualKey)
      → IsWithin today month vk
      → IsWithin today month (reserve_key today month cost vk).0
  reserve_key-IsWithin cost vk w = elim (reserve_key-cases today month cost vk) [
    | inl e ↦ rw e w
    | inr (inl e) ↦ rw e (rolled-IsWithin vk w)
    | inr (inr (e, day, whole)) ↦ rw e (charged-IsWithin cost vk day whole)
  ]

  -- A reservation that is granted is of the cost asked for, puts it on what is spent in the day and
  -- in the month, and leaves both within the budgets, whatever was spent before.
  pub reserve_key-reserved :
      (cost n : ℕ) (vk : VirtualKey)
      → (reserve_key today month cost vk).1 ≡ reserved n
      → (n ≡ cost)
        × IsWithin today month (reserve_key today month cost vk).0
        × (daily_spend today (reserve_key today month cost vk).0
            ≡ saturating_add_u64 (daily_spend today vk) cost)
        × (monthly_spend month (reserve_key today month cost vk).0
            ≡ saturating_add_u64 (monthly_spend month vk) cost)
  reserve_key-reserved cost n vk h = elim (reserve_key-cases today month cost vk) [
    | inl e ↦ cc
    | inr (inl e) ↦ cc
    | inr (inr (e, day, whole)) ↦ (
      cc,
      rw e (charged-IsWithin cost vk day whole),
      rw e (daily_spend-charged today month (λ m. saturating_add_u64 m cost) vk),
      rw e (monthly_spend-charged today month (λ m. saturating_add_u64 m cost) vk),
    )
  ]

  -- A reservation that is refused charges nothing: what counts as spent in the day and in the
  -- month, and the total of the key, stay the same.
  pub reserve_key-exceeded :
      (cost : ℕ) (vk : VirtualKey)
      → (reserve_key today month cost vk).1 ≡ exceeded
      → (daily_spend today (reserve_key today month cost vk).0 ≡ daily_spend today vk)
        × (monthly_spend month (reserve_key today month cost vk).0 ≡ monthly_spend month vk)
        × ((reserve_key today month cost vk).0.spend.total_cents ≡ vk.spend.total_cents)
  unfolding roll_over
  reserve_key-exceeded cost vk h = elim (reserve_key-cases today month cost vk) [
    | inl e ↦ cc
    | inr (inr e) ↦ cc
    | inr (inl e) ↦ (rw e (daily_spend-reset vk), rw e (monthly_spend-reset vk), rw e)
  ]

  -- A run of reservations on a store of keys, each with the key and the cost.
  unfoldable pub reserve_all : List (ℕ × ℕ) → Map ℕ VirtualKey → Map ℕ VirtualKey
  reserve_all [] keys = keys
  reserve_all ((key_id, cost) ∷ rs) keys =
      reserve_all rs (reserve_spend today month key_id cost keys).0

-- Every key of a store is within its budgets.
pub record AreWithin (today month : Str) (keys : Map ℕ VirtualKey) : Type 0 where
  pub at : (id : ℕ) (vk : VirtualKey) → get keys id ≡ some vk → IsWithin today month vk

module _ (today month : Str) where
  insert-AreWithin :
      (id : ℕ) (vk : VirtualKey) (keys : Map ℕ VirtualKey)
      → IsWithin today month vk
      → AreWithin today month keys
      → AreWithin today month (insert id vk keys)
  insert-AreWithin id vk keys w s = record {
    at = λ j x e. elim (Bool-cases (nat_beq id j)) [
      | inl here ↦ subst (IsWithin today month) (some_inj (rw (get-insert, here) at e)) w
      | inr other ↦ s.at j x (rw (get-insert, other) at e)
    ];
  }

  reserve_spend-AreWithin :
      (id cost : ℕ) (keys : Map ℕ VirtualKey)
      → AreWithin today month keys
      → AreWithin today month (reserve_spend today month id cost keys).0
  unfolding reserve_spend
  reserve_spend-AreWithin id cost keys s = elim (Option-cases (get keys id)) [
    | inl e ↦ rw (e, reserve_spend) s
    | inr (vk, e) ↦
        rw (e, reserve_spend)
          (insert-AreWithin id (reserve_key today month cost vk).0 keys
            (reserve_key-IsWithin today month cost vk (s.at id vk e)) s)
  ]

  -- Whatever requests reserve what costs on which keys in which order within a day, no key is ever
  -- over a budget if none was before.
  pub reserve_all-AreWithin :
      (rs : List (ℕ × ℕ)) (keys : Map ℕ VirtualKey)
      → AreWithin today month keys
      → AreWithin today month (reserve_all today month rs keys)
  unfolding reserve_all
  reserve_all-AreWithin [] keys s = s
  reserve_all-AreWithin ((id, cost) ∷ rs) keys s =
      reserve_all-AreWithin rs _ (reserve_spend-AreWithin id cost keys s)
