-- ===== src/VirtualKey/Spend.antt =====
-- src-tauri/src/virtual_key/spend.rs: reserving, reconciling and accumulating what a key spends.
use model_switch.Base.{
  Str, ℕ, ◌+◌, ◌-◌, ◌%◌, ◌^◌, eq_nat, str_beq, nat_beq, if◌then◌else◌, leb, ltb, Bool, false, not,
  ◌||◌, Option, none, some, is_some, saturating_add_u64, saturating_sub, wrapping_add_u64,
}
use model_switch.Base.Map.{Map, get, insert, modify}
use model_switch.VirtualKey.{DailySpend, MonthlySpend, VirtualKeySpend, VirtualKey}

pub data ReserveResult : Type 0 where
  no_budget : ReserveResult
  reserved : ℕ → ReserveResult
  exceeded : ReserveResult

abbrev pub current_day : Str → DailySpend → DailySpend
current_day today d = if str_beq d.date today then d else record { date = today; cents = 0 }

abbrev pub current_month : Str → MonthlySpend → MonthlySpend
current_month this_month m =
    if str_beq m.month this_month then m else record { month = this_month; cents = 0 }

-- Stale periods are reset.
unfoldable pub roll_over : Str → Str → VirtualKeySpend → VirtualKeySpend
roll_over today this_month s = record s {
  today = current_day today s.today;
  this_month = current_month this_month s.this_month;
}

abbrev pub exceeds : ℕ → Option ℕ → Bool
exceeds amount none = false
exceeds amount (some limit) = ltb limit amount

-- The spend with an amount put on all three counters by `op`.
abbrev pub change_by : (ℕ → ℕ) → VirtualKeySpend → VirtualKeySpend
change_by op s = record s {
  today = record s.today { cents = op s.today.cents };
  this_month = record s.this_month { cents = op s.this_month.cents };
  total_cents = op s.total_cents;
}

abbrev pub has_budget : VirtualKey → Bool
has_budget vk = is_some vk.daily_budget_cents || is_some vk.monthly_budget_cents

-- `reserve_spend`, on the key that the id names.
unfoldable pub reserve_key : Str → Str → ℕ → VirtualKey → VirtualKey × ReserveResult
reserve_key today this_month cost vk =
    let spend = roll_over today this_month vk.spend in
    if not vk.enabled
    then (vk, no_budget)
    else if not (has_budget vk)
    then (vk, no_budget)
    else if exceeds (saturating_add_u64 spend.today.cents cost) vk.daily_budget_cents
    then (record vk { spend = spend }, exceeded)
    else if exceeds (saturating_add_u64 spend.this_month.cents cost) vk.monthly_budget_cents
    then (record vk { spend = spend }, exceeded)
    else (record vk { spend = change_by (λ n. saturating_add_u64 n cost) spend }, reserved cost)

abbrev store_result :
    ℕ → Map ℕ VirtualKey → VirtualKey × ReserveResult → Map ℕ VirtualKey × ReserveResult
store_result key_id keys r = (insert key_id r.0 keys, r.1)

unfoldable pub reserve_spend :
    Str → Str → ℕ → ℕ → Map ℕ VirtualKey → Map ℕ VirtualKey × ReserveResult
reserve_spend today this_month key_id cost keys = elim (get keys key_id) [
  | none ↦ (keys, no_budget)
  | some vk ↦ store_result key_id keys (reserve_key today this_month cost vk)
]

-- `actual_cents as i64 - reserved_cents as i64`, by the number that its 64 bits stand for; the sign
-- bit says whether it is negative.
abbrev pub delta_bits : ℕ → ℕ → ℕ
delta_bits reserved_cents actual_cents = (actual_cents + 2 ^ 64 - reserved_cents) % 2 ^ 64

unfoldable pub reconcile_key : ℕ → ℕ → VirtualKey → VirtualKey
reconcile_key reserved_cents actual_cents vk =
    let delta = delta_bits reserved_cents actual_cents in
    if leb (2 ^ 63) delta
    then record vk { spend = change_by (λ n. saturating_sub n (2 ^ 64 - delta)) vk.spend }
    else record vk { spend = change_by (λ n. wrapping_add_u64 n delta) vk.spend }

unfoldable pub reconcile_spend : ℕ → ℕ → ℕ → Map ℕ VirtualKey → Map ℕ VirtualKey
reconcile_spend key_id reserved_cents actual_cents keys =
    if nat_beq reserved_cents actual_cents
    then keys
    else modify key_id (reconcile_key reserved_cents actual_cents) keys

unfoldable pub accumulate_key : Str → Str → ℕ → VirtualKey → VirtualKey
accumulate_key today this_month cost vk = record vk {
  spend = change_by (λ n. wrapping_add_u64 n cost) (roll_over today this_month vk.spend);
}

unfoldable pub accumulate_spend : Str → Str → ℕ → ℕ → Map ℕ VirtualKey → Map ℕ VirtualKey
accumulate_spend today this_month key_id cost keys =
    modify key_id (accumulate_key today this_month cost) keys
