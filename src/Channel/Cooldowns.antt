-- ===== src/Channel/Cooldowns.antt =====
-- The per-model cooldowns of a channel.
use model_switch.Base.{
  Str, ℕ, ◌+◌, ◌*◌, min, ◌≤◌, ◌≡◌, Option, none, some, arith, ltb, ◌==◌, eq_str, if◌then◌else◌,
}
use model_switch.Base.Map.{get-insert, Unique, get-filter}
use model_switch.Channel.{
  Channel, minutes, cooldown_mins, mark_model_rate_limited, is_model_in_cooldown,
  clean_expired_model_cooldowns,
}

abbrev pub asked_secs : Option ℕ → ℕ
asked_secs none = 0
asked_secs (some s) = s

-- A cooldown lasts between one and thirty minutes, and covers the seconds that the upstream asked
-- for up to thirty minutes.
pub cooldown_mins_bounds :
    (retry : Option ℕ)
    → (1 ≤ cooldown_mins retry)
      × (cooldown_mins retry ≤ 30)
      × (min (asked_secs retry) 1800 ≤ cooldown_mins retry * 60)
unfolding cooldown_mins
cooldown_mins_bounds none = (omega arith, omega arith, omega arith)
cooldown_mins_bounds (some r) = (omega arith, omega arith, omega arith)

-- Marking a model sets the cooldown of that model, and leaves that of every other model as it was.
pub is_model_in_cooldown-mark :
    (c : Channel) (now later : ℕ) (model other : Str) (retry : Option ℕ)
    → is_model_in_cooldown later (mark_model_rate_limited now model retry c) other ≡ (
        if model == other
        then ltb later (now + minutes (cooldown_mins retry))
        else is_model_in_cooldown later c other)
unfolding is_model_in_cooldown mark_model_rate_limited
is_model_in_cooldown-mark c now later model other retry = rw get-insert (ground arith)

-- Cleaning removes expired entries only: at every time from then on each model is in cooldown
-- exactly when it was without the cleaning.
pub is_model_in_cooldown-clean :
    (c : Channel) (now later : ℕ) (model : Str)
    → Unique c.model_cooldowns
    → now ≤ later
    → is_model_in_cooldown later (clean_expired_model_cooldowns now c) model
      ≡ is_model_in_cooldown later c model
unfolding is_model_in_cooldown clean_expired_model_cooldowns
is_model_in_cooldown-clean c now later model u h =
    ground (arith, get-filter (λ t. ltb now t) c.model_cooldowns model u)
