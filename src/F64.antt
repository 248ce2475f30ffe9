-- ===== src/F64.antt =====
-- The arithmetic of `f64`, which the program uses and does not implement, and `as` conversions.
use model_switch.Base.{ℕ, Bool, Option, Ordering}
use model_switch.Channel.{F64}

-- `literal n k` is the literal n / 10^k.
pub record Floats : Type 0 where
  pub literal : ℕ → ℕ → F64
  pub of_u64 : ℕ → F64
  pub to_u64 : F64 → ℕ
  pub add : F64 → F64 → F64
  pub mul : F64 → F64 → F64
  pub div : F64 → F64 → F64
  pub ge : F64 → F64 → Bool
  pub partial_cmp : F64 → F64 → Option Ordering
  pub largest : F64
