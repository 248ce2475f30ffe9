-- ===== src/Base/Words.antt =====
-- Machine integers: a `u32` or `u64` is a number with its wrap-around written out, as in a release
-- build, and Rust's saturating and clamping operations.
use mathlib.Core.List.{List}
use model_switch.Base.Lists.{sum_by}
use Prim.Native.Nat.{ℕ, ◌+◌, ◌-◌, ◌*◌, ◌/◌, ◌%◌, ◌^◌, min, max}

abbrev pub max_u32 : ℕ
max_u32 = 2 ^ 32 - 1

abbrev pub max_u64 : ℕ
max_u64 = 2 ^ 64 - 1

abbrev pub wrapping_add_u32 : ℕ → ℕ → ℕ
wrapping_add_u32 a b = (a + b) % 2 ^ 32

abbrev pub wrapping_add_u64 : ℕ → ℕ → ℕ
wrapping_add_u64 a b = (a + b) % 2 ^ 64

abbrev pub saturating_add_u64 : ℕ → ℕ → ℕ
saturating_add_u64 a b = min (a + b) max_u64

-- `saturating_sub` is the subtraction of `ℕ`, which stops at 0.
abbrev pub saturating_sub : ℕ → ℕ → ℕ
saturating_sub a b = a - b

abbrev pub saturating_mul_u32 : ℕ → ℕ → ℕ
saturating_mul_u32 a b = min (a * b) max_u32

abbrev pub saturating_pow_u32 : ℕ → ℕ → ℕ
saturating_pow_u32 a b = min (a ^ b) max_u32

-- `x as u32`
abbrev pub as_u32 : ℕ → ℕ
as_u32 x = x % 2 ^ 32

abbrev pub div_ceil : ℕ → ℕ → ℕ
div_ceil a b = (a + b - 1) / b

abbrev pub clamp : ℕ → ℕ → ℕ → ℕ
clamp x lo hi = min (max x lo) hi

-- `iter().sum::<u64>()`
abbrev pub sum_u64 {ℓ} : {A : Type ℓ} → (A → ℕ) → List A → ℕ
sum_u64 f xs = sum_by f xs % 2 ^ 64
