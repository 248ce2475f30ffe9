-- ===== src/Router/Weighted.antt =====
-- src-tauri/src/router/weighted.rs: a random choice in proportion to the weights.
pub mod Chance
use model_switch.Base.{
  ℕ, suc, zero, ◌+◌, ◌-◌, ◌≤◌, ◌<◌, Option, none, some, List, [], ◌∷◌, Bool, is_empty, length,
  get_elem?, last, sum_by, nat_beq, leb, if◌then◌else◌,
}
use model_switch.Channel.{Channel}

-- The random generator: `random_range(0..n)` and `random_range(1..=n)`, which for a positive `n` answer
-- in their ranges.
pub record Rng : Type 0 where
  pub below : ℕ → ℕ
  pub from_one : ℕ → ℕ
  pub below_lt : (n : ℕ) → 0 < n → below n < n
  pub from_one_bounds : (n : ℕ) → 0 < n → (1 ≤ from_one n) × (from_one n ≤ n)

unfoldable pub total_weight : List Channel → ℕ
total_weight = sum_by (λ c. c.weight)

-- The loop over the candidates with a roll; `all` is what `last` is taken of.
unfoldable pub walk : List Channel → ℕ → List Channel → Option Channel
walk all roll [] = last all
walk all roll (ch ∷ rest) =
    let later = walk all (roll - ch.weight) rest in if leb roll ch.weight then some ch else later

unfoldable pub weighted_random : Rng → List Channel → Option Channel
weighted_random rng candidates =
    if is_empty candidates
    then none
    else if nat_beq (total_weight candidates) 0
    then get_elem? candidates (rng.below (length candidates))
    else walk candidates (rng.from_one (total_weight candidates)) candidates
