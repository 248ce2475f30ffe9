-- ===== src/Router/Weighted/Chance.antt =====
-- Whom `weighted_random` chooses, and how often.
use model_switch.Base.{
  ℕ, suc, zero, ◌+◌, ◌-◌, ◌≤◌, ◌<◌, ◌≡◌, ◌≢◌, ◌⊎◌, inl, inr, refl, Option, none, some, List, [],
  ◌∷◌, Bool, false, length, sum_by, if◌then◌else◌, In, In-get_elem?, get_elem?-lt, nat_beq,
  nat_beq_iff, leb, Bool-cases, arith,
}
use model_switch.Channel.{Channel}
use model_switch.Router.Weighted.{Rng, total_weight, walk, weighted_random}

-- A roll in range stops at a channel of positive weight.
walk_range :
    (all rest : List Channel) (roll : ℕ)
    → 1 ≤ roll
    → roll ≤ total_weight rest
    → (c : Channel) × (walk all roll rest ≡ some c) × In c rest × (0 < c.weight)
unfolding walk total_weight
walk_range all [] roll l h = absurd (omega arith)
walk_range all (ch ∷ rest) roll l h = elim (Bool-cases (leb roll ch.weight)) [
  | inl e ↦ (ch, rw e, inl refl, ground arith)
  | inr e ↦
      let (c, w, m, p) = walk_range all rest (roll - ch.weight) (ground arith) (ground arith) in
      (c, rw e w, inr m, p)
]

-- From any candidates a candidate is chosen; and one of weight zero only if all weights are zero.
pub weighted_random_total :
    (rng : Rng) (candidates : List Channel)
    → candidates ≢ []
    → (c : Channel) × (weighted_random rng candidates ≡ some c)
      × In c candidates
      × ((0 < c.weight) ⊎ (total_weight candidates ≡ 0))
unfolding weighted_random
weighted_random_total rng [] h = absurd (h refl)
weighted_random_total rng (x ∷ xs) h = elim (Bool-cases (nat_beq (total_weight (x ∷ xs)) 0)) [
  | inl e ↦
      let (c, found) =
        get_elem?-lt (x ∷ xs) (rng.below (length (x ∷ xs))) (rng.below_lt _ (omega arith)) in
      (c, rw e found, In-get_elem? (x ∷ xs) _ found, inr ((nat_beq_iff _ 0).0 e))
  | inr e ↦
      let total = total_weight (x ∷ xs) in
      let (lower, upper) = rng.from_one_bounds total (ground arith) in
      let (c, w, m, p) = walk_range (x ∷ xs) (x ∷ xs) (rng.from_one total) lower upper in
      (c, rw e w, m, inl p)
]

-- How many of the first `n` rolls pass a test.
pub count_below : ℕ → (ℕ → Bool) → ℕ
count_below zero q = 0
count_below (suc n) q = count_below n q + (if q n then 1 else 0)

count_below-congr :
    (n : ℕ) (p q : ℕ → Bool) → ((r : ℕ) → r < n → p r ≡ q r) → count_below n p ≡ count_below n q
unfolding count_below
count_below-congr zero p q h = refl
count_below-congr (suc n) p q h =
    ground (arith, h n (omega arith), count_below-congr n p q (λ r l. h r (omega arith)))

count_below-add :
    (n m : ℕ) (q : ℕ → Bool)
    → count_below (n + m) q ≡ count_below n q + count_below m (λ r. q (n + r))
unfolding count_below
count_below-add n zero q = let e : n + 0 ≡ n = omega arith in rw e (omega arith)
count_below-add n (suc m) q =
    let e : n + suc m ≡ suc (n + m) = omega arith in rw e (omega (arith, count_below-add n m q))

count_below-const : (n : ℕ) (b : Bool) → count_below n (λ r. b) ≡ (if b then n else 0)
unfolding count_below
count_below-const zero b = ground arith
count_below-const (suc n) b = ground (arith, count_below-const n b)

-- Whether a choice passes a test of channels.
abbrev pub chosen : (Channel → Bool) → Option Channel → Bool
chosen p none = false
chosen p (some c) = p c

-- The odds are the weights: of the rolls from 1 to the total weight, those that choose a channel that
-- passes a test are as many as the weights of the channels that pass it add up to.
pub walk-count :
    (p : Channel → Bool) (all rest : List Channel)
    → count_below (total_weight rest) (λ r. chosen p (walk all (r + 1) rest))
      ≡ sum_by (λ (c : Channel). if p c then c.weight else 0) rest
unfolding walk total_weight
walk-count p all [] = unfold count_below in refl
walk-count p all (ch ∷ rest) =
    let w = ch.weight in
    let here =
      count_below-congr w (λ r. chosen p (walk all (r + 1) (ch ∷ rest))) (λ r. p ch)
        (λ r l. unfold walk in ground arith) in
    let there =
      count_below-congr (total_weight rest) (λ r. chosen p (walk all (w + r + 1) (ch ∷ rest)))
        (λ r. chosen p (walk all (r + 1) rest))
        (λ r l.
          let no : leb (w + r + 1) w ≡ false = ground arith in
          let back : w + r + 1 - w ≡ r + 1 = omega arith in rw (no, back)) in
    omega (
      arith,
      count_below-add w (total_weight rest) (λ r. chosen p (walk all (r + 1) (ch ∷ rest))),
      here,
      count_below-const w (p ch),
      there,
      walk-count p all rest,
    )
