-- ===== src/Trackers/Tests.antt =====
-- Runs of the trackers, and instances of their theorems.
use model_switch.Base.{
  ◌++◌, ◌+◌, ◌*◌, ◌/◌, ◌%◌, ◌≤◌, ◌≡◌, refl, arith, some, none, List, [], ◌∷◌, Bool, true, false,
  ◌&&◌, leb, ltb, nat_beq, length, eq_nat, if◌then◌else◌,
}
use model_switch.Base.Map
use model_switch.Trackers.ActiveRequests
use model_switch.Trackers.ActiveRequests.{Guard, acquire, release, steps, get-steps}
use model_switch.Trackers.Cooldown.{
  CooldownTracker, or_empty, failures, fails_too_often, record_attempt, is_in_cooldown, window_size,
  ThresholdExact, is_in_cooldown-failure, latest, failed,
}
use model_switch.Trackers.Latency.{IsBounded, average}
use model_switch.Samples.{fractions}

abbrev guards : List Guard
guards = acquire 7 ∷ acquire 8 ∷ acquire 7 ∷ release 8 ∷ release 7 ∷ []

get-steps_example : ActiveRequests.get (steps guards []) 7 ≡ 1
unfolding ActiveRequests.get Map.get
get-steps_example = get-steps guards [] 7 1 refl

-- Thirty hundredths, compared by cross-multiplication.
exact : ThresholdExact fractions
exact = record {
  reached = λ a n h l m.
      let q : (a * 1000 + n) / 1000 ≡ a = omega arith in
      let r : (a * 1000 + n) % 1000 ≡ n = omega arith in rw (q, r) (ground arith);
}

abbrev attempts : List Bool
attempts = true ∷ true ∷ false ∷ true ∷ false ∷ []

two_of_five : fails_too_often fractions attempts ≡ true
unfolding fails_too_often failures
two_of_five = refl

abbrev tracker : CooldownTracker
tracker = record { records = (7, true ∷ true ∷ false ∷ true ∷ []) ∷ []; cooldowns = [] }

short : length (or_empty (Map.get tracker.records 7)) ≤ window_size
unfolding Map.get
short = omega arith

is_in_cooldown-failure_example : is_in_cooldown 9 (record_attempt fractions 5 7 false tracker) 7 ≡ (
    if nat_beq 7 7
      && (leb 5 (length (latest (or_empty (Map.get tracker.records 7) ++ false ∷ [])))
          && leb
              (3 * length (latest (or_empty (Map.get tracker.records 7) ++ false ∷ [])))
              (10 * failed (latest (or_empty (Map.get tracker.records 7) ++ false ∷ []))))
    then ltb 9 (5 + 60_000_000_000)
    else is_in_cooldown 9 tracker 7)
is_in_cooldown-failure_example = is_in_cooldown-failure fractions 5 9 7 7 tracker exact short

mean : average ((100, some 10) ∷ (300, none) ∷ []) ≡ 200
unfolding average
mean = refl

empty : IsBounded []
unfolding Map.get
empty = record { at = λ id. omega arith }
