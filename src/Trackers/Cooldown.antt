-- ===== src/Trackers/Cooldown.antt =====
-- src-tauri/src/router/cooldown.rs: the last attempts on each channel, and the cooldown of a channel
-- that fails too often. Times are nanoseconds of the monotonic clock.
use model_switch.Base.{
  Bool-cases, inl, inr, ltb→lt, ap, refl, zero, suc, ◌∙◌, ℕ, ◌+◌, ◌*◌, ◌-◌, ◌/◌, ◌≤◌, ◌<◌, ◌≡◌,
  eq_nat, ◌==◌, if◌then◌else◌, ltb, leb, ◌&&◌, Option, none, some, List, [], ◌∷◌, ◌++◌, Bool, true,
  false, not, length, filter, arith, length-append,
}
use model_switch.Base.Map.{Map, get, insert, remove, get-insert, get-insert_self, get-remove}
use model_switch.F64.{Floats}

abbrev pub min_attempts : ℕ
min_attempts = 5

abbrev pub window_size : ℕ
window_size = 20

-- sixty seconds
abbrev pub cooldown_duration : ℕ
cooldown_duration = 60_000_000_000

pub record CooldownTracker : Type 0 where
  pub records : Map ℕ (List Bool)
  pub cooldowns : Map ℕ ℕ

abbrev pub new : CooldownTracker
new = record { records = []; cooldowns = [] }

abbrev pub or_empty : Option (List Bool) → List Bool
or_empty none = []
or_empty (some q) = q

-- `pop_front` on a queue that is not empty.
abbrev pub pop_front : List Bool → List Bool
pop_front [] = []
pop_front (x ∷ q) = q

-- The queue of attempts after one more.
unfoldable pub push_attempt : Bool → List Bool → List Bool
push_attempt success q =
    let longer = q ++ success ∷ [] in
    if ltb window_size (length longer) then pop_front longer else longer

unfoldable pub failures : List Bool → ℕ
failures q = length (filter not q)

-- The failure rate reaches the threshold, on enough attempts.
unfoldable pub fails_too_often : Floats → List Bool → Bool
unfolding failures
fails_too_often f q =
    if ltb (length q) min_attempts
    then false
    else f.ge (f.div (f.of_u64 (failures q)) (f.of_u64 (length q))) (f.literal 30 2)

unfoldable pub evaluate_cooldown : Floats → ℕ → ℕ → CooldownTracker → CooldownTracker
evaluate_cooldown f now channel_id t = elim (get t.records channel_id) [
  | none ↦ t
  | some queue ↦
      if fails_too_often f queue
      then record t { cooldowns = insert channel_id (now + cooldown_duration) t.cooldowns }
      else t
]

unfoldable pub record_attempt : Floats → ℕ → ℕ → Bool → CooldownTracker → CooldownTracker
unfolding push_attempt evaluate_cooldown
record_attempt f now channel_id success t =
    let queue = push_attempt success (or_empty (get t.records channel_id)) in
    let t' : CooldownTracker = record t { records = insert channel_id queue t.records } in
    if not success
    then evaluate_cooldown f now channel_id t'
    else record t' { cooldowns = remove channel_id t'.cooldowns }

abbrev until_after : ℕ → Option ℕ → Bool
until_after now none = false
until_after now (some until) = ltb now until

unfoldable pub is_in_cooldown : ℕ → CooldownTracker → ℕ → Bool
is_in_cooldown now t channel_id = until_after now (get t.cooldowns channel_id)

abbrev secs_until : ℕ → Option ℕ → ℕ
secs_until now none = 0
secs_until now (some until) = (until - now) / 1_000_000_000

unfoldable pub cooldown_remaining_secs : ℕ → CooldownTracker → ℕ → ℕ
cooldown_remaining_secs now t channel_id = secs_until now (get t.cooldowns channel_id)

unfoldable pub forget : ℕ → CooldownTracker → CooldownTracker
forget channel_id t = record {
  records = remove channel_id t.records;
  cooldowns = remove channel_id t.cooldowns;
}

-- What an attempt does to the cooldowns: a success ends the cooldown of its channel; a failure starts
-- one of a minute if the channel then fails too often, and otherwise leaves it; the cooldowns of other
-- channels stay as they were.
pub is_in_cooldown-record_attempt :
    (f : Floats) (now later id other : ℕ) (success : Bool) (t : CooldownTracker)
    → is_in_cooldown later (record_attempt f now id success t) other ≡ (
        if id == other
        then (if success
            then false
            else if fails_too_often f (push_attempt success (or_empty (get t.records id)))
            then ltb later (now + cooldown_duration)
            else is_in_cooldown later t other)
        else is_in_cooldown later t other)
unfolding is_in_cooldown record_attempt evaluate_cooldown
is_in_cooldown-record_attempt f now later id other true t = rw get-remove (ground arith)
is_in_cooldown-record_attempt f now later id other false t =
    let queue = push_attempt false (or_empty (get t.records id)) in
    rw (get-insert_self t.records id queue, record_attempt, evaluate_cooldown)
      (ground (arith, get-insert t.cooldowns id other (now + cooldown_duration)))

pub length-push_attempt :
    (success : Bool) (q : List Bool)
    → length q ≤ window_size
    → length (push_attempt success q) ≤ window_size
unfolding push_attempt
length-push_attempt success [] h = omega arith
length-push_attempt success (x ∷ q) h = ground (arith, length-append (x ∷ q) (success ∷ []))

-- What the decision asks of `f64`: on counts up to the window's size, a quotient of counts reaches
-- the literal 0.30 exactly when three tenths are reached.
pub record ThresholdExact (f : Floats) : Type 0 where
  pub reached :
      (a n : ℕ)
      → 0 < n
      → n ≤ 20
      → a ≤ n
      → (f.ge (f.div (f.of_u64 a) (f.of_u64 n)) (f.literal 30 2)) ≡ leb (3 * n) (10 * a)

length-filter-le : (p : Bool → Bool) (q : List Bool) → length (filter p q) ≤ length q
length-filter-le p [] = omega arith
length-filter-le p (x ∷ q) = ground (arith, length-filter-le p q)

-- A channel fails too often when it has at least five attempts in its window, and three tenths of
-- them or more failed.
pub fails_too_often_lem :
    (f : Floats) (q : List Bool)
    → ThresholdExact f
    → length q ≤ window_size
    → fails_too_often f q ≡ (leb min_attempts (length q) && leb (3 * length q) (10 * failures q))
unfolding fails_too_often
fails_too_often_lem f q x h =
    ground (arith, x.reached (failures q) (length q), length-filter-le not q)

-- The attempts that count, of all in the order of time: the twenty latest.
abbrev pub without : ℕ → List Bool → List Bool
without zero q = q
without (suc n) [] = []
without (suc n) (x ∷ q) = without n q

abbrev pub latest : List Bool → List Bool
latest q = without (length q - 20) q

abbrev pub failed : List Bool → ℕ
failed [] = 0
failed (true ∷ q) = failed q
failed (false ∷ q) = 1 + failed q

failures-failed : (q : List Bool) → failures q ≡ failed q
unfolding failures
failures-failed [] = refl
failures-failed (true ∷ q) = failures-failed q
failures-failed (false ∷ q) = omega (arith, failures-failed q)

push_attempt-latest :
    (success : Bool) (q : List Bool)
    → length q ≤ 20
    → push_attempt success q ≡ latest (q ++ success ∷ [])
unfolding push_attempt
push_attempt-latest success [] h = refl
push_attempt-latest success (x ∷ q) h =
    let n : length (q ++ success ∷ []) ≡ length q + 1 = length-append q (success ∷ []) in
    elim (Bool-cases (ltb 20 (length (x ∷ q ++ success ∷ [])))) [
      | inl over ↦
          let one : length (x ∷ q ++ success ∷ []) - 20 ≡ 1 = omega (arith, n, ltb→lt 20 _ over) in
          rw (over, one) refl
      | inr fits ↦
          let zero_left : length (x ∷ q ++ success ∷ []) - 20 ≡ 0 = ground (arith, n) in
          rw (fits, zero_left) refl
    ]

-- A failure puts its own channel in cooldown for sixty seconds when the latest twenty attempts on it,
-- this one included, are five or more and three tenths of them or more failed; otherwise, and for
-- every other channel, it changes no cooldown. The queue of the channel holds twenty attempts at
-- most, and the f64 comparison of a share of them with the threshold is exact.
pub is_in_cooldown-failure :
    (f : Floats) (now later id other : ℕ) (t : CooldownTracker)
    → ThresholdExact f
    → length (or_empty (get t.records id)) ≤ 20
    → is_in_cooldown later (record_attempt f now id false t) other ≡ (
        if (id == other)
          && (leb 5 (length (latest (or_empty (get t.records id) ++ false ∷ [])))
              && leb
                  (3 * length (latest (or_empty (get t.records id) ++ false ∷ [])))
                  (10 * failed (latest (or_empty (get t.records id) ++ false ∷ []))))
        then ltb later (now + 60_000_000_000)
        else is_in_cooldown later t other)
is_in_cooldown-failure f now later id other t x h =
    let old = or_empty (get t.records id) in
    let q = push_attempt false old in
    let lately : fails_too_often f q ≡ (
        leb 5 (length (latest (old ++ false ∷ [])))
        && leb (3 * length (latest (old ++ false ∷ [])))
            (10 * failed (latest (old ++ false ∷ [])))) =
      fails_too_often_lem f q x (length-push_attempt false old h)
      ∙ ap (λ n. leb 5 (length q) && leb (3 * length q) (10 * n)) (failures-failed q)
      ∙ ap (λ z. leb 5 (length z) && leb (3 * length z) (10 * failed z))
          (push_attempt-latest false old h) in
    ground (arith, is_in_cooldown-record_attempt f now later id other false t, lately)
