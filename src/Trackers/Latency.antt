-- ===== src/Trackers/Latency.antt =====
-- src-tauri/src/router/latency_tracker.rs: the last ten latency samples of each channel.
use model_switch.Base.{
  ℕ, ◌/◌, ◌≤◌, eq_nat, if◌then◌else◌, ltb, nat_beq, Option, none, some, List, [], ◌∷◌, ◌++◌, length,
  filter, is_empty, is_some, sum_u64, arith, length-append,
}
use model_switch.Base.Map.{Map, get, insert, get-insert}

abbrev pub window_size : ℕ
window_size = 10

-- A latency in milliseconds, with the output tokens where they are known.
abbrev pub Sample : Type 0
Sample = ℕ × Option ℕ

abbrev pub LatencyTracker : Type 0
LatencyTracker = Map ℕ (List Sample)

abbrev pub samples_of : Option (List Sample) → List Sample
samples_of none = []
samples_of (some samples) = samples

abbrev pub pop_front : List Sample → List Sample
pop_front [] = []
pop_front (x ∷ q) = q

unfoldable pub push_sample : Sample → List Sample → List Sample
push_sample s samples =
    let longer = samples ++ s ∷ [] in
    if ltb window_size (length longer) then pop_front longer else longer

unfoldable pub record_with_tokens : ℕ → ℕ → Option ℕ → LatencyTracker → LatencyTracker
unfolding push_sample
record_with_tokens channel_id latency_ms output_tokens t =
    insert channel_id (push_sample (latency_ms, output_tokens) (samples_of (get t channel_id))) t

unfoldable pub record_latency : ℕ → ℕ → LatencyTracker → LatencyTracker
unfolding record_with_tokens
record_latency channel_id latency_ms t = record_with_tokens channel_id latency_ms none t

abbrev pub or_zero : Option ℕ → ℕ
or_zero none = 0
or_zero (some n) = n

-- The average of a list of samples, 0 for none.
unfoldable pub average : List Sample → ℕ
average samples =
    if is_empty samples then 0 else sum_u64 (λ (s : Sample). s.0) samples / length samples

unfoldable pub avg_latency : LatencyTracker → ℕ → ℕ
unfolding average
avg_latency t channel_id = average (samples_of (get t channel_id))

unfoldable pub per_token : List Sample → Option ℕ
per_token samples =
    let with_tokens = filter (λ (s : Sample). is_some s.1) samples in
    let total_latency = sum_u64 (λ (s : Sample). s.0) with_tokens in
    let total_tokens = sum_u64 (λ (s : Sample). or_zero s.1) with_tokens in
    if is_empty with_tokens
    then none
    else if nat_beq total_tokens 0
    then none
    else some (total_latency / total_tokens)

unfoldable pub avg_latency_per_token : LatencyTracker → ℕ → Option ℕ
unfolding per_token
avg_latency_per_token t channel_id = per_token (samples_of (get t channel_id))

pub length-push_sample :
    (s : Sample) (samples : List Sample)
    → length samples ≤ window_size
    → length (push_sample s samples) ≤ window_size
unfolding push_sample
length-push_sample s [] h = omega arith
length-push_sample s (x ∷ samples) h = ground (arith, length-append (x ∷ samples) (s ∷ []))

-- Every channel's samples fit in the window.
pub record IsBounded (t : LatencyTracker) : Type 0 where
  pub at : (id : ℕ) → length (samples_of (get t id)) ≤ window_size

-- A new sample keeps every window at ten samples at most.
pub record_with_tokens-IsBounded :
    (t : LatencyTracker) (id latency_ms : ℕ) (tokens : Option ℕ)
    → IsBounded t
    → IsBounded (record_with_tokens id latency_ms tokens t)
unfolding record_with_tokens
record_with_tokens-IsBounded t id latency_ms tokens b = record {
  at = λ j. rw get-insert (
      ground
        (arith, b.at id, b.at j, length-push_sample (latency_ms, tokens) (samples_of (get t id))));
}
