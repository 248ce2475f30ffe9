-- ===== src/RateLimiter/Window.antt =====
-- `BucketedWindow`: a sliding window of counters, one bucket a second. The operations take the time
-- that `now_ms` reads, the milliseconds since the window was made. An index out of range, at which
-- Rust panics, changes nothing here.
pub mod Slots
pub mod Recent
pub mod Ready
use model_switch.Base.{
  ℕ, ◌+◌, ◌-◌, ◌*◌, ◌/◌, ◌%◌, min, max, Bool, Option, none, some, List, eq_nat, ◌==◌, if◌then◌else◌,
  leb, get_elem?, set, replicate, filter, sum_u64, wrapping_add_u64, saturating_sub,
}

abbrev pub window_ms : ℕ
window_ms = 60_000

-- The start of a bucket, and its count.
abbrev pub Bucket : Type 0
Bucket = ℕ × ℕ

pub record BucketedWindow : Type 0 where
  pub buckets : List Bucket
  pub bucket_ms : ℕ
  pub bucket_count : ℕ
  pub length_ms : ℕ
  pub epoch : ℕ

-- A window that is made at the time `now`.
unfoldable pub new : ℕ → ℕ → BucketedWindow
new length_ms now =
    let bucket_ms = min 1000 length_ms in
    let bucket_count = max (length_ms / bucket_ms) 1 in
    record {
      buckets = replicate bucket_count (0, 0);
      bucket_ms = bucket_ms;
      bucket_count = bucket_count;
      length_ms = length_ms;
      epoch = now;
    }

-- The milliseconds since the window was made.
abbrev pub now_ms : ℕ → BucketedWindow → ℕ
now_ms now w = now - w.epoch

-- The bucket that a count goes to: the old one with the count added, or a new one in its place.
unfoldable pub refresh : ℕ → ℕ → Bucket → Bucket
refresh bucket_ts count b =
    if b.0 == bucket_ts then (b.0, wrapping_add_u64 b.1 count) else (bucket_ts, count)

unfoldable pub add_at : ℕ → ℕ → ℕ → BucketedWindow → BucketedWindow
add_at bucket_ts idx count w = elim (get_elem? w.buckets idx) [
  | none ↦ w
  | some b ↦ record w { buckets = set w.buckets idx (refresh bucket_ts count b) }
]

unfoldable pub add : ℕ → ℕ → BucketedWindow → BucketedWindow
add now count w =
    add_at (now / w.bucket_ms * w.bucket_ms) (now / w.bucket_ms % w.bucket_count) count w

unfoldable pub current_total : ℕ → BucketedWindow → ℕ
current_total now w =
    let cutoff = saturating_sub now w.length_ms in
    sum_u64 (λ (b : Bucket). b.1) (filter (λ (b : Bucket). leb cutoff b.0) w.buckets)

unfoldable pub check_and_add : ℕ → ℕ → ℕ → BucketedWindow → Bool
check_and_add now count limit w = leb (wrapping_add_u64 (current_total now w) count) limit
