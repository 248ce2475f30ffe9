-- ===== src/RateLimiter/Window/Ready.antt =====
-- A window in use: what the clients of a window need to know of it.
use model_switch.Base.{ℕ, ◌+◌, ◌^◌, ◌≤◌, ◌<◌, sum_by, arith}
use model_switch.RateLimiter.Window.{Bucket, BucketedWindow, now_ms, add, current_total}
use model_switch.RateLimiter.Window.Slots.{IsWindow, epoch-add}
use model_switch.RateLimiter.Window.Recent.{current_total-add, current_total-later}

-- The total at a time, and the window with a count added at a time.
abbrev pub total_now : ℕ → BucketedWindow → ℕ
total_now now w = current_total (now_ms now w) w

abbrev pub add_now : ℕ → ℕ → BucketedWindow → BucketedWindow
add_now now count w = add (now_ms now w) count w

-- A window that was last used before `now`, with room for `count` more in 64 bits.
pub record IsReady (now count : ℕ) (w : BucketedWindow) : Type 0 where
  pub last : ℕ
  pub sound : IsWindow last w
  pub before : last ≤ now_ms now w
  pub fits : sum_by (λ (b : Bucket). b.1) w.buckets + count < 2 ^ 64

pub total-add_now :
    (now n count : ℕ) (w : BucketedWindow)
    → IsReady now count w
    → n ≤ count
    → total_now now (add_now now n w) ≤ total_now now w + n
total-add_now now n count w r l =
    simp (epoch-add (now_ms now w) n w)
      (current_total-add r.last (now_ms now w) n w r.sound r.before (omega arith))

IsReady-later :
    (now later count : ℕ) (w : BucketedWindow)
    → now ≤ later
    → IsReady now count w
    → IsReady later count w
IsReady-later now later count w l r = record {
  last = r.last;
  sound = r.sound;
  before = omega (arith, l, r.before);
  fits = r.fits;
}

-- A count that is added later than the total was looked up.
pub total-add_later :
    (now later n count : ℕ) (w : BucketedWindow)
    → now ≤ later
    → IsReady now count w
    → n ≤ count
    → total_now later (add_now later n w) ≤ total_now now w + n
total-add_later now later n count w l r le =
    let added = total-add_now later n count w (IsReady-later now later count w l r) le in
    let fewer =
      current_total-later r.last (now_ms now w) (now_ms later w) w r.sound (omega arith)
        (omega (arith, r.fits)) in
    omega (arith, added, fewer)
