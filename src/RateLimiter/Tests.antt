-- ===== src/RateLimiter/Tests.antt =====
-- Runs of the limiters, and instances of their theorems.
use model_switch.Base.{
  ℕ, ◌+◌, ◌≤◌, ◌≡◌, refl, arith, some, none, List, [], ◌∷◌, true, sum_by, eq_nat,
}
use model_switch.Base.Map
use model_switch.RateLimiter.Window
use model_switch.RateLimiter.Window.{BucketedWindow, Bucket, window_ms, current_total, add}
use model_switch.RateLimiter.Window.Slots.{new-IsWindow}
use model_switch.RateLimiter.Window.Recent.{
  Count, add_all, younger, not_older, current_total_bounds,
}
use model_switch.RateLimiter.Window.Ready.{IsReady, total_now}
use model_switch.RateLimiter.Channels
use model_switch.RateLimiter.Channels.{
  PerChannelState, RateLimiter, Redis, allowed, denied, failed, ok, or_fresh, redis_verdict,
  reply_if, check, record_request, check_in_memory, get_or_create, channel_verdict,
}
use model_switch.RateLimiter.Channels.Admission.{
  Admitted, Within, check-record_within, check-never_open,
}
use model_switch.RateLimiter.Keys
use model_switch.RateLimiter.Keys.{or_new}
use model_switch.RateLimiter.Keys.Isolation.{rpm_total, check-record_within_limit}

-- Three counts: at the start, after half a minute, and after a minute and a half.
abbrev counts : List Count
counts = (500, 4) ∷ (30_200, 5) ∷ (90_100, 6) ∷ []

abbrev window : BucketedWindow
window = Window.new window_ms 0

run_at : current_total 90_500 (add_all counts window) ≡ 6
unfolding current_total add_all add Window.add_at Window.refresh Window.new
run_at = refl

current_total_bounds_example :
    (sum_by (younger 90_500) counts ≤ current_total 90_500 (add_all counts window))
    × (current_total 90_500 (add_all counts window) ≤ sum_by (not_older 90_500) counts)
current_total_bounds_example =
    current_total_bounds counts 0 90_500 (omega arith, (omega arith, (omega arith, omega arith)))
      (omega arith)

no_counts : sum_by (λ (b : Bucket). b.1) window.buckets ≡ 0
unfolding Window.new
no_counts = refl

ready : (count : ℕ) → count ≤ 1000 → IsReady 500 count window
ready count h = record {
  last = 0;
  sound = new-IsWindow 0;
  before = omega arith;
  fits = omega (arith, no_counts);
}

-- One channel with a limit of a hundred tokens and one request.
abbrev state : PerChannelState
state = record { tpm_window = window; rpm_window = window; tpm_limit = some 100; rpm_limit = 1 }

abbrev limiter : RateLimiter
limiter = record { channels = (7, state) ∷ []; global_tpm = window; global_tpm_limit = some 1000 }

admitted : (check none 500 7 40 limiter).1 ≡ (true, ok)
unfolding check check_in_memory get_or_create channel_verdict Window.check_and_add current_total
    Window.new Map.get Map.insert
admitted = refl

at_seven : or_fresh 500 (Map.get limiter.channels 7) ≡ state
unfolding Map.get
at_seven = refl

check-record_within_example :
    (s : PerChannelState) × (Map.get
        (record_request 800 7 30 (check none 500 7 40 limiter).0).channels
        7
      ≡ some s)
    × Within (total_now 800 s.tpm_window) s.tpm_limit
    × (total_now 800 s.rpm_window ≤ s.rpm_limit)
    × Within
        (total_now 800 (record_request 800 7 30 (check none 500 7 40 limiter).0).global_tpm)
        limiter.global_tpm_limit
check-record_within_example =
    check-record_within 500 800 7 40 30 limiter (omega arith) (ready 40 (omega arith))
      (rw at_seven (ready 40 (omega arith))) (rw at_seven (ready 1 (omega arith))) (omega arith)
      admitted

abbrev replies : Redis
replies = record { global_tpm = allowed; channel_rpm = failed; channel_tpm = allowed }

fell_back : (check (some replies) 500 7 40 limiter).1.0 ≡ true
unfolding check Channels.check_with_redis check_in_memory get_or_create channel_verdict
    Window.check_and_add current_total Window.new Map.get Map.insert redis_verdict
fell_back = refl

check-never_open_example :
    Admitted limiter.global_tpm_limit
      (or_fresh 500 (Map.get limiter.channels 7)).tpm_limit
      replies.global_tpm
      replies.channel_rpm
      replies.channel_tpm
      (check none 500 7 40 limiter).1.0
check-never_open_example = check-never_open replies 500 7 40 limiter fell_back

none_yet : sum_by (λ (b : Bucket). b.1) (Window.new window_ms 500).buckets ≡ 0
unfolding Window.new
none_yet = refl

key-IsReady : IsReady 500 1 (or_new 500 (Map.get Keys.new.rpm_windows 7))
unfolding Map.get
key-IsReady = fresh
  where
    fresh : IsReady 500 1 (Window.new window_ms 500)
    fresh = record {
      last = 0;
      sound = new-IsWindow 500;
      before = omega arith;
      fits = omega (arith, none_yet);
    }

key_admitted : (Keys.check none 500 7 3 Keys.new).1 ≡ true
unfolding Keys.check Keys.check_window Keys.get_or_create current_total Window.new Map.get
key_admitted = refl

check-record_within_limit_example :
    (rpm_total 500 7 (Keys.record_request 500 7 (Keys.check none 500 7 3 Keys.new).0)
      ≤ rpm_total 500 7 Keys.new + 1)
    × (rpm_total 500 7 (Keys.record_request 500 7 (Keys.check none 500 7 3 Keys.new).0) ≤ 3)
check-record_within_limit_example =
    check-record_within_limit 500 7 3 Keys.new key-IsReady key_admitted
