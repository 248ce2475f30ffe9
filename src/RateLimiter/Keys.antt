-- ===== src/RateLimiter/Keys.antt =====
-- `KeyRateLimiter`: the limits of requests and of tokens a minute of each virtual key.
pub mod Isolation
use model_switch.Base.{
  ℕ, Bool, true, false, Option, none, some, [], eq_nat, nat_beq, if◌then◌else◌, ltb,
}
use model_switch.Base.Map.{Map, get, insert}
use model_switch.RateLimiter.Window
use model_switch.RateLimiter.Window.Ready.{total_now, add_now}
use model_switch.RateLimiter.Window.{BucketedWindow, window_ms, now_ms, add, current_total}

pub record KeyRateLimiter : Type 0 where
  pub rpm_windows : Map ℕ BucketedWindow
  pub tpm_windows : Map ℕ BucketedWindow

abbrev pub new : KeyRateLimiter
new = record { rpm_windows = []; tpm_windows = [] }

abbrev pub or_new : ℕ → Option BucketedWindow → BucketedWindow
or_new now none = Window.new window_ms now
or_new now (some w) = w

-- `get_or_create`: the window of the key, and the map that holds it.
unfoldable pub get_or_create : ℕ → ℕ → Map ℕ BucketedWindow → Map ℕ BucketedWindow × BucketedWindow
get_or_create now key_id windows =
    let w = or_new now (get windows key_id) in (insert key_id w windows, w)

-- The answer of Redis, where a backend is configured and answers.
abbrev pub answered :
    Option Bool → Map ℕ BucketedWindow × Bool → Map ℕ BucketedWindow → Map ℕ BucketedWindow × Bool
answered none local windows = local
answered (some allowed) local windows = (windows, allowed)

-- Both checks are this one, on their own windows.
unfoldable pub check_window :
    Option Bool → ℕ → ℕ → ℕ → Map ℕ BucketedWindow → Map ℕ BucketedWindow × Bool
unfolding get_or_create
check_window redis now key_id limit windows =
    let (windows', w) = get_or_create now key_id windows in
    answered redis (windows', ltb (total_now now w) limit) windows

pub add_to_window : ℕ → ℕ → ℕ → Map ℕ BucketedWindow → Map ℕ BucketedWindow
unfolding get_or_create
add_to_window now key_id count windows =
    let (windows', w) = get_or_create now key_id windows in
    insert key_id (add_now now count w) windows'

unfoldable pub check : Option Bool → ℕ → ℕ → ℕ → KeyRateLimiter → KeyRateLimiter × Bool
unfolding check_window
check redis now key_id rpm_limit l =
    let (windows, allowed) = check_window redis now key_id rpm_limit l.rpm_windows in
    (record l { rpm_windows = windows }, allowed)

pub record_request : ℕ → ℕ → KeyRateLimiter → KeyRateLimiter
unfolding add_to_window
record_request now key_id l = record l { rpm_windows = add_to_window now key_id 1 l.rpm_windows }

pub check_tpm : Option Bool → ℕ → ℕ → ℕ → KeyRateLimiter → KeyRateLimiter × Bool
unfolding check_window
check_tpm redis now key_id tpm_limit l =
    let (windows, allowed) = check_window redis now key_id tpm_limit l.tpm_windows in
    (record l { tpm_windows = windows }, allowed)

pub record_tokens : ℕ → ℕ → ℕ → KeyRateLimiter → KeyRateLimiter
unfolding add_to_window
record_tokens now key_id tokens l =
    if nat_beq tokens 0
    then l
    else record l { tpm_windows = add_to_window now key_id tokens l.tpm_windows }
