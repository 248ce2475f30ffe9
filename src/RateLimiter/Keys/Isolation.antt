-- ===== src/RateLimiter/Keys/Isolation.antt =====
-- src-tauri/src/proxy/rate_limiter.rs: the limits of a key, and those of the other keys.
use model_switch.Base.{
  ℕ, ◌+◌, ◌≤◌, ◌≡◌, ◌≢◌, refl, Bool, true, Option, none, some, eq_nat, ◌==◌, if◌then◌else◌, ltb→lt,
  arith, ap,
}
use model_switch.Base.Map.{Map, get, insert, get-insert, get-insert_self, beq_refl}
use model_switch.RateLimiter.Window.{BucketedWindow}
use model_switch.RateLimiter.Window.Ready.{IsReady, total_now, add_now, total-add_now}
use model_switch.RateLimiter.Keys.{
  KeyRateLimiter, or_new, check_window, add_to_window, check, record_request, check_tpm,
  record_tokens,
}

-- The requests, and the tokens, of the last minute on a key.
abbrev window_of : ℕ → ℕ → Map ℕ BucketedWindow → BucketedWindow
window_of now id windows = or_new now (get windows id)

abbrev pub rpm_total : ℕ → ℕ → KeyRateLimiter → ℕ
rpm_total now id l = total_now now (or_new now (get l.rpm_windows id))

abbrev pub tpm_total : ℕ → ℕ → KeyRateLimiter → ℕ
tpm_total now id l = total_now now (or_new now (get l.tpm_windows id))

window-add_to_window :
    (now id other n : ℕ) (windows : Map ℕ BucketedWindow)
    → window_of now other (add_to_window now id n windows) ≡ (
        if id == other
        then add_now now n (window_of now other windows)
        else window_of now other windows)
unfolding add_to_window
window-add_to_window now id other n windows =
    let created = insert id (or_new now (get windows id)) windows in
    ground (
      arith,
      get-insert created id other (add_now now n (or_new now (get windows id))),
      get-insert windows id other (or_new now (get windows id)),
    )

window-check_window :
    (redis : Option Bool) (now id other limit : ℕ) (windows : Map ℕ BucketedWindow)
    → window_of now other (check_window redis now id limit windows).0 ≡ window_of now other windows
unfolding check_window
window-check_window none now id other limit windows =
    ground (arith, get-insert windows id other (or_new now (get windows id)))
window-check_window (some b) now id other limit windows = refl

-- The two checks change no total: neither the requests nor the tokens of the last minute of any key.
pub totals-check :
    (redis : Option Bool) (now id other limit : ℕ) (l : KeyRateLimiter)
    → (rpm_total now other (check redis now id limit l).0 ≡ rpm_total now other l)
      × (tpm_total now other (check redis now id limit l).0 ≡ tpm_total now other l)
      × (rpm_total now other (check_tpm redis now id limit l).0 ≡ rpm_total now other l)
      × (tpm_total now other (check_tpm redis now id limit l).0 ≡ tpm_total now other l)
unfolding check check_tpm
totals-check redis now id other limit l = (
  ap (total_now now) (window-check_window redis now id other limit l.rpm_windows),
  refl,
  refl,
  ap (total_now now) (window-check_window redis now id other limit l.tpm_windows),
)

-- Recording a request or tokens on a key changes no total of another key.
pub totals-record :
    (now id other tokens : ℕ) (l : KeyRateLimiter)
    → id ≢ other
    → (rpm_total now other (record_request now id l) ≡ rpm_total now other l)
      × (tpm_total now other (record_request now id l) ≡ tpm_total now other l)
      × (rpm_total now other (record_tokens now id tokens l) ≡ rpm_total now other l)
      × (tpm_total now other (record_tokens now id tokens l) ≡ tpm_total now other l)
unfolding record_request record_tokens
totals-record now id other tokens l h = (
  ground (arith, window-add_to_window now id other 1 l.rpm_windows),
  refl,
  ground arith,
  ground (arith, window-add_to_window now id other tokens l.tpm_windows),
)

-- A request that a key's own window admits and that is then recorded leaves the key within its limit
-- of requests, and counts once at most. The key's window is ready.
pub check-record_within_limit :
    (now id limit : ℕ) (l : KeyRateLimiter)
    → IsReady now 1 (or_new now (get l.rpm_windows id))
    → (check none now id limit l).1 ≡ true
    → (rpm_total now id (record_request now id (check none now id limit l).0)
        ≤ rpm_total now id l + 1)
      × (rpm_total now id (record_request now id (check none now id limit l).0) ≤ limit)
unfolding check record_request check_window
check-record_within_limit now id limit l r h =
    let w = or_new now (get l.rpm_windows id) in
    let more = total-add_now now 1 1 w r (omega arith) in
    let windows = insert id w l.rpm_windows in
    let at = window-add_to_window now id id 1 windows in
    let same = get-insert_self l.rpm_windows id w in
    let under = ltb→lt (total_now now w) limit h in
    rw at (rw (beq_refl id, same) (omega (arith, more), omega (arith, more, under)))
