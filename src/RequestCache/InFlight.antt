-- ===== src/RequestCache/InFlight.antt =====
-- `InFlightRequests` of src-tauri/src/proxy/cache.rs: the keys of the requests that are being served.
-- A waiter sleeps until `complete` wakes it, and takes no step before.
use model_switch.Base.{ℕ, Bool, true, false, not, List, ◌∷◌, nat_beq, if◌then◌else◌, filter, any}

abbrev pub InFlight : Type 0
InFlight = List ℕ

abbrev pub is_registered : ℕ → InFlight → Bool
is_registered key keys = any (λ k. nat_beq k key) keys

-- `true` for the first request of the key.
unfoldable pub register : ℕ → InFlight → InFlight × Bool
register key keys = if is_registered key keys then (keys, false) else (key ∷ keys, true)

unfoldable pub complete : ℕ → InFlight → InFlight
complete key keys = filter (λ k. not (nat_beq k key)) keys
