-- ===== src/Channel/Circuit.antt =====
-- The circuit breaker of one channel: when it is available, and how it recovers.
use model_switch.Base.{is_some, ℕ, ◌+◌, ◌≤◌, ◌≡◌, refl, true, arith, leb, if◌then◌else◌, ◌==◌}
use model_switch.Channel.{
  Channel, half_open, circuit_open, eq_status, minutes, is_available, mark_circuit_open,
  recover_if_expired,
}

-- A channel whose breaker is open says until when.
pub record IsWellFormed (c : Channel) : Type 0 where
  pub expiry : c.status ≡ circuit_open → is_some c.circuit_open_until ≡ true

-- An enabled channel whose breaker opened at `opened` for `mins` minutes is available at `now`
-- exactly when that time is over.
pub is_available-mark_circuit_open :
    (c : Channel) (opened mins now : ℕ)
    → c.enabled ≡ true
    → is_available now (mark_circuit_open opened mins c) ≡ leb (opened + minutes mins) now
unfolding is_available mark_circuit_open
is_available-mark_circuit_open c opened mins now h = ground arith

-- The router's copy of an available channel: recovering it keeps it available, and turns an open
-- breaker into a half-open one and changes no other status.
pub recover_if_expired-available :
    (c : Channel) (now : ℕ)
    → is_available now c ≡ true
    → (is_available now (recover_if_expired now c) ≡ true)
      × ((recover_if_expired now c).status
          ≡ (if c.status == circuit_open then half_open else c.status))
unfolding is_available recover_if_expired
recover_if_expired-available c now h = ground arith

-- Once an expiry is reached it stays reached: an available channel stays available.
pub is_available_mono :
    (c : Channel) (now later : ℕ)
    → now ≤ later
    → is_available now c ≡ true
    → is_available later c ≡ true
unfolding is_available
is_available_mono c now later h a = ground arith

pub mark_circuit_open-IsWellFormed :
    (c : Channel) (now mins : ℕ) → IsWellFormed (mark_circuit_open now mins c)
unfolding mark_circuit_open
mark_circuit_open-IsWellFormed c now mins = record { expiry = λ e. refl }
