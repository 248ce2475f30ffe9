-- ===== src/Manager/Tests.antt =====
-- Runs of the manager's methods, and instances of its theorems.
use model_switch.Base.{
  ◌*◌, ◌^◌, ◌≤◌, ◌↔◌, min, ℕ, ◌+◌, ◌%◌, ◌≡◌, refl, arith, Str, Option, none, some, [], ◌∷◌, true,
  false, bytes, is_some, nat_beq, Bool-cases, inl, inr, some_inj, ap, ◌∙◌, length, get_elem?,
  eq_nat,
}
use model_switch.Base.Map
use model_switch.Base.Map.{Map}
use model_switch.Channel.{Channel, is_available, healthy, circuit_open, all_keys}
use model_switch.Manager.{
  ChannelManager, returned, panicked, backoff_minutes, update, get_credential, mark_circuit_open,
}
use model_switch.Manager.Rotation.{
  counter, after_calls, get_credential-round_robin, get_credential-update_panics,
}
use model_switch.Manager.Breaker.{fail, succeed, credential, recover, run, IsSound, run-IsSound}
use model_switch.Manager.Dispatch.{IsOpen, run-IsOpen}
use model_switch.Manager.Repeated.{base_of, fail_all, is_available-failures}
use model_switch.Samples.{steady, tripped, fractions}

abbrev only : Channel → ChannelManager
only c = record {
  channels = (7, c) ∷ [];
  circuit_breaker_minutes = 5;
  key_indices = (7, 2) ∷ [];
  disable_cooling = false;
}

abbrev nothing : Str → Option Str
nothing key_ref = none

-- The fourth failure of a channel with a base of two minutes.
fourth : backoff_minutes 2 4 ≡ 16
unfolding backoff_minutes
fourth = refl

known : (c : Channel) → Map.get (only c).channels 7 ≡ some c
unfolding Map.get
known c = refl

-- The counter stands at the last of three keys.
three_keys : length (all_keys steady) ≡ 3
unfolding all_keys
three_keys = refl

counter_two : counter (only steady) 7 ≡ 2
unfolding Map.get
counter_two = refl

get_credential-round_robin_example :
    (key : Str) × (get_elem?
        (all_keys steady)
        ((counter (only steady) 7 + 4) % length (all_keys steady))
      ≡ some key)
    × ((get_credential nothing 7 (after_calls nothing 7 steady 4 (only steady))).1
        ≡ returned (some key))
get_credential-round_robin_example =
    get_credential-round_robin nothing 7 steady 4 (only steady)
      (record { known = known steady; extra = refl }) (omega (arith, three_keys, counter_two))

-- The channel is edited to have two keys.
abbrev fewer : Channel
fewer = record steady { api_keys = bytes "sk-1" ∷ [] }

two_keys : length (all_keys fewer) ≡ 2
unfolding all_keys
two_keys = refl

get_credential-update_panics_example :
    (get_credential nothing 7 (update 7 fewer (only steady)).0).1 ≡ panicked
get_credential-update_panics_example =
    get_credential-update_panics nothing 7 fewer (only steady) (known steady) refl
      (omega (arith, two_keys, counter_two))

sound : IsSound (only steady).channels
unfolding Map.get
sound = record { at = λ id c e. record { expiry = λ o. found id c e o } }
  where
    found :
        (id : ℕ) (c : Channel)
        → Map.get (only steady).channels id ≡ some c
        → c.status ≡ circuit_open
        → is_some c.circuit_open_until ≡ true
    found id c e o = elim (Bool-cases (nat_beq 7 id)) [
      | inl h ↦
          let s : steady ≡ c = some_inj (rw h at e) in
          let closed : healthy ≡ circuit_open = ap (λ x. x.status) s ∙ o in cc
      | inr h ↦ cc (rw h at e)
    ]

run-IsSound_example :
    IsSound
      (run fractions nothing
        (fail 10 7 ∷ succeed 20 7 90 ∷ recover 30 7 ∷ [])
        (only steady)).channels
run-IsSound_example =
    run-IsSound fractions nothing (fail 10 7 ∷ succeed 20 7 90 ∷ recover 30 7 ∷ []) (only steady)
      (tt, (tt, (tt, tt))) sound

run-IsOpen_example :
    IsOpen
      (run fractions nothing
        (credential 7 ∷ succeed 70_000_000_000 7 90 ∷ [])
        (only tripped)).channels
      7
run-IsOpen_example =
    run-IsOpen fractions nothing 7 (credential 7 ∷ succeed 70_000_000_000 7 90 ∷ []) (only tripped)
      (tt, (tt, tt)) (record { channel = tripped; known = known tripped; open_status = refl })

-- The third failure in a row of a channel with a base of two minutes.
is_available-failures_example :
    (c : Channel) × (Map.get
        (mark_circuit_open 30 7 (fail_all 7 (10 ∷ 20 ∷ []) (only steady))).channels
        7
      ≡ some c)
    × (is_available 480_000_000_030 c ≡ true ↔ (
        30 + 60_000_000_000 * min (base_of (only steady) steady * 2 ^ (0 + 2)) 30
        ≤ 480_000_000_030))
is_available-failures_example =
    is_available-failures 7 (10 ∷ 20 ∷ []) 30 480_000_000_030 (only steady) steady (known steady)
      refl refl (omega arith) (omega arith)
